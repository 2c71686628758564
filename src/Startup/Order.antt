-- ===== src/Startup/Order.antt =====
-- main.cpp: the segment is touched only by a process that has said hello, and the loop is entered attached.
use receiver.Prelude.{
  ℕ, suc, ◌≤◌, ◌≡◌, ◌⊎◌, inl, inr, true, false, refl, ap, ◌∙◌, subst, List, ◌∷◌, some, none,
  Bool-cases, length, u32,
}
use receiver.Args.{ReceiverArgs, ArgsError, parse_receiver_args}
use receiver.Envelope.{build_receiver_hello}
use receiver.Uds
use receiver.Uds.Held.{connect-IsHeld, send-whole}
use receiver.Udp
use receiver.Udp.Pool.{IsPool, bind-IsHeld}
use receiver.Shm.Attach.{World, open_or_create_shm, detached}
use receiver.Shm.Attach.Held.{IsAttached, IsDetached, open_or_create_shm-IsHeld}
use receiver.Startup.{
  Startup, Started, attach_segment, say_hello, connect_manager, start_with, start, any_address,
}

-- All of the hello was written.
abbrev pub SaidHello : Startup → ReceiverArgs → Type 0
SaidHello sys args =
    let hello =
      build_receiver_hello sys.envelopes args.receiver_id (u32 sys.getpid) args.listen_port in
    sys.uds.send_written hello ≡ some (length hello)

-- What holds where the process gave up, or entered the loop.
abbrev pub Outcome : Startup → World → ReceiverArgs → Started → Type 0
Outcome sys w args (Started.bad_arguments w') = w' ≡ w
Outcome sys w args (Started.no_udp_socket w') =
    (w'.object ≡ w.object) × (w'.descriptors ≡ w.descriptors)
Outcome sys w args (Started.no_uds_connection w') = w'.object ≡ w.object
Outcome sys w args (Started.hello_not_sent w') = w'.object ≡ w.object
Outcome sys w args (Started.no_segment w') = SaidHello sys args
Outcome sys w args (Started.ready args' udp uds shm w') =
    (args' ≡ args)
    × IsPool udp
    × SaidHello sys args
    × ((rest : List ℕ) × (f g : ℕ) × (udp.fd ≡ some f)
        × (uds.fd ≡ some g)
        × (rest ≡ g ∷ f ∷ w.descriptors)
        × IsAttached rest w.mappings shm w')

module _ (sys : Startup) (args : ReceiverArgs) (udp : Udp.UdpReceiver) (uds : Uds.UdsChannel) where
  attach_segment-Outcome :
      (w0 w : World) (f g : ℕ)
      → IsPool udp
      → SaidHello sys args
      → udp.fd ≡ some f
      → uds.fd ≡ some g
      → w.descriptors ≡ g ∷ f ∷ w0.descriptors
      → w.mappings ≡ w0.mappings
      → Outcome sys w0 args (attach_segment sys args udp uds w)
  unfolding attach_segment
  attach_segment-Outcome w0 w f g pool hello has_f has_g d m = by_result (
      open_or_create_shm-IsHeld w.descriptors w.mappings sys.attempts detached w
        (refl, refl, refl, refl, refl))
    where
      by_result :
          (let (done, m', w') = open_or_create_shm sys.attempts detached w in
            ((done ≡ true) × IsAttached w.descriptors w.mappings m' w')
            ⊎ ((done ≡ false) × IsDetached w.descriptors w.mappings m' w'))
          → Outcome sys w0 args (attach_segment sys args udp uds w)
      by_result (inr (failed, free)) = rw failed hello
      by_result (inl (done, held)) = rw done (
        refl,
        pool,
        hello,
        (
          w.descriptors,
          f,
          g,
          has_f,
          has_g,
          d,
          subst
              (λ (k : ℕ).
                IsAttached w.descriptors k (open_or_create_shm sys.attempts detached w).1
                  (open_or_create_shm sys.attempts detached w).2)
              m held,
        ),
      )

  say_hello-Outcome :
      (w0 w : World) (f g : ℕ)
      → IsPool udp
      → udp.fd ≡ some f
      → uds.fd ≡ some g
      → w.descriptors ≡ g ∷ f ∷ w0.descriptors
      → w.mappings ≡ w0.mappings
      → w.object ≡ w0.object
      → Outcome sys w0 args (say_hello sys args udp uds w)
  unfolding say_hello
  say_hello-Outcome w0 w f g pool has_f has_g d m o =
      elim (Bool-cases (
        Uds.send sys.uds uds (
          build_receiver_hello sys.envelopes args.receiver_id (u32 sys.getpid) args.listen_port))) [
            | inr failed ↦ rw failed o
            | inl sent ↦ rw sent (
                attach_segment-Outcome w0 w f g pool (send-whole sys.uds uds _ sent).1 has_f has_g d
                  m)
          ]

module _ (sys : Startup) (args : ReceiverArgs) where
  connect_manager-Outcome :
      (udp : Udp.UdpReceiver) (w0 w : World) (f : ℕ)
      → IsPool udp
      → udp.fd ≡ some f
      → w.descriptors ≡ f ∷ w0.descriptors
      → w.mappings ≡ w0.mappings
      → w.object ≡ w0.object
      → Outcome sys w0 args (connect_manager sys args udp w)
  unfolding connect_manager
  connect_manager-Outcome udp w0 w f pool has_f d m o = by_result (
      connect-IsHeld w.descriptors sys.uds (record { fd = none }, w.descriptors) args.socket_path
        (inl (refl, refl)))
    where
      by_result :
          (let (done, u, fds) =
              Uds.connect sys.uds (record { fd = none }, w.descriptors) args.socket_path in
            ((done ≡ true)
              × (suc (length args.socket_path) ≤ Uds.sizeof_sun_path)
              × (sys.uds.connect_ok args.socket_path ≡ true)
              × ((fd : ℕ) × (sys.uds.socket_fd ≡ some fd)
                  × (u.fd ≡ some fd)
                  × (fds ≡ fd ∷ w.descriptors)))
            ⊎ ((done ≡ false) × (u.fd ≡ none) × (fds ≡ w.descriptors)))
          → Outcome sys w0 args (connect_manager sys args udp w)
      by_result (inr (failed, _, _)) = rw failed o
      by_result (inl (done, _, _, (g, _, has_g, held))) = rw done (
          say_hello-Outcome sys args udp _ w0 _ f g pool has_f has_g
            (held ∙ ap (λ (x : List ℕ). g ∷ x) d) m o)

  start_with-Outcome : (w : World) → Outcome sys w args (start_with sys args w)
  unfolding start_with
  start_with-Outcome w = by_result (
      bind-IsHeld w.descriptors sys.udp (Udp.closed, w.descriptors) args.listen_port any_address
        (inl (refl, refl)))
    where
      by_result :
          (let (done, u, fds) =
              Udp.bind sys.udp (Udp.closed, w.descriptors) args.listen_port any_address in
            ((done ≡ true)
              × ((fd : ℕ) × (sys.udp.socket_fd ≡ some fd)
                  × (u.fd ≡ some fd)
                  × (fds ≡ fd ∷ w.descriptors))
              × IsPool u)
            ⊎ ((done ≡ false) × (u.fd ≡ none) × (fds ≡ w.descriptors)))
          → Outcome sys w args (start_with sys args w)
      by_result (inr (failed, _, same)) = rw failed (refl, same)
      by_result (inl (done, (f, _, has_f, held), pool)) =
          rw done (connect_manager-Outcome _ w _ f pool has_f held refl refl)

-- Either the arguments are refused and the process stops with nothing changed; or they are
-- accepted, and a process that stops before its hello was written leaves the shared object alone,
-- one whose UDP socket fails has given its descriptors back, and one that goes on has written the
-- whole hello; it enters the loop only with a bound pool of buffers and an attached segment that
-- passes the checks, holding one descriptor each for socket, channel and segment and one more
-- mapping.
pub start-Outcome :
    (sys : Startup) (argv : List (List ℕ)) (w : World)
    → ((error : ArgsError) × (parse_receiver_args argv ≡ inl error)
        × (start sys argv w ≡ Started.bad_arguments w))
      ⊎ ((args : ReceiverArgs) × (parse_receiver_args argv ≡ inr args)
          × Outcome sys w args (start sys argv w))
unfolding start
start-Outcome sys argv w = by_parse (parse_receiver_args argv) refl
  where
    by_parse :
        (r : ArgsError ⊎ ReceiverArgs)
        → parse_receiver_args argv ≡ r
        → ((error : ArgsError) × (parse_receiver_args argv ≡ inl error)
            × (start sys argv w ≡ Started.bad_arguments w))
          ⊎ ((args : ReceiverArgs) × (parse_receiver_args argv ≡ inr args)
              × Outcome sys w args (start sys argv w))
    by_parse (inl error) e = inl (error, e, rw (e, start) refl)
    by_parse (inr args) e = inr (args, e, rw (e, start) (start_with-Outcome sys args w))
