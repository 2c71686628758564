-- ===== src/Loop/Heartbeat.antt =====
-- main.cpp: a heartbeat and the statistics go out in the first round after each second.
use receiver.Prelude.{
  ℕ, ◌+◌, ◌-◌, ◌/◌, ◌<◌, ◌≤◌, ◌≡◌, ◌⊎◌, inl, inr, refl, ap, sym, ◌∙◌, arith, List, [], ◌∷◌, ◌++◌,
  u64, u32, Bool, true, false, Bool-cases, Option-cases, some, leb, if◌then◌else◌,
}
use mathlib.Core.List.{append_assoc}
use mathlib.Core.Option.{some-injective, some-ne-none}
use receiver.Envelope.{build_heartbeat, build_receiver_stats}
use receiver.Loop.{Platform, Receiver, on_batch, heartbeat_interval}
use receiver.Loop.Control.{Wakeup, on_clock, on_events, round, stats_of}
use receiver.Loop.LastBeat.{on_batch-last, on_raw-last}

module _ (sys : Platform) (receiver_id : ℕ) where
  open sys use {envelopes, stats_to_bytes, getpid}

  -- The two messages of a heartbeat.
  abbrev pub heartbeat_messages : Receiver → ℕ → List (List ℕ)
  heartbeat_messages r now =
      build_heartbeat envelopes (u32 getpid) (u64 (now / 1000000))
      ∷ build_receiver_stats envelopes (stats_to_bytes (stats_of sys receiver_id r))
      ∷ []

  on_events-last :
      (r r' : Receiver) (w : Wakeup)
      → on_events sys receiver_id r w ≡ some r'
      → r'.last_heartbeat ≡ r.last_heartbeat
  unfolding on_events
  on_events-last r r' w e = elim (Bool-cases w.uds_ready) [
    | inl ready ↦ on_raw-last sys receiver_id _ r' w.raw (rw ready at e) ∙ received w.udp_ready
    | inr idle ↦
        ap (λ (x : Receiver). x.last_heartbeat) (sym (some-injective _ r' (rw idle at e)))
        ∙ received w.udp_ready
  ]
    where
      received :
          (ready : Bool)
          → (if ready then on_batch sys receiver_id r w.batch else r).last_heartbeat
            ≡ r.last_heartbeat
      received true = on_batch-last sys receiver_id r w.batch
      received false = refl

  on_clock-cases :
      (r : Receiver) (now : ℕ)
      → r.last_heartbeat ≤ now
      → ((now < r.last_heartbeat + heartbeat_interval) × (on_clock sys receiver_id r now ≡ r))
        ⊎ ((r.last_heartbeat + heartbeat_interval ≤ now)
            × ((on_clock sys receiver_id r now).last_heartbeat ≡ now)
            × ((on_clock sys receiver_id r now).sent ≡ r.sent ++ heartbeat_messages r now))
  unfolding on_clock
  on_clock-cases r now h = elim (Bool-cases (leb heartbeat_interval (now - r.last_heartbeat))) [
    | inl due ↦ rw due (
        inr (
          ground arith,
          refl,
          append_assoc r.sent (build_heartbeat envelopes (u32 getpid) (u64 (now / 1000000)) ∷ [])
              (build_receiver_stats envelopes (stats_to_bytes (stats_of sys receiver_id r)) ∷ []),
        ))
    | inr early ↦ rw early (inl (ground arith, refl))
  ]

  -- If a round of the loop returns and its clock is not before the last heartbeat, then after it
  -- less than a second has passed since the last heartbeat: either that was so before the round and
  -- its end only handled frames and a message, or the round has sent a heartbeat and the statistics
  -- as its last two messages and taken its clock as the new last heartbeat.
  pub round-beats :
      (r r' : Receiver) (w : Wakeup)
      → round sys receiver_id r w ≡ some r'
      → r.last_heartbeat ≤ w.now
      → (w.now < r'.last_heartbeat + heartbeat_interval)
        × ((handled : Receiver) × (on_events sys receiver_id r w ≡ some handled)
            × (((w.now < r.last_heartbeat + heartbeat_interval) × (r' ≡ handled))
                ⊎ ((r.last_heartbeat + heartbeat_interval ≤ w.now)
                    × (r'.last_heartbeat ≡ w.now)
                    × (r'.sent ≡ handled.sent ++ heartbeat_messages handled w.now))))
  unfolding round
  round-beats r r' w e h = elim (Option-cases (on_events sys receiver_id r w)) [
    | inl spins ↦ absurd (some-ne-none r' (sym (rw (spins, round) at e)))
    | inr (handled, done) ↦
        let same : on_clock sys receiver_id handled w.now ≡ r' =
          some-injective _ r' (rw (done, round) at e) in
        let last = on_events-last r handled w done in
        by_clock handled done last same (on_clock-cases handled w.now (omega arith))
  ]
    where
      by_clock :
          (handled : Receiver)
          → on_events sys receiver_id r w ≡ some handled
          → handled.last_heartbeat ≡ r.last_heartbeat
          → on_clock sys receiver_id handled w.now ≡ r'
          → ((w.now < handled.last_heartbeat + heartbeat_interval)
              × (on_clock sys receiver_id handled w.now ≡ handled))
            ⊎ ((handled.last_heartbeat + heartbeat_interval ≤ w.now)
                × ((on_clock sys receiver_id handled w.now).last_heartbeat ≡ w.now)
                × ((on_clock sys receiver_id handled w.now).sent
                    ≡ handled.sent ++ heartbeat_messages handled w.now))
          → (w.now < r'.last_heartbeat + heartbeat_interval)
            × ((x : Receiver) × (on_events sys receiver_id r w ≡ some x)
                × (((w.now < r.last_heartbeat + heartbeat_interval) × (r' ≡ x))
                    ⊎ ((r.last_heartbeat + heartbeat_interval ≤ w.now)
                        × (r'.last_heartbeat ≡ w.now)
                        × (r'.sent ≡ x.sent ++ heartbeat_messages x w.now))))
      by_clock handled done last same (inl (soon, idle)) =
          let unchanged : r' ≡ handled = sym same ∙ idle in
          let kept : r'.last_heartbeat ≡ r.last_heartbeat =
            ap (λ (x : Receiver). x.last_heartbeat) unchanged ∙ last in
          (omega arith, (handled, done, inl (omega arith, unchanged)))
      by_clock handled done last same (inr (due, beat, told)) =
          let at_now : r'.last_heartbeat ≡ w.now =
            sym (ap (λ (x : Receiver). x.last_heartbeat) same) ∙ beat in
          (
            omega arith,
            (
              handled,
              done,
              inr (omega arith, at_now, sym (ap (λ (x : Receiver). x.sent) same) ∙ told),
            ),
          )
