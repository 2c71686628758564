-- ===== src/Loop/Run.antt =====
-- main.cpp: the control plane, and so every run of the loop, keeps the loop's invariant.
use receiver.Prelude.{ℕ, ◌≤◌, ◌≡◌, List, [], ◌∷◌, length, Option, some, none}
use receiver.Envelope.{RxMessage}
use receiver.Pipeline.{Pipeline}
use receiver.Pipeline.Serving.{IsAgreed}
use receiver.Loop.{Platform, Receiver}
use receiver.Loop.Invariant.{IsReceiver}
use receiver.Loop.Control.{Wakeup}

module _ (n_of : List ℕ → ℕ) (sys : Platform) where
  open sys use {envelopes, session_open_of, purged_id_of}

  -- The manager opens a session with its number of symbols, which fit a slot, and names sessions by ids
  -- that the table keeps whole.
  abbrev pub IsSoundMessage : Option RxMessage → Type 0
  IsSoundMessage (some (RxMessage.session_open m)) = IsAgreed n_of (session_open_of m)
  IsSoundMessage (some (RxMessage.purge_session m)) = length (purged_id_of m) ≤ 63
  IsSoundMessage _ = Unit {0}

  abbrev pub IsSound : Wakeup → Type 0
  IsSound w =
      (raw : List ℕ) (envelope : Option RxMessage)
      → w.raw ≡ some raw
      → envelopes.parse_from_string raw ≡ some envelope
      → IsSoundMessage envelope

  abbrev pub AreSound : List (Option Wakeup) → Type 0
  AreSound [] = Unit {0}
  AreSound (none ∷ ws) = AreSound ws
  AreSound (some w ∷ ws) = IsSound w × AreSound ws

module _ (n_of : List ℕ → ℕ) (sys : Platform) (receiver_id : ℕ) where
  open sys use {lib, os, envelopes, session_open_of, purged_id_of}

  -- A handler returns, and what it returns satisfies the invariant.
  abbrev pub Keeps : Option Receiver → Type 0
  Keeps result = (r' : Receiver) × (result ≡ some r') × IsReceiver n_of r'
