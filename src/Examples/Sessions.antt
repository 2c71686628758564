-- ===== src/Examples/Sessions.antt =====
-- A session opened beside the one that is open, and the one that is open closed with a symbol in it.
use receiver.Prelude.{ℕ, ◌≡◌, ◌≢◌, ◌⊎◌, true, false, List, [], ◌∷◌, Option, some, none, arith}
use receiver.Shm.Layout.{session_state_empty, session_state_open}
use receiver.Shm.Segment.{Segment}
use receiver.Shm.Session.{SessionParams, open_session, close_session, find_session, block_entry}
use receiver.Shm.Ownership.Defs.{IsSegment}
use receiver.Shm.Ownership.Open.{open_session-IsSegment, IsSessionOf, IsNewSession}
use receiver.Shm.Ownership.Purge.{close_session-IsSegment}
use receiver.Shm.Layout.{compute_total_size}
use receiver.Shm.Lifecycle.{init_header, map_and_validate}
use receiver.Shm.Lifecycle.Fresh.{init_header-IsSegment, slots_from}
use receiver.Examples.Segments.{segment, session_id, segment-IsSegment}
use receiver.Examples.Shared.{one_symbol, one_symbol-IsSegment}

abbrev params : SessionParams
params = record {
  session_id = 115 ∷ 50 ∷ [];
  k = 2;
  n = 3;
  symbol_bytes = 4;
  total_blocks = 5;
  file_size = 40;
  dest_path = 47 ∷ [];
}

open_session-IsSegment_example :
    (result : Option ℕ) × (s' : Segment) × (open_session segment params ≡ some (result, s'))
    × IsSegment s' (0 ∷ 1 ∷ [])
    × ((i : ℕ)
        → result ≡ some i
        → IsSessionOf s' (115 ∷ 50 ∷ []) i
          × ((find_session segment (115 ∷ 50 ∷ []) ≡ some i)
              ⊎ ((find_session segment (115 ∷ 50 ∷ []) ≡ none) × IsNewSession s' params i)))
    × ((j : ℕ)
        → (segment.sessions j).state ≡ session_state_open
        → s'.sessions j ≡ segment.sessions j)
open_session-IsSegment_example =
    open_session-IsSegment segment params (0 ∷ 1 ∷ []) segment-IsSegment

close_session-IsSegment_example :
    (s' : Segment) × (free' : List ℕ) × IsSegment s' free'
    × (((find_session one_symbol session_id ≡ none)
          × (close_session one_symbol (some session_id) ≡ some (false, s'))
          × (s'.sessions ≡ one_symbol.sessions)
          × (s'.blocks ≡ one_symbol.blocks)
          × (free' ≡ 1 ∷ []))
        ⊎ ((i : ℕ) × (find_session one_symbol session_id ≡ some i)
            × (close_session one_symbol (some session_id) ≡ some (true, s'))
            × (s'.sessions i ≡ record (one_symbol.sessions i) { state = session_state_empty })
            × ((j : ℕ) → i ≢ j → s'.sessions j ≡ one_symbol.sessions j)
            × ((j b a : ℕ)
                → i ≢ j
                → block_entry one_symbol j b ≡ some a
                → s'.blocks a ≡ one_symbol.blocks a)))
close_session-IsSegment_example =
    close_session-IsSegment one_symbol session_id (1 ∷ []) one_symbol-IsSegment

-- A segment of four slots.
init_header-IsSegment_example :
    IsSegment (init_header 1 [] 6144) (slots_from 0 4)
    × (map_and_validate (init_header 1 [] 6144) (compute_total_size 6144) ≡ true)
init_header-IsSegment_example =
    init_header-IsSegment 1 [] 6144 (omega arith) (omega arith) (omega arith)
