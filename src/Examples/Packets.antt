-- ===== src/Examples/Packets.antt =====
-- A packet that decodes a block of one data symbol, and what the theorems say of it.
use receiver.Prelude.{
  ℕ, ◌≡◌, true, List, [], ◌∷◌, some, refl, sym, subst, arith, find_key, bytes_eq, Bool-cases, inl,
  inr, ◌≤◌,
}
use mathlib.Core.Option.{none, some-injective, some-ne-none}
use receiver.Shm.Layout.{slot_size}
use receiver.Codec.{make_codec}
use receiver.Writer.{Os, BlockWriter}
use receiver.Pipeline.{purge_session, SessionOpen}
use receiver.Pipeline.{SessionContext, Pipeline, handle_data_packet}
use receiver.Pipeline.Packets.{IsPipeline, handle_data_packet-IsPipeline}
use receiver.Pipeline.Sessions.{purge_session-IsPipeline}
use receiver.Pipeline.Decoded.{Durable}
use receiver.Examples.Segments.{segment, session_id, segment-IsSegment}
use receiver.Examples.Codes.{repetition}

abbrev pub os : Os
os = record {
  open_file = λ _. some 3;
  fstat_size = λ _. some 2;
  mmap_ok = λ _ _. true;
  msync_ok = λ _ _. true;
  page_size = 4096;
}

abbrev pub writer : BlockWriter
writer = record {
  fd = some 3;
  mapped = true;
  file_size = 2;
  block_bytes = 1;
  view = λ _. 0;
  disk = λ _. 0;
}

abbrev pub context : SessionContext
context = record {
  session_idx = 0;
  k = 1;
  n = 2;
  symbol_bytes = 1;
  codec = make_codec repetition 1 2 1;
  writer = writer;
}

abbrev pub pipeline : Pipeline
pipeline = record { shm = segment; sessions = (session_id, context) ∷ [] }

pub only_context :
    (id : List ℕ) (ctx : SessionContext) → find_key id pipeline.sessions ≡ some ctx → context ≡ ctx
unfolding find_key
only_context id ctx found = elim (Bool-cases (bytes_eq session_id id)) [
  | inl own ↦ some-injective context ctx (rw own at found)
  | inr other ↦ absurd (some-ne-none ctx (sym (rw other at found)))
]

pub pipeline-IsPipeline : IsPipeline pipeline
pipeline-IsPipeline = record {
  free = 0 ∷ 1 ∷ [];
  valid = segment-IsSegment;
  agree = λ id ctx found.
      subst
        (λ (c : SessionContext).
          (c.n ≡ (segment.sessions c.session_idx).n) × (c.symbol_bytes ≤ slot_size))
        (only_context id ctx found) (refl, omega arith);
}

handle_data_packet-IsPipeline_example :
    IsPipeline (handle_data_packet repetition os pipeline session_id 1 1 (7 ∷ [])).2
handle_data_packet-IsPipeline_example =
    handle_data_packet-IsPipeline repetition os pipeline session_id 1 1 (7 ∷ []) pipeline-IsPipeline

purge_session-IsPipeline_example :
    (p' : Pipeline) × (purge_session pipeline session_id ≡ some p')
    × IsPipeline p'
    × (find_key session_id p'.sessions ≡ none)
purge_session-IsPipeline_example = purge_session-IsPipeline pipeline session_id pipeline-IsPipeline

-- A second session, of another id.
abbrev pub second : SessionOpen
second = record {
  session_id = 115 ∷ 50 ∷ [];
  k = 1;
  n = 2;
  block_bytes = 1;
  total_blocks = 2;
  file_size = 2;
  dest_path = 47 ∷ [];
}
