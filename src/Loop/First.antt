-- ===== src/Loop/First.antt =====
-- main.cpp: the loop, from the variables that it begins with on a segment that `create` has filled.
use receiver.Prelude.{ℕ, [], Option}
use receiver.Shm.Segment.{Segment}
use receiver.Loop.{Stats, Receiver}

abbrev pub no_stats : Stats
no_stats = record {
  pkts_ok = 0;
  crc_fail = 0;
  bad_magic = 0;
  unparsable = 0;
  duplicates = 0;
  no_session = 0;
  arena_exhausted = 0;
}

-- The loop's variables before its first round, at the time `now`.
unfoldable pub first_receiver : Segment → ℕ → Receiver
first_receiver shm now = record {
  pipeline = record { shm = shm; sessions = [] };
  early_sessions = [];
  stats = no_stats;
  last_heartbeat = now;
  sent = [];
}
