-- ===== src/Lib.antt =====
-- The receiver of erasure-coded files: what it does with a datagram, from the wire prefix to the durable
-- block, and the shared memory that several receiver processes work on.
--
-- The program's parts and the files that model them (paths from the repository's root):
--   * Crc, src/common/crc.cpp: the CRC16 of the wire header and the two paths of CRC32C, over lists of
--     bytes. The CPU test and the two SSE4.2 intrinsics are the record Cpu.
--   * Wire, src/common/wire.cpp: validate_frame_prefix and build_frame. A buffer is the list of its
--     bytes and none is a null pointer; a span inside the datagram is its offset and length.
--   * Dispatch, src/receiver/frame_dispatcher.cpp: decode_frame over Wire; the generated protobuf class is
--     the record FrameClass.
--   * Shm, src/receiver/shm_manager.cpp and .hpp: the segment by region. Shm.Layout has the constants and
--     offsets, Shm.Memory the arena's bytes, Shm.Segment the structures, Shm.Arena the free list of slots,
--     Shm.Block a block's presence bits, links and decode latch, Shm.Session the session table, its lock
--     and the lookup of blocks, Shm.Race the interleavings of register_symbol, Shm.Stack those of
--     alloc_slot and free_slot, Shm.Opening those of open_session, Shm.Lifecycle init_header and the
--     checks on attaching. Shm.Ownership states which slot is whose.
--   * Codec, src/receiver/rs_codec.cpp: encode and decode over the record IsaL, which stands for ISA-L.
--   * Writer, src/receiver/block_writer.cpp: the mapped file, over the record Os of the system's answers.
--     The mapping's bytes and those that are durable are two functions from offsets.
--   * Pipeline, src/receiver/session_pipeline.cpp: handle_session_open, handle_data_packet and
--     purge_session over a Segment and the map of contexts. A packet looks its block up in Shm.Session,
--     takes a slot from Shm.Arena, registers its symbol in Shm.Block, and at the threshold decodes with
--     Codec, writes and flushes with Writer, and gives the block's slots back.
--     Pipeline.Trigger has the interleavings of several calls from the addition to seen to the end of the
--     decode. Pipeline.Serving is the invariant of a pipeline that alone works on its segment.
--   * Shm.Attach, src/receiver/shm_manager.cpp and src/receiver/main.cpp: create, open and close of the
--     segment, and open_or_create_shm, over the answers of the system (Answers), the object behind the
--     name, and the process's descriptors and mappings (World).
--   * Udp, src/receiver/udp_receiver.cpp, and Uds, src/receiver/uds_channel.cpp: the two sockets, over
--     records of the system's answers, with the open descriptors as a list.
--   * Startup, src/receiver/main.cpp: main before its loop: the arguments, the sockets, the hello, the
--     segment.
--   * Loop, src/receiver/main.cpp: the loop. Loop has the data plane, from a datagram to the pipeline and
--     the early-session buffer; Loop.Control the messages of the manager, the replay, the heartbeat, and
--     run over the results of poll; Loop.First what the loop begins with. A Receiver is the loop's
--     variables; sent is the list of what was given to UdsChannel::send, whose result the loop does not
--     read.
--   * Args, src/receiver/receiver_args.cpp: the command line; Envelope, src/receiver/rx_envelope.cpp: the
--     messages to and from the manager, over the record EnvelopeClass of the generated protobuf code.
--   * Prelude has the shared notation and lemmas; Examples has concrete inputs and the theorems at them.
--
-- Machine words: a uint8_t to uint64_t is a number with its wrap-around written out (u8, u16, u32, u64).
-- Compare-exchanges, on the free list, a presence word and the latch, are modelled as the run in which
-- no other process interferes, and as steps in any order, with sequentially consistent memory, in
-- Shm.Stack for the free list, in Shm.Race for a presence word and in Pipeline.Trigger for the latch.
-- The spin on the session lock returns none while another holds it, and is a step of its own in
-- Shm.Opening.
-- No fuel is used: every loop is bounded by a count or a list.
--
-- open_or_create_shm recurs on its hundred attempts, run on the list of the results of poll. Bytes that a
-- datagram has in the UDP pool reach the loop as a list (Udp.bytes_of). The percentage of used slots, a
-- double in the source, is the integer that its cast gives.
--
-- Not modelled: the interleavings of close_session, and of a lookup with it; poll and the clock, whose results are arguments; the other percentage; the errno values
-- beyond would-block; the log lines. A null header_ or arena_ does not occur: the segment is attached.
pub mod Prelude
pub mod Args
pub mod Envelope
pub mod Crc
pub mod Wire
pub mod Dispatch
pub mod Shm
pub mod Codec
pub mod Writer
pub mod Pipeline
pub mod Loop
pub mod Startup
pub mod Udp
pub mod Uds
pub mod Examples
