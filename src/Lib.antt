-- ===== src/Lib.antt =====
-- liveforge: the media core of the streaming server, and what makes it correct.
--
-- A publisher writes frames into a stream (core/stream.go). The stream keeps them in a ring buffer
-- with one cursor for each reader (pkg/util/ringbuffer.go), and keeps the latest groups of pictures
-- in a cache for those that join late. It counts its subscribers by protocol and by publisher
-- generation, and ends by its timers or by Close. A subscriber reads through a filter that drops frames
-- when it is too slow (core/slow_consumer.go). The hub keeps the streams by their keys
-- (core/stream_hub.go). The servers for RTP take their ports from a pool
-- (pkg/portalloc).
--
-- Which file models what:
-- - Base and its children: numbers, lists, integers, Go's maps (Base/Assoc).
-- - AvFrame, AvFrame/Codec: pkg/avframe. Config: the settings of config/config.go that are read.
-- - Ring: pkg/util/ringbuffer.go. `write`, `close`, `new_reader`, `try_read_result`,
--   `advance_to_live` and `lag` are Write, Close, NewReader, TryReadResult, AdvanceToLive and Lag.
--   Ring/History relates a ring to the list of all values ever written, Ring/Read reads from it.
-- - Gop: the GOP cache of core/stream.go; Gop/Trim is trimGOPCacheLocked. Gop/Valid and
--   Gop/Trim/Valid hold the invariant of its parallel slices, Gop/Span the arithmetic of times.
-- - Subscribers: the subscriber counts of core/stream.go.
-- - Stream: the state of a stream; Stream/Publish and Stream/Frames are its methods, Stream/Steps
--   all its runs, and Stream/Owner, Content, Life, Progress, Identity, Retired and Publication what holds
--   in them.
-- - Stream/Startup: the startup snapshot of core/stream.go. Stream/Startup/History is the list of all
--   frames that a run has written, Gop/Placed where the GOP cache stands in it, Ring/Quiet the reads
--   of a ring while nothing is written.
-- - Hub: core/stream_hub.go, the map of the streams and the order of their creation. Hub/Order relates
--   the two, Hub/Life is about all runs and about streams that end, Hub/Stable about StableStreams.
-- - SkipTracker: the skip tracker of core/stream.go. SlowConsumer: core/slow_consumer.go, where float64
--   is a type with the operations that the code uses, and the reads and their lags are arguments.
--   SlowConsumer/Policy is about one frame, SlowConsumer/Hysteresis about the history of the lag.
-- - Bytes: words of bytes, io.ReadFull and results with an error, for the protocols.
-- - Rtmp: module/rtmp. Rtmp/Chunk and its children Read and Write are chunk.go: `read_message` is
--   ReadMessage, `write_message` WriteMessage. Rtmp/Chunk/Headers and Turns are about one chunk,
--   Effects about the state that it leaves, RoundTrip about one message, Valid and Safety about any bytes.
--   Rtmp/Amf0 and Amf0/Decode are amf0.go; Amf0/KeyOrder, Pieces, Rounds and RoundTrip are about the
--   round trip, Amf0/Safety about any bytes. Rtmp/Handler is the loop of Handle in handler.go, Rtmp/Traffic what it gets from a sender that
--   interleaves messages.
-- - Flv: pkg/muxer/flv. Flv is types.go, Flv/Payload payload.go, Flv/Mux muxer.go and Flv/Demux
--   demuxer.go. Flv/Codes is about its codes, Flv/Bodies, Enhanced and Audio about tag bodies, Flv/Tags and
--   RoundTrip about one tag, Flv/File about a whole file.
-- - Rtp: pkg/rtp. Rtp/H264 is h264_depacketize.go; Rtp/H264/Fragments is about one packet of a fragmented
--   NAL unit, Rtp/H264/Reassembly about all of them, Rtp/H264/Aggregates about aggregates.
--   Rtp/H264/Frames is DepacketizeFrames of h264.go, its children Same and Announced are about the
--   parameter sets. The packets of the RTP library are records of what the code reads of them.
-- - PortAlloc: pkg/portalloc/portalloc.go, the pool of RTP and RTCP ports. PortAlloc/Scan is about its
--   loops, PortAlloc/Pool about Allocate and AllocatePair, PortAlloc/Bound about
--   AllocateBoundUDPPair, PortAlloc/Free about Free.
--
-- How the code is read. A method of the stream is one step. The stream has two locks: WriteFrame and
-- StartupSnapshot hold only writeMu, AddSubscriber, RemoveSubscriber and the callback of the idle timer
-- only mu, the methods of the publisher, UpdatePolicy and Close both. Two steps that hold different locks
-- may overlap in the code, which the steps do not show: they change different fields, but for the signal
-- startupStateChanged, whose race is not modelled. What another thread does between two steps of a
-- reader is an argument (`schedule`, a list of the values written in each round of the loop). The loop of
-- TryReadResult is a recursion on that list, and a value `none` would be a loop that does not end. The
-- list is finite and nothing is written in the round after it, so that a writer which laps the reader
-- again and again without end is outside the model. Timer callbacks are steps that may run at any time, also after the
-- timer was stopped, which is more than the runtime allows.
--
-- The port loops run on fuel, one round more than the highest port, and their theorems say that this is
-- enough. Whether the system lets a port be bound is an argument (`can_bind`).
--
-- Bytes are numbers below 256. What a connection still gives is a list of bytes, and every failure to read is
-- the end of it. The loops over it run on its length as fuel, since each round takes a byte, and the
-- theorems say that this is enough. Whether the handlers of RTMP commands and media fail is an argument.
--
-- Bounds. Cursors, generations and byte counts are int64 or uint64 in the code and count frames,
-- publishers and bytes in memory; they are numbers here, and 2 ^ 63 of them are taken to be out of
-- reach. Times are integers, and the arithmetic of dtsSpanMillis wraps as int64 does. Reader positions
-- are taken to be at least 0, as every cursor that the code hands out is. Limits that the code tests
-- by `> 0` are numbers, where 0 stands for every value that is not positive.
--
-- Not modelled: the blocking reads (ReadResultContext, WaitContext), the reporting statistics and the
-- bitrate window (what bitrateLimitExceeded answers is an argument), the transcoder, the
-- simulcast family and the feedback router, the wait for a snapshot, the log. Snapshots keep a pointer
-- to the boundary of a generation; that aliasing is not modelled, nor is the panic of Go where it compares two
-- values of a comparable type that hold values of incomparable ones. The senders of Rtmp/Traffic start each
-- message with a full header, as write_message does; compressed headers are in the reader only. Of RTMP the handshake and the handlers of
-- commands and media are not modelled. The rest of the server (other protocols and containers, codecs,
-- cluster, recording, management) is outside this library.
pub mod Base
pub mod PortAlloc
pub mod SkipTracker
pub mod SlowConsumer
pub mod Hub
pub mod Bytes
pub mod Rtmp
pub mod Flv
pub mod Rtp
pub mod Ring
pub mod AvFrame
pub mod Config
pub mod Gop
pub mod Subscribers
pub mod Stream
