-- ===== src/Lib.antt =====
-- c-trpc: the core of the RPC library, from the bytes on a connection to the state of a call.
--
-- The parts, in the order in which the data flows through them:
--
-- - Base, Base.Lists, Base.Tests, Base.Bits, Base.Ring, Base.Writes: shared names; C arrays as lists over native
--   numbers, Boolean tests, bit operations, and rings in a list.
-- - Status: `enum tr_status` of include/tr/status.h and `tr_status_str` of src/status.c.
-- - Endian: src/endian.h. A read takes the buffer from its place on, a write names its offset.
-- - Crc: src/crc32c.c. `update_portable` is `tr_crc32c_update_portable`, Crc.Table its table, Crc.Sse
--   the routine over the processor's CRC32 instructions, which are a record of functions with the
--   law that the manual gives them, and Crc.Pieces a message that is summed in pieces.
-- - Wire: src/transport/protocol/wire.h and wire.c: `encode`, `decode` and `validate` are the
--   `tr_wire_header_` functions on the 40-byte header of a frame.
-- - Budget: src/memory_budget.h: a root budget and its children; `reserve` and `release` branch to
--   `reserve_child` and `release_child` for a budget with a parent.
-- - Pool, Pool.Create: src/execution/buffer.h and buffer.c: a pool of buffers that charges its
--   storage to a budget. A descriptor is named by its number, the free list is a list of numbers.
-- - Parser: src/transport/protocol/parser.h, parser.c and frame.c: the incremental parser of a
--   connection. It validates headers by Wire, sums payloads by Crc and takes buffers from Pool.
--   `produce` is `tr_parser_produce`; its branches are functions of their own; `receive` is one
--   round of the caller, which fills what `tr_parser_write_ptr` names and reports the length.
-- - Record: src/rpc/rpc_record.h and rpc_record.c: the 48-byte header of an RPC record, its
--   validation, encoding and incremental decoding.
-- - Record.Call: the state of a call in the same file: `init`, `apply` and `abort` are the
--   `tr_rpc_record_state_` functions; `run` applies records until one is not accepted, and
--   Record.Call.End tries records and aborts whatever the answers.
-- - Commands: src/execution/command_queue.h and command_queue.c: the ring of commands to a reactor
--   and its slot for STOP. `push_stop` is `tr_command_queue_push_wait_force`; Commands.Stop
--   follows the queue from STOP to the batch that takes it.
-- - Completions: src/execution/completion_queue.h and completion_queue.c: the ring by which workers hand
--   results back; `queue_open` and `queue_close` are `tr_completion_queue_open` and `_close`.
-- - Timer: src/execution/timer_queue.h and timer_queue.c: a binary heap of slots that the entries point
--   back into, and the free list of entries. `refill` and `place_timer` are parts of the removal and of
--   `tr_timer_queue_arm`; `take_due` and `rearm` are the two halves of a round of `run_due`. Timer.Swap,
--   Up, Down and Remove are about the heap, Timer.Store about writes to entries, Timer.Invariant,
--   Registry, Place, Arm, Release and Run about the operations.
-- - Deadline: src/execution/deadline_internal.h and deadline.c: absolute deadlines, the time to wait,
--   and the loop around `poll`.
-- - Refcount: src/refcount.h: the compare-and-swap loops as steps of threads in any order.
-- - Route: src/group/pipeline_route_internal.h and pipeline_route.c: the 48-byte preface that routes a
--   connection to a member of a pipeline, and its incremental parser, `feed`.
-- - Control: src/group/pipeline_control_wire_internal.h and pipeline_control_wire.c: the 48-byte control
--   messages of a pipeline; `data_route` gives the preface of Route that an offer names.
-- - V2, Metadata: src/rpc/rpc_v2.c: the limits derived from those of the facade, and the metadata of a
--   call with its view. V2.Bounds and Metadata.Entries, RoundTrip, Distinct and Ends are about them.
-- - Tests: runs on concrete inputs, and the theorems applied to them.
--
-- Conventions. Numbers are unbounded; a machine word's wrap-around is written out, and the widths of
-- fields are hypotheses (IsHeader, IsRecordHeader). `size_t` has 64 bits. Pointer arguments are not
-- NULL: the checks that answer `TR_ERR_INVALID` for NULL are left out, except where NULL means
-- something, which is an `Option`. A function that writes through a pointer returns the new value.
-- A call under a mutex is one step. Refcount has a step for every compare-and-swap; in Budget a loop over
-- it is one step, as it is without contention. The allocators, the mutex and condition constructors and the size of a descriptor are
-- parameters (`realloc`, Environment, Resources). The union of a command is a number that the queue
-- copies. What the clock, `poll` and the callbacks of timers answer is given. Loops recur on their data,
-- or on the room of their output. Fuel has four loops: the way up in the timer heap starts with
-- the place and the way down with the size, which bound the rounds of heaps of fewer than 2^31
-- timers (from there on the 32-bit places of children wrap, the way down need not end, and the fuel cuts it); the readers of metadata and the
-- search for a repeated key start with the number of bytes and one more, and an entry takes at least three. Crc.crc32c is stated with the portable routine; Crc.Sse relates the other to it.
--
-- Not modelled: the contention of the budget's counters, the release callback of buffers outside a
-- pool, the task executor, the reactor, channels and streams, message storage
-- and compression, the record stream and router, endpoints and clients, the state machine of pipeline control, the facades, and the
-- sockets, TLS and connectors, which are system calls.
pub mod Base
pub mod Status
pub mod Endian
pub mod Crc
pub mod Wire
pub mod Budget
pub mod Pool
pub mod Parser
pub mod Record
pub mod Commands
pub mod Route
pub mod Timer
pub mod Control
pub mod V2
pub mod Metadata
pub mod Deadline
pub mod Refcount
pub mod Completions
pub mod Tests
