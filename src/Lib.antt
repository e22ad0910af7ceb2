-- ===== src/Lib.antt =====
-- A model of langgraph_runtime_inmem, the in-memory runtime of a LangGraph server: tables of
-- threads and runs with their time to live, the queue of runs, authorization filters, and the
-- accounting of sizes.
--
-- The program keeps lists of dictionaries in a global store (`database.py`), on which the classes
-- of `ops.py` operate: `Threads` creates, reads, patches, deletes and sweeps threads, and `Runs`
-- hands out the pending runs to the workers. Deleting a thread takes its runs, its crons and its
-- checkpoints along. An operation first asks the authorization handler for filters, and matches a
-- thread's metadata against them. The checkpointer and the store count the bytes that they hold
-- (`size_tracking.py`, `checkpoint.py`).
--
-- Files, and the code that they model (all paths are below src/langgraph_runtime_inmem/):
--
-- - Prelude, Dict, Exec: Boolean tests, lists, integers, results with exceptions, dictionaries as
--   association lists, and a state monad with exceptions. A call that raises keeps the changes
--   that it made before.
-- - SizeTracking: `SizeTracker` of size_tracking.py. Each method holds the lock, and is one step.
-- - Checkpoint/SizeState: `_CheckpointSizeState` of checkpoint.py.
-- - Checkpoint/Saver: `InMemorySaver` of checkpoint.py: Chain and Prune are `prune`, Puts are
--   `put` and `put_writes`, Rebuild is `_rebuild_size_tracking`, and Calls are sequences of calls.
-- - Json, Filters: `is_jsonb_contained`, `_validate_filter_structure` and `_check_filter_match` of
--   ops.py.
-- - Ops/State: the rows of database.py and ops.py. `Checkpointer` is the interface of the
--   checkpointer, whose implementation is configured.
-- - Ops/Ttl: `_normalize_ttl_config`, `_effective_thread_ttl`, `_set_thread_ttl_override`,
--   `_thread_ttl_info` of ops.py.
-- - Ops/Threads: `Threads.put`, `get`, `patch`, `delete` and what they share, of ops.py.
-- - Ops/Sweep: `Threads.sweep_ttl` of ops.py.
-- - Ops/Runs: `Runs.next`, `set_status`, `delete` of ops.py.
-- - Ops/Status: `Threads.set_status` and `Threads.set_joint_status` of ops.py.
-- - Ops/Prune: `Threads.prune` and `Threads.copy` of ops.py.
-- - Ops/Rows, Ops/Creation: `Runs.put` of ops.py: the rows that it writes, and what it does with
--   them.
-- - Ops/Cancel: `Runs.cancel` of ops.py, without the messages that it sends.
-- - Ops/Search: `Runs.get` and `Runs.search` of ops.py.
-- - Store: `DiskBackedInMemStore` of store.py. Store/Base has what it inherits or takes from
--   outside, Store/Sweep is `sweep_ttl`, and Store/Calls are sequences of calls, with the function
--   from keys to values that the Store stands for.
-- - Stream: `StreamManager` of inmem_stream.py, with Stream/Replay and Stream/Delivery for what
--   readers are given.
-- - Tests: the theorems at concrete inputs.
--
-- Conventions: a UUID is a number, and so is a time, in microseconds from the least date, up to
-- the greatest one where a sweep adds to it; a number of minutes is given in the same unit, where
-- the code has a float. What the authorization handler answers, the clock and the checkpointer are
-- arguments. A key that a dictionary may lack is an Option. Nesting of filters is counted down
-- from 3, which is the source's own limit, the batches of a sweep have as many rounds as there are
-- entries, which is enough since a batch takes at least one, and the loop of `prune` over the
-- parents of a checkpoint has as many rounds as there are checkpoints, which is enough where a
-- parent's identifier is below its child's. The checkpointer's deletion of a thread may raise; its
-- other calls are taken to return. Awaits inside an operation are taken not to let other
-- operations in between.
--
-- Not modelled: what the parent of the store does in a batch beside the methods that are
-- overridden, the statistics of a sweep and of the queue, file persistence, HTTP routes, start-up,
-- the worker loop, the readers of streams, and the graphs that runs execute, which are I/O or
-- belong to other packages; assistants' own operations, crons, the background task of the store's
-- sweep.
pub mod Prelude
pub mod Dict
pub mod SizeTracking
pub mod Exec
pub mod Checkpoint
pub mod Json
pub mod Filters
pub mod Ops
pub mod Store
pub mod Stream
pub mod Tests
