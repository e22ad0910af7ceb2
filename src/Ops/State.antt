-- ===== src/Ops/State.antt =====
-- database.py and ops.py: the tables of the in-memory database that the operations on threads and
-- runs work on. A UUID is a number: its text form orders as the number does, and `str` of it is the
-- number again. A time is a number of microseconds, in UTC, and so is a number of minutes. A key that
-- a dictionary may lack is an `Option`.
pub mod Tables
use langgraph_runtime_inmem.Prelude.{
  ℕ, Bool, true, false, ◌&&◌, Option, none, some, List, [], ◌∷◌, String, ◌==◌, nat_eq,
  if◌then◌else◌, first, any, keep, Result,
}
use langgraph_runtime_inmem.Dict.{Dict}
use langgraph_runtime_inmem.Json.{Value, Fields}

pub data ThreadStatus : Type 0 where
  idle busy interrupted error : ThreadStatus

pub record Thread : Type 0 where
  pub thread_id : ℕ
  pub created_at : ℕ
  pub updated_at : ℕ
  pub state_updated_at : Option ℕ
  pub metadata : Fields
  pub status : ThreadStatus
  pub config : Fields
  pub values : Option Value
  pub interrupts : Option Fields
  pub failure : Option Value

pub data RunStatus : Type 0 where
  pending running success error timeout interrupted : RunStatus

pub data Multitask : Type 0 where
  reject rolls_back interrupt enqueue : Multitask

pub record Run : Type 0 where
  pub run_id : ℕ
  pub thread_id : ℕ
  pub assistant_id : ℕ
  pub metadata : Fields
  pub status : RunStatus
  pub created_at : Option ℕ
  pub updated_at : ℕ
  pub kwargs : Fields
  pub multitask_strategy : Multitask

-- An assistant; its description and its times are not read.
pub record Assistant : Type 0 where
  pub assistant_id : ℕ
  pub graph_id : String
  pub config : Fields
  pub context : Fields
  pub metadata : Fields

pub record Cron : Type 0 where
  pub cron_id : ℕ
  pub thread_id : Option ℕ
  pub assistant_id : ℕ

pub data Strategy : Type 0 where
  delete keep_latest : Strategy

-- `ThreadTTLState`, the per-thread override and the marker of the last sweep.
pub record TtlState : Type 0 where
  pub strategy : Option Strategy
  pub ttl_minutes : Option ℕ
  pub last_swept_updated_at : Option ℕ

abbrev pub no_ttl_state : TtlState
no_ttl_state = record { strategy = none; ttl_minutes = none; last_swept_updated_at = none }

-- `S` is the state of the checkpointer, which the database operations reach beside the tables.
pub record Db (S : Type 0) : Type 0 where
  pub assistants : List Assistant
  pub threads : List Thread
  pub runs : List Run
  pub crons : List Cron
  pub thread_ttls : Dict ℕ TtlState
  pub retry_counter : Dict ℕ ℕ
  pub saver : S

-- What the operations call of a checkpointer, the built-in one or a custom one. The deletion of a
-- thread may raise, with what it leaves; the other calls are taken to return.
pub record Checkpointer (S : Type 0) : Type 0 where
  pub delete_thread : ℕ → S → Result (Unit {0}) × S
  pub delete_for_run : ℕ → ℕ → S → S
  pub prune_latest : List ℕ → S → S
  pub copy_thread : ℕ → ℕ → S → S
  pub total_bytes : S → ℕ
  pub thread_bytes : S → ℕ → ℕ
  pub thread_checkpoints : S → ℕ → ℕ

-- `run["status"] in ("pending", "running")`
abbrev pub is_active : RunStatus → Bool
is_active RunStatus.pending = true
is_active RunStatus.running = true
is_active _ = false

abbrev pub is_running : RunStatus → Bool
is_running RunStatus.running = true
is_running _ = false

abbrev pub is_pending : RunStatus → Bool
is_pending RunStatus.pending = true
is_pending _ = false

-- `next((t for t in threads if t["thread_id"] == thread_id), None)`
unfoldable pub find_thread : ℕ → List Thread → Option Thread
find_thread id [] = none
find_thread id (t ∷ ts) = if t.thread_id == id then some t else find_thread id ts

-- Writing to the thread that `find_thread` finds.
unfoldable pub update_thread : ℕ → (Thread → Thread) → List Thread → List Thread
update_thread id f [] = []
update_thread id f (t ∷ ts) = if t.thread_id == id then f t ∷ ts else t ∷ update_thread id f ts

-- `threads.pop(idx)` at the index of the thread that `find_thread` finds.
unfoldable pub pop_thread : ℕ → List Thread → List Thread
pop_thread id [] = []
pop_thread id (t ∷ ts) = if t.thread_id == id then ts else t ∷ pop_thread id ts

-- A thread with a pending or running run.
unfoldable pub has_active_runs : ℕ → List Run → Bool
unfolding any
has_active_runs id runs = any (λ r. r.thread_id == id && is_active r.status) runs

unfoldable pub has_running_run : ℕ → List Run → Bool
unfolding any
has_running_run id runs = any (λ r. r.thread_id == id && is_running r.status) runs
