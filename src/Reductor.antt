-- ===== src/Reductor.antt =====
-- src/execution/reductor.cc and reductor.hh: the loop that hands the thunks that are ready to the
-- execution engines and enters what they return into the graph. The engines are parameters behind
-- the interface of engine.hh, the cache is a function, and times are in milliseconds. The
-- estimated cost, a float that no decision reads, and the messages are left out.
use gg.Prelude.{
  ℕ, zero, suc, ◌+◌, ◌*◌, ◌%◌, ◌^◌, ◌-◌, ◌≡◌, Bool, true, false, ◌&&◌, ◌||◌, not, Option, none,
  some, List, [], ◌∷◌, ◌++◌, if◌then◌else◌, leb, ltb, ◌==◌, is_empty, Result, ok, err, out_of_fuel,
  runtime_error, out_of_range, ◌>>=◌,
}
use gg.Text.{Bytes}
use gg.Dict.{Dict, TextSet, get, put, erase, at, add, remove, member}
use gg.Hash
use gg.Hash.{ObjectType, value, thunk, Digest}
use gg.Thunk.{Thunk, ThunkOutput}
use gg.Thunk.Wire.{Codec}
use gg.Graph.{Graph, add_thunk, order_one, force_thunk, original_hash, updated_hash}
pub mod Engines
pub mod Timeouts
pub mod Finalize
pub mod Reduce
pub mod Steps
pub mod Drain

-- `timeout` holds the 64 bits of a signed number of milliseconds; `restarts` is a `uint8_t` that starts
-- at its largest value.
pub record JobInfo : Type 0 where
  pub start : ℕ
  pub timeout : ℕ
  pub restarts : ℕ

pub record Reductor : Type 0 where
  pub target_hashes : List Bytes
  pub remaining_targets : TextSet
  pub dep_graph : Graph
  pub job_queue : List Bytes
  pub running_jobs : Dict JobInfo
  pub finished_jobs : ℕ
  pub default_timeout : ℕ
  pub timeout_multiplier : ℕ
  pub timeout_check_interval : ℕ
  pub next_timeout_check : ℕ

pub data JobStatus : Type 0 where
  success invocation_failure execution_failure rate_limit fetch_dependencies_failure
        upload_output_failure operational_failure socket_failure child_process_failure :
      JobStatus

-- The virtual functions of an engine.
pub record EngineOps (E : Type 0) : Type 0 where
  pub can_execute : E → Thunk → Bool
  pub job_count : E → ℕ
  pub max_jobs : E → ℕ
  pub force : E → Thunk → E

pub data ExecState : Type 0 where
  cannot_be_executed full_capacity full_fallback_capacity executing : ExecState

module _ {E : Type 0} (ops : EngineOps E) where
  -- The loop over one list of engines; `full` is the state that an engine without room leaves.
  unfoldable pub try_engines : ExecState → Thunk → ExecState → List E → ExecState × List E
  try_engines full t state [] = (state, [])
  try_engines full t state (e ∷ es) =
      let refused = try_engines full t full es in
      let passed = try_engines full t state es in
      if ops.can_execute e t
      then (if leb (ops.max_jobs e) (ops.job_count e)
          then (refused.0, e ∷ refused.1)
          else (executing, ops.force e t ∷ es))
      else (passed.0, e ∷ passed.1)

  -- The fallback engines get their turn if no other engine can run the job at all.
  unfoldable pub try_fallback : Thunk → ExecState × List E → List E → ExecState × List E × List E
  unfolding try_engines
  try_fallback t (cannot_be_executed, es) fs =
      let tried = try_engines full_fallback_capacity t cannot_be_executed fs in
      (tried.0, es, tried.1)
  try_fallback t (full_capacity, es) fs = (full_capacity, es, fs)
  try_fallback t (full_fallback_capacity, es) fs = (full_fallback_capacity, es, fs)
  try_fallback t (executing, es) fs = (executing, es, fs)

  unfoldable pub place : Thunk → List E → List E → ExecState × List E × List E
  unfolding try_engines try_fallback
  place t es fs = try_fallback t (try_engines full_capacity t cannot_be_executed es) fs

-- The entry of a job that has been handed to an engine; a new entry is made where there is none.
unfoldable pub start_job : ℕ → ℕ → ℕ → ℕ → Option JobInfo → JobInfo
start_job now multiplier default_timeout wanted old =
    let restarts : ℕ = elim old [ none ↦ 255 | some info ↦ info.restarts ] in
    let timeout = (wanted * multiplier) % 2 ^ 64 in
    record {
      start = now;
      timeout = if timeout == 0 then default_timeout else timeout;
      restarts = (restarts + 1) % 256;
    }

-- The test of one job in the timeout check: any time is longer than a negative timeout.
unfoldable pub is_late : ℕ → JobInfo → Bool
is_late now job =
    not (job.timeout == 0) && (leb (2 ^ 63) job.timeout || ltb job.timeout (now - job.start))

-- The update of a late job. A sum that overflows, which C++ leaves undefined, wraps around.
unfoldable pub duplicate : ℕ → JobInfo → JobInfo
duplicate now job = record {
  start = now;
  timeout = (job.timeout + job.restarts * job.timeout) % 2 ^ 64;
  restarts = (job.restarts + 1) % 256;
}

-- The loop over the running jobs: the names of the late ones, and the jobs after it.
unfoldable pub check_jobs : ℕ → Dict JobInfo → List Bytes × Dict JobInfo
unfolding is_late duplicate
check_jobs now [] = ([], [])
check_jobs now ((name, job) ∷ jobs) =
    let rest = check_jobs now jobs in
    if is_late now job
    then (name ∷ rest.0, (name, duplicate now job) ∷ rest.1)
    else (rest.0, (name, job) ∷ rest.1)

unfoldable pub check_timeouts : ℕ → Reductor → Reductor
unfolding check_jobs
check_timeouts now r =
    if not (r.timeout_check_interval == 0) && leb r.next_timeout_check now
    then (let checked = check_jobs now r.running_jobs in
        record r {
          job_queue = r.job_queue ++ checked.0;
          running_jobs = checked.1;
          next_timeout_check = r.next_timeout_check + r.timeout_check_interval;
        })
    else r

-- The failure callback: all but a failed execution is tried again.
unfoldable pub job_failed : Bytes → JobStatus → Reductor → Result Reductor
job_failed old_hash execution_failure r = err (runtime_error "execution failed: ")
job_failed old_hash success r = err (runtime_error "execution failed for an unknown reason: ")
job_failed old_hash _ r = ok (record r { job_queue = r.job_queue ++ old_hash ∷ [] })

unfoldable pub is_finished : Reductor → Bool
is_finished r = is_empty r.remaining_targets

-- A target whose value is there is not waited for any longer.
unfoldable pub settle : ObjectType → Bytes → Reductor → Reductor
settle value old_hash r = record r {
  remaining_targets = remove r.remaining_targets (original_hash r.dep_graph old_hash);
}
settle thunk old_hash r = r

-- What becomes of the queue and the targets, given what `force_thunk` returns.
unfoldable pub forced : ObjectType → Bytes → Option TextSet → Reductor → Reductor
unfolding settle
forced type old_hash none r = r
forced type old_hash (some new_o1s) r =
    let settled = settle type old_hash (record r { job_queue = r.job_queue ++ new_o1s }) in
    record settled { finished_jobs = (settled.finished_jobs + 1) % 2 ^ 64 }

module _ (d : Digest) (c : Codec) where
  unfoldable pub finalize_execution : ℕ → Bytes → List ThunkOutput → Reductor → Result Reductor
  unfolding forced
  finalize_execution fuel old_hash [] r = err (out_of_range "at")
  finalize_execution fuel old_hash (first ∷ rest) r = do
    result ← force_thunk d c fuel old_hash first rest r.dep_graph
    let entered = record r { running_jobs = erase r.running_jobs old_hash; dep_graph = result.1 }
    elim result.0 [
      | none ↦ ok entered
      | some new_o1s ↦ do
        type ← Hash.type first.hash
        ok (forced type old_hash (some new_o1s) entered)
    ]

  -- The targets are loaded: the loop of the constructor.
  unfoldable pub load_targets : ℕ → List Bytes → Reductor → Result Reductor
  load_targets fuel [] r = ok r
  load_targets fuel (hash ∷ hashes) r = do
    entered ← add_thunk d c fuel hash r.dep_graph
    deps ← (if member r.remaining_targets entered.0 then ok [] else order_one fuel entered.1 hash)
    load_targets fuel hashes (record r {
      dep_graph = entered.1;
      remaining_targets = add r.remaining_targets entered.0;
      job_queue = r.job_queue ++ deps;
    })
