-- ===== src/Tests/Jobs.antt =====
-- Examples for the loop over the jobs.
use gg.Prelude.{
  inr, ℕ, suc, ◌*◌, ◌≡◌, refl, true, false, List, [], ◌∷◌, map, Option, none, inl, ◌⊎◌, ok,
  if◌then◌else◌, arith, All, length,
}
use gg.Text.{Bytes, codes, ◌≈◌}
use gg.Dict.{remove, at, put, get, erase, contains, member}
use gg.Hash
use gg.Thunk.{Thunk}
use gg.Meow.{Message, message, OpCode, execute}
use gg.Meow
use gg.MeowEngine.{MeowEngine}
use gg.MeowEngine.Invariant.{started}
use gg.MeowEngine.AsEngine.{meow_ops, meow_ops-Counts}
use gg.Hash.{value}
use gg.Graph.{Graph, original_hash, force_thunk, update_hash, promote_all}
use gg.Reductor.{
  Reductor, JobInfo, EngineOps, executing, full_capacity, full_fallback_capacity,
  cannot_be_executed, place, finalize_execution, check_jobs, check_timeouts,
}
use gg.Reductor.Engines.{able, free, hand_out, HasRoom, place_lem, place-capacity}
use gg.Reductor.Timeouts.{factorial, duplicates, duplicates-factorial, check_jobs-settles}
use gg.Reductor.Finalize.{finalize_execution-settles}
use gg.Reductor.Reduce.{Turn, drain}
use gg.Reductor.Steps.{Tracked, Ends, Step-Tracked, checked}
use gg.Reductor.Drain.{Steps, Ended, drain-Tracked}
use package.gg.Tests.Sample.{digest, codec, ready, output, name_thunk, name_tool, name_top, graph}

-- An engine is the number of its jobs and of the jobs that it may have.
abbrev Pool : Type 0
Pool = ℕ × ℕ

abbrev pools : EngineOps Pool
pools = record {
  can_execute = λ e t. true;
  job_count = λ e. e.0;
  max_jobs = λ e. e.1;
  force = λ e t. (suc e.0, e.1);
}

-- A full engine, and two that are free.
abbrev three_pools : List Pool
three_pools = (1, 1) ∷ (0, 1) ∷ (0, 1) ∷ []

place_lem_example :
    ((place pools ready three_pools three_pools).0 ≡ (
      if free pools ready three_pools
      then executing
      else if able pools ready three_pools
      then full_capacity
      else if free pools ready three_pools
      then executing
      else if able pools ready three_pools
      then full_fallback_capacity
      else cannot_be_executed))
    × ((place pools ready three_pools three_pools).1 ≡ hand_out pools ready three_pools)
    × ((place pools ready three_pools three_pools).2
        ≡ (if able pools ready three_pools then three_pools else hand_out pools ready three_pools))
place_lem_example = place_lem pools ready three_pools three_pools

abbrev put_message : Bytes → Message
put_message name = message Meow.put name

abbrev execute_message : Thunk → Message
execute_message t = message execute t.function.hash

abbrev meow : EngineOps MeowEngine
meow = meow_ops put_message execute_message

place-capacity_example :
    All (HasRoom meow ready) (place meow ready (started 4 ∷ []) []).1
    × All (HasRoom meow ready) (place meow ready (started 4 ∷ []) []).2
unfolding meow_ops
place-capacity_example =
    place-capacity meow ready (λ e. (meow_ops-Counts put_message execute_message ready e).0)
      (λ e. (meow_ops-Counts put_message execute_message ready e).1) (started 4 ∷ []) []
      (omega arith, tt) tt

abbrev job : JobInfo
job = record { start = 5; timeout = 10; restarts = 0 }

check_jobs-settles_example :
    (check_jobs 20 (check_jobs 20 ((name_top, job) ∷ [])).1
      ≡ ([], (check_jobs 20 ((name_top, job) ∷ [])).1))
    × (map (λ (j : Bytes × JobInfo). j.0) (check_jobs 20 ((name_top, job) ∷ [])).1
        ≡ map (λ (j : Bytes × JobInfo). j.0) ((name_top, job) ∷ []))
check_jobs-settles_example = check_jobs-settles 20 ((name_top, job) ∷ []) (omega arith, tt)

abbrev times : List ℕ
times = 60 ∷ 40 ∷ 20 ∷ []

duplicates-factorial_example :
    (duplicates times job).timeout ≡ factorial (length times) * job.timeout
unfolding factorial
duplicates-factorial_example = duplicates-factorial times job refl (omega arith) (omega arith)

abbrev busy : Reductor
busy = record {
  target_hashes = codes "T0" ∷ [];
  remaining_targets = codes "T0" ∷ [];
  dep_graph = graph;
  job_queue = name_thunk ∷ [];
  running_jobs = (name_tool, job) ∷ [];
  finished_jobs = 0;
  default_timeout = 0;
  timeout_multiplier = 1;
  timeout_check_interval = 0;
  next_timeout_check = 0;
}

-- Its job is late at time 20.
abbrev waiting_long : Reductor
waiting_long = record busy { timeout_check_interval = 10; next_timeout_check = 12 }

-- The job has been handed to the engine.
abbrev handed_out : Turn Pool
handed_out = record {
  more = false;
  state = record busy {
    job_queue = [];
    running_jobs =
        (name_tool, job) ∷ (name_thunk, record { start = 9; timeout = 3; restarts = 0 }) ∷ [];
  };
  engines = (1, 1) ∷ [];
  fallbacks = [];
}

drain-busy : drain pools digest codec (λ h. none) 2 9 ((0, 1) ∷ []) [] busy ≡ ok handed_out
unfolding drain at get ◌≈◌ put
drain-busy = refl

drain-Tracked_example :
    (done : List (Option Bytes)) × Steps pools digest codec (λ h. none) busy done handed_out.state
    × (Tracked name_thunk handed_out.state ⊎ Ended name_thunk done)
drain-Tracked_example =
    drain-Tracked pools digest codec (λ h. none) 2 9 ((0, 1) ∷ []) [] busy handed_out name_thunk
      drain-busy (inl (unfold member ◌≈◌ in refl))

-- One thunk is left; its first name is "T0".
abbrev graph_last : Graph
graph_last = record {
  thunks = (name_top, ready) ∷ [];
  referencing = (name_top, []) ∷ [];
  value_dependencies = [];
  executable_dependencies = [];
  original_hashes = (name_top, codes "T0") ∷ [];
  updated_hashes = (codes "T0", name_top) ∷ [];
  blobs = [];
}

abbrev last : Reductor
last = record busy { dep_graph = graph_last; job_queue = []; running_jobs = (name_top, job) ∷ [] }

abbrev over : Reductor
over = record last {
  dep_graph = record graph_last { thunks = []; referencing = [] };
  running_jobs = [];
  remaining_targets = [];
  finished_jobs = 1;
}

last_job : finalize_execution digest codec 5 name_top (output ∷ []) last ≡ ok over
unfolding finalize_execution force_thunk contains get ◌≈◌ Hash.type update_hash at erase put
    promote_all remove original_hash
last_job = refl

finalize_execution-settles_example :
    (Hash.type output.hash ≡ ok value)
    × (codes "T0" ≡ original_hash over.dep_graph name_top)
    × (over.running_jobs ≡ erase last.running_jobs name_top)
finalize_execution-settles_example =
    finalize_execution-settles digest codec 5 name_top (codes "T0") output [] last over last_job
      (let e : member last.remaining_targets (codes "T0") ≡ true = (unfold member ◌≈◌ in refl) in e)
      (let e : member over.remaining_targets (codes "T0") ≡ false = (unfold member in refl) in e)

Step-Tracked_example : Tracked name_tool (check_timeouts 20 waiting_long) ⊎ Ends name_tool none
Step-Tracked_example =
    Step-Tracked pools digest codec (λ h. none) name_tool waiting_long none
      (check_timeouts 20 waiting_long) (checked 20 waiting_long)
      (inr (unfold contains get ◌≈◌ in refl))
