-- ===== src/Tests/Engines.antt =====
-- Examples for the engine with the pool of workers.
use gg.Prelude.{arith, ℕ, ◌≤◌, ◌≡◌, refl, true, List, [], ◌∷◌, ◌++◌, replicate, none}
use gg.Text.{Bytes, codes, ◌≈◌, substr}
use gg.Hash.{size}
use gg.Hash.Hex.{stoul_hex}
use gg.Dict.{TextSet, add_all, add, member}
use gg.Thunk.{Thunk, ThunkOutput}
use gg.Meow.{Message, message, put, execute}
use gg.MeowEngine.{
  Lambda, idle, MeowEngine, lambda_at, common_size, pick_lambda, force_thunk, connected,
}
use gg.MeowEngine.Choice.{has_id, pick_lambda_best}
use gg.MeowEngine.Invariant.{IsConsistent, started}
use gg.MeowEngine.Queue.{connect_all, newcomers, connect_all-serves}
use gg.MeowEngine.Pool.{busy_count, IsAscending, idle_ids}
use gg.MeowEngine.Steps.{stop, step, forced, connects, pool_reachable}
use package.gg.Tests.Sample.{ready}

-- Two objects, of 16 and of 2 bytes.
abbrev big : Bytes
big = codes "V" ++ (replicate 43 b'A' ++ codes "00000010")

abbrev small : Bytes
small = codes "V" ++ (replicate 43 b'B' ++ codes "00000002")

abbrev needy : Thunk
needy = record ready { values = (big, []) ∷ []; executables = (small, []) ∷ [] }

abbrev worker : ℕ → TextSet → Lambda
worker id objects = record {
  id = id;
  state = idle;
  objects = objects;
  executing_thunk = none;
  written = [];
}

abbrev two_workers : MeowEngine
two_workers = record {
  max_jobs = 4;
  running_jobs = 0;
  current_id = 2;
  lambdas = worker 0 (small ∷ []) ∷ worker 1 (big ∷ []) ∷ [];
  free_lambdas = 0 ∷ 1 ∷ [];
  thunks_queue = [];
  invocations = 0;
}

pick_lambda_best_example : (has_id 1 (0 ∷ 1 ∷ []) ≡ true) × (2 ≤ 16)
unfolding has_id pick_lambda lambda_at common_size add_all add member ◌≈◌ size substr stoul_hex
pick_lambda_best_example =
    pick_lambda_best needy two_workers 0 (1 ∷ []) 1 0 16 2 refl refl refl refl
      (worker 0 (small ∷ []), refl, refl) (worker 1 (big ∷ []), refl, refl)

abbrev put_message : Bytes → Message
put_message name = message put name

abbrev execute_message : Thunk → Message
execute_message t = message execute t.function.hash

abbrev response : Bytes → Bytes × List ThunkOutput
response payload = (payload, [])

abbrev waiting_engine : MeowEngine
waiting_engine = record (started 4) { running_jobs = 1; thunks_queue = needy ∷ []; invocations = 1 }

-- A thunk is forced, and the worker that connects then gets it.
pool_reachable_example : IsConsistent (connected put_message execute_message waiting_engine)
unfolding force_thunk
pool_reachable_example =
    pool_reachable put_message execute_message response 4
      (connected put_message execute_message waiting_engine)
      (step _ _ _ (forced needy (started 4) waiting_engine refl)
        (step _ _ _ (connects waiting_engine (omega arith)) (stop _)))

-- The second worker that connects has nothing to do.
connect_all-serves_example :
    ((connect_all put_message execute_message 2 waiting_engine).thunks_queue ≡ [])
    × ((connect_all put_message execute_message 2 waiting_engine).lambdas
        ≡ waiting_engine.lambdas
          ++ newcomers put_message execute_message waiting_engine.current_id 2
              waiting_engine.thunks_queue)
unfolding IsAscending idle_ids busy_count
connect_all-serves_example =
    connect_all-serves put_message execute_message 2 waiting_engine
      (record { ordered = omega arith; free = refl; jobs = refl }) (omega arith) (omega arith)
