-- ===== src/MeowEngine.antt =====
-- src/execution/engine_meow.hh and engine_meow.cc: the engine that keeps a pool of workers, each with
-- a connection, and hands a thunk to the idle worker that has most of its objects. What a message
-- holds is encoded elsewhere: the encoders and the decoder are parameters. What is written to a
-- connection is kept with the worker; the cache entries and the blobs that a message brings are not.
pub mod Pool
pub mod Choice
pub mod Invariant
pub mod Steps
pub mod Queue
pub mod AsEngine
use gg.Prelude.{
  ℕ, zero, suc, ◌+◌, ◌-◌, ◌*◌, ◌%◌, ◌^◌, ◌≡◌, Bool, true, false, ◌&&◌, ◌||◌, not, Option, none,
  some, List, [], ◌∷◌, ◌++◌, map, take, ltb, leb, ◌==◌, if◌then◌else◌, is_empty, length, Result, ok,
  err, runtime_error, out_of_range, assert_failed, ◌>>=◌,
}
use gg.Text.{Bytes}
use gg.Dict.{TextSet, member, add_all}
use gg.DataList.{DataItem, DataList}
use gg.Hash
use gg.Thunk.{Thunk, ThunkOutput}
use gg.Thunk.Queries.{infiles_size}
use gg.Meow.{Message}

pub data LambdaState : Type 0 where
  idle busy : LambdaState

-- `written` is what has been put on the connection.
pub record Lambda : Type 0 where
  pub id : ℕ
  pub state : LambdaState
  pub objects : TextSet
  pub executing_thunk : Option Thunk
  pub written : List Message

-- `lambdas_` and `free_lambdas_` are ordered by their ids; `invocations` counts the workers that
-- have been asked for.
pub record MeowEngine : Type 0 where
  pub max_jobs : ℕ
  pub running_jobs : ℕ
  pub current_id : ℕ
  pub lambdas : List Lambda
  pub free_lambdas : List ℕ
  pub thunks_queue : List Thunk
  pub invocations : ℕ

pub data SelectionStrategy : Type 0 where
  first_free random most_objects largest_object lru : SelectionStrategy

-- `lambdas_.at( id )`
unfoldable pub lambda_at : ℕ → List Lambda → Result Lambda
lambda_at id [] = err (out_of_range "at")
lambda_at id (l ∷ ls) = let rest = lambda_at id ls in if l.id == id then ok l else rest

-- The map with the entry of `id` changed.
unfoldable pub change : ℕ → (Lambda → Lambda) → List Lambda → List Lambda
change id f [] = []
change id f (l ∷ ls) = let rest = change id f ls in (if l.id == id then f l else l) ∷ rest

-- `free_lambdas_.insert( id )`, in order.
unfoldable pub insert_id : ℕ → List ℕ → List ℕ
insert_id id [] = id ∷ []
insert_id id (j ∷ js) =
    let rest = insert_id id js in
    if ltb id j then id ∷ j ∷ js else if id == j then j ∷ js else j ∷ rest

-- `free_lambdas_.erase( id )`
unfoldable pub erase_id : ℕ → List ℕ → List ℕ
erase_id id [] = []
erase_id id (j ∷ js) = let rest = erase_id id js in if id == j then rest else j ∷ rest

-- What a `JoinIterator` visits: it stands on the first item of the second container at the end of the
-- first one, and once more where the second one begins. The second one is not empty: a thunk has an
-- executable.
unfoldable pub join_containers : DataList → DataList → List DataItem
join_containers a b = a ++ (take 1 b ++ b)

-- `join_containers( thunk.values(), thunk.executables() )`, the names only.
unfoldable pub objects_of : Thunk → List Bytes
unfolding join_containers
objects_of t = map (λ (item : DataItem). item.0) (join_containers t.values t.executables)

module _ (put_message : Bytes → Message) (execute_message : Thunk → Message) where
  -- A put message for each object that the worker does not have.
  unfoldable pub put_missing : TextSet → List Bytes → List Message
  put_missing had [] = []
  put_missing had (name ∷ names) =
      let rest = put_missing had names in if member had name then rest else put_message name ∷ rest

  -- What `prepare_lambda` does to the worker.
  unfoldable pub prepared : Thunk → Lambda → Lambda
  unfolding put_missing objects_of
  prepared t l = record l {
    state = busy;
    objects = add_all [] (objects_of t);
    executing_thunk = some t;
    written = l.written ++ (put_missing l.objects (objects_of t) ++ execute_message t ∷ []);
  }

  unfoldable pub prepare_lambda : ℕ → Thunk → MeowEngine → MeowEngine
  unfolding prepared
  prepare_lambda id t e = record e {
    lambdas = change id (prepared t) e.lambdas;
    free_lambdas = erase_id id e.free_lambdas;
  }

-- The bytes of a worker's objects that the thunk needs, as a `size_t`.
unfoldable pub common_size : TextSet → List Bytes → ℕ → Result ℕ
common_size had [] total = ok total
common_size had (name ∷ names) total = do
  n ← (if member had name then Hash.size name else ok 0)
  common_size had names ((total + n) % 2 ^ 64)

-- `numeric_limits<size_t>::max()`
abbrev pub no_lambda : ℕ
no_lambda = 2 ^ 64 - 1

-- The loop of `MostObjects`: the largest size so far and the worker that has it.
unfoldable pub most_common : List Lambda → List Bytes → List ℕ → ℕ → ℕ → Result (ℕ × ℕ)
most_common ls names [] best selected = ok (best, selected)
most_common ls names (id ∷ ids) best selected = do
  l ← lambda_at id ls
  n ← common_size l.objects names 0
  most_common ls names ids (if ltb best n then n else best) (if ltb best n then id else selected)

-- The loop that finds the largest object.
unfoldable pub largest : List Bytes → ℕ → Bytes → Result Bytes
largest [] best name = ok name
largest (n ∷ ns) best name = do
  size ← Hash.size n
  largest ns (if ltb best size then size else best) (if ltb best size then n else name)

-- The first free worker that has the object, or else `first`.
unfoldable pub holder : List Lambda → Bytes → List ℕ → ℕ → Result ℕ
holder ls name [] first = ok first
holder ls name (id ∷ ids) first = do
  l ← lambda_at id ls
  if member l.objects name then ok id else holder ls name ids first

unfoldable pub pick_from : List Lambda → Thunk → SelectionStrategy → ℕ → List ℕ → Result ℕ
unfolding most_common largest holder objects_of
pick_from ls t first_free first ids = ok first
pick_from ls t most_objects first ids = do
  found ← most_common ls (add_all [] (objects_of t)) ids 0 no_lambda
  ok (if found.1 == no_lambda then first else found.1)
pick_from ls t largest_object first ids = do
  name ← largest (objects_of t) 0 []
  if is_empty name then ok first else holder ls name ids first
pick_from ls t random first ids = err (runtime_error "invalid selection strategy")
pick_from ls t lru first ids = err (runtime_error "invalid selection strategy")

unfoldable pub pick_lambda : Thunk → SelectionStrategy → MeowEngine → Result ℕ
unfolding pick_from
pick_lambda t s e = elim e.free_lambdas [
  | [] ↦ err (runtime_error "No free lambdas to pick from.")
  | first ∷ rest ↦ pick_from e.lambdas t s first (first ∷ rest)
]

unfoldable pub can_execute : Thunk → Result Bool
can_execute t = do n ← infiles_size true t; ok (ltb n (200 * 2 ^ 20))

unfoldable pub job_count : MeowEngine → ℕ
job_count e = e.running_jobs

module _ (put_message : Bytes → Message) (execute_message : Thunk → Message) where
  -- `force_thunk`: an idle worker gets the thunk, or the thunk waits for a new one.
  unfoldable pub force_thunk : Thunk → MeowEngine → Result MeowEngine
  unfolding pick_lambda prepare_lambda
  force_thunk t e =
      let counted = record e { running_jobs = (e.running_jobs + 1) % 2 ^ 64 } in
      if is_empty e.free_lambdas
      then ok (record counted {
        thunks_queue = e.thunks_queue ++ t ∷ [];
        invocations = e.invocations + 1;
      })
      else (do
        id ← pick_lambda t most_objects counted
        ok (prepare_lambda put_message execute_message id t counted))

  -- The first thunk that waits, if there is one, goes to the worker.
  unfoldable pub serve_queue : ℕ → List Thunk → MeowEngine → MeowEngine
  unfolding prepare_lambda
  serve_queue id [] e = e
  serve_queue id (t ∷ ts) e = record (prepare_lambda put_message execute_message id t e) {
    thunks_queue = ts;
  }

  -- A worker connects: the callback of the listener.
  unfoldable pub connected : MeowEngine → MeowEngine
  unfolding serve_queue
  connected e =
      let id = e.current_id in
      let joined = record e {
        lambdas =
            e.lambdas
            ++ record { id = id; state = idle; objects = []; executing_thunk = none; written = [] }
              ∷ [];
        free_lambdas = insert_id id e.free_lambdas;
      } in
      record (serve_queue id e.thunks_queue joined) { current_id = (id + 1) % 2 ^ 64 }

-- A worker has executed its thunk.
unfoldable pub released : ℕ → MeowEngine → MeowEngine
released id e = record e {
  lambdas = change id (λ l. record l { state = idle }) e.lambdas;
  free_lambdas = insert_id id e.free_lambdas;
  running_jobs = (e.running_jobs + 2 ^ 64 - 1) % 2 ^ 64;
}

module _ (response : Bytes → Bytes × List ThunkOutput) where
  -- A message from a worker, and what the success callback is called with.
  unfoldable pub receive :
      ℕ → Message → MeowEngine → Result (MeowEngine × Option (Bytes × List ThunkOutput))
  unfolding released
  receive id m e =
      if m.opcode == 1 || m.opcode == 2
      then ok (e, none)
      else if m.opcode == 7
      then (if is_empty (response m.payload).1
          then err assert_failed
          else (do l ← lambda_at id e.lambdas; ok (released id e, some (response m.payload))))
      else err (runtime_error "unexpected opcode")
