-- ===== src/Reductor/Reduce.antt =====
-- `Reductor::reduce`: the loop over the job queue, and the answers at the end. The event loop is
-- the sequence of steps that it lets happen: callbacks and timeout checks.
use gg.Prelude.{
  ℕ, zero, suc, Bool, true, false, Option, none, some, List, [], ◌∷◌, if◌then◌else◌, Result, ok,
  err, out_of_fuel, runtime_error, unix_error, ◌>>=◌,
}
use gg.Text.{Bytes}
use gg.Dict.{get, put, at}
use gg.Hash
use gg.Hash.{Digest}
use gg.Thunk.{Thunk, ThunkOutput}
use gg.Thunk.Wire.{Codec, read}
use gg.Graph.{updated_hash}
use package.gg.Reductor.{
  Reductor, EngineOps, ExecState, executing, full_capacity, full_fallback_capacity,
  cannot_be_executed, place, start_job, finalize_execution,
}

module _ (check : Bytes → Option Bytes) where
  -- The loop that follows the cache entries from a name to the last one.
  unfoldable pub follow_cache : ℕ → Bytes → Option Bytes → Result (Option Bytes)
  follow_cache zero hash entry = err out_of_fuel
  follow_cache (suc fuel) hash entry = elim (check hash) [
    | none ↦ ok entry
    | some next ↦ follow_cache fuel next (some next)
  ]

  -- The loop over the tags of a thunk that is in the cache.
  unfoldable pub cached_outputs : Bytes → List Bytes → Result (List ThunkOutput)
  cached_outputs thunk_hash [] = ok []
  cached_outputs thunk_hash (tag ∷ tags) = elim (check (Hash.for_output thunk_hash tag)) [
    | none ↦ err (runtime_error "inconsistent cache entries")
    | some hash ↦ do
      outputs ← cached_outputs thunk_hash tags
      ok (record { hash = hash; tag = tag } ∷ outputs)
  ]

  -- The last part of `reduce`.
  unfoldable pub answers : Reductor → List Bytes → Result (List Bytes)
  unfolding updated_hash
  answers r [] = ok []
  answers r (target ∷ targets) = elim (check (updated_hash r.dep_graph target)) [
    | none ↦ err (runtime_error "internal error: final answer not found for ")
    | some hash ↦ do hashes ← answers r targets; ok (hash ∷ hashes)
  ]

-- Whether the loop over the queue goes on, and the state after the turn.
pub record Turn (E : Type 0) : Type 0 where
  pub more : Bool
  pub state : Reductor
  pub engines : List E
  pub fallbacks : List E

module _ {E : Type 0} (ops : EngineOps E) (d : Digest) (c : Codec)
    (check : Bytes → Option Bytes) where
  -- What follows from the state in which the search for an engine ends.
  unfoldable pub placed :
      ℕ → Bytes → Thunk → ExecState × List E × List E → Reductor → Result (Turn E)
  unfolding start_job
  placed now hash t (executing, es, fs) r = ok (record {
    more = true;
    state = record r {
      running_jobs = put r.running_jobs hash (
          start_job now r.timeout_multiplier r.default_timeout t.timeout (get r.running_jobs hash));
    };
    engines = es;
    fallbacks = fs;
  })
  placed now hash t (full_capacity, es, fs) r = ok (record {
    more = false;
    state = record r { job_queue = hash ∷ r.job_queue };
    engines = es;
    fallbacks = fs;
  })
  placed now hash t (full_fallback_capacity, es, fs) r = ok (record {
    more = false;
    state = record r { job_queue = hash ∷ r.job_queue };
    engines = es;
    fallbacks = fs;
  })
  placed now hash t (cannot_be_executed, es, fs) r =
      err (runtime_error "no execution engine could execute ")

  -- The body of the loop for the job `hash`, which is off the queue.
  unfoldable pub run_job : ℕ → ℕ → Bytes → List E → List E → Reductor → Result (Turn E)
  unfolding follow_cache cached_outputs placed place finalize_execution
  run_job fuel now hash es fs r = do
    entry ← follow_cache check fuel hash none
    elim entry [
      | some _ ↦ elim (get r.dep_graph.blobs hash) [
        | none ↦ err (unix_error "open")
        | some contents ↦ do
          t ← read c contents hash
          outputs ← cached_outputs check hash t.outputs
          r' ← finalize_execution d c fuel hash outputs r
          ok (record { more = true; state = r'; engines = es; fallbacks = fs })
      ]
      | none ↦ do t ← at r.dep_graph.thunks hash; placed now hash t (place ops t es fs) r
    ]

  -- `while ( not job_queue_.empty() )`
  unfoldable pub drain : ℕ → ℕ → List E → List E → Reductor → Result (Turn E)
  unfolding run_job
  drain zero now es fs r = err out_of_fuel
  drain (suc fuel) now es fs r = elim r.job_queue [
    | [] ↦ ok (record { more = false; state = r; engines = es; fallbacks = fs })
    | hash ∷ queue ↦ do
      turn ← run_job fuel now hash es fs (record r { job_queue = queue })
      if turn.more then drain fuel now turn.engines turn.fallbacks turn.state else ok turn
  ]
