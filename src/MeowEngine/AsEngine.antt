-- ===== src/MeowEngine/AsEngine.antt =====
-- MeowEngine behind the interface of src/execution/engine.hh that the reductor uses. Where `force_thunk`
-- throws, which ends the program, the engine is left as it was.
use gg.Prelude.{
  ℕ, suc, ◌+◌, ◌%◌, ◌^◌, ◌≤◌, ◌≡◌, refl, false, arith, is_empty, Result, ok, err, Returns,
  >>=-Returns_any, either,
}
use native.Mathlib.Nat.{mod-le}
use gg.Text.{Bytes}
use gg.Thunk.{Thunk}
use gg.Meow.{Message}
use gg.Reductor.{EngineOps}
use package.gg.MeowEngine.{
  MeowEngine, most_objects, pick_lambda, prepare_lambda, can_execute, job_count, force_thunk,
}

-- The value of a result, or else the other one.
abbrev or_else : {A : Type 0} → A → Result A → A
or_else a (ok b) = b
or_else a (err x) = a

or_else-Returns :
    {A : Type 0} (P : A → Type 0) (a : A) (r : Result A) → P a → Returns P r → P (or_else a r)
or_else-Returns P a (ok b) h k = k
or_else-Returns P a (err x) h k = h

module _ (put_message : Bytes → Message) (execute_message : Thunk → Message) where
  unfoldable pub meow_ops : EngineOps MeowEngine
  unfolding job_count can_execute force_thunk
  meow_ops = record {
    can_execute = λ e t. or_else false (can_execute t);
    job_count = job_count;
    max_jobs = λ e. e.max_jobs;
    force = λ e t. or_else e (force_thunk put_message execute_message t e);
  }

  -- At most one job more, and the same number of jobs at most.
  abbrev Counts : MeowEngine → MeowEngine → Type 0
  Counts e e' = (e'.running_jobs ≤ suc e.running_jobs) × (e'.max_jobs ≡ e.max_jobs)

  abbrev taken : MeowEngine → MeowEngine
  taken e = record e { running_jobs = (e.running_jobs + 1) % 2 ^ 64 }

  counted : (n : ℕ) → (n + 1) % 2 ^ 64 ≤ suc n
  counted n = omega (arith, mod-le (n + 1) (2 ^ 64))

  force_thunk-Counts :
      (t : Thunk) (e : MeowEngine)
      → Returns (Counts e) (force_thunk put_message execute_message t e)
  unfolding force_thunk prepare_lambda
  force_thunk-Counts t e =
      either (Returns (Counts e)) (is_empty e.free_lambdas) (λ y. (counted e.running_jobs, refl))
        (λ n.
          >>=-Returns_any (Counts e) (pick_lambda t most_objects (taken e))
            (λ id. ok (prepare_lambda put_message execute_message id t (taken e)))
            (λ id. (counted e.running_jobs, refl)))

  pub meow_ops-Counts :
      (t : Thunk) (e : MeowEngine)
      → (meow_ops.job_count (meow_ops.force e t) ≤ suc (meow_ops.job_count e))
        × (meow_ops.max_jobs (meow_ops.force e t) ≡ meow_ops.max_jobs e)
  unfolding meow_ops
  meow_ops-Counts t e =
      or_else-Returns (Counts e) e (force_thunk put_message execute_message t e) (omega arith, refl)
        (force_thunk-Counts t e)
