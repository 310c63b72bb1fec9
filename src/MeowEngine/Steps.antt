-- ===== src/MeowEngine/Steps.antt =====
-- The engine as a sequence of steps: a thunk is forced, a worker connects, a message comes.
use gg.Prelude.{◌+◌, ◌^◌, ◌<◌, ℕ, ◌≡◌, sym, subst, ◌⊎◌, inl, inr, Option, some, List, arith, ok}
use gg.Text.{Bytes}
use gg.Thunk.{Thunk, ThunkOutput}
use gg.Meow.{Message}
use package.gg.MeowEngine.{busy, MeowEngine, force_thunk, connected, released, receive, lambda_at}
use package.gg.MeowEngine.Pool.{state_of}
use package.gg.MeowEngine.Invariant.{
  IsConsistent, started, started-IsConsistent, force_thunk-IsConsistent, connected-IsConsistent,
  released-IsConsistent,
}

module _ (response : Bytes → Bytes × List ThunkOutput) where
  -- The engine after a message: as it was, or with a worker released.
  receive-engine :
      (id : ℕ) (m : Message) (e : MeowEngine) (r : MeowEngine × Option (Bytes × List ThunkOutput))
      → receive response id m e ≡ ok r
      → (r.0 ≡ e) ⊎ ((m.opcode ≡ 7) × (r.0 ≡ released id e))
  unfolding receive
  receive-engine id m e r p = ground (arith, lambda_at id e.lambdas)

module _ (put_message : Bytes → Message) (execute_message : Thunk → Message)
    (response : Bytes → Bytes × List ThunkOutput) where
  -- What happens to an engine: a thunk is forced, a worker connects, or a message comes, where a
  -- worker says that it has executed a thunk only while it has one; the ids do not run out.
  pub data Step : MeowEngine → MeowEngine → Type 0 where
    forced :
        (t : Thunk) (e e' : MeowEngine)
        → force_thunk put_message execute_message t e ≡ ok e'
        → Step e e'
    connects :
        (e : MeowEngine)
        → e.current_id + 1 < 2 ^ 64
        → Step e (connected put_message execute_message e)
    receives :
        (id : ℕ) (m : Message) (e : MeowEngine) (r : MeowEngine × Option (Bytes × List ThunkOutput))
        → receive response id m e ≡ ok r
        → (m.opcode ≡ 7 → state_of id e.lambdas ≡ some busy)
        → Step e r.0

  pub data Steps : MeowEngine → MeowEngine → Type 0 where
    stop : (e : MeowEngine) → Steps e e
    step : (e e' e'' : MeowEngine) → Step e e' → Steps e' e'' → Steps e e''

  step-IsConsistent : (e e' : MeowEngine) → Step e e' → IsConsistent e → IsConsistent e'
  step-IsConsistent e e' (forced t _ _ p) c =
      force_thunk-IsConsistent put_message execute_message t e e' c p
  step-IsConsistent e e' (connects _ b) c = connected-IsConsistent put_message execute_message e c b
  step-IsConsistent e e' (receives id m _ r p h) c = elim (receive-engine response id m e r p) [
    | inl same ↦ subst IsConsistent (sym same) c
    | inr done ↦ subst IsConsistent (sym done.1) (released-IsConsistent id e c (h done.0))
  ]

  steps-IsConsistent : (e e' : MeowEngine) → Steps e e' → IsConsistent e → IsConsistent e'
  steps-IsConsistent e e' (stop _) c = c
  steps-IsConsistent e e' (step _ m _ s ss) c =
      steps-IsConsistent m e' ss (step-IsConsistent e m s c)

  -- Whatever thunks are forced, workers connect and messages come, in any order, from an engine that
  -- has just been made on, where a worker says that it has executed a thunk only while it is busy, and
  -- fewer than 2 ^ 64 workers connect: the ids of the workers rise and are below the next one, the free
  -- workers are those that are idle, and the running jobs are the busy workers and the thunks in the
  -- queue, modulo 2 ^ 64.
  pub pool_reachable : (max_jobs : ℕ) (e : MeowEngine) → Steps (started max_jobs) e → IsConsistent e
  pool_reachable max_jobs e s =
      steps-IsConsistent (started max_jobs) e s (started-IsConsistent max_jobs)
