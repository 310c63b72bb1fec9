-- ===== src/MeowEngine/Invariant.antt =====
-- The invariant of the pool, and that every operation keeps it.
use native.Mathlib.Nat.{mod-eq_of_lt}
use gg.Prelude.{
  ◌<◌, ℕ, suc, ◌+◌, ◌-◌, ◌%◌, ◌^◌, ◌≡◌, refl, ap, sym, subst, ◌∙◌, inl, inr, true, false, List, [],
  ◌∷◌, ◌++◌, arith, length, length-append, is_empty, none, some, ok, ◌>>=◌, >>=-eq-ok, ok-injective,
  Bool-cases,
}
use gg.Text.{Bytes}
use gg.Thunk.{Thunk}
use gg.Meow.{Message}
use package.gg.MeowEngine.{
  Lambda, idle, busy, MeowEngine, most_objects, insert_id, erase_id, prepared, prepare_lambda,
  pick_lambda, force_thunk, serve_queue, connected, released,
}
use package.gg.MeowEngine.Pool.{
  idle_ids, busy_count, IsAscending, state_of, state_of-below, IsAscending-below, IsAscending-last,
  IsAscending-change, idle_ids-change_busy, busy_count-change_busy, busy_count-change_idle,
  idle_ids-change_idle, insert_id-last, idle_ids-append,
}
use package.gg.MeowEngine.Choice.{has_id, pick_lambda-has_id}

-- The ids rise and are below the next one; the free workers are the idle ones; and every running
-- job has a busy worker or waits in the queue.
pub record IsConsistent (e : MeowEngine) : Type 0 where
  pub ordered : IsAscending 0 e.current_id e.lambdas
  pub free : e.free_lambdas ≡ idle_ids e.lambdas
  pub jobs : e.running_jobs ≡ (length e.thunks_queue + busy_count e.lambdas) % 2 ^ 64

-- An engine that has just been made.
abbrev pub started : ℕ → MeowEngine
started max_jobs = record {
  max_jobs = max_jobs;
  running_jobs = 0;
  current_id = 0;
  lambdas = [];
  free_lambdas = [];
  thunks_queue = [];
  invocations = 0;
}

-- One job more is counted.
abbrev counted : MeowEngine → MeowEngine
counted e = record e { running_jobs = (e.running_jobs + 1) % 2 ^ 64 }

pub started-IsConsistent : (max_jobs : ℕ) → IsConsistent (started max_jobs)
unfolding IsAscending idle_ids busy_count
started-IsConsistent max_jobs = record { ordered = omega arith; free = refl; jobs = refl }

state_of-idle :
    (id low high : ℕ) (ls : List Lambda)
    → IsAscending low high ls
    → has_id id (idle_ids ls) ≡ true
    → state_of id ls ≡ some idle
unfolding has_id idle_ids state_of IsAscending
state_of-idle id low high [] a h = cc
state_of-idle id low high (l ∷ ls) a h =
    ground
      (arith, state_of-below id (suc l.id) high ls a.1, state_of-idle id (suc l.id) high ls a.1)

counted_up : (r q b : ℕ) → r ≡ (q + b) % 2 ^ 64 → (r + 1) % 2 ^ 64 ≡ (q + suc b) % 2 ^ 64
counted_up r q b h = omega arith

counted_down :
    (r q b c : ℕ) → r ≡ (q + b) % 2 ^ 64 → suc c ≡ b → (r + 2 ^ 64 - 1) % 2 ^ 64 ≡ (q + c) % 2 ^ 64
counted_down r q b c h k = omega arith

module _ (put_message : Bytes → Message) (execute_message : Thunk → Message) where
  prepared-id : (t : Thunk) (l : Lambda) → (prepared put_message execute_message t l).id ≡ l.id
  unfolding prepared
  prepared-id t l = refl

  prepared-busy : (t : Thunk) (l : Lambda) → (prepared put_message execute_message t l).state ≡ busy
  unfolding prepared
  prepared-busy t l = refl

  -- A worker that is idle is made busy.
  pub prepare_lambda-pool :
      (id low high : ℕ) (t : Thunk) (e : MeowEngine)
      → IsAscending low high e.lambdas
      → e.free_lambdas ≡ idle_ids e.lambdas
      → state_of id e.lambdas ≡ some idle
      → let e' = prepare_lambda put_message execute_message id t e in
        IsAscending low high e'.lambdas
        × (e'.free_lambdas ≡ idle_ids e'.lambdas)
        × (busy_count e'.lambdas ≡ suc (busy_count e.lambdas))
  unfolding prepare_lambda
  prepare_lambda-pool id low high t e a f s =
      let g = prepared put_message execute_message t in
      (
        IsAscending-change id g (prepared-id t) low high e.lambdas a,
        ap (erase_id id) f
            ∙ sym (idle_ids-change_busy id g (prepared-id t) (prepared-busy t) e.lambdas),
        busy_count-change_busy id g (prepared-id t) (prepared-busy t) low high e.lambdas a s,
      )

  force_thunk-busy :
      (t : Thunk) (e : MeowEngine)
      → is_empty e.free_lambdas ≡ true
      → force_thunk put_message execute_message t e
        ≡ ok (record (counted e) {
          thunks_queue = e.thunks_queue ++ t ∷ [];
          invocations = e.invocations + 1;
        })
  unfolding force_thunk
  force_thunk-busy t e h = rw h refl

  force_thunk-free :
      (t : Thunk) (e : MeowEngine)
      → is_empty e.free_lambdas ≡ false
      → force_thunk put_message execute_message t e ≡ (
          pick_lambda t most_objects (counted e) >>= λ id.
          ok (prepare_lambda put_message execute_message id t (counted e)))
  unfolding force_thunk
  force_thunk-free t e h = rw h refl

  -- A job more, and its worker is busy.
  prepare_lambda-IsConsistent :
      (id : ℕ) (t : Thunk) (e : MeowEngine)
      → IsConsistent e
      → state_of id e.lambdas ≡ some idle
      → IsConsistent (prepare_lambda put_message execute_message id t (counted e))
  unfolding prepare_lambda
  prepare_lambda-IsConsistent id t e c s =
      let p = prepare_lambda-pool id 0 e.current_id t (counted e) c.ordered c.free s in
      record {
        ordered = p.0;
        free = p.1;
        jobs =
            counted_up e.running_jobs (length e.thunks_queue) (busy_count e.lambdas) c.jobs
            ∙ sym (ap (λ (b : ℕ). (length e.thunks_queue + b) % 2 ^ 64) p.2);
      }

  queued-IsConsistent :
      (t : Thunk) (e : MeowEngine)
      → IsConsistent e
      → IsConsistent (record (counted e) {
        thunks_queue = e.thunks_queue ++ t ∷ [];
        invocations = e.invocations + 1;
      })
  queued-IsConsistent t e c = record {
    ordered = c.ordered;
    free = c.free;
    jobs =
        counted_up e.running_jobs (length e.thunks_queue) (busy_count e.lambdas) c.jobs
        ∙ omega (arith, length-append e.thunks_queue (t ∷ []));
  }

  -- A thunk that is forced is one job more, with a worker that was idle or in the queue.
  pub force_thunk-IsConsistent :
      (t : Thunk) (e e' : MeowEngine)
      → IsConsistent e
      → force_thunk put_message execute_message t e ≡ ok e'
      → IsConsistent e'
  force_thunk-IsConsistent t e e' c p = elim (Bool-cases (is_empty e.free_lambdas)) [
    | inl none_ ↦
        subst IsConsistent (ok-injective (sym (force_thunk-busy t e none_) ∙ p))
          (queued-IsConsistent t e c)
    | inr some_ ↦
        let f =
          >>=-eq-ok (pick_lambda t most_objects (counted e))
            (λ id. ok (prepare_lambda put_message execute_message id t (counted e)))
            (sym (force_thunk-free t e some_) ∙ p) in
        subst IsConsistent (ok-injective f.2) (
          prepare_lambda-IsConsistent f.0 t e c (
            state_of-idle f.0 0 e.current_id e.lambdas c.ordered
              (pick_lambda-has_id t (counted e) f.0 (idle_ids e.lambdas) c.free f.1)))
  ]

-- A worker that has connected, before it is given a thunk.
abbrev pub newcomer : ℕ → Lambda
newcomer id = record { id = id; state = idle; objects = []; executing_thunk = none; written = [] }

abbrev pub joined : MeowEngine → MeowEngine
joined e = record e {
  lambdas = e.lambdas ++ newcomer e.current_id ∷ [];
  free_lambdas = insert_id e.current_id e.free_lambdas;
  current_id = e.current_id + 1;
}

pub state_of-last :
    (low high : ℕ) (ls : List Lambda)
    → IsAscending low high ls
    → state_of high (ls ++ newcomer high ∷ []) ≡ some idle
unfolding IsAscending state_of
state_of-last low high [] a = ground arith
state_of-last low high (l ∷ ls) a =
    ground (arith, state_of-last (suc l.id) high ls a.1, IsAscending-below (suc l.id) high ls a.1)

pub busy_count-newcomer :
    (ls : List Lambda) (id : ℕ) → busy_count (ls ++ newcomer id ∷ []) ≡ busy_count ls
unfolding busy_count
busy_count-newcomer [] id = refl
busy_count-newcomer (l ∷ ls) id = ground (arith, busy_count-newcomer ls id)

pub joined-IsConsistent : (e : MeowEngine) → IsConsistent e → IsConsistent (joined e)
unfolding idle_ids
joined-IsConsistent e c = record {
  ordered =
      subst (λ (n : ℕ). IsAscending 0 n (joined e).lambdas)
        (let next : suc e.current_id ≡ e.current_id + 1 = omega arith in next)
        (IsAscending-last 0 e.current_id e.lambdas (newcomer e.current_id) c.ordered refl);
  free =
      ap (insert_id e.current_id) c.free
      ∙ insert_id-last 0 e.current_id e.lambdas c.ordered
      ∙ sym (idle_ids-append e.lambdas (newcomer e.current_id ∷ []));
  jobs =
      c.jobs
      ∙ sym (
          ap (λ (b : ℕ). (length e.thunks_queue + b) % 2 ^ 64)
            (busy_count-newcomer e.lambdas e.current_id));
}

module _ (put_message : Bytes → Message) (execute_message : Thunk → Message) where
  -- The first thunk of the queue goes to an idle worker.
  serve_queue-IsConsistent :
      (id : ℕ) (ts : List Thunk) (e : MeowEngine)
      → IsConsistent e
      → state_of id e.lambdas ≡ some idle
      → e.thunks_queue ≡ ts
      → IsConsistent (serve_queue put_message execute_message id ts e)
  unfolding serve_queue prepare_lambda
  serve_queue-IsConsistent id [] e c s q = c
  serve_queue-IsConsistent id (t ∷ ts) e c s q =
      let p =
        prepare_lambda-pool put_message execute_message id 0 e.current_id t e c.ordered c.free s in
      record {
        ordered = p.0;
        free = p.1;
        jobs =
            c.jobs
            ∙ ap (λ (w : List Thunk). (length w + busy_count e.lambdas) % 2 ^ 64) q
            ∙ omega (arith, p.2);
      }

  pub connected-serve_queue :
      (e : MeowEngine) (ts : List Thunk)
      → e.thunks_queue ≡ ts
      → e.current_id + 1 < 2 ^ 64
      → connected put_message execute_message e
        ≡ serve_queue put_message execute_message e.current_id ts (joined e)
  unfolding connected serve_queue prepare_lambda
  connected-serve_queue e [] q b = rw (q, mod-eq_of_lt b) refl
  connected-serve_queue e (t ∷ ts) q b = rw (q, mod-eq_of_lt b) refl

  -- A worker that connects is idle, or has the first thunk of the queue.
  pub connected-IsConsistent :
      (e : MeowEngine)
      → IsConsistent e
      → e.current_id + 1 < 2 ^ 64
      → IsConsistent (connected put_message execute_message e)
  connected-IsConsistent e c b =
      subst IsConsistent (sym (connected-serve_queue e e.thunks_queue refl b)) (
        serve_queue-IsConsistent e.current_id e.thunks_queue (joined e) (joined-IsConsistent e c)
          (state_of-last 0 e.current_id e.lambdas c.ordered) refl)

-- A worker that was busy is idle, and there is one job less.
pub released-IsConsistent :
    (id : ℕ) (e : MeowEngine)
    → IsConsistent e
    → state_of id e.lambdas ≡ some busy
    → IsConsistent (released id e)
unfolding released
released-IsConsistent id e c s =
    let idles = λ (l : Lambda). record l { state = idle } in
    record {
      ordered = IsAscending-change id idles (λ l. refl) 0 e.current_id e.lambdas c.ordered;
      free =
          ap (insert_id id) c.free
          ∙ sym (
              idle_ids-change_idle id idles (λ l. refl) (λ l. refl) 0 e.current_id e.lambdas busy
                c.ordered s);
      jobs = counted_down e.running_jobs (length e.thunks_queue) (busy_count e.lambdas) _ c.jobs (
          busy_count-change_idle id idles (λ l. refl) (λ l. refl) 0 e.current_id e.lambdas c.ordered
            s);
    }
