-- ===== src/Reductor/Steps.antt =====
-- The loop as a sequence of steps: a turn of the loop over the queue, a callback, a timeout check.
use gg.Prelude.{
  ℕ, ◌≡◌, refl, ap, sym, subst, ◌∙◌, ◌⊎◌, inl, inr, true, Option, none, some, List, [], ◌∷◌, ◌++◌,
  arith, ok, ok-injective, err-ne-ok,
}
use gg.Text.{Bytes, ≈_iff}
use gg.Dict.{Dict, get, put, erase, member, member-append, contains, get-erase, get-put}
use gg.Hash.{Digest}
use gg.Thunk.{Thunk, ThunkOutput}
use gg.Thunk.Wire.{Codec}
use package.gg.Reductor.{
  Reductor, JobInfo, JobStatus, EngineOps, ExecState, executing, full_capacity,
  full_fallback_capacity, cannot_be_executed, place, finalize_execution, job_failed, check_timeouts,
  check_jobs, success, execution_failure,
}
use package.gg.Reductor.Reduce.{Turn, placed}
use package.gg.Reductor.Finalize.{Progress, finalize_execution-Progress}

-- The job is in the queue, or an engine has it.
abbrev pub Tracked : Bytes → Reductor → Type 0
Tracked h r = (member r.job_queue h ≡ true) ⊎ (contains r.running_jobs h ≡ true)

module _ {E : Type 0} (ops : EngineOps E) (d : Digest) (c : Codec)
    (check : Bytes → Option Bytes) where
  -- A step, with the job that ends in it.
  pub data Step : Reductor → Option Bytes → Reductor → Type 0 where
    ended :
        (fuel : ℕ) (old : Bytes) (first : ThunkOutput) (rest : List ThunkOutput) (r r' : Reductor)
        → finalize_execution d c fuel old (first ∷ rest) r ≡ ok r'
        → Step r (some old) r'
    cached :
        (fuel : ℕ) (hash : Bytes) (queue : List Bytes) (first : ThunkOutput)
        (rest : List ThunkOutput) (r r' : Reductor)
        → r.job_queue ≡ hash ∷ queue
        → finalize_execution d c fuel hash (first ∷ rest) (record r { job_queue = queue }) ≡ ok r'
        → Step r (some hash) r'
    handed :
        (now : ℕ) (hash : Bytes) (queue : List Bytes) (t : Thunk) (es fs : List E) (r : Reductor)
        (turn : Turn E)
        → r.job_queue ≡ hash ∷ queue
        → placed ops d c check now hash t (place ops t es fs) (record r { job_queue = queue })
          ≡ ok turn
        → Step r none turn.state
    failed :
        (old : Bytes) (status : JobStatus) (r r' : Reductor)
        → job_failed old status r ≡ ok r'
        → Step r none r'
    checked : (now : ℕ) (r : Reductor) → Step r none (check_timeouts now r)

-- The job that ends in a step.
abbrev pub Ends : Bytes → Option Bytes → Type 0
Ends h done = done ≡ some h

contains-erase :
    (jobs : Dict JobInfo) (old h : Bytes)
    → contains jobs h ≡ true
    → (contains (erase jobs old) h ≡ true) ⊎ (old ≡ h)
unfolding contains
contains-erase jobs old h m = ground (arith, get-erase jobs old h, ≈_iff old h)

contains-put :
    (jobs : Dict JobInfo) (name h : Bytes) (job : JobInfo)
    → (contains jobs h ≡ true) ⊎ (name ≡ h)
    → contains (put jobs name job) h ≡ true
unfolding contains
contains-put jobs name h job m = ground (arith, get-put jobs name h job, ≈_iff name h)

member_front :
    (queue s : List Bytes) (hash h : Bytes)
    → queue ≡ hash ∷ s
    → member queue h ≡ true
    → (hash ≡ h) ⊎ (member s h ≡ true)
unfolding member
member_front queue s hash h e m = ground (arith, ≈_iff hash h)

member_behind :
    (queue jobs s : List Bytes) (h : Bytes)
    → s ≡ queue ++ jobs
    → member queue h ≡ true
    → member s h ≡ true
member_behind queue jobs s h e m = ground (arith, member-append queue jobs h)

-- A job that is tracked when another one ends stays so.
Progress-Tracked :
    (h old : Bytes) (first : ThunkOutput) (r r' : Reductor)
    → Progress old first r r'
    → Tracked h r
    → Tracked h r' ⊎ (old ≡ h)
Progress-Tracked h old first r r' p (inl m) =
    inl (inl (member_behind r.job_queue p.queued.0 r'.job_queue h p.queued.1 m))
Progress-Tracked h old first r r' p (inr m) = elim (contains-erase r.running_jobs old h m) [
  | inl stays ↦ inl (inr (ap (λ jobs. contains jobs h) p.running ∙ stays))
  | inr same ↦ inr same
]

failed-Tracked :
    (h old : Bytes) (status : JobStatus) (r r' : Reductor)
    → job_failed old status r ≡ ok r'
    → Tracked h r
    → Tracked h r'
unfolding job_failed
failed-Tracked h old execution_failure r r' e k = absurd (err-ne-ok _ r' e)
failed-Tracked h old success r r' e k = absurd (err-ne-ok _ r' e)
failed-Tracked h old _ r r' e (inr m) = subst (Tracked h) (ok-injective e) (inr m)
failed-Tracked h old _ r r' e (inl m) =
    subst (Tracked h) (ok-injective e) (inl (member_behind r.job_queue (old ∷ []) _ h refl m))

put_back :
    (h : Bytes) (r : Reductor) (queue : List Bytes)
    → r.job_queue ≡ queue
    → Tracked h r
    → Tracked h (record r { job_queue = queue })
put_back h r queue q (inl m) = inl (ap (λ s. member s h) (sym q) ∙ m)
put_back h r queue q (inr m) = inr m

contains-check_jobs :
    (now : ℕ) (jobs : Dict JobInfo) (h : Bytes)
    → contains (check_jobs now jobs).1 h ≡ contains jobs h
unfolding check_jobs contains get
contains-check_jobs now [] h = refl
contains-check_jobs now ((name, job) ∷ jobs) h = ground (arith, contains-check_jobs now jobs h)

checked-Tracked :
    (now : ℕ) (h : Bytes) (r : Reductor) → Tracked h r → Tracked h (check_timeouts now r)
unfolding check_timeouts
checked-Tracked now h r (inl m) =
    inl (ground (arith, member_behind r.job_queue (check_jobs now r.running_jobs).0 _ h refl m))
checked-Tracked now h r (inr m) = inr (ground (arith, contains-check_jobs now r.running_jobs h))

module _ {E : Type 0} (ops : EngineOps E) (d : Digest) (c : Codec)
    (check : Bytes → Option Bytes) where
  placed-Tracked :
      (now : ℕ) (h hash : Bytes) (queue : List Bytes) (t : Thunk) (p : ExecState × List E × List E)
      → (r : Reductor) (turn : Turn E) → r.job_queue ≡ hash ∷ queue
      → placed ops d c check now hash t p (record r { job_queue = queue }) ≡ ok turn
      → Tracked h r
      → Tracked h turn.state
  unfolding placed
  placed-Tracked now h hash queue t (executing, es, fs) r turn q e (inl m) =
      subst (λ u. Tracked h u.state) (ok-injective e)
        (elim (member_front r.job_queue queue hash h q m) [
          | inl same ↦ inr (contains-put r.running_jobs hash h _ (inr same))
          | inr behind ↦ inl behind
        ])
  placed-Tracked now h hash queue t (executing, es, fs) r turn q e (inr m) =
      subst (λ u. Tracked h u.state) (ok-injective e)
        (inr (contains-put r.running_jobs hash h _ (inl m)))
  placed-Tracked now h hash queue t (full_capacity, es, fs) r turn q e k =
      subst (λ u. Tracked h u.state) (ok-injective e) (put_back h r _ q k)
  placed-Tracked now h hash queue t (full_fallback_capacity, es, fs) r turn q e k =
      subst (λ u. Tracked h u.state) (ok-injective e) (put_back h r _ q k)
  placed-Tracked now h hash queue t (cannot_be_executed, es, fs) r turn q e k =
      absurd (err-ne-ok _ turn e)

  taken :
      (h hash : Bytes) (queue : List Bytes) (r : Reductor)
      → r.job_queue ≡ hash ∷ queue
      → Tracked h r
      → Tracked h (record r { job_queue = queue }) ⊎ (hash ≡ h)
  taken h hash queue r q (inl m) = elim (member_front r.job_queue queue hash h q m) [
    | inl same ↦ inr same
    | inr behind ↦ inl (inl behind)
  ]
  taken h hash queue r q (inr m) = inl (inr m)

  -- No job is lost: in every step a job that is in the queue or handed out stays there, unless it
  -- is the job that ends.
  pub Step-Tracked :
      (h : Bytes) (r : Reductor) (done : Option Bytes) (r' : Reductor)
      → Step ops d c check r done r'
      → Tracked h r
      → Tracked h r' ⊎ Ends h done
  Step-Tracked h r _ _ (ended fuel old first rest _ r' e) k =
      elim (Progress-Tracked h old first r r'
        (finalize_execution-Progress d c fuel old first rest r r' e) k) [
          | inl stays ↦ inl stays
          | inr same ↦ inr (ap some same)
        ]
  Step-Tracked h r _ _ (cached fuel hash queue first rest _ r' q e) k =
      elim (taken h hash queue r q k) [
        | inl stays ↦
            elim (Progress-Tracked h hash first (record r { job_queue = queue }) r'
              (finalize_execution-Progress d c fuel hash first rest (record r { job_queue = queue })
                r' e)
              stays) [ inl stays' ↦ inl stays' | inr same ↦ inr (ap some same) ]
        | inr same ↦ inr (ap some same)
      ]
  Step-Tracked h r _ _ (handed now hash queue t es fs _ turn q e) k =
      inl (placed-Tracked now h hash queue t (place ops t es fs) r turn q e k)
  Step-Tracked h r _ _ (failed old status _ r' e) k = inl (failed-Tracked h old status r r' e k)
  Step-Tracked h r _ _ (checked now _) k = inl (checked-Tracked now h r k)
