-- ===== src/Reductor/Timeouts.antt =====
-- The timeouts of running jobs.
use gg.Prelude.{
  ℕ, zero, suc, ◌+◌, ◌*◌, ◌%◌, ◌^◌, All, ◌≤◌, ◌<◌, ◌≡◌, refl, ap, ◌∙◌, true, false, List, [], ◌∷◌,
  map, arith, length, Bool-cases, inl, inr,
}
use native.Mathlib.Nat.{mul_assoc, mod-eq_of_lt}
use gg.Text.{Bytes}
use gg.Dict.{Dict}
use package.gg.Reductor.{JobInfo, is_late, duplicate, check_jobs}

one_more : (n f t : ℕ) → f * t + n * (f * t) ≡ suc n * f * t
one_more n f t = omega (arith, mul_assoc (suc n) f t)

unfoldable pub factorial : ℕ → ℕ
factorial zero = 1
factorial (suc n) = suc n * factorial n

-- The job after a number of duplications, at the times given.
pub duplicates : List ℕ → JobInfo → JobInfo
duplicates [] job = job
duplicates (now ∷ later) job = duplicate now (duplicates later job)

duplicates-restarts :
    (times : List ℕ) (job : JobInfo)
    → job.restarts ≡ 0
    → length times < 256
    → (duplicates times job).restarts ≡ length times
unfolding duplicates duplicate
duplicates-restarts [] job z h = z
duplicates-restarts (now ∷ times) job z h =
    omega (arith, duplicates-restarts times job z (omega arith))

-- A job that has just been handed out for the first time, with timeout T, has the timeout n! T
-- once it has been duplicated n times, for n up to 256, as long as n! T is less than 2 ^ 63.
pub duplicates-factorial :
    (times : List ℕ) (job : JobInfo)
    → job.restarts ≡ 0
    → length times ≤ 256
    → factorial (length times) * job.timeout < 2 ^ 63
    → (duplicates times job).timeout ≡ factorial (length times) * job.timeout
unfolding duplicates duplicate factorial
duplicates-factorial [] job z h b = omega arith
duplicates-factorial (now ∷ times) job z h b =
    let more = one_more (length times) (factorial (length times)) job.timeout in
    rw
      (
        duplicates-restarts times job z (omega arith),
        duplicates-factorial times job z (omega arith) (omega (arith, more)),
      )
      (mod-eq_of_lt (omega (arith, more)) ∙ more)

abbrev entered : Bytes → JobInfo → List Bytes × Dict JobInfo → List Bytes × Dict JobInfo
entered name job rest = (rest.0, (name, job) ∷ rest.1)

-- The job's timeout, raised once, is still a signed number of 64 bits.
abbrev pub IsRaisable : JobInfo → Type 0
IsRaisable job = job.timeout + job.restarts * job.timeout < 2 ^ 63

is_late-duplicate :
    (now : ℕ) (job : JobInfo) → IsRaisable job → is_late now (duplicate now job) ≡ false
unfolding is_late duplicate
is_late-duplicate now job h =
    let whole : (job.timeout + job.restarts * job.timeout) % 2 ^ 64
        ≡ job.timeout + job.restarts * job.timeout =
      mod-eq_of_lt (omega arith) in
    rw whole (ground arith)

check_jobs_late :
    (now : ℕ) (name : Bytes) (job : JobInfo) (jobs : Dict JobInfo)
    → is_late now job ≡ true
    → check_jobs now ((name, job) ∷ jobs)
      ≡ (name ∷ (check_jobs now jobs).0, (name, duplicate now job) ∷ (check_jobs now jobs).1)
unfolding check_jobs
check_jobs_late now name job jobs h = rw h refl

check_jobs_on_time :
    (now : ℕ) (name : Bytes) (job : JobInfo) (jobs : Dict JobInfo)
    → is_late now job ≡ false
    → check_jobs now ((name, job) ∷ jobs) ≡ entered name job (check_jobs now jobs)
unfolding check_jobs
check_jobs_on_time now name job jobs h = rw h refl

-- Where no timeout overflows when it is raised, which C++ leaves undefined, a check leaves no job late: a
-- second one at the same time finds none and changes nothing, and no job is lost or added.
pub check_jobs-settles :
    (now : ℕ) (jobs : Dict JobInfo)
    → All (λ (job : Bytes × JobInfo). IsRaisable job.1) jobs
    → (check_jobs now (check_jobs now jobs).1 ≡ ([], (check_jobs now jobs).1))
      × (map (λ job. job.0) (check_jobs now jobs).1 ≡ map (λ job. job.0) jobs)
check_jobs-settles now [] a = unfold check_jobs in (refl, refl)
check_jobs-settles now ((name, job) ∷ jobs) a =
    let ih = check_jobs-settles now jobs a.1 in
    elim (Bool-cases (is_late now job)) [
      | inl late ↦ rw (check_jobs_late now name job jobs late) (
        check_jobs_on_time now name (duplicate now job) _ (is_late-duplicate now job a.0)
            ∙ ap (entered name (duplicate now job)) ih.0,
        ap (◌∷◌ name) ih.1,
      )
      | inr on_time ↦ rw (check_jobs_on_time now name job jobs on_time) (
        check_jobs_on_time now name job _ on_time ∙ ap (entered name job) ih.0,
        ap (◌∷◌ name) ih.1,
      )
    ]
