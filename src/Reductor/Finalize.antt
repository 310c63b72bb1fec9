-- ===== src/Reductor/Finalize.antt =====
-- What the end of a job does to the queue and to the targets.
use gg.Prelude.{
  ℕ, ◌≡◌, refl, sym, subst, ◌∙◌, ◌⊎◌, inl, inr, true, false, Option, none, some, List, [], ◌∷◌,
  ◌++◌, append-nil, arith, Result, ok, ◌>>=◌, >>=-eq-ok, ok-injective, Result-cases,
}
use gg.Text.{Bytes, ≈_iff}
use gg.Dict.{TextSet, erase, member, remove, member-remove}
use gg.Hash
use gg.Hash.{ObjectType, value, thunk, Digest}
use gg.Thunk.{ThunkOutput}
use gg.Thunk.Wire.{Codec}
use gg.Graph.{Graph, force_thunk, original_hash}
use package.gg.Reductor.{Reductor, finalize_execution, forced, settle}

-- What the end of the job `old` does to the state: the job is not running any more, the queue
-- grows at its end, and the only target that may be settled is the one that `old` stands for, if
-- its value is there.
pub record Progress (old : Bytes) (first : ThunkOutput) (r r' : Reductor) : Type 0 where
  pub running : r'.running_jobs ≡ erase r.running_jobs old
  pub queued : (jobs : List Bytes) × (r'.job_queue ≡ r.job_queue ++ jobs)
  pub no_new_target :
      (h : Bytes) → member r'.remaining_targets h ≡ true → member r.remaining_targets h ≡ true
  pub settled :
      (h : Bytes)
      → member r.remaining_targets h ≡ true
      → (member r'.remaining_targets h ≡ true)
        ⊎ ((Hash.type first.hash ≡ ok value) × (h ≡ original_hash r'.dep_graph old))

abbrev entered : Bytes → Graph → Reductor → Reductor
entered old g r = record r { running_jobs = erase r.running_jobs old; dep_graph = g }

entered-Progress :
    (old : Bytes) (first : ThunkOutput) (g : Graph) (r : Reductor)
    → Progress old first r (entered old g r)
entered-Progress old first g r = record {
  running = refl;
  queued = ([], sym (append-nil r.job_queue));
  no_new_target = λ h m. m;
  settled = λ h m. inl m;
}

removed : (s : TextSet) (k h : Bytes) → member (remove s k) h ≡ true → member s h ≡ true
removed s k h m = ground (arith, member-remove s k h)

kept : (s : TextSet) (k h : Bytes) → member s h ≡ true → (member (remove s k) h ≡ true) ⊎ (h ≡ k)
kept s k h m = ground (arith, member-remove s k h, ≈_iff k h)

forced-Progress :
    (old : Bytes) (first : ThunkOutput) (g : Graph) (r : Reductor) (jobs : TextSet) (t : ObjectType)
    → Hash.type first.hash ≡ ok t
    → Progress old first r (forced t old (some jobs) (entered old g r))
unfolding forced settle
forced-Progress old first g r jobs value e = record {
  running = refl;
  queued = (jobs, refl);
  no_new_target = λ h m. removed r.remaining_targets (original_hash g old) h m;
  settled = λ h m. elim (kept r.remaining_targets (original_hash g old) h m) [
    | inl stays ↦ inl stays
    | inr same ↦ inr (e, same)
  ];
}
forced-Progress old first g r jobs thunk e = record {
  running = refl;
  queued = (jobs, refl);
  no_new_target = λ h m. m;
  settled = λ h m. inl m;
}

module _ (d : Digest) (c : Codec) where
  after : Bytes → ThunkOutput → Option TextSet × Graph → Reductor → Result Reductor
  after old first (none, g) r = ok (entered old g r)
  after old first (some jobs, g) r =
      Hash.type first.hash >>= λ t. ok (forced t old (some jobs) (entered old g r))

  after-Progress :
      (old : Bytes) (first : ThunkOutput) (result : Option TextSet × Graph) (r r' : Reductor)
      → after old first result r ≡ ok r'
      → Progress old first r r'
  unfolding after
  after-Progress old first (none, g) r r' e =
      subst (Progress old first r) (ok-injective e) (entered-Progress old first g r)
  after-Progress old first (some jobs, g) r r' e =
      let a = >>=-eq-ok (Hash.type first.hash) _ e in
      subst (Progress old first r) (ok-injective a.2) (forced-Progress old first g r jobs a.0 a.1)

  finalize_execution-after :
      (fuel : ℕ) (old : Bytes) (first : ThunkOutput) (rest : List ThunkOutput) (r : Reductor)
      → finalize_execution d c fuel old (first ∷ rest) r
        ≡ (force_thunk d c fuel old first rest r.dep_graph >>= λ result. after old first result r)
  unfolding finalize_execution after
  finalize_execution-after fuel old first rest r =
      elim (Result-cases (force_thunk d c fuel old first rest r.dep_graph)) [
        | inl ((none, g), e) ↦ rw e refl
        | inl ((some jobs, g), e) ↦ rw e refl
        | inr (x, e) ↦ rw e refl
      ]

  -- The end of a job takes it off the running jobs, puts new jobs behind the queue, and settles no
  -- target but the one that the job stands for, and that one only if the first output is a value.
  pub finalize_execution-Progress :
      (fuel : ℕ) (old : Bytes) (first : ThunkOutput) (rest : List ThunkOutput) (r r' : Reductor)
      → finalize_execution d c fuel old (first ∷ rest) r ≡ ok r'
      → Progress old first r r'
  finalize_execution-Progress fuel old first rest r r' e =
      let a =
        >>=-eq-ok (force_thunk d c fuel old first rest r.dep_graph) _
          (sym (finalize_execution-after fuel old first rest r) ∙ e) in
      after-Progress old first a.0 r r' a.2

  -- A target is settled at the end of a job only if the job stands for it and its first output is
  -- a value; the job is then off the running jobs.
  pub finalize_execution-settles :
      (fuel : ℕ) (old h : Bytes) (first : ThunkOutput) (rest : List ThunkOutput) (r r' : Reductor)
      → finalize_execution d c fuel old (first ∷ rest) r ≡ ok r'
      → member r.remaining_targets h ≡ true
      → member r'.remaining_targets h ≡ false
      → (Hash.type first.hash ≡ ok value)
        × (h ≡ original_hash r'.dep_graph old)
        × (r'.running_jobs ≡ erase r.running_jobs old)
  finalize_execution-settles fuel old h first rest r r' e was gone =
      let p = finalize_execution-Progress fuel old first rest r r' e in
      elim (p.settled h was) [
        | inl still ↦ absurd (ground arith)
        | inr settled ↦ (settled.0, settled.1, p.running)
      ]
