-- ===== src/Reductor/Engines.antt =====
-- The search for an engine that can take a job.
use gg.Prelude.{
  true, ◌∙◌, suc, ◌≤◌, ◌≡◌, refl, Bool, false, ◌&&◌, ◌||◌, not, List, [], ◌∷◌, arith, if◌then◌else◌,
  leb, All,
}
use gg.Thunk.{Thunk}
use package.gg.Reductor.{
  EngineOps, ExecState, cannot_be_executed, full_capacity, full_fallback_capacity, executing,
  try_engines, try_fallback, place,
}

module _ {E : Type 0} (ops : EngineOps E) (t : Thunk) where
  -- Some engine of the list can run the job.
  pub able : List E → Bool
  able [] = false
  able (e ∷ es) = ops.can_execute e t || able es

  -- Some engine of the list can run the job and has room for it.
  pub free : List E → Bool
  free [] = false
  free (e ∷ es) = (ops.can_execute e t && not (leb (ops.max_jobs e) (ops.job_count e))) || free es

  -- The first engine that can run the job and has room for it is given it; no other one is.
  unfoldable pub hand_out : List E → List E
  hand_out [] = []
  hand_out (e ∷ es) =
      let rest = hand_out es in
      if ops.can_execute e t && not (leb (ops.max_jobs e) (ops.job_count e))
      then ops.force e t ∷ es
      else e ∷ rest

  try_engines-engines :
      (full state : ExecState) (es : List E) → (try_engines ops full t state es).1 ≡ hand_out es
  unfolding try_engines hand_out
  try_engines-engines full state [] = refl
  try_engines-engines full state (e ∷ es) =
      ground (arith, try_engines-engines full full es, try_engines-engines full state es)

  try_engines-state :
      (full state : ExecState) (es : List E)
      → (try_engines ops full t state es).0
        ≡ (if free es then executing else if able es then full else state)
  unfolding try_engines able free
  try_engines-state full state [] = refl
  try_engines-state full state (e ∷ es) =
      ground (arith, try_engines-state full full es, try_engines-state full state es)

  place-state :
      (es fs : List E)
      → (place ops t es fs).0 ≡ (
          if free es
          then executing
          else if able es
          then full_capacity
          else if free fs
          then executing
          else if able fs
          then full_fallback_capacity
          else cannot_be_executed)
  unfolding place try_fallback
  place-state es fs = ground (
    arith,
    try_engines-state full_capacity cannot_be_executed es,
    try_engines-state full_fallback_capacity cannot_be_executed fs,
  )

  free-able : (es : List E) → free es ≡ true → able es ≡ true
  unfolding free able
  free-able [] h = h
  free-able (e ∷ es) h = ground (arith, free-able es)

  try_fallback-engines :
      (tried : ExecState × List E) (fs : List E) → (try_fallback ops t tried fs).1 ≡ tried.1
  unfolding try_fallback
  try_fallback-engines (cannot_be_executed, es) fs = refl
  try_fallback-engines (full_capacity, es) fs = refl
  try_fallback-engines (full_fallback_capacity, es) fs = refl
  try_fallback-engines (executing, es) fs = refl

  abbrev is_refused : ExecState → Bool
  is_refused cannot_be_executed = true
  is_refused _ = false

  try_fallback-fallbacks :
      (tried : ExecState × List E) (fs : List E)
      → (try_fallback ops t tried fs).2 ≡ (if is_refused tried.0 then hand_out fs else fs)
  unfolding try_fallback
  try_fallback-fallbacks (cannot_be_executed, es) fs =
      try_engines-engines full_fallback_capacity cannot_be_executed fs
  try_fallback-fallbacks (full_capacity, es) fs = refl
  try_fallback-fallbacks (full_fallback_capacity, es) fs = refl
  try_fallback-fallbacks (executing, es) fs = refl

  refused-able :
      (es : List E)
      → is_refused (try_engines ops full_capacity t cannot_be_executed es).0 ≡ not (able es)
  refused-able es =
      ground (arith, try_engines-state full_capacity cannot_be_executed es, free-able es)

  place-engines : (es fs : List E) → (place ops t es fs).1 ≡ hand_out es
  unfolding place
  place-engines es fs =
      try_fallback-engines (try_engines ops full_capacity t cannot_be_executed es) fs
      ∙ try_engines-engines full_capacity cannot_be_executed es

  place-fallbacks : (es fs : List E) → (place ops t es fs).2 ≡ (if able es then fs else hand_out fs)
  unfolding place
  place-fallbacks es fs =
      try_fallback-fallbacks (try_engines ops full_capacity t cannot_be_executed es) fs
      ∙ ground (arith, refused-able es)

  -- The search ends in the state that the engines' room and abilities say. The job is given to the
  -- first engine that can run it and has room, and to no other; a fallback engine is given it only
  -- if no other engine can run it at all, full or not.
  pub place_lem :
      (es fs : List E)
      → ((place ops t es fs).0 ≡ (
          if free es
          then executing
          else if able es
          then full_capacity
          else if free fs
          then executing
          else if able fs
          then full_fallback_capacity
          else cannot_be_executed))
        × ((place ops t es fs).1 ≡ hand_out es)
        × ((place ops t es fs).2 ≡ (if able es then fs else hand_out fs))
  place_lem es fs = (place-state es fs, place-engines es fs, place-fallbacks es fs)

  -- No engine has more jobs than it may.
  abbrev pub HasRoom : E → Type 0
  HasRoom e = ops.job_count e ≤ ops.max_jobs e

  module _ (counts : (e : E) → ops.job_count (ops.force e t) ≤ suc (ops.job_count e))
      (keeps : (e : E) → ops.max_jobs (ops.force e t) ≡ ops.max_jobs e) where
    try_engines-capacity :
        (full state : ExecState) (es : List E)
        → All HasRoom es
        → All HasRoom (try_engines ops full t state es).1
    unfolding try_engines
    try_engines-capacity full state [] a = tt
    try_engines-capacity full state (e ∷ es) a = ground (
      arith,
      try_engines-capacity full full es a.1,
      try_engines-capacity full state es a.1,
      a.0,
      counts e,
      keeps e,
    )

    try_fallback-capacity :
        (tried : ExecState × List E) (fs : List E)
        → All HasRoom tried.1
        → All HasRoom fs
        → All HasRoom (try_fallback ops t tried fs).1 × All HasRoom (try_fallback ops t tried fs).2
    unfolding try_fallback
    try_fallback-capacity (cannot_be_executed, es) fs a b =
        (a, try_engines-capacity full_fallback_capacity cannot_be_executed fs b)
    try_fallback-capacity (full_capacity, es) fs a b = (a, b)
    try_fallback-capacity (full_fallback_capacity, es) fs a b = (a, b)
    try_fallback-capacity (executing, es) fs a b = (a, b)

    -- Handing a job out never gives an engine more jobs than it may have, if `force_thunk` gives
    -- an engine that takes it at most one job more and keeps the number that it may have.
    pub place-capacity :
        (es fs : List E)
        → All HasRoom es
        → All HasRoom fs
        → All HasRoom (place ops t es fs).1 × All HasRoom (place ops t es fs).2
    unfolding place
    place-capacity es fs a b =
        try_fallback-capacity (try_engines ops full_capacity t cannot_be_executed es) fs
          (try_engines-capacity full_capacity cannot_be_executed es a) b
