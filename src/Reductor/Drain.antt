-- ===== src/Reductor/Drain.antt =====
-- The loop over the queue makes such steps only.
use gg.Prelude.{
  ℕ, zero, suc, ◌≡◌, refl, sym, subst, ◌∙◌, ◌⊎◌, inl, inr, Bool, true, false, Option, none, some,
  List, [], ◌∷◌, if◌then◌else◌, Result, ok, err, out_of_range, out_of_fuel, unix_error, ◌>>=◌,
  >>=-eq-ok, ok-injective, err-ne-ok,
}
use gg.Text.{Bytes}
use gg.Dict.{get, at}
use gg.Hash.{Digest}
use gg.Thunk.{ThunkOutput}
use gg.Thunk.Wire.{Codec, read}
use package.gg.Reductor.{Reductor, EngineOps, place, finalize_execution}
use package.gg.Reductor.Reduce.{Turn, placed, run_job, follow_cache, cached_outputs, drain}
use package.gg.Reductor.Steps.{Step, handed, cached, Tracked, Ends, Step-Tracked}

-- The job is one of those that ended.
abbrev pub Ended : Bytes → List (Option Bytes) → Type 0
Ended h [] = ⊥
Ended h (done ∷ more) = Ends h done ⊎ Ended h more

module _ {E : Type 0} (ops : EngineOps E) (d : Digest) (c : Codec)
    (check : Bytes → Option Bytes) where
  -- A sequence of steps, with the jobs that end in it.
  pub data Steps : Reductor → List (Option Bytes) → Reductor → Type 0 where
    stay : {r : Reductor} → Steps r [] r
    step :
        {r r' r'' : Reductor} {done : Option Bytes} {more : List (Option Bytes)}
        → Step ops d c check r done r'
        → Steps r' more r''
        → Steps r (done ∷ more) r''

  abbrev pub OneStep : Reductor → Reductor → Type 0
  OneStep r r' = (done : Option Bytes) × Step ops d c check r done r'

  finalized :
      (fuel : ℕ) (hash : Bytes) (queue : List Bytes) (outputs : List ThunkOutput) (r r' : Reductor)
      → r.job_queue ≡ hash ∷ queue
      → finalize_execution d c fuel hash outputs (record r { job_queue = queue }) ≡ ok r'
      → OneStep r r'
  unfolding finalize_execution
  finalized fuel hash queue [] r r' q e = absurd (err-ne-ok (out_of_range "at") r' e)
  finalized fuel hash queue (first ∷ rest) r r' q e =
      (some hash, cached fuel hash queue first rest r r' q e)

  from_cache : ℕ → Bytes → List E → List E → Reductor → Option Bytes → Result (Turn E)
  from_cache fuel hash es fs r none = err (unix_error "open")
  from_cache fuel hash es fs r (some contents) = read c contents hash >>= λ t.
      cached_outputs check hash t.outputs >>= λ outputs.
      finalize_execution d c fuel hash outputs r >>= λ r'.
      ok (record { more = true; state = r'; engines = es; fallbacks = fs })

  from_cache-Step :
      (fuel : ℕ) (hash : Bytes) (queue : List Bytes) (es fs : List E) (r : Reductor)
      (o : Option Bytes) (turn : Turn E)
      → r.job_queue ≡ hash ∷ queue
      → from_cache fuel hash es fs (record r { job_queue = queue }) o ≡ ok turn
      → OneStep r turn.state
  unfolding from_cache
  from_cache-Step fuel hash queue es fs r none turn q e = absurd (err-ne-ok _ turn e)
  from_cache-Step fuel hash queue es fs r (some contents) turn q e =
      let t = >>=-eq-ok (read c contents hash) _ e in
      let o = >>=-eq-ok (cached_outputs check hash t.0.outputs) _ t.2 in
      let f =
        >>=-eq-ok (finalize_execution d c fuel hash o.0 (record r { job_queue = queue })) _ o.2 in
      subst (λ u. OneStep r u.state) (ok-injective f.2) (finalized fuel hash queue o.0 r f.0 q f.1)

  searched : ℕ → ℕ → Bytes → List E → List E → Reductor → Option Bytes → Result (Turn E)
  searched fuel now hash es fs r (some _) =
      from_cache fuel hash es fs r (get r.dep_graph.blobs hash)
  searched fuel now hash es fs r none =
      at r.dep_graph.thunks hash >>= λ t. placed ops d c check now hash t (place ops t es fs) r

  searched-Step :
      (fuel now : ℕ) (hash : Bytes) (queue : List Bytes) (es fs : List E) (r : Reductor)
      (o : Option Bytes) (turn : Turn E)
      → r.job_queue ≡ hash ∷ queue
      → searched fuel now hash es fs (record r { job_queue = queue }) o ≡ ok turn
      → OneStep r turn.state
  unfolding searched
  searched-Step fuel now hash queue es fs r (some x) turn q e =
      from_cache-Step fuel hash queue es fs r (get r.dep_graph.blobs hash) turn q e
  searched-Step fuel now hash queue es fs r none turn q e =
      let t = >>=-eq-ok (at r.dep_graph.thunks hash) _ e in
      (none, handed now hash queue t.0 es fs r turn q t.2)

  run_job-searched :
      (fuel now : ℕ) (hash : Bytes) (es fs : List E) (r : Reductor)
      → run_job ops d c check fuel now hash es fs r
        ≡ (follow_cache check fuel hash none >>= λ o. searched fuel now hash es fs r o)
  unfolding run_job searched from_cache
  run_job-searched fuel now hash es fs r = refl

  run_job-Step :
      (fuel now : ℕ) (hash : Bytes) (queue : List Bytes) (es fs : List E) (r : Reductor)
      (turn : Turn E)
      → r.job_queue ≡ hash ∷ queue
      → run_job ops d c check fuel now hash es fs (record r { job_queue = queue }) ≡ ok turn
      → OneStep r turn.state
  run_job-Step fuel now hash queue es fs r turn q e =
      let o =
        >>=-eq-ok (follow_cache check fuel hash none) _
          (sym (run_job-searched fuel now hash es fs (record r { job_queue = queue })) ∙ e) in
      searched-Step fuel now hash queue es fs r o.0 turn q o.2

  next_turn : ℕ → ℕ → Turn E → Bool → Result (Turn E)
  next_turn fuel now turn more =
      if more then drain ops d c check fuel now turn.engines turn.fallbacks turn.state else ok turn

  -- What the loop does with the queue as it finds it.
  drained : ℕ → ℕ → List E → List E → Reductor → List Bytes → Result (Turn E)
  drained fuel now es fs r [] =
      ok (record { more = false; state = r; engines = es; fallbacks = fs })
  drained fuel now es fs r (hash ∷ queue) =
      run_job ops d c check fuel now hash es fs (record r { job_queue = queue }) >>= λ turn.
      next_turn fuel now turn turn.more

  drain-drained :
      (fuel now : ℕ) (es fs : List E) (r : Reductor) (queue : List Bytes)
      → r.job_queue ≡ queue
      → drain ops d c check (suc fuel) now es fs r ≡ drained fuel now es fs r queue
  unfolding drain drained next_turn
  drain-drained fuel now es fs r [] q = rw q refl
  drain-drained fuel now es fs r (hash ∷ queue) q = rw q refl

  drain-zero :
      (now : ℕ) (es fs : List E) (r : Reductor) (turn : Turn E)
      → ¬ (drain ops d c check zero now es fs r ≡ ok turn)
  unfolding drain
  drain-zero now es fs r turn e = err-ne-ok out_of_fuel turn e

  pub Reaches : Reductor → Reductor → Type 0
  Reaches r r' = (done : List (Option Bytes)) × Steps r done r'

  Reaches-step : (r r' r'' : Reductor) → OneStep r r' → Reaches r' r'' → Reaches r r''
  unfolding Reaches
  Reaches-step r r' r'' (done, s) (more, ss) = (done ∷ more, step s ss)

  next_turn-Reaches :
      (fuel now : ℕ) (before turn : Turn E) (more : Bool)
      → ((t : Turn E)
          → drain ops d c check fuel now before.engines before.fallbacks before.state ≡ ok t
          → Reaches before.state t.state)
      → next_turn fuel now before more ≡ ok turn
      → Reaches before.state turn.state
  unfolding next_turn Reaches
  next_turn-Reaches fuel now before turn true rec e = rec turn e
  next_turn-Reaches fuel now before turn false rec e =
      subst (λ u. Reaches before.state u.state) (ok-injective e) ([], stay)

  drained-Reaches :
      (fuel now : ℕ) (es fs : List E) (r : Reductor) (queue : List Bytes) (turn : Turn E)
      → r.job_queue ≡ queue
      → ((t b : Turn E)
          → drain ops d c check fuel now b.engines b.fallbacks b.state ≡ ok t
          → Reaches b.state t.state)
      → drained fuel now es fs r queue ≡ ok turn
      → Reaches r turn.state
  unfolding drained Reaches
  drained-Reaches fuel now es fs r [] turn q rec e =
      subst (λ u. Reaches r u.state) (ok-injective e) ([], stay)
  drained-Reaches fuel now es fs r (hash ∷ queue) turn q rec e =
      let b =
        >>=-eq-ok (run_job ops d c check fuel now hash es fs (record r { job_queue = queue })) _
          e in
      Reaches-step r b.0.state turn.state (run_job-Step fuel now hash queue es fs r b.0 q b.1)
        (next_turn-Reaches fuel now b.0 turn b.0.more (λ t. rec t b.0) b.2)

  -- Whatever the loop over the queue does is a sequence of steps.
  pub drain-Reaches :
      (fuel now : ℕ) (es fs : List E) (r : Reductor) (turn : Turn E)
      → drain ops d c check fuel now es fs r ≡ ok turn
      → Reaches r turn.state
  drain-Reaches zero now es fs r turn e = absurd (drain-zero now es fs r turn e)
  drain-Reaches (suc fuel) now es fs r turn e =
      drained-Reaches fuel now es fs r r.job_queue turn refl
        (λ t b. drain-Reaches fuel now b.engines b.fallbacks b.state t)
        (sym (drain-drained fuel now es fs r r.job_queue refl) ∙ e)

  Steps-Tracked :
      (h : Bytes) (r : Reductor) (done : List (Option Bytes)) (r' : Reductor)
      → Steps r done r'
      → Tracked h r
      → Tracked h r' ⊎ Ended h done
  Steps-Tracked h r _ _ stay k = inl k
  Steps-Tracked h r _ r'' (step s ss) k = elim (Step-Tracked ops d c check h r _ _ s k) [
    | inr ends ↦ inr (inl ends)
    | inl stays ↦ elim (Steps-Tracked h _ _ r'' ss stays) [
      | inl still ↦ inl still
      | inr later ↦ inr (inr later)
    ]
  ]

  -- When the loop over the queue stops, it has lost no job: one that was in the queue or handed
  -- out still is, or has ended in the sequence of steps that leads there.
  pub drain-Tracked :
      (fuel now : ℕ) (es fs : List E) (r : Reductor) (turn : Turn E) (h : Bytes)
      → drain ops d c check fuel now es fs r ≡ ok turn
      → Tracked h r
      → (done : List (Option Bytes)) × Steps r done turn.state
        × (Tracked h turn.state ⊎ Ended h done)
  unfolding Reaches
  drain-Tracked fuel now es fs r turn h e k =
      let path = drain-Reaches fuel now es fs r turn e in
      (path.0, path.1, Steps-Tracked h r path.0 turn.state path.1 k)
