-- ===== src/MeowEngine/Queue.antt =====
-- The thunks that wait get the workers that connect.
use gg.Prelude.{
  some, drop_all, ℕ, zero, suc, ◌+◌, ◌^◌, ◌<◌, ◌≤◌, ◌≡◌, refl, ap, sym, subst, ◌∙◌, List, [], ◌∷◌,
  ◌++◌, map, append_assoc, append-nil, arith, length, drop,
}
use gg.Text.{Bytes}
use gg.Dict.{member, add_all}
use gg.Thunk.{Thunk}
use gg.Meow.{Message}
use package.gg.MeowEngine.{
  Lambda, MeowEngine, busy, change, put_missing, prepared, objects_of, serve_queue, connected,
  prepare_lambda,
}
use package.gg.MeowEngine.Pool.{IsAscending, IsAscending-below}
use package.gg.MeowEngine.Invariant.{
  IsConsistent, newcomer, joined, connected-serve_queue, connected-IsConsistent,
}

drop-drop_one : {A : Type 0} (n : ℕ) (xs : List A) → drop n (drop 1 xs) ≡ drop (suc n) xs
drop-drop_one n [] = drop_all n [] (omega arith)
drop-drop_one n (x ∷ xs) = refl

change-newcomer :
    (low high : ℕ) (f : Lambda → Lambda) (ls : List Lambda)
    → IsAscending low high ls
    → change high f (ls ++ newcomer high ∷ []) ≡ ls ++ f (newcomer high) ∷ []
unfolding change IsAscending
change-newcomer low high f [] a = ground arith
change-newcomer low high f (l ∷ ls) a =
    ground
      (arith, change-newcomer (suc l.id) high f ls a.1, IsAscending-below (suc l.id) high ls a.1)

module _ (put_message : Bytes → Message) (execute_message : Thunk → Message) where
  -- Workers connect, one after the other.
  unfoldable pub connect_all : ℕ → MeowEngine → MeowEngine
  connect_all zero e = e
  connect_all (suc n) e = connect_all n (connected put_message execute_message e)

  -- A worker that has been sent each object of a thunk, and then the thunk.
  abbrev pub working : Thunk → ℕ → Lambda
  working t id = record {
    id = id;
    state = busy;
    objects = add_all [] (objects_of t);
    executing_thunk = some t;
    written = map put_message (objects_of t) ++ execute_message t ∷ [];
  }

  -- The first workers that connect get the thunks, in their order; the others are idle.
  unfoldable pub newcomers : ℕ → ℕ → List Thunk → List Lambda
  newcomers id zero ts = []
  newcomers id (suc n) [] = newcomer id ∷ newcomers (id + 1) n []
  newcomers id (suc n) (t ∷ ts) = working t id ∷ newcomers (id + 1) n ts

  put_missing-nil :
      (names : List Bytes)
      → put_missing put_message execute_message [] names ≡ map put_message names
  unfolding put_missing member
  put_missing-nil [] = refl
  put_missing-nil (name ∷ names) = ap (◌∷◌ (put_message name)) (put_missing-nil names)

  prepared-newcomer :
      (t : Thunk) (id : ℕ) → prepared put_message execute_message t (newcomer id) ≡ working t id
  unfolding prepared
  prepared-newcomer t id = rw (put_missing-nil (objects_of t)) refl

  -- What a number of connections do to the queue, the next id and the workers.
  Served : MeowEngine → MeowEngine → ℕ → Type 0
  Served e e' n =
      (e'.thunks_queue ≡ drop n e.thunks_queue)
      × (e'.current_id ≡ e.current_id + n)
      × (e'.lambdas ≡ e.lambdas ++ newcomers e.current_id n e.thunks_queue)

  serve_queue-Served :
      (ts : List Thunk) (e : MeowEngine)
      → IsConsistent e
      → e.thunks_queue ≡ ts
      → Served e (serve_queue put_message execute_message e.current_id ts (joined e)) 1
  unfolding serve_queue Served prepare_lambda newcomers
  serve_queue-Served [] e c q =
      (q ∙ sym (ap (drop 1) q), refl, sym (ap (λ ts. e.lambdas ++ newcomers e.current_id 1 ts) q))
  serve_queue-Served (t ∷ ts) e c q = (
    sym (ap (drop 1) q),
    refl,
    change-newcomer 0 e.current_id (prepared put_message execute_message t) e.lambdas c.ordered
        ∙ ap (λ l. e.lambdas ++ l ∷ []) (prepared-newcomer t e.current_id)
        ∙ sym (ap (λ us. e.lambdas ++ newcomers e.current_id 1 us) q),
  )

  connected-Served :
      (e : MeowEngine)
      → IsConsistent e
      → e.current_id + 1 < 2 ^ 64
      → Served e (connected put_message execute_message e) 1
  connected-Served e c b =
      subst (λ (e' : MeowEngine). Served e e' 1)
        (sym (connected-serve_queue put_message execute_message e e.thunks_queue refl b))
        (serve_queue-Served e.thunks_queue e c refl)

  newcomers-suc :
      (id n : ℕ) (ts : List Thunk)
      → newcomers id (suc n) ts ≡ newcomers id 1 ts ++ newcomers (id + 1) n (drop 1 ts)
  unfolding newcomers
  newcomers-suc id n [] = refl
  newcomers-suc id n (t ∷ ts) = refl

  connect_all-Served :
      (n : ℕ) (e : MeowEngine)
      → IsConsistent e
      → e.current_id + n < 2 ^ 64
      → Served e (connect_all n e) n
  unfolding connect_all Served newcomers
  connect_all-Served zero e c b = (refl, omega arith, sym (append-nil e.lambdas))
  connect_all-Served (suc n) e c b =
      let next = connected put_message execute_message e in
      let below : e.current_id + 1 < 2 ^ 64 = omega arith in
      let once = connected-Served e c below in
      let rest =
        connect_all-Served n next (connected-IsConsistent put_message execute_message e c below)
          (omega (arith, once.1)) in
      (
        rest.0 ∙ ap (drop n) once.0 ∙ drop-drop_one n e.thunks_queue,
        omega (arith, rest.1, once.1),
        rest.2
            ∙ ap (λ ls. ls ++ newcomers next.current_id n next.thunks_queue) once.2
            ∙ append_assoc e.lambdas (newcomers e.current_id 1 e.thunks_queue)
                (newcomers next.current_id n next.thunks_queue)
            ∙ ap (λ ls. e.lambdas ++ ls)
                (cc (once.0, once.1, newcomers-suc e.current_id n e.thunks_queue)),
      )

  -- Where as many workers connect as thunks wait, and the ids do not run out, no thunk waits any
  -- more: the workers that were there are as they were, the first thunk of the queue goes to the
  -- first of those that connect, the next one to the next, each after the thunk's objects, and the
  -- others are idle.
  pub connect_all-serves :
      (n : ℕ) (e : MeowEngine)
      → IsConsistent e
      → length e.thunks_queue ≤ n
      → e.current_id + n < 2 ^ 64
      → ((connect_all n e).thunks_queue ≡ [])
        × ((connect_all n e).lambdas ≡ e.lambdas ++ newcomers e.current_id n e.thunks_queue)
  unfolding Served
  connect_all-serves n e c h b =
      let s = connect_all-Served n e c b in (s.0 ∙ drop_all n e.thunks_queue h, s.2)
