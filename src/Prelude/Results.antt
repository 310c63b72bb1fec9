-- ===== src/Prelude/Results.antt =====
-- Exceptions as values: what a function that may throw returns.
use Prim.Native.String.{String}
use mathlib.Core.Path.{◌≡◌, refl, subst}
use mathlib.Core.Bool.{Bool, true, false}
use mathlib.Core.Logic.{◌⊎◌, inl, inr}

-- `runtime_error` carries the constant part of the message; `assert_failed` is a failed
-- `assert`. `out_of_fuel` is the models' own: a recursion on fuel that has been given too little.
pub data Error : Type 0 where
  runtime_error out_of_range invalid_argument unix_error : String → Error
  assert_failed out_of_fuel : Error

pub data Result {ℓ} (A : Type ℓ) : Type ℓ where
  ok : A → Result A
  err : Error → Result A

-- Throws `e` where the test fails.
abbrev pub guard : Bool → Error → Result (Unit {0})
guard false e = err e
guard true e = ok tt

-- `r >>= step` runs `step` on what `r` returns; what `r` throws is thrown.
infixl 5 ◌>>=◌
abbrev pub ◌>>=◌ {ℓ κ} : {X : Type ℓ} {Y : Type κ} (r : Result X) (step : X → Result Y) → Result Y
err x >>= step = err x
ok v >>= step = step v

-- A step that returns nothing, and what comes after it.
infixl 5 ◌>>◌
abbrev pub ◌>>◌ {ℓ} : {Y : Type ℓ} (first : Result (Unit {0})) (next : Result Y) → Result Y
first >> next = first >>= λ none_. next

pub Result-cases {ℓ} :
    {A : Type ℓ} (r : Result A) → ((a : A) × (r ≡ ok a)) ⊎ ((e : Error) × (r ≡ err e))
Result-cases (ok a) = inl (a, refl)
Result-cases (err e) = inr (e, refl)

-- Where two actions in a row return, the first one returns.
pub >>=-eq-ok {ℓ κ} :
    {X : Type ℓ} {Y : Type κ} (r : Result X) (step : X → Result Y) {y : Y}
    → (r >>= step) ≡ ok y
    → (x : X) × (r ≡ ok x) × (step x ≡ ok y)
>>=-eq-ok (err x) step e = cc
>>=-eq-ok (ok v) step e = (v, refl, e)

pub ok-injective {ℓ} : {A : Type ℓ} {a b : A} → ok a ≡ ok b → a ≡ b
ok-injective e = cc

pub err-ne-ok {ℓ} : {A : Type ℓ} (x : Error) (a : A) → ¬ (err x ≡ ok a)
err-ne-ok x a e = cc

-- What the action returns, if it does, satisfies `P`.
abbrev pub Returns {ℓ κ} : {A : Type ℓ} (P : A → Type κ) → Result A → Type κ
Returns P (ok a) = P a
Returns P (err e) = Unit

pub >>=-Returns {ℓ κ μ ν} :
    {X : Type ℓ} {Y : Type κ} (P : X → Type μ) (Q : Y → Type ν) (r : Result X) (step : X → Result Y)
    → Returns P r
    → ((x : X) → P x → Returns Q (step x))
    → Returns Q (r >>= step)
>>=-Returns P Q (ok v) step h k = k v h
>>=-Returns P Q (err x) step h k = tt

pub Returns-elim {ℓ κ} :
    {A : Type ℓ} (P : A → Type κ) (r : Result A) (a : A) → Returns P r → r ≡ ok a → P a
Returns-elim P (ok b) a h e = subst P (ok-injective e) h
Returns-elim P (err x) a h e = absurd (err-ne-ok x a e)

pub >>=-Returns_any {ℓ κ ν} :
    {X : Type ℓ} {Y : Type κ} (Q : Y → Type ν) (r : Result X) (step : X → Result Y)
    → ((x : X) → Returns Q (step x))
    → Returns Q (r >>= step)
>>=-Returns_any Q (ok v) step k = k v
>>=-Returns_any Q (err x) step k = tt

-- What an action returns is what it returns.
pub Returns-self {ℓ} : {A : Type ℓ} (r : Result A) → Returns (λ a. r ≡ ok a) r
Returns-self (ok a) = refl
Returns-self (err x) = tt

pub Returns-map {ℓ κ μ} :
    {A : Type ℓ} (P : A → Type κ) (Q : A → Type μ) (r : Result A)
    → ((a : A) → P a → Q a)
    → Returns P r
    → Returns Q r
Returns-map P Q (ok a) f h = f a h
Returns-map P Q (err x) f h = tt
