-- ===== src/Base/Results.antt =====
-- What a call of the program can raise, and the monad of calls that may raise.
use Prim.Native.String.{String}
use mathlib.Core.Path.{◌≡◌, refl, ap}
use mathlib.Core.Option.{Option, none, some}
use mathlib.Core.List.{List, [], ◌∷◌}

-- The exceptions that the services raise themselves. `attribute_error` is a relationship that
-- loads as `None` and is then dereferenced.
pub data Error : Type 0 where
  device_not_found test_suite_not_found test_run_not_found : Error
  no_available_devices : String → Error
  invalid_job_transition : Error
  attribute_error : Error
  template_error : Error

-- A call that raises ends there; a call that returns is followed by the rest.
pub data Result {ℓ} (T : Type ℓ) : Type ℓ where
  err : Error → Result T
  ok : T → Result T

-- `if x is None: raise e`.
abbrev pub or_fail {ℓ} : {A : Type ℓ} → Option A → Error → Result A
or_fail none e = err e
or_fail (some a) e = ok a

infixl 5 ◌>>=◌ ◌>>◌
abbrev pub ◌>>=◌ {ℓ κ} : {T : Type ℓ} {U : Type κ} → Result T → (T → Result U) → Result U
err x >>= rest = err x
ok v >>= rest = rest v

abbrev pub ◌>>◌ {ℓ} : {U : Type ℓ} → Result (Unit {0}) → Result U → Result U
check >> rest = check >>= λ _. rest

pub ok-injective {ℓ} : {A : Type ℓ} {a b : A} → ◌≡◌ {A = Result A} (ok a) (ok b) → a ≡ b
ok-injective {A} {a} e = ap (λ (r : Result A). elim r [ ok x ↦ x | err _ ↦ a ]) e

pub or_fail-eq-ok {ℓ} :
    {A : Type ℓ} (o : Option A) (x : Error) {a : A} → or_fail o x ≡ ok a → o ≡ some a
or_fail-eq-ok none x h = cc
or_fail-eq-ok (some a) x h = ap some (ok-injective h)

pub >>=-eq-ok {ℓ κ} :
    {T : Type ℓ} {U : Type κ} (call : Result T) (rest : T → Result U) {u : U}
    → (call >>= rest) ≡ ok u
    → (v : T) × (call ≡ ok v) × (rest v ≡ ok u)
>>=-eq-ok (err x) rest h = cc
>>=-eq-ok (ok v) rest h = (v, refl, h)

-- `[f(x) for x in xs]`, which raises where a call does.
unfoldable pub for_each {ℓ κ} :
    {A : Type ℓ} {B : Type κ} → (A → Result B) → List A → Result (List B)
for_each f [] = ok []
for_each f (x ∷ xs) = do y ← f x; ys ← for_each f xs; ok (y ∷ ys)
