-- ===== src/Prelude/Results.antt =====
-- A call that may raise: its value, or the refusal that it raises.
use mathlib.Core.Path.{◌≡◌, refl}
use mathlib.Core.Logic.{◌↔◌}
use mathlib.Core.List.{List, [], ◌∷◌}
use mathlib.Core.Bool.{Bool, true, false}
use mathlib.Core.Option.{Option, some}
use idol_id_agents.Prelude.Tests.{if◌then◌else◌}
use idol_id_agents.Prelude.Lists.{All}

pub data Result (E : Type 0) (A : Type 0) : Type 0 where
  ok : A → Result E A
  err : E → Result E A

infixl 5 ◌>>=◌ ◌>>◌
abbrev pub ◌>>=◌ : {E A B : Type 0} → Result E A → (A → Result E B) → Result E B
ok a >>= f = f a
err e >>= f = err e

abbrev pub ◌>>◌ : {E B : Type 0} → Result E (Unit {0}) → Result E B → Result E B
m >> k = m >>= λ _. k

-- `if test: raise e`.
abbrev pub refuse_if : {E : Type 0} → Bool → E → Result E (Unit {0})
refuse_if true e = err e
refuse_if false e = ok tt

-- A chain of refusals passes exactly when its first test fails to refuse and its rest passes.
pub refuse_if-ok :
    {E B : Type 0} (test : Bool) (e : E) (rest : Result E B) {b : B}
    → (refuse_if test e >> rest) ≡ ok b
    → (test ≡ false) × (rest ≡ ok b)
refuse_if-ok true e rest h = cc
refuse_if-ok false e rest h = (refl, h)

pub >>-ok :
    {E B : Type 0} (m : Result E (Unit {0})) (rest : Result E B) {b : B}
    → (m >> rest) ≡ ok b
    → (m ≡ ok tt) × (rest ≡ ok b)
>>-ok (ok tt) rest h = (refl, h)
>>-ok (err e) rest h = cc

-- A row of statements `if test: raise e`.
unfoldable pub first_refusal : {E : Type 0} → List (Bool × E) → Result E (Unit {0})
first_refusal [] = ok tt
first_refusal ((test, e) ∷ rest) = let later = first_refusal rest in if test then err e else later

-- The row passes exactly when no test of it holds.
pub first_refusal-ok :
    {E : Type 0} (rows : List (Bool × E))
    → (first_refusal rows ≡ ok tt) ↔ All (λ row. row.0 ≡ false) rows
unfolding first_refusal
first_refusal-ok [] = (λ h. tt, λ h. refl)
first_refusal-ok ((true, e) ∷ rest) = (λ h. cc, λ h. cc)
first_refusal-ok ((false, e) ∷ rest) =
    let (to, from) = first_refusal-ok rest in (λ h. (refl, to h), λ h. from h.1)

pub ok-injective : {E A : Type 0} {a b : A} → ◌≡◌ {A = Result E A} (ok a) (ok b) → a ≡ b
ok-injective h = cc

pub some-injective {ℓ} : {A : Type ℓ} {a b : A} → ◌≡◌ {A = Option A} (some a) (some b) → a ≡ b
some-injective h = cc

pub >>=-ok :
    {E A B : Type 0} (m : Result E A) (f : A → Result E B) {b : B}
    → (m >>= f) ≡ ok b
    → (a : A) × (m ≡ ok a) × (f a ≡ ok b)
>>=-ok (ok a) f h = (a, refl, h)
>>=-ok (err e) f h = cc
