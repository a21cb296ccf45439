-- ===== src/Tenancy/Binding.antt =====
-- Results that are bound: what a chain that gives a value says of its steps.
use shiori_api.Shared.{◌≡◌, refl, ap, Bool, true, false, arith}
use shiori_api.Exceptions.{Exception}
use shiori_api.Tenancy.{Result, ok, err, IfOk, ◌>>=◌}

-- The first step gives a value, and the rest gives the last from it.
pub data Bound {A B : Type 0} (r : Result A) (f : A → Result B) (b : B) : Type 0 where
  bound : (a : A) → r ≡ ok a → f a ≡ ok b → Bound r f b

is_ok : {A : Type 0} → Result A → Bool
is_ok (ok a) = true
is_ok (err e) = false

pub err_not_ok : {A : Type 0} (e : Exception) (a : A) → err e ≡ ok a → ⊥
unfolding is_ok
err_not_ok e a h = let c = ap is_ok h in ground arith

pub bound-cases :
    {A B : Type 0} (r : Result A) (f : A → Result B) (b : B) → (r >>= f) ≡ ok b → Bound r f b
bound-cases (ok a) f b h = bound a refl h
bound-cases (err e) f b h = absurd (err_not_ok e b h)

or_else : {A : Type 0} → A → Result A → A
or_else d (ok a) = a
or_else d (err e) = d

pub ok_injective : {A : Type 0} (a b : A) → ok a ≡ ok b → a ≡ b
unfolding or_else
ok_injective a b h = ap (or_else a) h

pub if_given-IfOk :
    {A : Type 0} (P : A → Type 0) (r : Result A) → ((a : A) → r ≡ ok a → P a) → IfOk P r
if_given-IfOk P (ok a) h = h a refl
if_given-IfOk P (err e) h = tt

pub data ResultCases {A : Type 0} (r : Result A) : Type 0 where
  gives : (a : A) → r ≡ ok a → ResultCases r
  throws : (e : Exception) → r ≡ err e → ResultCases r

pub result-cases : {A : Type 0} (r : Result A) → ResultCases r
result-cases (ok a) = gives a refl
result-cases (err e) = throws e refl
