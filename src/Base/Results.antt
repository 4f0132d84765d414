-- ===== src/Base/Results.antt =====
-- Results that may be an error.
use mathlib.Core.Path.{◌≡◌, refl}
use mathlib.Core.Option.{Option, none, some}
use mathlib.Core.Logic.{◌⊎◌, inl, inr}

module _ {ℓ κ μ} {E : Type ℓ} {F : Type κ} {A : Type μ} where
  -- The error of a call, wrapped by the caller.
  unfoldable pub fail_as : (E → F) → E ⊎ A → F ⊎ A
  fail_as wrap (inl err) = inl (wrap err)
  fail_as wrap (inr a) = inr a

-- What follows a call, unless it failed.
unfoldable pub and_then {ℓ κ μ} :
    {E : Type ℓ} {A : Type κ} {B : Type μ} → E ⊎ A → (A → E ⊎ B) → E ⊎ B
and_then (inl err) f = inl err
and_then (inr a) f = f a

-- A result is an error, or a value.
pub result-cases {ℓ κ} :
    {E : Type ℓ} {A : Type κ} (r : E ⊎ A) → ((err : E) × (r ≡ inl err)) ⊎ ((a : A) × (r ≡ inr a))
result-cases (inl err) = inl (err, refl)
result-cases (inr a) = inr (a, refl)

module _ {ℓ κ μ} {E : Type ℓ} {A : Type κ} (P : A → Type μ) where
  -- The value satisfies the predicate, if there is one.
  abbrev pub OnValue : E ⊎ A → Type μ
  OnValue (inl err) = Unit
  OnValue (inr a) = P a

pub OnValue-and_then {ℓ κ ν μ} :
    {E : Type ℓ} {A : Type κ} {B : Type ν} (P : B → Type μ) (r : E ⊎ A) (f : A → E ⊎ B)
    → ((a : A) → r ≡ inr a → OnValue P (f a))
    → OnValue P (and_then r f)
unfolding and_then
OnValue-and_then P (inl err) f h = tt
OnValue-and_then P (inr a) f h = h a refl

-- What follows a call that changes a state, unless it failed; the error is wrapped.
unfoldable pub try_then {ℓ κ μ ν ξ} :
    {E : Type ℓ} {F : Type κ} {A : Type μ} {B : Type ν} {W : Type ξ} (wrap : E → F)
    → (E ⊎ A) × W
    → (A → W → (F ⊎ B) × W)
    → (F ⊎ B) × W
try_then wrap (inl err, w) f = (inl (wrap err), w)
try_then wrap (inr a, w) f = f a w

-- A call that changes a state ends in an error, or in a value.
pub call-cases {ℓ κ μ} :
    {E : Type ℓ} {A : Type κ} {W : Type μ} (r : (E ⊎ A) × W)
    → ((err : E) × (w : W) × (r ≡ (inl err, w))) ⊎ ((a : A) × (w : W) × (r ≡ (inr a, w)))
call-cases (inl err, w) = inl (err, w, refl)
call-cases (inr a, w) = inr (a, w, refl)

-- A call that gives no value ends without an error, or in one.
pub done-cases {ℓ κ} :
    {E : Type ℓ} {W : Type κ} (r : Option E × W)
    → ((w : W) × (r ≡ (none, w))) ⊎ ((err : E) × (w : W) × (r ≡ (some err, w)))
done-cases (none, w) = inl (w, refl)
done-cases (some err, w) = inr (err, w, refl)
