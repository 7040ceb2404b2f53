-- ===== src/Base/Tests.antt =====
-- Boolean tests on the native numbers, the conditional, and case lemmas.
use Prim.Native.Nat.{ℕ, ◌<◌, compare, Ordering}
use mathlib.Core.Path.{◌≡◌, refl, ap}
use mathlib.Core.Logic.{◌↔◌, ◌⊎◌, inl, inr}
use mathlib.Core.Bool.{Bool, true, false, ◌||◌}
use mathlib.Core.Option.{Option, none, some}
use native.Mathlib.Omega.{arith}

abbrev pub ltb : ℕ → ℕ → Bool
ltb a b = elim (compare a b) [ Ordering.lt ↦ true | _ ↦ false ]

abbrev pub leb : ℕ → ℕ → Bool
leb a b = elim (compare a b) [ Ordering.gt ↦ false | _ ↦ true ]

infix 50 ◌==◌
abbrev pub ◌==◌ : ℕ → ℕ → Bool
a == b = elim (compare a b) [ Ordering.eq ↦ true | _ ↦ false ]

infix 1 if◌then◌else◌
abbrev pub if◌then◌else◌ {ℓ} : {A : Type ℓ} → Bool → A → A → A
if true then x else y = x
if false then x else y = y

pub ltb→lt : (a b : ℕ) → ltb a b ≡ true → a < b
ltb→lt a b h = ground arith

pub lt→ltb : (a b : ℕ) → a < b → ltb a b ≡ true
lt→ltb a b h = ground arith

pub ==_iff : (a b : ℕ) → ((a == b) ≡ true) ↔ (a ≡ b)
==_iff a b = ground arith

pub ==_refl : (a : ℕ) → (a == a) ≡ true
==_refl a = ground arith

-- To split on a computed value and keep the equation.
pub Bool-cases : (b : Bool) → (b ≡ true) ⊎ (b ≡ false)
Bool-cases true = inl refl
Bool-cases false = inr refl

pub Option-cases {ℓ} : {A : Type ℓ} (o : Option A) → (o ≡ none) ⊎ ((a : A) × (o ≡ some a))
Option-cases none = inl refl
Option-cases (some a) = inr (a, refl)

-- Equality of optional numbers, in Go a comparison of two pointers' targets with nil apart.
abbrev pub opt_eq : Option ℕ → Option ℕ → Bool
opt_eq none none = true
opt_eq none (some b) = false
opt_eq (some a) none = false
opt_eq (some a) (some b) = a == b

abbrev pub is_none {ℓ} : {A : Type ℓ} → Option A → Bool
is_none none = true
is_none (some _) = false

-- Equality of Booleans, as columns are compared.
abbrev pub eqb : Bool → Bool → Bool
eqb true true = true
eqb true false = false
eqb false true = false
eqb false false = true

-- What is known past a guard that refuses.
pub past_guard {ℓ κ} :
    {A : Type ℓ} {B : Type κ} (b : Bool) (e : A) (x : A ⊎ B) (v : B)
    → (if b then inl e else x) ≡ inr v
    → (b ≡ false) × (x ≡ inr v)
past_guard true e x v h = ground arith
past_guard false e x v h = (refl, h)

pub inr_injective {ℓ κ} :
    {A : Type ℓ} {B : Type κ} (u v : B) → ◌≡◌ {A = A ⊎ B} (inr u) (inr v) → u ≡ v
inr_injective u v h = cc h

-- The same for a call that also leaves a state.
pub past_guard_of {ℓ} :
    {A B C : Type ℓ} (b : Bool) (e : A) (d : C) (out : (A ⊎ B) × C) (v : B) (c : C)
    → (if b then (inl e, d) else out) ≡ (inr v, c)
    → (b ≡ false) × (out ≡ (inr v, c))
past_guard_of true e d out v c h = let clash = ap (λ p. p.0) h in ground (arith, clash)
past_guard_of false e d out v c h = (refl, h)

pub pair_of_inr {ℓ} :
    {A B C : Type ℓ} (u v : B) (d c : C)
    → ◌≡◌ {A = (A ⊎ B) × C} (inr u, d) (inr v, c)
    → (u ≡ v) × (d ≡ c)
pair_of_inr u v d c h = (inr_injective u v (ap (λ p. p.0) h), ap (λ p. p.1) h)

pub or_false : (a b : Bool) → (a || b) ≡ false → b ≡ false
or_false a b h = ground arith
