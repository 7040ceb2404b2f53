-- ===== src/Object/Counting.antt =====
-- The count that an object carries, against the user files that refer to it.
use cloud_vault.Base.{
  Bool, List, [], arith, filter, if◌then◌else◌, opt_eq, some, update_where, ℕ, ◌++◌, ◌+◌, ◌==◌, ◌∷◌,
  ◌≡◌, ◌≤◌,
}
use cloud_vault.Object.{add_reference, drop_reference}
use cloud_vault.Rows.{FileObject, UserFile}
use cloud_vault.World.{Env, Result, World}

-- How many rows of `user_file`, in the recycle bin or not, refer to an object.
abbrev pub refs : ℕ → List UserFile → ℕ
refs id [] = 0
refs id (f ∷ fs) = (if opt_eq f.object_id (some id) then 1 else 0) + refs id fs

-- Every object counts at least what it needs.
abbrev pub Covers : (ℕ → ℕ) → List FileObject → Type 0
Covers need [] = Unit
Covers need (o ∷ os) = (need o.id ≤ o.ref_count) × Covers need os

-- No object counts fewer references than there are.
abbrev pub IsCounted : {S : Type 0} → World S → Type 0
IsCounted w = Covers (λ i. refs i w.files) w.objects

-- The same, with one reference to an object in hand that no row holds.
abbrev pub HasSpare : {S : Type 0} → ℕ → World S → Type 0
HasSpare id w = Covers (λ i. refs i w.files + (if i == id then 1 else 0)) w.objects

pub refs-append : (id : ℕ) (xs ys : List UserFile) → refs id (xs ++ ys) ≡ refs id xs + refs id ys
refs-append id [] ys = omega arith
refs-append id (x ∷ xs) ys = omega (arith, refs-append id xs ys)

pub Covers-mono :
    (m n : ℕ → ℕ) (os : List FileObject) → ((i : ℕ) → m i ≤ n i) → Covers n os → Covers m os
Covers-mono m n [] h c = tt
Covers-mono m n (o ∷ os) h c = (omega (arith, h o.id), Covers-mono m n os h c.1)

-- A reference that is counted can be handed out.
pub Covers-add_reference :
    (id : ℕ) (need : ℕ → ℕ) (os : List FileObject)
    → Covers need os
    → Covers
        (λ i. need i + (if i == id then 1 else 0))
        (update_where (λ o. o.id == id) add_reference os)
Covers-add_reference id need [] c = tt
Covers-add_reference id need (o ∷ os) c = ground (arith, Covers-add_reference id need os c.1)

-- A reference that is in hand can be given back.
pub Covers-drop_reference :
    (id : ℕ) (need : ℕ → ℕ) (os : List FileObject)
    → Covers (λ i. need i + (if i == id then 1 else 0)) os
    → Covers need (update_where (λ o. o.id == id) drop_reference os)
Covers-drop_reference id need [] c = tt
Covers-drop_reference id need (o ∷ os) c = ground (arith, Covers-drop_reference id need os c.1)

pub Covers-filter :
    (need : ℕ → ℕ) (p : FileObject → Bool) (os : List FileObject)
    → Covers need os
    → Covers need (filter p os)
Covers-filter need p [] c = tt
Covers-filter need p (o ∷ os) c = ground (arith, Covers-filter need p os c.1)

pub HasSpare-IsCounted : {S : Type 0} (id : ℕ) (w : World S) → HasSpare id w → IsCounted w
HasSpare-IsCounted id w = Covers-mono _ _ w.objects (λ i. omega arith)

module _ {S : Type 0} (env : Env S) where
  -- A call that touches neither the files nor the objects.
  abbrev pub Keeps : {A : Type 0} → World S → Result A × World S → Type 0
  Keeps w (r, w') = (w'.files ≡ w.files) × (w'.objects ≡ w.objects)
