-- ===== src/Archive/Paths.antt =====
-- Paths of the entries of an archive, by their parts.
use cloud_vault.Base.{
  All, Bool-cases, List, [], arith, false, inl, inr, refl, subst, sym, true, ℕ, ◌++◌, ◌==◌, ◌∷◌,
  ◌≡◌,
}
use cloud_vault.Base.Text.{Text, split_on}
use cloud_vault.Names.{sanitize_archive_name}
use cloud_vault.Names.Harmless.{IsPlain, Lacks, sanitize_archive_name-IsPlain}

-- A path whose parts between slashes are plain names: none is empty, and none goes up.
unfoldable pub IsInside : Text → Type 0
IsInside path = All IsPlain (split_on 47 path)

split_on-cons :
    (sep : ℕ) (s : Text) → (part : Text) × (parts : List Text) × (split_on sep s ≡ part ∷ parts)
split_on-cons sep [] = ([], [], refl)
split_on-cons sep (c ∷ s) =
    let (part, parts, e) = split_on-cons sep s in
    elim (Bool-cases (c == sep)) [
      | inl cut ↦ ([], part ∷ parts, rw e (rw cut refl))
      | inr kept ↦ (c ∷ part, parts, rw e (rw kept refl))
    ]

split_on-whole : (sep : ℕ) (s : Text) → Lacks sep s → split_on sep s ≡ s ∷ []
split_on-whole sep [] h = refl
split_on-whole sep (c ∷ s) h =
    let apart : (c == sep) ≡ false = ground (arith, h.0) in
    rw (split_on-whole sep s h.1) (rw apart refl)

-- A name behind a path is one more part.
split_on-append :
    (sep : ℕ) (path name : Text)
    → Lacks sep name
    → split_on sep (path ++ sep ∷ name) ≡ split_on sep path ++ name ∷ []
split_on-append sep [] name h =
    let same : (sep == sep) ≡ true = ground arith in rw (split_on-whole sep name h) (rw same refl)
split_on-append sep (c ∷ path) name h =
    let (part, parts, e) = split_on-cons sep path in
    rw (split_on-append sep path name h, e)
      (elim (Bool-cases (c == sep)) [ inl cut ↦ rw cut refl | inr kept ↦ rw kept refl ])

pub All-append {ℓ} :
    {A : Type ℓ} (P : A → Type 0) (xs : List A) (x : A) → All P xs → P x → All P (xs ++ x ∷ [])
All-append P [] x h p = (p, tt)
All-append P (y ∷ xs) x h p = (h.0, All-append P xs x h.1 p)

pub IsInside-name : (name : Text) → IsInside (sanitize_archive_name name)
unfolding IsInside
IsInside-name name =
    let plain = sanitize_archive_name-IsPlain name in
    subst (All IsPlain) (sym (split_on-whole 47 _ plain.slash)) (plain, tt)

pub IsInside-append :
    (path name : Text) → IsInside path → IsPlain name → IsInside (path ++ 47 ∷ name)
unfolding IsInside
IsInside-append path name h plain =
    subst (All IsPlain) (sym (split_on-append 47 path name plain.slash))
      (All-append IsPlain _ name h plain)
