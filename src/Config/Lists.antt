-- ===== src/Config/Lists.antt =====
-- What the lists of the configuration hold.
use cloud_vault.Base.{
  All, Bool-cases, List, String, [], ap, arith, false, filter, if◌then◌else◌, inl, inr, map, not,
  refl, subst, ℕ, ◌==◌, ◌∷◌, ◌≡◌, ◌≢◌, ◌⊎◌,
}
use cloud_vault.Base.Text.{
  Text, is_space, split_on, text_eq, text_eq→≡, trim_left, trim_right, trim_space,
}
use cloud_vault.Config.{Process, get_env_list, split_commas, trimmed_parts, unless_empty}
use cloud_vault.Names.Harmless.{Lacks}

-- A part of a list: not empty, and without a comma
abbrev pub IsPart : Text → Type 0
IsPart s = Lacks 44 s × (s ≢ [])

Lacks-trim_left : (c : ℕ) (s : Text) → Lacks c s → Lacks c (trim_left s)
Lacks-trim_left c [] h = tt
Lacks-trim_left c (d ∷ s) h = elim (Bool-cases (is_space d)) [
  | inl blank ↦ rw blank (Lacks-trim_left c s h.1)
  | inr visible ↦ rw visible h
]

Lacks-trim_right : (c : ℕ) (s : Text) → Lacks c s → Lacks c (trim_right s)
Lacks-trim_right c [] h = tt
Lacks-trim_right c (d ∷ s) h = of_rest (trim_right s) (Lacks-trim_right c s h.1)
  where
    of_rest :
        (r : Text)
        → Lacks c r
        → Lacks c (elim r [ [] ↦ if is_space d then [] else d ∷ [] | e ∷ t ↦ d ∷ e ∷ t ])
    of_rest (e ∷ t) g = (h.0, g)
    of_rest [] g = elim (Bool-cases (is_space d)) [
      | inl blank ↦ rw blank tt
      | inr visible ↦ rw visible (h.0, tt)
    ]

split_commas-Lacks : (s : Text) → All (λ part. Lacks 44 part) (split_commas s)
split_commas-Lacks [] = (tt, tt)
split_commas-Lacks (c ∷ s) = of_rest (split_commas s) (split_commas-Lacks s)
  where
    of_rest :
        (parts : List Text)
        → All (λ part. Lacks 44 part) parts
        → All
            (λ part. Lacks 44 part)
            (elim parts [ [] ↦ [] | p ∷ ps ↦ if c == 44 then [] ∷ p ∷ ps else (c ∷ p) ∷ ps ])
    of_rest [] g = tt
    of_rest (p ∷ ps) g = elim (Bool-cases (c == 44)) [
      | inl comma ↦ rw comma (tt, g)
      | inr letter ↦ rw letter ((ground arith, g.0), g.1)
    ]

not_empty : (s : Text) → text_eq s [] ≡ false → s ≢ []
not_empty [] h e = ground arith
not_empty (c ∷ s) h e = ground arith

trimmed_parts-IsPart :
    (parts : List Text) → All (λ part. Lacks 44 part) parts → All IsPart (trimmed_parts parts)
trimmed_parts-IsPart [] h = tt
trimmed_parts-IsPart (part ∷ parts) h =
    let rest = trimmed_parts-IsPart parts h.1 in
    elim (Bool-cases (text_eq (trim_space part) [])) [
      | inl empty ↦ rw empty rest
      | inr filled ↦ rw filled (
          (
            (
              Lacks-trim_right 44 (trim_left part) (Lacks-trim_left 44 part h.0),
              not_empty (trim_space part) filled,
            ),
            rest,
          ))
    ]

-- The parts of a text between commas, trimmed, but for the empty ones
abbrev pub parts_of : Text → List Text
parts_of raw = filter (λ s. not (text_eq s [])) (map trim_space (split_on 44 raw))

trimmed_parts-filter :
    (parts : List Text)
    → trimmed_parts parts ≡ filter (λ s. not (text_eq s [])) (map trim_space parts)
trimmed_parts-filter [] = refl
trimmed_parts-filter (part ∷ parts) = elim (Bool-cases (text_eq (trim_space part) [])) [
  | inl empty ↦ rw (empty, trimmed_parts-filter parts) refl
  | inr filled ↦ rw (filled, trimmed_parts-filter parts) refl
]

-- A list from the environment is the parts between the commas of the variable, trimmed, but for the
-- empty ones, if any is left, and the default otherwise; and no part has a comma or is empty.
pub get_env_list-parts_of :
    {F : Type 0} (p : Process F) (key : String) (default : List Text)
    → let parts = parts_of (trim_space (p.env key)) in
      (((parts ≡ []) × (get_env_list p key default ≡ default))
        ⊎ ((parts ≢ []) × (get_env_list p key default ≡ parts)))
      × All IsPart parts
unfolding get_env_list
get_env_list-parts_of p key default =
    let raw : Text = trim_space (p.env key) in
    let same = trimmed_parts-filter (split_commas raw) in
    (
      elim (Bool-cases (text_eq raw [])) [
        | inl unset ↦
            let none_left : parts_of raw ≡ [] = ap parts_of (text_eq→≡ raw [] unset) in
            inl (none_left, rw unset refl)
        | inr given ↦
            subst
              (λ out.
                ((parts_of raw ≡ []) × (out ≡ default))
                ⊎ ((parts_of raw ≢ []) × (out ≡ parts_of raw)))
              (rw (given, same) refl) (of_parts (parts_of raw))
      ],
      subst (All IsPart) same (trimmed_parts-IsPart (split_commas raw) (split_commas-Lacks raw)),
    )
  where
    of_parts :
        (parts : List Text)
        → ((parts ≡ []) × (unless_empty default parts ≡ default))
          ⊎ ((parts ≢ []) × (unless_empty default parts ≡ parts))
    of_parts [] = inl (refl, refl)
    of_parts (v ∷ vs) = inr ((λ e. ground arith), refl)
