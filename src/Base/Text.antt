-- ===== src/Base/Text.antt =====
-- Texts as lists of code points, for the code that walks them, with the functions of Go's package
-- `strings` that it calls.
use Prim.Native.Char.{code}
use cloud_vault.Base.{
  Bool, Bool-cases, List, String, [], ap, arith, false, if◌then◌else◌, inl, inr, leb, ltb, map,
  refl, true, ℕ, ◌&&◌, ◌++◌, ◌+◌, ◌==◌, ◌||◌, ◌∷◌, ◌≡◌,
}
use cloud_vault.Base.Lower.{lower_wide}

abbrev pub Text : Type 0
Text = List ℕ

abbrev pub codes : String → Text
codes String.[] = []
codes (String.◌∷◌ c s) = code c ∷ codes s

abbrev pub text_eq : Text → Text → Bool
text_eq [] [] = true
text_eq [] (d ∷ t) = false
text_eq (c ∷ s) [] = false
text_eq (c ∷ s) (d ∷ t) = (c == d) && text_eq s t

pub text_eq→≡ : (s t : Text) → text_eq s t ≡ true → s ≡ t
text_eq→≡ [] [] h = refl
text_eq→≡ [] (d ∷ t) h = ground arith
text_eq→≡ (c ∷ s) [] h = ground arith
text_eq→≡ (c ∷ s) (d ∷ t) h = ground (arith, text_eq→≡ s t)

-- `unicode.ToLower`
abbrev pub lower_code : ℕ → ℕ
lower_code c = if ltb c 128 then (if leb 65 c && leb c 90 then c + 32 else c) else lower_wide c

-- `strings.ToLower`
abbrev pub to_lower : Text → Text
to_lower = map lower_code

-- `unicode.IsSpace`
unfoldable pub is_space : ℕ → Bool
is_space c =
    (leb 9 c && leb c 13)
    || c == 32
    || c == 133
    || c == 160
    || c == 5760
    || (leb 8192 c && leb c 8202)
    || c == 8232
    || c == 8233
    || c == 8239
    || c == 8287
    || c == 12288

abbrev pub trim_left : Text → Text
trim_left [] = []
trim_left (c ∷ s) = if is_space c then trim_left s else c ∷ s

abbrev pub trim_right : Text → Text
trim_right [] = []
trim_right (c ∷ s) = elim (trim_right s) [
  | [] ↦ if is_space c then [] else c ∷ []
  | d ∷ t ↦ c ∷ d ∷ t
]

-- `strings.TrimSpace`
abbrev pub trim_space : Text → Text
trim_space s = trim_right (trim_left s)

-- `strings.HasPrefix`
abbrev pub has_prefix : Text → Text → Bool
has_prefix s [] = true
has_prefix [] (d ∷ t) = false
has_prefix (c ∷ s) (d ∷ t) = (c == d) && has_prefix s t

-- `strings.HasSuffix`
abbrev pub has_suffix : Text → Text → Bool
has_suffix [] t = text_eq [] t
has_suffix (c ∷ s) t = text_eq (c ∷ s) t || has_suffix s t

pub has_suffix→++ : (s t : Text) → has_suffix s t ≡ true → (r : Text) × (s ≡ r ++ t)
has_suffix→++ [] t h = ([], text_eq→≡ [] t h)
has_suffix→++ (c ∷ s) t h = elim (Bool-cases (text_eq (c ∷ s) t)) [
  | inl e ↦ ([], text_eq→≡ (c ∷ s) t e)
  | inr n ↦ let (r, e) = has_suffix→++ s t (rw n at h) in (c ∷ r, ap (λ x. c ∷ x) e)
]

-- The same on native texts
abbrev pub trim_left_string : String → String
trim_left_string String.[] = String.[]
trim_left_string (String.◌∷◌ c s) = if is_space (code c) then trim_left_string s else String.◌∷◌ c s

abbrev pub trim_right_string : String → String
trim_right_string String.[] = String.[]
trim_right_string (String.◌∷◌ c s) = elim (trim_right_string s) [
  | String.[] ↦ if is_space (code c) then String.[] else String.◌∷◌ c String.[]
  | String.◌∷◌ d t ↦ String.◌∷◌ c (String.◌∷◌ d t)
]

abbrev pub trim_space_string : String → String
trim_space_string s = trim_right_string (trim_left_string s)

-- `strings.Split` at one character
abbrev pub split_on : ℕ → Text → List Text
split_on sep [] = [] ∷ []
split_on sep (c ∷ s) = elim (split_on sep s) [
  | [] ↦ []
  | part ∷ parts ↦ if c == sep then [] ∷ part ∷ parts else (c ∷ part) ∷ parts
]

-- The number of bytes of a text in UTF-8
abbrev pub byte_length : String → ℕ
byte_length String.[] = 0
byte_length (String.◌∷◌ c s) =
    (if leb (code c) 127
      then 1
      else (if leb (code c) 2047 then 2 else (if leb (code c) 65535 then 3 else 4)))
    + byte_length s
