-- ===== src/Names/Harmless.antt =====
-- What the sanitized texts lack.
use cloud_vault.Base.{
  All, Bool, Bool-cases, [], ap, arith, false, inl, inr, refl, sym, true, ℕ, ◌&&◌, ◌==◌, ◌||◌, ◌∙◌,
  ◌∷◌, ◌≡◌, ◌≢◌, ◌⊎◌,
}
use cloud_vault.Base.Text.{Text, codes, text_eq, text_eq→≡, to_lower, trim_space}
use cloud_vault.Names.{
  allowed_order_by, look_up, named_or, remove_code, replace_dots, sanitize_archive_name,
  sanitize_header_filename, sanitize_order_by, swap_code,
}

-- A text without a character
abbrev pub Lacks : ℕ → Text → Type 0
Lacks c s = All (λ d. d ≢ c) s

Lacks-remove_code : (c : ℕ) (s : Text) → Lacks c (remove_code c s)
Lacks-remove_code c [] = tt
Lacks-remove_code c (d ∷ s) = elim (Bool-cases (d == c)) [
  | inl same ↦ rw same (Lacks-remove_code c s)
  | inr apart ↦ rw apart (ground arith, Lacks-remove_code c s)
]

Lacks-remove_other : (c e : ℕ) (s : Text) → Lacks c s → Lacks c (remove_code e s)
Lacks-remove_other c e [] h = tt
Lacks-remove_other c e (d ∷ s) h = elim (Bool-cases (d == e)) [
  | inl same ↦ rw same (Lacks-remove_other c e s h.1)
  | inr apart ↦ rw apart (h.0, Lacks-remove_other c e s h.1)
]

-- The name in a header has no line break and no quote, so it ends neither the header nor the value.
pub sanitize_header_filename-Lacks :
    (name : Text)
    → Lacks 13 (sanitize_header_filename name)
      × Lacks 10 (sanitize_header_filename name)
      × Lacks 34 (sanitize_header_filename name)
unfolding sanitize_header_filename
sanitize_header_filename-Lacks name = of_clean (trim_space name)
  where
    cleaned : Text → Text
    cleaned s = elim s [
      | [] ↦ codes "download"
      | c ∷ clean ↦ remove_code 34 (remove_code 10 (remove_code 13 (c ∷ clean)))
    ]

    of_clean : (s : Text) → Lacks 13 (cleaned s) × Lacks 10 (cleaned s) × Lacks 34 (cleaned s)
    of_clean [] = (ground arith, ground arith, ground arith)
    of_clean (c ∷ s) = (
      Lacks-remove_other 13 34 (remove_code 10 (remove_code 13 (c ∷ s)))
          (Lacks-remove_other 13 10 (remove_code 13 (c ∷ s)) (Lacks-remove_code 13 (c ∷ s))),
      Lacks-remove_other 10 34 (remove_code 10 (remove_code 13 (c ∷ s)))
          (Lacks-remove_code 10 (remove_code 13 (c ∷ s))),
      Lacks-remove_code 34 (remove_code 10 (remove_code 13 (c ∷ s))),
    )

-- A text in which no two dots follow each other
abbrev pub NoDots : Text → Type 0
NoDots [] = Unit
NoDots (c ∷ []) = Unit
NoDots (c ∷ d ∷ s) = ((c ≢ 46) ⊎ (d ≢ 46)) × NoDots (d ∷ s)

NoDots-∷ : (c : ℕ) (s : Text) → c ≢ 46 → NoDots s → NoDots (c ∷ s)
NoDots-∷ c [] h n = tt
NoDots-∷ c (d ∷ s) h n = (inl h, n)

-- A character that begins no pair stays in front.
NoDots-front :
    (c d : ℕ) (s : Text)
    → d ≢ 46
    → NoDots (replace_dots (d ∷ s))
    → NoDots (c ∷ replace_dots (d ∷ s))
NoDots-front c d [] h n = (inr h, tt)
NoDots-front c d (e ∷ s) h n = elim (Bool-cases (d == 46 && e == 46)) [
  | inl pair ↦ elim (h (ground arith)) [ ]
  | inr lone ↦ rw lone (inr h, rw lone at n)
]

NoDots-replace_dots : (s : Text) → NoDots (replace_dots s)
NoDots-replace_dots [] = tt
NoDots-replace_dots (c ∷ []) = tt
NoDots-replace_dots (c ∷ d ∷ s) =
    let after_one = NoDots-replace_dots (d ∷ s) in
    let after_pair = NoDots-replace_dots s in
    elim (Bool-cases (c == 46 && d == 46)) [
      | inl pair ↦ rw pair (NoDots-∷ 95 (replace_dots s) (ground arith) after_pair)
      | inr lone ↦ rw lone (elim (Bool-cases (c == 46)) [
        | inl dot ↦ NoDots-front c d s (ground arith) after_one
        | inr other_one ↦ NoDots-∷ c (replace_dots (d ∷ s)) (ground arith) after_one
      ])
    ]

Lacks-replace_dots : (c : ℕ) (s : Text) → c ≢ 95 → Lacks c s → Lacks c (replace_dots s)
Lacks-replace_dots c [] h l = tt
Lacks-replace_dots c (d ∷ []) h l = l
Lacks-replace_dots c (d ∷ e ∷ s) h l =
    let after_one = Lacks-replace_dots c (e ∷ s) h l.1 in
    let after_pair = Lacks-replace_dots c s h l.1.1 in
    elim (Bool-cases (d == 46 && e == 46)) [
      | inl pair ↦ rw pair ((λ k. h (sym k)), after_pair)
      | inr lone ↦ rw lone (l.0, after_one)
    ]

Lacks-swap_code : (c e : ℕ) (s : Text) → e ≢ c → Lacks c (swap_code c e s)
Lacks-swap_code c e [] h = tt
Lacks-swap_code c e (d ∷ s) h = (ground arith, Lacks-swap_code c e s h)

Lacks-swap_other : (c e f : ℕ) (s : Text) → f ≢ c → Lacks c s → Lacks c (swap_code e f s)
Lacks-swap_other c e f [] h l = tt
Lacks-swap_other c e f (d ∷ s) h l = (ground (arith, l.0), Lacks-swap_other c e f s h l.1)

-- A name that stays in its folder when an archive is unpacked: no slash or backslash, no two dots in
-- a row, neither empty nor a dot.
pub record IsPlain (s : Text) : Type 0 where
  pub slash : Lacks 47 s
  pub backslash : Lacks 92 s
  pub dots : NoDots s
  pub some_text : s ≢ []
  pub no_dot : s ≢ codes "."

unnamed-IsPlain : IsPlain (codes "unnamed")
unnamed-IsPlain = record {
  slash = ground arith;
  backslash = ground arith;
  dots = ground arith;
  some_text = λ e. ground arith;
  no_dot = λ e. ground arith;
}

named_or-IsPlain : (s : Text) → Lacks 47 s → Lacks 92 s → NoDots s → IsPlain (named_or s)
unfolding named_or
named_or-IsPlain s l b n = elim (Bool-cases (text_eq s [] || text_eq s (codes "."))) [
  | inl bare ↦ rw bare unnamed-IsPlain
  | inr full ↦ rw full (record {
    slash = l;
    backslash = b;
    dots = n;
    some_text = λ e. elim (not_false (rw e at full)) [ ];
    no_dot = λ e. elim (not_false (rw e at full)) [ ];
  })
]
  where
    not_false : ◌≢◌ {A = Bool} true false
    not_false e = ground arith

-- The name of an entry of an archive stays in its folder.
pub sanitize_archive_name-IsPlain : (name : Text) → IsPlain (sanitize_archive_name name)
unfolding sanitize_archive_name
sanitize_archive_name-IsPlain name =
    let slashes : Text = swap_code 92 47 (trim_space name) in
    named_or-IsPlain (replace_dots (swap_code 47 95 slashes))
      (Lacks-replace_dots 47 (swap_code 47 95 slashes) (ground arith)
        (Lacks-swap_code 47 95 slashes (ground arith)))
      (Lacks-replace_dots 92 (swap_code 47 95 slashes) (ground arith) (
        Lacks-swap_other 92 47 95 slashes (ground arith)
          (Lacks-swap_code 92 47 (trim_space name) (ground arith))))
      (NoDots-replace_dots (swap_code 47 95 slashes))

-- The columns that a listing may be ordered by
abbrev pub IsColumn : Text → Type 0
IsColumn s =
    (s ≡ codes "created_at")
    ⊎ (s ≡ codes "updated_at")
    ⊎ (s ≡ codes "name")
    ⊎ (s ≡ codes "size")
    ⊎ (s ≡ codes "id")

text_eq_refl : (s : Text) → text_eq s s ≡ true
text_eq_refl [] = refl
text_eq_refl (c ∷ s) = ground (arith, text_eq_refl s)

apart_texts : (s t : Text) → text_eq s t ≡ false → s ≢ t
apart_texts s t h e = false_true (sym h ∙ ap (λ x. text_eq s x) (sym e) ∙ text_eq_refl s)
  where
    false_true : ◌≢◌ {A = Bool} false true
    false_true k = ground arith

-- A key that is looked up in the columns
look_up-IsColumn :
    (key : Text)
    → (IsColumn key × (look_up key allowed_order_by ≡ key))
      ⊎ ((IsColumn key → ⊥) × (look_up key allowed_order_by ≡ []))
look_up-IsColumn key = elim (Bool-cases (text_eq key (codes "created_at"))) [
  | inl a ↦ let e = text_eq→≡ key (codes "created_at") a in inl (inl e, rw a (sym e))
  | inr a ↦ elim (Bool-cases (text_eq key (codes "updated_at"))) [
    | inl b ↦ let e = text_eq→≡ key (codes "updated_at") b in inl (inr (inl e), rw (a, b) (sym e))
    | inr b ↦ elim (Bool-cases (text_eq key (codes "name"))) [
      | inl c ↦
          let e = text_eq→≡ key (codes "name") c in inl (inr (inr (inl e)), rw (a, b, c) (sym e))
      | inr c ↦ elim (Bool-cases (text_eq key (codes "size"))) [
        | inl d ↦
            let e = text_eq→≡ key (codes "size") d in
            inl (inr (inr (inr (inl e))), rw (a, b, c, d) (sym e))
        | inr d ↦ elim (Bool-cases (text_eq key (codes "id"))) [
          | inl f ↦
              let e = text_eq→≡ key (codes "id") f in
              inl (inr (inr (inr (inr e))), rw (a, b, c, d, f) (sym e))
          | inr f ↦ inr (none_of a b c d f, rw (a, b, c, d, f) refl)
        ]
      ]
    ]
  ]
]
  where
    none_of :
        text_eq key (codes "created_at") ≡ false
        → text_eq key (codes "updated_at") ≡ false
        → text_eq key (codes "name") ≡ false
        → text_eq key (codes "size") ≡ false
        → text_eq key (codes "id") ≡ false
        → IsColumn key
        → ⊥
    none_of a b c d f (inl e) = apart_texts key (codes "created_at") a e
    none_of a b c d f (inr (inl e)) = apart_texts key (codes "updated_at") b e
    none_of a b c d f (inr (inr (inl e))) = apart_texts key (codes "name") c e
    none_of a b c d f (inr (inr (inr (inl e)))) = apart_texts key (codes "size") d e
    none_of a b c d f (inr (inr (inr (inr e)))) = apart_texts key (codes "id") f e

-- What orders a listing is what is asked for, trimmed and in lower case, if this is created_at,
-- updated_at, name, size or id; and nothing otherwise.
pub sanitize_order_by-IsColumn :
    (order_by : Text)
    → let key = to_lower (trim_space order_by) in
      (IsColumn key × (sanitize_order_by order_by ≡ key))
      ⊎ ((IsColumn key → ⊥) × (sanitize_order_by order_by ≡ []))
unfolding sanitize_order_by
sanitize_order_by-IsColumn order_by = look_up-IsColumn (to_lower (trim_space order_by))
