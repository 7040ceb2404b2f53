-- ===== src/Shelf/Marks.antt =====
-- A favourite that is added and removed leaves the list as it was; accesses are counted.
use cloud_vault.Base.{
  Bool, Bool-cases, List, [], any, ap, arith, false, filter, if◌then◌else◌, inl, inr, is_none,
  length, ltb, not, refl, subst, suc, sym, true, zero, ℕ, ◌&&◌, ◌++◌, ◌+◌, ◌<◌, ◌==◌, ◌||◌, ◌∙◌,
  ◌∷◌, ◌≡◌, ◌≢◌, ◌≤◌,
}
use cloud_vault.Base.Int.{ℤ}
use cloud_vault.Base.Text.{Text, codes, text_eq, to_lower, trim_space}
use cloud_vault.Rows.{UserFile}
use cloud_vault.Shelf.{
  Library, Shelver, UserFavorite, UserRecent, accepted, add_favorite, insert_favorite,
  is_favorite_of, is_recent_of, normalize_recent_source, not_found, owns_file, record_recent_access,
  refused, remove_favorite, take_codes, upsert_recent,
}
use cloud_vault.World.{stored}

filter-append :
    (p : UserFavorite → Bool) (xs : List UserFavorite) (x : UserFavorite)
    → any p xs ≡ false
    → p x ≡ true
    → filter (λ f. not (p f)) (xs ++ x ∷ []) ≡ xs
filter-append p [] x h k = rw k refl
filter-append p (y ∷ ys) x h k = elim (Bool-cases (p y)) [
  | inl here ↦ elim (true_or_false (any p ys) (rw here at h)) [ ]
  | inr past ↦ rw past (ap (λ zs. y ∷ zs) (filter-append p ys x (rw past at h) k))
]
  where
    true_or_false : (b : Bool) → (true || b) ≢ false
    true_or_false b e = ground arith

is_favorite_of-new :
    (user file : ℕ) → is_favorite_of user file (record { user_id = user; file_id = file }) ≡ true
unfolding is_favorite_of
is_favorite_of-new user file = ground arith

any-last :
    (p : UserFavorite → Bool) (xs : List UserFavorite) (x : UserFavorite)
    → p x ≡ true
    → any p (xs ++ x ∷ []) ≡ true
any-last p [] x k = rw k refl
any-last p (y ∷ ys) x k = rw (any-last p ys x k) (ground arith)

-- A file that was no favourite is one once it has been added with success; and it is removed again
-- while MySQL answers, and then the favourites are as they were.
pub remove_favorite-add_favorite :
    (d : Shelver) (user file : ℕ) (l : Library)
    → any (is_favorite_of user file) l.favorites ≡ false
    → (add_favorite d user file l).0 ≡ accepted
    → d.db_fails (l.calls + 2) ≡ false
    → (any (is_favorite_of user file) (add_favorite d user file l).1.favorites ≡ true)
      × ((remove_favorite d user file (add_favorite d user file l).1).0 ≡ accepted)
      × ((remove_favorite d user file (add_favorite d user file l).1).1.favorites ≡ l.favorites)
unfolding add_favorite remove_favorite insert_favorite
remove_favorite-add_favorite d user file l new h up = elim (Bool-cases (owns_file d user file l)) [
  | inr foreign ↦ elim (not_accepted (rw (add_favorite, foreign) at h)) [ ]
  | inl owned ↦ elim (Bool-cases (d.db_fails (l.calls + 1))) [
    | inl lost ↦ elim (was_refused (rw (add_favorite, owned, lost) at h)) [ ]
    | inr stored ↦
        let row : UserFavorite = record { user_id = user; file_id = file } in
        let same = is_favorite_of-new user file in
        rw (add_favorite, owned, stored, insert_favorite, new, remove_favorite, later)
          (
            any-last (is_favorite_of user file) l.favorites row same,
            refl,
            filter-append (is_favorite_of user file) l.favorites row new same,
          )
  ]
]
  where
    not_accepted : not_found ≢ accepted
    not_accepted e = ground arith

    was_refused : refused ≢ accepted
    was_refused e = ground arith

    later : d.db_fails (l.calls + 1 + 1) ≡ false
    later = subst (λ n. d.db_fails n ≡ false) (omega arith) up

-- How often a user opened a file
unfoldable pub accesses : ℕ → ℕ → List UserRecent → ℕ
accesses user file [] = 0
accesses user file (r ∷ rs) =
    let rest = accesses user file rs in if is_recent_of user file r then r.access_count else rest

accesses-upsert_recent :
    (user file u f : ℕ) (source : Text) (time : ℤ) (rs : List UserRecent)
    → accesses user file (upsert_recent u f source time rs)
      ≡ (if u == user && f == file then 1 else 0) + accesses user file rs
unfolding accesses upsert_recent is_recent_of
accesses-upsert_recent user file u f source time [] = ground arith
accesses-upsert_recent user file u f source time (r ∷ rs) =
    ground (arith, accesses-upsert_recent user file u f source time rs)

-- A run of accesses, each by a user to a file
unfoldable pub record_all : Shelver → List (ℕ × ℕ × Text) → Library → Library
record_all d [] l = l
record_all d ((user, file, source) ∷ more) l =
    record_all d more (record_recent_access d user file source l).1

-- The accesses of a run that concern a user and a file
abbrev pub times_in : ℕ → ℕ → List (ℕ × ℕ × Text) → ℕ
times_in user file [] = 0
times_in user file ((u, f, source) ∷ more) =
    (if u == user && f == file then 1 else 0) + times_in user file more

-- Whether the user has the file
abbrev pub has_file : ℕ → ℕ → List UserFile → Bool
has_file user file fs =
    any (λ f. f.id == file && f.user_id == user && not f.is_deleted && is_none f.deleted_at) fs

apart_of :
    (user file u f : ℕ) (fs : List UserFile)
    → has_file user file fs ≡ true
    → has_file u f fs ≡ false
    → (u == user && f == file) ≡ false
apart_of user file u f fs has foreign = elim (Bool-cases (u == user && f == file)) [
  | inr apart ↦ apart
  | inl same ↦
      let eu : u ≡ user = ground arith in
      let ef : f ≡ file = ground arith in
      elim (clash (
        sym has
        ∙ ap (λ n. has_file n file fs) (sym eu)
        ∙ ap (λ n. has_file u n fs) (sym ef)
        ∙ foreign)) [ ]
]
  where
    clash : ◌≢◌ {A = Bool} true false
    clash e = ground arith

record_recent_access-adds :
    (d : Shelver) (user file u f : ℕ) (source : Text) (l : Library)
    → ((n : ℕ) → d.db_fails n ≡ false)
    → 0 < user
    → 0 < file
    → has_file user file l.files ≡ true
    → let l' = (record_recent_access d u f source l).1 in
      (accesses user file l'.recents
        ≡ (if u == user && f == file then 1 else 0) + accesses user file l.recents)
      × (l'.files ≡ l.files)
unfolding record_recent_access owns_file
record_recent_access-adds d user file u f source l up is_user is_file has =
    elim (Bool-cases (u == 0 || f == 0)) [
      | inl nobody ↦
          let apart : (u == user && f == file) ≡ false = ground arith in
          rw (record_recent_access, nobody, apart) (omega arith, refl)
      | inr somebody ↦ elim (Bool-cases (has_file u f l.files)) [
        | inl mine ↦
            rw (record_recent_access, somebody, up l.calls, mine, up (l.calls + 2))
              (accesses-upsert_recent user file u f _ _ l.recents, refl)
        | inr foreign ↦
            let apart = apart_of user file u f l.files has foreign in
            rw (record_recent_access, somebody, up l.calls, foreign, apart) (omega arith, refl)
      ]
    ]

-- While the database answers, each access of a user to a file that the user has is counted once, and
-- no other access is counted for it, in a run of any accesses.
pub record_all-accesses :
    (d : Shelver) (user file : ℕ) (more : List (ℕ × ℕ × Text)) (l : Library)
    → ((n : ℕ) → d.db_fails n ≡ false)
    → 0 < user
    → 0 < file
    → has_file user file l.files ≡ true
    → accesses user file (record_all d more l).recents
      ≡ times_in user file more + accesses user file l.recents
unfolding record_all
record_all-accesses d user file [] l up is_user is_file has = omega arith
record_all-accesses d user file ((u, f, source) ∷ more) l up is_user is_file has =
    let (adds, same_files) =
      record_recent_access-adds d user file u f source l up is_user is_file has in
    let rest =
      record_all-accesses d user file more (record_recent_access d u f source l).1 up is_user
        is_file (rw same_files has) in
    omega (arith, adds, rest)

-- The source of an access has between 1 and 64 characters, whatever is given.
pub normalize_recent_source-bounded :
    (source : Text)
    → (1 ≤ length (normalize_recent_source source)) × (length (normalize_recent_source source) ≤ 64)
unfolding normalize_recent_source
normalize_recent_source-bounded source = of_text (to_lower (trim_space source))
  where
    length-take_codes : (n : ℕ) (s : Text) → n ≤ length s → length (take_codes n s) ≡ n
    length-take_codes zero s h = refl
    length-take_codes (suc n) [] h = elim h [ ]
    length-take_codes (suc n) (c ∷ s) h = ap suc (length-take_codes n s (omega arith))

    of_text :
        (s : Text)
        → let t : Text =
            if text_eq s []
            then codes "unknown"
            else (if ltb 64 (length s) then take_codes 64 s else s) in
          (1 ≤ length t) × (length t ≤ 64)
    of_text [] = (omega arith, omega arith)
    of_text (c ∷ s) = elim (Bool-cases (ltb 64 (length (c ∷ s)))) [
      | inl long ↦ rw (long, length-take_codes 64 (c ∷ s) (ground arith)) (omega arith, omega arith)
      | inr short ↦ rw short (omega arith, ground arith)
    ]
