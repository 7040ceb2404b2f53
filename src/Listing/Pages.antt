-- ===== src/Listing/Pages.antt =====
-- The pages of a listing, and the cache of lists.
use cloud_vault.Accounts.{Answer, rejected, served}
use cloud_vault.Base.{
  All, All-weaken, Bool, Bool-cases, List, Option, [], arith, filter, inl, inr, length, none, refl,
  some, subst, suc, true, zero, ℕ, ◌∷◌, ◌≡◌, ◌≤◌,
}
use cloud_vault.Base.Int.{eq_of_parts, pos_part, ℤ}
use cloud_vault.Base.Text.{Text}
use cloud_vault.File.Table.{cache_parent_id, in_folder}
use cloud_vault.Listing.{
  ListRequest, drop_rows, is_listed, key_of, offset_of, page_of, put_list_cache, same_key,
}
use cloud_vault.Rows.{FileListCache, ListKey, UserFile}
use cloud_vault.Visits.{take_rows}
use cloud_vault.World.{World}

-- What ORDER BY does with rows: it neither adds nor drops any.
pub record IsOrder (ordered : Text → List UserFile → List UserFile) : Type 1 where
  pub same_rows :
      (by : Text) (P : UserFile → Type 0) (rows : List UserFile)
      → All P rows
      → All P (ordered by rows)
  pub same_length : (by : Text) (rows : List UserFile) → length (ordered by rows) ≡ length rows

-- A list that may be shown for a key
pub record IsListed (k : ListKey) (c : FileListCache) : Type 0 where
  pub rows : All (λ f. is_listed k.user_id (some k.parent_id) f ≡ true) c.files
  pub page : length c.files ≤ pos_part k.page_size
  pub total : length c.files ≤ c.total

-- Each cached list may be shown for its key.
abbrev pub IsListRight : {S : Type 0} → World S → Type 0
IsListRight w = (k : ListKey) (c : FileListCache) → w.list_cache k ≡ some c → IsListed k c

-- An answer with a list has one that may be shown.
abbrev pub IsAnswered : ListKey → Answer FileListCache → Type 0
IsAnswered k (served c) = IsListed k c
IsAnswered k (rejected _ _) = Unit

All-take {ℓ} :
    {A : Type ℓ} (P : A → Type 0) (n : ℕ) (xs : List A) → All P xs → All P (take_rows n xs)
All-take P zero xs h = tt
All-take P (suc n) [] h = tt
All-take P (suc n) (x ∷ xs) h = (h.0, All-take P n xs h.1)

All-drop {ℓ} :
    {A : Type ℓ} (P : A → Type 0) (n : ℕ) (xs : List A) → All P xs → All P (drop_rows n xs)
All-drop P zero xs h = h
All-drop P (suc n) [] h = tt
All-drop P (suc n) (x ∷ xs) h = All-drop P n xs h.1

length-take {ℓ} :
    {A : Type ℓ} (n : ℕ) (xs : List A)
    → (length (take_rows n xs) ≤ n) × (length (take_rows n xs) ≤ length xs)
length-take zero xs = (omega arith, omega arith)
length-take (suc n) [] = (omega arith, omega arith)
length-take (suc n) (x ∷ xs) = omega (arith, length-take n xs)

length-drop {ℓ} : {A : Type ℓ} (n : ℕ) (xs : List A) → length (drop_rows n xs) ≤ length xs
length-drop zero xs = omega arith
length-drop (suc n) [] = omega arith
length-drop (suc n) (x ∷ xs) = omega (arith, length-drop n xs)

All-filter {ℓ} : {A : Type ℓ} (p : A → Bool) (xs : List A) → All (λ x. p x ≡ true) (filter p xs)
All-filter p [] = tt
All-filter p (x ∷ xs) = elim (Bool-cases (p x)) [
  | inl yes_it ↦ rw yes_it (yes_it, All-filter p xs)
  | inr not_it ↦ rw not_it (All-filter p xs)
]

in_folder-cache_parent_id :
    (parent : Option ℕ) (f : UserFile)
    → in_folder parent f ≡ in_folder (some (cache_parent_id parent)) f
in_folder-cache_parent_id none f = refl
in_folder-cache_parent_id (some p) f = refl

pub page_of-IsListed :
    (ordered : Text → List UserFile → List UserFile)
    → IsOrder ordered
    → (by : Text) (user : ℕ) (req : ListRequest) (files : List UserFile)
    → IsListed (key_of user req) (record {
      files =
          page_of req.page req.page_size (ordered by (filter (is_listed user req.parent_id) files));
      total = length (filter (is_listed user req.parent_id) files);
    })
unfolding page_of
page_of-IsListed ordered order by user req files =
    let found = filter (is_listed user req.parent_id) files in
    let dropped = drop_rows (offset_of req.page req.page_size) (ordered by found) in
    let (page, less) = length-take (pos_part req.page_size) dropped in
    let below = length-drop (offset_of req.page req.page_size) (ordered by found) in
    let own : All (λ f. is_listed user (some (cache_parent_id req.parent_id)) f ≡ true) found =
      All-weaken _ _ found (λ f h. ground (arith, h, in_folder-cache_parent_id req.parent_id f))
        (All-filter (is_listed user req.parent_id) files) in
    record {
      rows =
          All-take _ _ dropped (All-drop _ _ (ordered by found) (order.same_rows by _ found own));
      page = page;
      total = omega (arith, less, below, order.same_length by found);
    }

same_key-IsListed :
    (j k : ListKey) (c : FileListCache) → same_key j k ≡ true → IsListed k c → IsListed j c
same_key-IsListed j k c h listed =
    let user : k.user_id ≡ j.user_id = ground arith in
    let parent : k.parent_id ≡ j.parent_id = ground arith in
    let size : k.page_size ≡ j.page_size = eq_of_parts k.page_size j.page_size (ground arith) in
    record {
      rows =
          subst (λ p. All (λ f. is_listed j.user_id (some p) f ≡ true) c.files) parent
            (subst (λ u. All (λ f. is_listed u (some k.parent_id) f ≡ true) c.files) user
              listed.rows);
      page = subst (λ (z : ℤ). length c.files ≤ pos_part z) size listed.page;
      total = listed.total;
    }

pub put_list_cache-IsListRight :
    {S : Type 0} (key : ListKey) (c : FileListCache) (w : World S)
    → IsListed key c
    → IsListRight w
    → IsListRight (put_list_cache key c w)
put_list_cache-IsListRight key c w listed right k d h = elim (Bool-cases (same_key k key)) [
  | inl here ↦
      let same : ◌≡◌ {A = FileListCache} c d = cc (rw here at h) in
      subst (IsListed k) same (same_key-IsListed k key c here listed)
  | inr elsewhere ↦ right k d (rw elsewhere at h)
]
