-- ===== src/Shares/Roundtrip.antt =====
-- A share that was created can be used with its code.
use cloud_vault.Base.{
  Bool, Bool-cases, List, Option, String, [], any, arith, false, find?, if◌then◌else◌, inl, inr,
  none, not, or_false, pair_of_inr, past_guard_of, refl, some, str_eq_iff, sym, true, ℕ, ◌&&◌, ◌++◌,
  ◌+◌, ◌==◌, ◌||◌, ◌∷◌, ◌≡◌, ◌≢◌, ◌⊎◌,
}
use cloud_vault.Base.Int.{ltb_ℤ, ℤ, ◌-ℤ◌}
use cloud_vault.File.Table.{live}
use cloud_vault.Shares.{
  Backend, Counter, FileShare, ShareError, as_stored, cache_share, cache_until, check_cached,
  check_code, check_row, check_share, create_share, db_error, expire_row, extract_code_mismatch,
  insert_share, is_over, key_end, live_share, new_share, next_call, permission_denied,
  replace_share, share_already_exists, share_event,
}

find?-append :
    (p : FileShare → Bool) (xs : List FileShare) (x : FileShare)
    → any p xs ≡ false
    → p x ≡ true
    → find? p (xs ++ x ∷ []) ≡ some x
find?-append p [] x h k = rw k refl
find?-append p (y ∷ ys) x h k = elim (Bool-cases (p y)) [
  | inl here ↦ elim (true_or_false (any p ys) (rw here at h)) [ ]
  | inr past ↦ rw past (find?-append p ys x (rw past at h) k)
]
  where
    true_or_false : (b : Bool) → (true || b) ≢ false
    true_or_false b e = ground arith

any-and :
    (p q : FileShare → Bool) (xs : List FileShare)
    → any p xs ≡ false
    → any (λ x. p x && q x) xs ≡ false
any-and p q [] h = refl
any-and p q (x ∷ xs) h = ground (arith, any-and p q xs)

check_code-own : (s : FileShare) → check_code s s.extract_code ≡ inr s
check_code-own s = rw ((str_eq_iff s.extract_code s.extract_code).1 refl) (own s.need_code)
  where
    own :
        (b : Bool)
        → ◌≡◌ {A = ShareError ⊎ FileShare}
            (if b && not true then inl extract_code_mismatch else inr s)
            (inr s)
    own true = refl
    own false = refl

cache_until-shares :
    (b : Backend) (s : FileShare) (end : Option ℤ) (c : Counter)
    → (cache_until b s end c).shares ≡ c.shares
unfolding cache_until
cache_until-shares b s none c = refl
cache_until-shares b s (some end) c = elim (Bool-cases (b.redis_fails c.calls)) [
  | inl lost ↦ rw (cache_until, lost) refl
  | inr kept ↦ rw (cache_until, kept) refl
]

-- After the key of a share has been set, or not, what is read under it is the share or nothing.
live_share-cached :
    (b : Backend) (s : FileShare) (end : Option ℤ) (c : Counter) (time : ℤ)
    → c.cached s.share_id ≡ none
    → (live_share time ((cache_until b s end c).cached s.share_id) ≡ none)
      ⊎ (live_share time ((cache_until b s end c).cached s.share_id) ≡ some s)
unfolding cache_until
live_share-cached b s none c time fresh = inl (rw fresh refl)
live_share-cached b s (some end) c time fresh = elim (Bool-cases (b.redis_fails c.calls)) [
  | inl lost ↦ inl (rw (cache_until, lost, fresh) refl)
  | inr kept ↦
      rw (cache_until, kept, (str_eq_iff s.share_id s.share_id).1 refl)
        (live_or_gone (key_end (b.clock (c.calls + 1)) (end -ℤ b.clock c.calls)))
]
  where
    live_or_gone :
        (at_end : Option ℤ)
        → (live_share time (some (s, at_end)) ≡ none)
          ⊎ (live_share time (some (s, at_end)) ≡ some s)
    live_or_gone none = inr refl
    live_or_gone (some expiry) = elim (Bool-cases (ltb_ℤ time expiry)) [
      | inl live ↦ inr (rw live refl)
      | inr gone ↦ inl (rw gone refl)
    ]

module _ (b : Backend) (same : (x : String) → b.same_text x x ≡ true) where
  -- The share, or its row, which has the end to the millisecond
  abbrev pub IsAnswer : FileShare → ShareError ⊎ FileShare → Type 0
  IsAnswer s answer = (answer ≡ inr s) ⊎ (answer ≡ inr (as_stored b s))

  -- A share in the table and, if at all, under its own key
  check_share-row :
      (s : FileShare) (olds : List FileShare) (c : Counter)
      → s.status ≡ 0
      → any (λ t. b.same_text t.share_id s.share_id) olds ≡ false
      → c.shares ≡ olds ++ as_stored b s ∷ []
      → ((live_share (b.clock c.calls) (c.cached s.share_id) ≡ none)
          ⊎ (live_share (b.clock c.calls) (c.cached s.share_id) ≡ some s))
      → b.redis_fails c.calls ≡ false
      → b.db_fails (c.calls + 1) ≡ false
      → is_over (b.clock (c.calls + 1 + 1)) (as_stored b s).expire_at ≡ false
      → IsAnswer s (check_share b s.share_id s.extract_code c).0
  unfolding check_share check_cached check_row
  check_share-row s olds c active new rows (inr cached) redis_up db_up runs =
      inl (rw (redis_up, cached) (check_code-own s))
  check_share-row s olds c active new rows (inl missed) redis_up db_up runs =
      let found : find? (λ t. b.same_text t.share_id s.share_id && t.status == 0) c.shares
          ≡ some (as_stored b s) =
        rw rows (
          find?-append _ olds (as_stored b s)
            (any-and (λ t. b.same_text t.share_id s.share_id) (λ t. t.status == 0) olds new)
            (rw (same s.share_id, active) refl)) in
      inr (rw (redis_up, missed, db_up, found, runs) (check_code-own (as_stored b s)))

  new_row : FileShare → Counter → FileShare
  new_row s c = record s { id = c.next_share }

  after_insert : FileShare → Counter → Counter
  after_insert s c =
      let kept : Counter = cache_until b (new_row s c) s.expire_at (record (next_call c) {
        shares = c.shares ++ as_stored b (new_row s c) ∷ [];
        next_share = c.next_share + 1;
      }) in
      record kept { emitted = kept.emitted ++ share_event (new_row s c) ∷ [] }

  insert_share-made :
      (s : FileShare) (c c' : Counter) (row : FileShare)
      → insert_share b s c ≡ (inr row, c')
      → (any (λ t. b.same_text t.share_id s.share_id) c.shares ≡ false)
        × (new_row s c ≡ row)
        × (after_insert s c ≡ c')
  unfolding insert_share cache_share new_row after_insert
  insert_share-made s c c' row made =
      let (kept, e) = past_guard_of _ db_error (next_call c) _ row c' made in
      let (same_row, same_state) = pair_of_inr (new_row s c) row (after_insert s c) c' e in
      (or_false (b.db_fails c.calls) _ kept, same_row, same_state)

  -- What `Create` inserts can be used.
  after_insert-check :
      (s : FileShare) (c : Counter)
      → s.status ≡ 0
      → c.cached s.share_id ≡ none
      → any (λ t. b.same_text t.share_id s.share_id) c.shares ≡ false
      → let c' = after_insert s c in
        b.redis_fails c'.calls ≡ false
        → b.db_fails (c'.calls + 1) ≡ false
        → is_over (b.clock (c'.calls + 1 + 1)) (as_stored b s).expire_at ≡ false
        → IsAnswer (new_row s c) (check_share b s.share_id s.extract_code c').0
  unfolding new_row after_insert
  after_insert-check s c active fresh new =
      check_share-row (new_row s c) c.shares (after_insert s c) active new
        (cache_until-shares b (new_row s c) s.expire_at _)
        (live_share-cached b (new_row s c) s.expire_at _ (b.clock (after_insert s c).calls) fresh)

  replace_share-inserts :
      (user file : ℕ) (days : ℤ) (need : Bool) (old : Option FileShare) (c c' : Counter)
      (row : FileShare)
      → replace_share b user file days need old c ≡ (inr row, c')
      → (k : ℕ) × (c0 : Counter) × (insert_share b (new_share b user file days need k) c0
          ≡ (inr row, c'))
        × (c0.cached ≡ c.cached)
  unfolding replace_share expire_row
  replace_share-inserts user file days need none c c' row made = (c.calls, next_call c, made, refl)
  replace_share-inserts user file days need (some s) c c' row made =
      let (_, e) = past_guard_of _ share_already_exists (next_call c) _ row c' made in
      (
        (expire_row b s.id (next_call c)).calls,
        next_call (expire_row b s.id (next_call c)),
        e,
        expire_row-cached s.id (next_call c),
      )
    where
      expire_row-cached : (id : ℕ) (c : Counter) → (expire_row b id c).cached ≡ c.cached
      expire_row-cached id c = elim (Bool-cases (b.db_fails c.calls)) [
        | inl lost ↦ rw (expire_row, lost) refl
        | inr found ↦ rw (expire_row, found) refl
      ]

  create_share-inserts :
      (user file : ℕ) (days : ℤ) (need : Bool) (c c' : Counter) (row : FileShare)
      → create_share b user file days need c ≡ (inr row, c')
      → (k : ℕ) × (c0 : Counter) × (insert_share b (new_share b user file days need k) c0
          ≡ (inr row, c'))
        × (c0.cached ≡ c.cached)
  unfolding create_share
  create_share-inserts user file days need c c' row made =
      let (_, e1) = past_guard_of _ permission_denied _ _ row c' made in
      let (_, e2) = past_guard_of _ db_error _ _ row c' e1 in
      replace_share-inserts user file days need _ (next_call (next_call c)) c' row e2

  -- A share that `CreateShare` returns is what `CheckShare` answers to its id and code, from Redis or,
  -- with the end to the millisecond, from the table, as long as its row is not over, both calls
  -- succeed, no key in Redis stood under a new id before, and a text equals itself in MySQL.
  pub create_share-check :
      (user file : ℕ) (days : ℤ) (need : Bool) (c c' : Counter) (row : FileShare)
      → ((k : ℕ) → c.cached (b.token k) ≡ none)
      → create_share b user file days need c ≡ (inr row, c')
      → b.redis_fails c'.calls ≡ false
      → b.db_fails (c'.calls + 1) ≡ false
      → is_over (b.clock (c'.calls + 1 + 1)) (as_stored b row).expire_at ≡ false
      → IsAnswer row (check_share b row.share_id row.extract_code c').0
  unfolding new_share new_row
  create_share-check user file days need c c' row fresh made redis_up db_up runs =
      let (k, c0, inserted, keys) = create_share-inserts user file days need c c' row made in
      let s : FileShare = new_share b user file days need k in
      let (new, same_row, same_state) = insert_share-made s c0 c' row inserted in
      used s c0 c' row same_row same_state refl (rw keys (fresh k)) new redis_up db_up runs
    where
      used :
          (s : FileShare) (c0 c' : Counter) (row : FileShare)
          → new_row s c0 ≡ row
          → after_insert s c0 ≡ c'
          → s.status ≡ 0
          → c0.cached s.share_id ≡ none
          → any (λ t. b.same_text t.share_id s.share_id) c0.shares ≡ false
          → b.redis_fails c'.calls ≡ false
          → b.db_fails (c'.calls + 1) ≡ false
          → is_over (b.clock (c'.calls + 1 + 1)) (as_stored b row).expire_at ≡ false
          → IsAnswer row (check_share b row.share_id row.extract_code c').0
      used s c0 c' row r e active fresh new =
          rw (sym r, sym e) (after_insert-check s c0 active fresh new)
