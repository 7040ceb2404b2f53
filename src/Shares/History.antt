-- ===== src/Shares/History.antt =====
-- The keys of shares over a history of operations, and who is given a share then.
use native.Mathlib.Nat.{mod-eq_of_lt}
use cloud_vault.Base.{
  Bool, Bool-cases, Option, String, any, ap, arith, false, if◌then◌else◌, inl, inr, ltb, none,
  not_some, refl, some, str_eq, subst, sym, true, ℕ, ◌%◌, ◌*◌, ◌+◌, ◌<◌, ◌||◌, ◌∙◌, ◌≡◌, ◌≢◌, ◌≤◌,
}
use cloud_vault.Base.Int.{+ℤ_parts, -ℤ_parts, leb_ℤ, ltb_ℤ, pos, pos_part, ℤ, ◌+ℤ◌, ◌-ℤ◌, ◌≤ℤ◌}
use cloud_vault.Shares.{
  Backend, Counter, FileShare, cache_share, cache_until, check_cached, check_file_owner, check_row,
  check_share, create_share, days_long, expire_row, has_end, insert_share, is_over, is_running,
  key_end, new_share, next_call, replace_share,
}
use cloud_vault.Shares.Access.{
  IsAdmitted, IsCachedRight, IsMonotone, IsPrompt, check_share-IsAdmitted,
}
use cloud_vault.World.{now}

-- The time of a day, in nanoseconds
abbrev pub day_long : ℕ
day_long = 86400000000000

days_long-fits : (days : ℕ) → days ≤ 106751 → days_long days ≡ pos (days * 86400000000000)
unfolding days_long
days_long-fits days h =
    let small : days * 86400000000000 % 18446744073709551616 ≡ days * 86400000000000 =
      mod-eq_of_lt (omega (arith, h)) in
    let half : ltb (days * 86400000000000) 9223372036854775808 ≡ true = ground (arith, h) in
    rw (small, half) refl

key_end-near :
    (lag : ℕ) (now later x : ℤ)
    → ltb_ℤ now x ≡ true
    → later ≤ℤ now +ℤ pos lag
    → (e : ℤ) × (key_end later (x -ℤ now) ≡ some e) × (e ≤ℤ x +ℤ pos lag)
key_end-near lag now later x runs prompt =
    let live : leb_ℤ (x -ℤ now) (pos 0) ≡ false = ground (arith, -ℤ_parts x now, runs) in
    (
      later +ℤ (x -ℤ now),
      rw live refl,
      omega (
        arith,
        -ℤ_parts x now,
        +ℤ_parts later (x -ℤ now),
        +ℤ_parts now (pos lag),
        +ℤ_parts x (pos lag),
        prompt,
      ),
    )

module _ (lag : ℕ) (b : Backend) (prompt : IsPrompt lag b) where
  put_right :
      (s : FileShare) (x e : ℤ) (end : Option ℤ) (old : Option (FileShare × Option ℤ)) (here : Bool)
      → s.expire_at ≡ some x
      → end ≡ some e
      → e ≤ℤ x +ℤ pos lag
      → ((t : FileShare) (at_end : Option ℤ)
          → old ≡ some (t, at_end)
          → (y : ℤ) × (f : ℤ) × (t.expire_at ≡ some y) × (at_end ≡ some f) × (f ≤ℤ y +ℤ pos lag))
      → (t : FileShare) (at_end : Option ℤ)
      → (if here then some (s, end) else old) ≡ some (t, at_end)
      → (y : ℤ) × (f : ℤ) × (t.expire_at ≡ some y) × (at_end ≡ some f) × (f ≤ℤ y +ℤ pos lag)
  put_right s x e end old true ends at_e near right t at_end h =
      (x, e, cc (h, ends), cc (h, at_e), near)
  put_right s x e end old false ends at_e near right t at_end h = right t at_end h

  cache_until-right :
      (s : FileShare) (end : Option ℤ) (c : Counter)
      → s.expire_at ≡ end
      → ((x : ℤ) → end ≡ some x → ltb_ℤ (b.clock c.calls) x ≡ true)
      → IsCachedRight lag c
      → IsCachedRight lag (cache_until b s end c)
  unfolding cache_until
  cache_until-right s none c ends runs right = right
  cache_until-right s (some x) c ends runs right =
      let (e, at_e, near) =
        key_end-near lag (b.clock c.calls) (b.clock (c.calls + 1)) x (runs x refl)
          (prompt c.calls) in
      elim (Bool-cases (b.redis_fails c.calls)) [
        | inl lost ↦ rw (cache_until, lost) right
        | inr kept ↦
            rw (cache_until, kept)
              (λ k. put_right s x e _ (c.cached k) (str_eq s.share_id k) ends at_e near (right k))
      ]

  insert_share-right :
      (s : FileShare) (c : Counter)
      → ((x : ℤ) → s.expire_at ≡ some x → ltb_ℤ (b.clock (c.calls + 1)) x ≡ true)
      → IsCachedRight lag c
      → IsCachedRight lag (insert_share b s c).1
  unfolding insert_share cache_share
  insert_share-right s c runs right =
      elim (Bool-cases
        (b.db_fails c.calls || any (λ t. b.same_text t.share_id s.share_id) c.shares)) [
          | inl lost ↦ rw lost right
          | inr kept ↦
              rw kept
                (cache_until-right (record s { id = c.next_share }) s.expire_at _ refl runs right)
        ]

  module _ (days : ℤ) (short : lag + lag < day_long) (fits : pos_part days ≤ 106751) where
    new_share-runs :
        (user file : ℕ) (need : Bool) (k : ℕ) (x : ℤ)
        → (new_share b user file days need k).expire_at ≡ some x
        → ltb_ℤ (b.clock (k + 1 + 1)) x ≡ true
    unfolding new_share
    new_share-runs user file need k x h = elim (Bool-cases (has_end days)) [
      | inr endless ↦ elim (no_some (rw endless at h)) [ ]
      | inl ends ↦
          let end : ◌≡◌ {A = ℤ} (b.clock k +ℤ days_long (pos_part days)) x = cc (rw ends at h) in
          let long = days_long-fits (pos_part days) fits in
          let some_days : 1 ≤ pos_part days = ground (arith, ends) in
          subst (λ y. ltb_ℤ (b.clock (k + 1 + 1)) y ≡ true) end (rw long (later_than some_days))
    ]
      where
        no_some : ◌≢◌ {A = Option ℤ} none (some x)
        no_some e = ground arith

        later_than :
            1 ≤ pos_part days
            → ltb_ℤ (b.clock (k + 1 + 1)) (b.clock k +ℤ pos (pos_part days * 86400000000000)) ≡ true
        later_than some_days = ground (
          arith,
          prompt k,
          prompt (k + 1),
          short,
          some_days,
          +ℤ_parts (b.clock k) (pos lag),
          +ℤ_parts (b.clock (k + 1)) (pos lag),
          +ℤ_parts (b.clock k) (pos (pos_part days * 86400000000000)),
        )

expire_row-cached : (b : Backend) (id : ℕ) (c : Counter) → (expire_row b id c).cached ≡ c.cached
unfolding expire_row
expire_row-cached b id c = elim (Bool-cases (b.db_fails c.calls)) [
  | inl lost ↦ rw (expire_row, lost) refl
  | inr found ↦ rw (expire_row, found) refl
]

IsCachedRight-same :
    (lag : ℕ) (c d : Counter) → d.cached ≡ c.cached → IsCachedRight lag c → IsCachedRight lag d
IsCachedRight-same lag c d same right k s end e = right k s end (sym (ap (λ f. f k) same) ∙ e)

module _ (lag : ℕ) (b : Backend) (prompt : IsPrompt lag b) (days : ℤ) (short : lag + lag < day_long)
    (fits : pos_part days ≤ 106751) where
  replace_share-right :
      (user file : ℕ) (need : Bool) (old : Option FileShare) (c : Counter)
      → IsCachedRight lag c
      → IsCachedRight lag (replace_share b user file days need old c).1
  unfolding replace_share
  replace_share-right user file need none c right =
      insert_share-right lag b prompt (new_share b user file days need c.calls) (next_call c)
        (new_share-runs lag b prompt days short fits user file need c.calls) right
  replace_share-right user file need (some s) c right =
      elim (Bool-cases (is_running (b.clock c.calls) s.expire_at)) [
        | inl runs ↦ rw runs right
        | inr over ↦
            let c' : Counter = expire_row b s.id (next_call c) in
            rw over (
              insert_share-right lag b prompt (new_share b user file days need c'.calls)
                (next_call c') (new_share-runs lag b prompt days short fits user file need c'.calls)
                (IsCachedRight-same lag (next_call c) (next_call c')
                  (expire_row-cached b s.id (next_call c)) right))
      ]

  create_share-right :
      (user file : ℕ) (need : Bool) (c : Counter)
      → IsCachedRight lag c
      → IsCachedRight lag (create_share b user file days need c).1
  unfolding create_share check_file_owner
  create_share-right user file need c right = elim (Bool-cases (check_file_owner b user file c).0) [
    | inr foreign ↦ rw (create_share, foreign) right
    | inl owned ↦ elim (Bool-cases (b.db_fails (c.calls + 1))) [
      | inl lost ↦ rw (create_share, owned, lost) right
      | inr found ↦
          rw (create_share, owned, found)
            (replace_share-right user file need _ (next_call (next_call c)) right)
    ]
  ]

module _ (b : Backend) where
  check_row-cached :
      (code : String) (row : Option FileShare) (c : Counter)
      → (check_row b code row c).1.cached ≡ c.cached
  unfolding check_row
  check_row-cached code none c = refl
  check_row-cached code (some s) c = elim (Bool-cases (is_over (b.clock c.calls) s.expire_at)) [
    | inl over ↦ rw over (expire_row-cached b s.id (next_call c))
    | inr runs ↦ rw runs refl
  ]

  check_cached-cached :
      (share_id code : String) (found : Option FileShare) (c : Counter)
      → (check_cached b share_id code found c).1.cached ≡ c.cached
  unfolding check_cached
  check_cached-cached share_id code (some s) c = refl
  check_cached-cached share_id code none c = elim (Bool-cases (b.db_fails c.calls)) [
    | inl lost ↦ rw lost refl
    | inr found ↦ rw found (check_row-cached code _ (next_call c))
  ]

  check_share-cached :
      (share_id code : String) (c : Counter) → (check_share b share_id code c).1.cached ≡ c.cached
  unfolding check_share
  check_share-cached share_id code c = elim (Bool-cases (b.redis_fails c.calls)) [
    | inl lost ↦ rw lost refl
    | inr answered ↦ rw answered (check_cached-cached share_id code _ (next_call c))
  ]

  -- A state to which operations on shares lead from one where no key of a share is set. The days of a
  -- new share are few enough for 64 bits of nanoseconds.
  pub data Reached : Counter → Type 0 where
    no_keys : (c : Counter) → ((k : String) → c.cached k ≡ none) → Reached c
    with_share :
        (user file : ℕ) (days : ℤ) (need : Bool) (c : Counter)
        → pos_part days ≤ 106751
        → Reached c
        → Reached (create_share b user file days need c).1
    with_check :
        (share_id code : String) (c : Counter)
        → Reached c
        → Reached (check_share b share_id code c).1
    -- a visit that is logged, an expiry that is heard of, and all else that leaves the keys alone
    with_rest : (c d : Counter) → d.cached ≡ c.cached → Reached c → Reached d

  Reached-IsCachedRight :
      (lag : ℕ)
      → IsPrompt lag b
      → lag + lag < day_long
      → (c : Counter) → Reached c
      → IsCachedRight lag c
  Reached-IsCachedRight lag prompt short _ (no_keys c none_set) =
      λ k s end e. absurd (not_some (s, end) (sym (none_set k) ∙ e))
  Reached-IsCachedRight lag prompt short _ (with_share user file days need c fits r) =
      create_share-right lag b prompt days short fits user file need c
        (Reached-IsCachedRight lag prompt short c r)
  Reached-IsCachedRight lag prompt short _ (with_check share_id code c r) =
      IsCachedRight-same lag c (check_share b share_id code c).1
        (check_share-cached share_id code c) (Reached-IsCachedRight lag prompt short c r)
  Reached-IsCachedRight lag prompt short _ (with_rest c d same r) =
      IsCachedRight-same lag c d same (Reached-IsCachedRight lag prompt short c r)

  -- After any creations and checks of shares, from a state without keys: whoever is given a share gave
  -- its code, if it has one, and the share was not over when the request came, but for the time
  -- between two calls; provided that the clock does not go back, that between two calls less than half
  -- a day passes, and that no share was created for more days than 64 bits of nanoseconds hold.
  pub check_share-admits :
      (lag : ℕ) (share_id code : String) (c : Counter) (s : FileShare)
      → IsMonotone b
      → IsPrompt lag b
      → lag + lag < day_long
      → Reached c
      → (check_share b share_id code c).0 ≡ inr s
      → IsAdmitted lag (b.clock c.calls) code s
  check_share-admits lag share_id code c s mono prompt short reached h =
      check_share-IsAdmitted lag b share_id code c s mono
        (Reached-IsCachedRight lag prompt short c reached) h
