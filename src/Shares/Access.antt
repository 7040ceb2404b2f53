-- ===== src/Shares/Access.antt =====
-- Who gets a shared file: only with the code, not after the end, and as long as it runs.
use cloud_vault.Base.{
  Bool-cases, Option, String, arith, false, inl, inr, inr_injective, none, not, not_some,
  past_guard, refl, some, str_eq, str_eq_iff, subst, sym, true, ℕ, ◌&&◌, ◌+◌, ◌≡◌, ◌≢◌, ◌≤◌, ◌⊎◌,
}
use cloud_vault.Base.Int.{+ℤ_parts, -ℤ_parts, ltb_ℤ, pos, ℤ, ◌+ℤ◌, ◌-ℤ◌, ◌≤ℤ◌}
use cloud_vault.File.Table.{live}
use cloud_vault.Shares.{
  Backend, Counter, FileShare, ShareError, check_cached, check_code, check_row, check_share,
  db_error, extract_code_mismatch, is_over, live_share, next_call, redis_error, share_expired,
}
use cloud_vault.World.{now}

-- Every key that is set carries a share with an end, and expires at most `lag` after it.
abbrev pub IsCachedRight : ℕ → Counter → Type 0
IsCachedRight lag c =
    (k : String) (s : FileShare) (end : Option ℤ)
    → c.cached k ≡ some (s, end)
    → (x : ℤ) × (e : ℤ) × (s.expire_at ≡ some x) × (end ≡ some e) × (e ≤ℤ x +ℤ pos lag)

abbrev pub IsMonotone : Backend → Type 0
IsMonotone b = (m n : ℕ) → m ≤ n → b.clock m ≤ℤ b.clock n

-- At most `lag` passes between a call and the next.
abbrev pub IsPrompt : ℕ → Backend → Type 0
IsPrompt lag b = (n : ℕ) → b.clock (n + 1) ≤ℤ b.clock n +ℤ pos lag

-- What an accepted request for a share implies.
abbrev pub IsAdmitted : ℕ → ℤ → String → FileShare → Type 0
IsAdmitted lag now code s =
    ((s.need_code ≡ false) ⊎ (s.extract_code ≡ code))
    × (is_over (now -ℤ pos lag) s.expire_at ≡ false)

check_code-admits :
    (s t : FileShare) (code : String)
    → check_code s code ≡ inr t
    → (s ≡ t) × ((s.need_code ≡ false) ⊎ (s.extract_code ≡ code))
check_code-admits s t code h =
    let (fits, e) =
      past_guard (s.need_code && not (str_eq s.extract_code code)) extract_code_mismatch (inr s) t
        h in
    (inr_injective s t e, code_of (Bool-cases s.need_code) fits)
  where
    code_of :
        ((s.need_code ≡ true) ⊎ (s.need_code ≡ false))
        → (s.need_code && not (str_eq s.extract_code code)) ≡ false
        → (s.need_code ≡ false) ⊎ (s.extract_code ≡ code)
    code_of (inr free) k = inl free
    code_of (inl need) k = inr ((str_eq_iff s.extract_code code).0 (ground arith))

is_over-sooner :
    (lag : ℕ) (b : Backend) (m n : ℕ) (end : Option ℤ)
    → IsMonotone b
    → m ≤ n
    → is_over (b.clock n -ℤ pos lag) end ≡ false
    → is_over (b.clock m -ℤ pos lag) end ≡ false
is_over-sooner lag b m n none mono h k = refl
is_over-sooner lag b m n (some expiry) mono h k =
    ground (arith, mono m n h, -ℤ_parts (b.clock m) (pos lag), -ℤ_parts (b.clock n) (pos lag))

is_over-lag :
    (lag : ℕ) (now : ℤ) (end : Option ℤ)
    → is_over now end ≡ false
    → is_over (now -ℤ pos lag) end ≡ false
is_over-lag lag now none h = refl
is_over-lag lag now (some expiry) h = ground (arith, -ℤ_parts now (pos lag), h)

not_over :
    (lag : ℕ) (now x e : ℤ)
    → ltb_ℤ now e ≡ true
    → e ≤ℤ x +ℤ pos lag
    → ltb_ℤ x (now -ℤ pos lag) ≡ false
not_over lag now x e h k = ground (arith, -ℤ_parts now (pos lag), +ℤ_parts x (pos lag), h, k)

live_share-right :
    (lag : ℕ) (now : ℤ) (entry : Option (FileShare × Option ℤ)) (s : FileShare)
    → ((t : FileShare) (end : Option ℤ)
        → entry ≡ some (t, end)
        → (x : ℤ) × (e : ℤ) × (t.expire_at ≡ some x) × (end ≡ some e) × (e ≤ℤ x +ℤ pos lag))
    → live_share now entry ≡ some s
    → is_over (now -ℤ pos lag) s.expire_at ≡ false
live_share-right lag now none s right h = ground arith
live_share-right lag now (some (t, none)) s right h =
    let (x, e, ends, at_end, near) = right t none refl in absurd (not_some e at_end)
live_share-right lag now (some (t, some expiry)) s right h =
    let (x, e, ends, at_end, near) = right t (some expiry) refl in
    elim (Bool-cases (ltb_ℤ now expiry)) [
      | inl live ↦
          let same : t ≡ s = some_injective (rw live at h) in
          let this : expiry ≡ e = same_end at_end in
          rw (sym same, ends)
            (not_over lag now x e (subst (λ y. ltb_ℤ now y ≡ true) this live) near)
      | inr gone ↦ elim (no_some (rw gone at h)) [ ]
    ]
  where
    some_injective : ◌≡◌ {A = Option FileShare} (some t) (some s) → t ≡ s
    some_injective e = cc e

    same_end : {e : ℤ} → ◌≡◌ {A = Option ℤ} (some expiry) (some e) → expiry ≡ e
    same_end h = cc h

    no_some : ◌≢◌ {A = Option FileShare} none (some s)
    no_some e = ground arith

check_row-admits :
    (lag : ℕ) (b : Backend) (code : String) (row : Option FileShare) (c : Counter) (s : FileShare)
    → (check_row b code row c).0 ≡ inr s
    → IsAdmitted lag (b.clock c.calls) code s
unfolding check_row
check_row-admits lag b code none c s h = ground arith
check_row-admits lag b code (some t) c s h =
    elim (Bool-cases (is_over (b.clock c.calls) t.expire_at)) [
      | inl over ↦ elim (no_inr (rw over at h)) [ ]
      | inr before ↦
          let (e, allowed) = check_code-admits t s code (rw before at h) in
          subst (IsAdmitted lag (b.clock c.calls) code) e
            (allowed, is_over-lag lag (b.clock c.calls) t.expire_at before)
    ]
  where
    no_inr : ◌≢◌ {A = ShareError ⊎ FileShare} (inl share_expired) (inr s)
    no_inr e = ground arith

check_cached-admits :
    (lag : ℕ) (b : Backend) (share_id code : String) (found : Option FileShare) (c : Counter)
    (s : FileShare)
    → IsMonotone b
    → (check_cached b share_id code found (next_call c)).0 ≡ inr s
    → ((t : FileShare) → found ≡ some t → is_over (b.clock c.calls -ℤ pos lag) t.expire_at ≡ false)
    → IsAdmitted lag (b.clock c.calls) code s
unfolding check_cached
check_cached-admits lag b share_id code (some t) c s mono h timely =
    let (e, allowed) = check_code-admits t s code h in
    subst (IsAdmitted lag (b.clock c.calls) code) e (allowed, timely t refl)
check_cached-admits lag b share_id code none c s mono h timely =
    elim (Bool-cases (b.db_fails (c.calls + 1))) [
      | inl lost ↦ elim (no_inr (rw lost at h)) [ ]
      | inr answered ↦
          let (allowed, before) = check_row-admits lag b code _ _ s (rw answered at h) in
          (
            allowed,
            is_over-sooner lag b c.calls (c.calls + 1 + 1) s.expire_at mono (omega arith) before,
          )
    ]
  where
    no_inr : ◌≢◌ {A = ShareError ⊎ FileShare} (inl db_error) (inr s)
    no_inr e = ground arith

pub check_share-IsAdmitted :
    (lag : ℕ) (b : Backend) (share_id code : String) (c : Counter) (s : FileShare)
    → IsMonotone b
    → IsCachedRight lag c
    → (check_share b share_id code c).0 ≡ inr s
    → IsAdmitted lag (b.clock c.calls) code s
unfolding check_share
check_share-IsAdmitted lag b share_id code c s mono right h =
    elim (Bool-cases (b.redis_fails c.calls)) [
      | inl lost ↦ elim (no_inr (rw lost at h)) [ ]
      | inr answered ↦
          check_cached-admits lag b share_id code _ c s mono (rw answered at h)
            (λ t e. live_share-right lag _ (c.cached share_id) t (right share_id) e)
    ]
  where
    no_inr : ◌≢◌ {A = ShareError ⊎ FileShare} (inl redis_error) (inr s)
    no_inr e = ground arith
