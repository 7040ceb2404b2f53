-- ===== src/Lock/Grants.antt =====
-- The invariant of the lock in Redis, which the grant of a lease keeps.
use cloud_vault.Base.{
  Bool-cases, Option, Option-cases, String, ap, arith, inl, inr, lt→ltb, none, refl, some, subst,
  sym, ℕ, ◌+◌, ◌<◌, ◌==◌, ◌∙◌, ◌≡◌, ◌≢◌, ◌≤◌, ◌⊎◌,
}
use cloud_vault.Lock.{
  RedisLock, System, draw, live_value, lock, lock_unanswered, set_lock, set_value,
}

-- Process i may rely on the lock.
abbrev pub Holds : ℕ → System → Type 0
Holds i s = s.time < (s.locks i).until

-- What the package uuid promises: no text comes twice, and none is empty.
pub record IsUnique (uuid : ℕ → String) : Type 0 where
  pub differ : (m n : ℕ) → uuid m ≡ uuid n → m ≡ n
  pub nonempty : (n : ℕ) → uuid n ≢ ""

-- What holds of every system that is reached.
pub record IsOrderly (uuid : ℕ → String) (s : System) : Type 0 where
  pub kept :
      (i : ℕ)
      → Holds i s
      → (s.value ≡ some ((s.locks i).token, (s.locks i).until)) × ((s.locks i).token ≢ "")
  pub apart : (i j : ℕ) → (s.locks i).token ≢ "" → (s.locks i).token ≡ (s.locks j).token → i ≡ j
  pub unused : (i k : ℕ) → s.drawn ≤ k → (s.locks i).token ≢ uuid k

-- Two processes that hold the lock are one.
pub IsOrderly-exclusive :
    (uuid : ℕ → String) (s : System) (i j : ℕ) → IsOrderly uuid s → Holds i s → Holds j s → i ≡ j
IsOrderly-exclusive uuid s i j o hi hj =
    let (vi, ni) = o.kept i hi in let (vj, nj) = o.kept j hj in o.apart i j ni (cc (vi, vj))

pub set_lock-cases :
    (i : ℕ) (l : RedisLock) (locks : ℕ → RedisLock) (j : ℕ)
    → ((j ≡ i) × (set_lock i l locks j ≡ l)) ⊎ ((j ≢ i) × (set_lock i l locks j ≡ locks j))
set_lock-cases i l locks j = elim (Bool-cases (j == i)) [
  | inl b ↦ inl (ground arith, rw b refl)
  | inr b ↦ inr (ground arith, rw b refl)
]

module _ (uuid : ℕ → String) (ttl : ℕ) where
  pub draw-IsOrderly : (s : System) → IsOrderly uuid s → IsOrderly uuid (draw uuid ttl s)
  draw-IsOrderly s o = record {
    kept = o.kept;
    apart = o.apart;
    unused = λ i k h. o.unused i k (omega (arith, h));
  }

  -- A live key, or none, for a process that holds the lock
  pub live_of_holder :
      (s : System) (i : ℕ)
      → IsOrderly uuid s
      → Holds i s
      → live_value s.time s.value ≡ some (s.locks i).token
  live_of_holder s i o h = rw (((o.kept i h).0), lt→ltb s.time (s.locks i).until h) refl

  no_holder :
      (s : System) (i : ℕ) → IsOrderly uuid s → live_value s.time s.value ≡ none → Holds i s → ⊥
  no_holder s i o free h = some_not_none _ (sym (live_of_holder s i o h) ∙ free)
    where
      some_not_none : (t : String) → ◌≢◌ {A = Option String} (some t) none
      some_not_none t e = ground arith

  set_value-IsOrderly :
      (s : System)
      → live_value s.time s.value ≡ none
      → IsOrderly uuid s
      → IsOrderly uuid (set_value uuid ttl s)
  set_value-IsOrderly s free o = record {
    kept = λ i h. elim (no_holder s i o free h) [ ];
    apart = o.apart;
    unused = λ i k h. o.unused i k (omega (arith, h));
  }

  abbrev granted : ℕ → System → System
  granted i s = record (set_value uuid ttl s) {
    locks = set_lock i (record { token = uuid s.drawn; until = s.time + ttl }) s.locks;
  }

  granted-IsOrderly :
      (i : ℕ) (s : System)
      → IsUnique uuid
      → live_value s.time s.value ≡ none
      → IsOrderly uuid s
      → IsOrderly uuid (granted i s)
  granted-IsOrderly i s u free o = record {
    kept = λ j h. elim (set_lock-cases i new s.locks j) [
      | inl (_, e) ↦ rw e (refl, u.nonempty s.drawn)
      | inr (_, e) ↦ elim (no_holder s j o free (holds_other j h e)) [ ]
    ];
    apart = λ j k n e.
        granted_apart j k (set_lock-cases i new s.locks j) (set_lock-cases i new s.locks k) n e;
    unused = λ j k h. elim (set_lock-cases i new s.locks j) [
      | inl (_, e) ↦ rw e (λ same. later k h (u.differ s.drawn k same))
      | inr (_, e) ↦ rw e (o.unused j k (omega (arith, h)))
    ];
  }
    where
      new : RedisLock
      new = record { token = uuid s.drawn; until = s.time + ttl }

      later : (k : ℕ) → s.drawn + 1 ≤ k → s.drawn ≡ k → ⊥
      later k h e = omega (arith, h, e)

      granted_apart :
          (j k : ℕ)
          → (((j ≡ i) × (set_lock i new s.locks j ≡ new))
              ⊎ ((j ≢ i) × (set_lock i new s.locks j ≡ s.locks j)))
          → (((k ≡ i) × (set_lock i new s.locks k ≡ new))
              ⊎ ((k ≢ i) × (set_lock i new s.locks k ≡ s.locks k)))
          → (set_lock i new s.locks j).token ≢ ""
          → (set_lock i new s.locks j).token ≡ (set_lock i new s.locks k).token
          → j ≡ k
      granted_apart j k (inl (a, _)) (inl (b, _)) n e = a ∙ sym b
      granted_apart j k (inl (_, a)) (inr (_, b)) n e =
          elim (o.unused k s.drawn (omega arith)
            (sym (ap (λ l. l.token) b) ∙ sym e ∙ ap (λ l. l.token) a)) [ ]
      granted_apart j k (inr (_, a)) (inl (_, b)) n e =
          elim (o.unused j s.drawn (omega arith)
            (sym (ap (λ l. l.token) a) ∙ e ∙ ap (λ l. l.token) b)) [ ]
      granted_apart j k (inr (_, a)) (inr (_, b)) n e =
          o.apart j k (subst (λ l. l.token ≢ "") a n)
            (sym (ap (λ l. l.token) a) ∙ e ∙ ap (λ l. l.token) b)

      holds_other :
          (j : ℕ) → Holds j (granted i s) → set_lock i new s.locks j ≡ s.locks j → Holds j s
      holds_other j h e = subst (λ l. s.time < l.until) e h

  pub lock-IsOrderly :
      (i : ℕ) (s : System) → IsUnique uuid → IsOrderly uuid s → IsOrderly uuid (lock uuid ttl i s).1
  unfolding lock
  lock-IsOrderly i s u o = elim (Option-cases (live_value s.time s.value)) [
    | inr (t, taken) ↦ rw (lock, taken) (draw-IsOrderly s o)
    | inl free ↦ rw (lock, free) (granted-IsOrderly i s u free o)
  ]

  pub lock_unanswered-IsOrderly :
      (i : ℕ) (s : System) → IsOrderly uuid s → IsOrderly uuid (lock_unanswered uuid ttl i s).1
  unfolding lock_unanswered
  lock_unanswered-IsOrderly i s o = elim (Option-cases (live_value s.time s.value)) [
    | inr (t, taken) ↦ rw (lock_unanswered, taken) (draw-IsOrderly s o)
    | inl free ↦ rw (lock_unanswered, free) (set_value-IsOrderly s free o)
  ]
