-- ===== src/Lock/Exclusion.antt =====
-- Mutual exclusion of the lock in Redis, within the lease.
use cloud_vault.Base.{
  Bool-cases, Option-cases, String, ap, arith, false, inl, inr, none, refl, some, str_eq,
  str_eq_iff, subst, sym, ℕ, ◌<◌, ◌∙◌, ◌≡◌, ◌≢◌,
}
use cloud_vault.Lock.{
  Step, Steps, System, delete_if_held, ended, give_back, is_unanswered, is_unsent, leaves_it,
  live_value, locks_it, no_step, then_step, time_passes, unlock, unlocks_it,
}
use cloud_vault.Lock.Grants.{
  Holds, IsOrderly, IsOrderly-exclusive, IsUnique, draw-IsOrderly, live_of_holder, lock-IsOrderly,
  lock_unanswered-IsOrderly, set_lock-cases,
}

give_back-token : (i : ℕ) (s : System) (j : ℕ) → ((give_back i s).locks j).token ≡ (s.locks j).token
give_back-token i s j = elim (set_lock-cases i (ended (s.locks i)) s.locks j) [
  | inl (same, e) ↦ rw (e, same) refl
  | inr (_, e) ↦ rw e refl
]

give_back-Holds : (i : ℕ) (s : System) (j : ℕ) → Holds j (give_back i s) → Holds j s × (j ≢ i)
give_back-Holds i s j h = elim (set_lock-cases i (ended (s.locks i)) s.locks j) [
  | inl (_, e) ↦ let k : s.time < 0 = subst (λ l. s.time < l.until) e h in elim k [ ]
  | inr (other_one, e) ↦ (rw e at h, other_one)
]

-- The lease of a process ends.
give_back-IsOrderly :
    (uuid : ℕ → String) (i : ℕ) (s : System) → IsOrderly uuid s → IsOrderly uuid (give_back i s)
give_back-IsOrderly uuid i s o = record {
  kept = λ j h. elim (set_lock-cases i (ended (s.locks i)) s.locks j) [
    | inl (same, _) ↦ elim ((give_back-Holds i s j h).1 same) [ ]
    | inr (_, e) ↦ rw e (o.kept j (give_back-Holds i s j h).0)
  ];
  apart = λ j k n e.
      o.apart j k (rw (give_back-token i s j) at n)
        (sym (give_back-token i s j) ∙ e ∙ give_back-token i s k);
  unused = λ j k h e. o.unused j k h (sym (give_back-token i s j) ∙ e);
}

-- The key goes with the process that set it, and no other process relied on it.
deleted-IsOrderly :
    (uuid : ℕ → String) (i : ℕ) (s : System)
    → IsOrderly uuid s
    → (s.locks i).token ≢ ""
    → live_value s.time s.value ≡ some (s.locks i).token
    → IsOrderly uuid (give_back i (record s { value = none }))
deleted-IsOrderly uuid i s o n e = record {
  kept = λ j h. elim (nobody j (give_back-Holds i s j h)) [ ];
  apart = (give_back-IsOrderly uuid i s o).apart;
  unused = (give_back-IsOrderly uuid i s o).unused;
}
  where
    nobody : (j : ℕ) → Holds j s × (j ≢ i) → ⊥
    nobody j (h, other_one) =
        other_one (sym (o.apart i j n (cc (e, live_of_holder uuid 0 s j o h))))

delete-IsOrderly :
    (uuid : ℕ → String) (i : ℕ) (s : System)
    → IsOrderly uuid s
    → (s.locks i).token ≢ ""
    → IsOrderly uuid (give_back i (delete_if_held (s.locks i).token s))
unfolding delete_if_held
delete-IsOrderly uuid i s o n = elim (Option-cases (live_value s.time s.value)) [
  | inl gone ↦ rw (delete_if_held, gone) (give_back-IsOrderly uuid i s o)
  | inr (held, e) ↦ elim (Bool-cases (str_eq held (s.locks i).token)) [
    | inr b ↦ rw (delete_if_held, e, b) (give_back-IsOrderly uuid i s o)
    | inl b ↦
        rw (delete_if_held, e, b)
          (deleted-IsOrderly uuid i s o n (e ∙ ap some ((str_eq_iff held (s.locks i).token).0 b)))
  ]
]

unlock-IsOrderly :
    (uuid : ℕ → String) (i : ℕ) (s : System) → IsOrderly uuid s → IsOrderly uuid (unlock i s)
unfolding unlock
unlock-IsOrderly uuid i s o = elim (Bool-cases (str_eq (s.locks i).token "")) [
  | inl b ↦ rw (unlock, b) (give_back-IsOrderly uuid i s o)
  | inr b ↦ rw (unlock, b) (delete-IsOrderly uuid i s o (named b))
]
  where
    named : str_eq (s.locks i).token "" ≡ false → (s.locks i).token ≢ ""
    named b e = ground (arith, str_eq_iff (s.locks i).token "")

Step-IsOrderly :
    (uuid : ℕ → String) (ttl : ℕ) (s t : System)
    → IsUnique uuid
    → IsOrderly uuid s
    → Step uuid ttl s t
    → IsOrderly uuid t
Step-IsOrderly uuid ttl _ _ u o (locks_it i s) = lock-IsOrderly uuid ttl i s u o
Step-IsOrderly uuid ttl _ _ u o (is_unanswered i s) = lock_unanswered-IsOrderly uuid ttl i s o
Step-IsOrderly uuid ttl _ _ u o (is_unsent s) = draw-IsOrderly uuid ttl s o
Step-IsOrderly uuid ttl _ _ u o (unlocks_it i s) = unlock-IsOrderly uuid i s o
Step-IsOrderly uuid ttl _ _ u o (leaves_it i s) = give_back-IsOrderly uuid i s o
Step-IsOrderly uuid ttl _ _ u o (time_passes n s) = record {
  kept = λ i h. o.kept i (omega (arith, h));
  apart = o.apart;
  unused = o.unused;
}

Steps-IsOrderly :
    (uuid : ℕ → String) (ttl : ℕ) (s t : System)
    → IsUnique uuid
    → IsOrderly uuid s
    → Steps uuid ttl s t
    → IsOrderly uuid t
Steps-IsOrderly uuid ttl s _ u o no_step = o
Steps-IsOrderly uuid ttl s t u o (then_step {t = r} before last) =
    Step-IsOrderly uuid ttl r t u (Steps-IsOrderly uuid ttl s r u o before) last

-- No process has a lock yet.
abbrev pub start : ℕ → System
start time = record {
  time = time;
  value = none;
  locks = λ i. record { token = ""; until = 0 };
  drawn = 0;
}

-- However the commands of the processes fall, and whichever of them fail before or after their
-- effect, no two processes hold the lock at once: each from the grant of its lease to its end, its
-- release or its expiry, whichever comes first.
pub Steps-exclusive :
    (uuid : ℕ → String) (ttl time : ℕ) (t : System) (i j : ℕ)
    → IsUnique uuid
    → Steps uuid ttl (start time) t
    → Holds i t
    → Holds j t
    → i ≡ j
Steps-exclusive uuid ttl time t i j u run =
    IsOrderly-exclusive uuid t i j (Steps-IsOrderly uuid ttl (start time) t u started run)
  where
    started : IsOrderly uuid (start time)
    started = record {
      kept = λ i h. elim h [ ];
      apart = λ i j n e. elim (n refl) [ ];
      unused = λ i k h e. u.nonempty k (sym e);
    }
