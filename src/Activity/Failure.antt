-- ===== src/Activity/Failure.antt =====
-- What an activity that could not be recorded leaves behind.
use cloud_vault.Activity.{
  Claim, Ledger, Meter, apply_event, claim_event, count_call, duplicate, emit_event, finish_event,
  is_countable, is_live, marked, publish, put_seen, release_event, time_of, unmarked,
  upsert_daily_row,
}
use cloud_vault.Base.{
  Bool-cases, String, arith, false, if◌then◌else◌, inl, inr, none, not, refl, some, str_eq, sym,
  true, ℕ, ◌&&◌, ◌+◌, ◌≡◌, ◌⊎◌,
}
use cloud_vault.Base.Int.{ℤ}
use cloud_vault.Figures.{Event}
use cloud_vault.Rows.{Action}

-- The rows, the daily hashes and the queue are as they were, and so is every key but that of the
-- event `id`, which is gone, unless Redis has failed the call of number `n`.
pub record LeavesAlone (m : Meter) (id : String) (n : ℕ) (l : Ledger) (l' : Ledger) : Type 0 where
  pub daily : l'.daily ≡ l.daily
  pub queue : l'.queue ≡ l.queue
  pub hashes : (u : ℕ) (d : ℤ) → l'.hashes u d ≡ l.hashes u d
  pub keys :
      (k : String)
      → (l'.seen k ≡ l.seen k)
        ⊎ (str_eq id k ≡ true) × ((l'.seen k ≡ none) ⊎ (m.redis_fails n ≡ true))

same_but_calls :
    (m : Meter) (id : String) (n : ℕ) (l : Ledger) (c : ℕ)
    → LeavesAlone m id n l (record l { calls = c })
same_but_calls m id n l c = record {
  daily = refl;
  queue = refl;
  hashes = λ u d. refl;
  keys = λ k. inl refl;
}

set_key-LeavesAlone :
    (m : Meter) (id : String) (n : ℕ) (l : Ledger) (c v : ℕ)
    → m.redis_fails n ≡ true
    → LeavesAlone m id n l (record l { calls = c; seen = put_seen id (some v) l.seen })
set_key-LeavesAlone m id n l c v down = record {
  daily = refl;
  queue = refl;
  hashes = λ u d. refl;
  keys = λ k. elim (Bool-cases (str_eq id k)) [
    | inl own ↦ inr (own, inr down)
    | inr foreign ↦ inl (rw foreign refl)
  ];
}

clear_key-LeavesAlone :
    (m : Meter) (id : String) (n : ℕ) (l : Ledger) (c v : ℕ)
    → LeavesAlone m id n l
        (record l { calls = c; seen = put_seen id none (put_seen id (some v) l.seen) })
clear_key-LeavesAlone m id n l c v = record {
  daily = refl;
  queue = refl;
  hashes = λ u d. refl;
  keys = λ k. elim (Bool-cases (str_eq id k)) [
    | inl own ↦ inr (own, inl (rw own refl))
    | inr foreign ↦ inl (rw foreign refl)
  ];
}

-- The key of an event is set and released again.
release_event-LeavesAlone :
    (m : Meter) (id : String) (l : Ledger)
    → LeavesAlone m id
        (l.calls + 1 + 1)
        l
        (release_event m (claim_event m id l).0 id (count_call (claim_event m id l).1))
unfolding claim_event release_event
release_event-LeavesAlone m id l = elim (Bool-cases (m.redis_ready && not (str_eq id ""))) [
  | inr off ↦ rw off (same_but_calls m id _ l _)
  | inl on ↦ elim (Bool-cases (m.redis_fails l.calls)) [
    | inl down ↦ rw (on, down) (same_but_calls m id _ l _)
    | inr up ↦ elim (Bool-cases (is_live (m.clock l.calls) (l.seen id))) [
      | inl old ↦ rw (on, up, old) (same_but_calls m id _ l _)
      | inr new ↦ elim (Bool-cases (m.redis_fails (l.calls + 1 + 1))) [
        | inl lost ↦ rw (on, up, new, lost) (set_key-LeavesAlone m id _ l _ _ lost)
        | inr gone ↦ rw (on, up, new, gone) (clear_key-LeavesAlone m id _ l _ _)
      ]
    ]
  ]
]

-- The call before is left alone, too.
before_call :
    (m : Meter) (id : String) (n : ℕ) (l : Ledger) (l' : Ledger)
    → LeavesAlone m id n (count_call l) l'
    → LeavesAlone m id n l l'
before_call m id n l l' h = record {
  daily = h.daily;
  queue = h.queue;
  hashes = h.hashes;
  keys = h.keys;
}

-- An error is a row that was refused.
finish_event-refused :
    (m : Meter) (c : Claim) (e : Event) (time : ℕ) (l : Ledger)
    → (finish_event m c e time l).0 ≡ false
    → (finish_event m c e time l).1 ≡ release_event m c e.event_id (count_call l)
unfolding finish_event upsert_daily_row
finish_event-refused m duplicate e time l h = ground arith
finish_event-refused m unmarked e time l h = ground arith
finish_event-refused m marked e time l h = ground arith

apply_event-ignored :
    (m : Meter) (e : Event) (l : Ledger) → is_countable e ≡ false → (apply_event m e l).0 ≡ true
unfolding apply_event
apply_event-ignored m e l ignored = rw ignored refl

apply_event-error :
    (m : Meter) (e : Event) (l : Ledger)
    → is_countable e ≡ true
    → (apply_event m e l).0 ≡ false
    → LeavesAlone m e.event_id (l.calls + 1 + 1 + 1) l (apply_event m e l).1
unfolding apply_event
apply_event-error m e l countable h =
    let claim = claim_event m e.event_id (count_call l) in
    let refused : (finish_event m claim.0 e (time_of m e l) claim.1).0 ≡ false =
      rw countable at h in
    rw countable (
      rw (finish_event-refused m claim.0 e (time_of m e l) claim.1 refused)
        (before_call m e.event_id _ l _ (release_event-LeavesAlone m e.event_id (count_call l))))

-- What `Emit` does with its event
publish-error :
    (m : Meter) (e : Event) (l : Ledger)
    → let sent = publish m e l in
      let out = if sent.0 then (true, sent.1) else apply_event m e sent.1 in
      out.0 ≡ false → LeavesAlone m e.event_id (l.calls + 1 + 1 + 1 + 1) l out.1
unfolding publish
publish-error m e l h = elim (Bool-cases (is_countable e)) [
  | inr ignored ↦ ground (arith, apply_event-ignored m e l ignored, rw ignored at h)
  | inl countable ↦ elim (Bool-cases (m.publish_fails l.calls)) [
    | inr sent ↦ ground (arith, rw (countable, sent) at h)
    | inl down ↦
        rw (countable, down)
          (before_call m e.event_id _ l _
            (apply_event-error m e (count_call l) countable (rw (countable, down) at h)))
  ]
]

-- An activity for which `Emit` returns an error leaves the rows, the daily hashes, the queue and the
-- keys in Redis as they were; the key of its own event may also be gone, and is left set only if
-- Redis failed the command that deletes it.
pub emit_event-error :
    (m : Meter) (user : ℕ) (action : Action) (file : ℕ) (bytes : ℤ) (l : Ledger)
    → (emit_event m user action file bytes l).0 ≡ false
    → LeavesAlone m (m.token l.calls) (l.calls + 5) l (emit_event m user action file bytes l).1
unfolding emit_event
emit_event-error m user action file bytes l h =
    let five : l.calls + 1 + 1 + 1 + 1 + 1 ≡ l.calls + 5 = omega arith in
    rw (sym five) (before_call m (m.token l.calls) _ l _ (publish-error m _ (count_call l) h))
