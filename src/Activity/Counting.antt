-- ===== src/Activity/Counting.antt =====
-- Counting activities against a tally.
use cloud_vault.Activity.{
  Ledger, Meter, apply_event, claim_event, count_call, duplicate, event_dedup_ttl, finish_event,
  handle_activity_message, increase_daily_hash, is_countable, is_live, marked, put_seen,
  release_event, time_of, upsert_daily_row,
}
use cloud_vault.Activity.Totals.{
  IsDistinct, Tally, counts_of-add_to_row, has_event, note_event, sum_of,
}
use cloud_vault.Base.{
  All, Bool, Bool-cases, List, Option, String, [], arith, false, if◌then◌else◌, inl, inr, lt→ltb,
  none, not, refl, some, str_eq, str_eq_iff, subst, true, ℕ, ◌+◌, ◌<◌, ◌||◌, ◌∷◌, ◌≡◌, ◌⊎◌,
}
use cloud_vault.Base.Int.{ℤ}
use cloud_vault.Download.{ack, requeue}
use cloud_vault.Figures.{
  Event, Increments, add_counts, add_to_row, all_fit, build_increments, counts_of,
}

-- Whether a key is set for as long as the clock runs, or is not set.
abbrev pub IsMarked : Meter → Bool → Option ℕ → Type 0
IsMarked m true (some expiry) = (n : ℕ) → m.clock n < expiry
IsMarked m true none = ⊥
IsMarked m false o = o ≡ none

-- A ledger shows a tally: the counters are its sums, and the keys of its events are set.
pub record Shows (m : Meter) (t : Tally) (l : Ledger) : Type 0 where
  pub totals : (user : ℕ) (date : ℤ) → counts_of user date l.daily ≡ sum_of user date t
  pub marks : (id : String) → IsMarked m (has_event id t) (l.seen id)
  pub distinct : IsDistinct t

-- Redis answers every command, and no marking key expires while the clock runs.
pub record IsSteady (m : Meter) : Type 0 where
  pub ready : m.redis_ready ≡ true
  pub answers : (n : ℕ) → m.redis_fails n ≡ false
  pub unexpired : (n k : ℕ) → m.clock n < m.clock k + event_dedup_ttl

-- A release undoes the claim.
seen-put_seen :
    (id k : String) (seen : String → Option ℕ) (o : Option ℕ)
    → seen id ≡ none
    → put_seen id none (put_seen id o seen) k ≡ seen k
seen-put_seen id k seen o h = ground (arith, str_eq_iff id k)

is_live-IsMarked :
    (m : Meter) (b : Bool) (o : Option ℕ) (n : ℕ) → IsMarked m b o → is_live (m.clock n) o ≡ b
is_live-IsMarked m true (some expiry) n h = lt→ltb (m.clock n) expiry (h n)
is_live-IsMarked m true none n h = elim h [ ]
is_live-IsMarked m false none n h = refl
is_live-IsMarked m false (some expiry) n h = cc h

abbrev mark_at : Meter → String → Ledger → Ledger
mark_at m id l = record (count_call l) {
  seen = put_seen id (some (m.clock l.calls + event_dedup_ttl)) l.seen;
}

claim_event-Shows :
    (m : Meter) (id : String) (t : Tally) (l : Ledger)
    → IsSteady m
    → Shows m t l
    → str_eq id "" ≡ false
    → claim_event m id l
      ≡ (if has_event id t then (duplicate, count_call l) else (marked, mark_at m id l))
unfolding claim_event
claim_event-Shows m id t l s h named =
    rw
      (
        s.ready,
        named,
        s.answers l.calls,
        is_live-IsMarked m (has_event id t) (l.seen id) l.calls (h.marks id),
      )
      refl

Shows-same :
    (m : Meter) (t : Tally) (l l' : Ledger)
    → Shows m t l
    → l'.daily ≡ l.daily
    → ((k : String) → l'.seen k ≡ l.seen k)
    → Shows m t l'
Shows-same m t l l' h rows keys = record {
  totals = λ user date. rw rows (h.totals user date);
  marks = λ id. rw (keys id) (h.marks id);
  distinct = h.distinct;
}

increase_daily_hash-daily :
    (m : Meter) (user : ℕ) (date : ℤ) (inc : Increments) (l : Ledger)
    → (increase_daily_hash m user date inc l).daily ≡ l.daily
unfolding increase_daily_hash
increase_daily_hash-daily m user date inc l = ground arith

increase_daily_hash-seen :
    (m : Meter) (user : ℕ) (date : ℤ) (inc : Increments) (l : Ledger)
    → (increase_daily_hash m user date inc l).seen ≡ l.seen
unfolding increase_daily_hash
increase_daily_hash-seen m user date inc l = ground arith

IsMarked-either :
    (m : Meter) (b c : Bool) (expiry : ℕ) (o : Option ℕ)
    → ((n : ℕ) → m.clock n < expiry)
    → IsMarked m c o
    → IsMarked m (b || c) (if b then some expiry else o)
IsMarked-either m true c expiry o h k = h
IsMarked-either m false c expiry o h k = k

IsMarked-put_seen :
    (m : Meter) (e : Event) (date : ℤ) (t : Tally) (l : Ledger) (n : ℕ)
    → IsSteady m
    → Shows m t l
    → (id : String)
    → IsMarked m
        (has_event id ((e, date) ∷ t))
        (put_seen e.event_id (some (m.clock n + event_dedup_ttl)) l.seen id)
IsMarked-put_seen m e date t l n s h id =
    IsMarked-either m (str_eq e.event_id id) (has_event id t) _ (l.seen id) (λ k. s.unexpired k n)
      (h.marks id)

counted-Shows :
    (m : Meter) (e : Event) (date : ℤ) (t : Tally) (l l' : Ledger)
    → IsSteady m
    → Shows m t l
    → has_event e.event_id t ≡ false
    → l'.daily ≡ add_to_row e.user_id date (build_increments e.action e.file_bytes) l.daily
    → l'.seen ≡ (mark_at m e.event_id l).seen
    → Shows m ((e, date) ∷ t) l'
counted-Shows m e date t l l' s h new rows keys = record {
  totals = λ user day. rw (rows, counts_of-add_to_row user day, h.totals user day) refl;
  marks = λ id. rw keys (IsMarked-put_seen m e date t l l.calls s h id);
  distinct = (new, h.distinct);
}

Shows-seen :
    (m : Meter) (id : String) (t : Tally) (l : Ledger)
    → Shows m t l
    → has_event id t ≡ false
    → l.seen id ≡ none
Shows-seen m id t l h new = subst (λ b. IsMarked m b (l.seen id)) new (h.marks id)

upsert_daily_row-cases :
    (m : Meter) (user : ℕ) (date : ℤ) (inc : Increments) (l : Ledger)
    → (upsert_daily_row m user date inc l ≡ (false, count_call l))
      ⊎ (upsert_daily_row m user date inc l
          ≡ (true, record (count_call l) { daily = add_to_row user date inc l.daily }))
unfolding upsert_daily_row
upsert_daily_row-cases m user date inc l =
    elim (Bool-cases
      (m.db_fails l.calls || not (all_fit (add_counts (counts_of user date l.daily) inc)))) [
        | inl h ↦ inl (rw h refl)
        | inr h ↦ inr (rw h refl)
      ]

finish_event-Shows :
    (m : Meter) (e : Event) (time : ℕ) (t : Tally) (l : Ledger)
    → IsSteady m
    → Shows m t l
    → has_event e.event_id t ≡ false
    → is_countable e ≡ true
    → let out = finish_event m marked e time (mark_at m e.event_id l) in
      Shows m (note_event (if out.0 then ack else requeue) e (m.day_of time) t) out.1
unfolding finish_event note_event release_event
finish_event-Shows m e time t l s h new is =
    let inc : Increments = build_increments e.action e.file_bytes in
    elim (upsert_daily_row-cases m e.user_id (m.day_of time) inc (mark_at m e.event_id l)) [
      | inl turned_down ↦
          rw (turned_down, s.answers (l.calls + 1 + 1))
            (Shows-same m t l _ h refl
              (λ k. seen-put_seen e.event_id k l.seen _ (Shows-seen m e.event_id t l h new)))
      | inr done ↦
          rw (done, is, new)
            (counted-Shows m e (m.day_of time) t l _ s h new
              (increase_daily_hash-daily m e.user_id (m.day_of time) inc _)
              (increase_daily_hash-seen m e.user_id (m.day_of time) inc _))
    ]

-- One delivery, whatever MySQL answers.
handle_activity_message-Shows :
    (m : Meter) (e : Event) (t : Tally) (l : Ledger)
    → IsSteady m
    → Shows m t l
    → str_eq e.event_id "" ≡ false
    → let out = handle_activity_message m (some e) l in
      Shows m (note_event out.0 e (m.day_of (time_of m e l)) t) out.1
unfolding handle_activity_message apply_event note_event finish_event
handle_activity_message-Shows m e t l s h named =
    let h' : Shows m t (count_call l) = Shows-same m t l (count_call l) h refl (λ k. refl) in
    let claim = claim_event-Shows m e.event_id t (count_call l) s h' named in
    elim (Bool-cases (is_countable e)) [
      | inr other_event ↦ rw (other_event, other_event) h
      | inl countable ↦ elim (Bool-cases (has_event e.event_id t)) [
        | inl old ↦
            rw (countable, claim, old, countable, old) (Shows-same m t l _ h refl (λ k. refl))
        | inr new ↦
            rw (countable, claim, new)
              (finish_event-Shows m e (time_of m e l) t (count_call l) s h' new countable)
      ]
    ]

-- The worker, over the deliveries that it takes from the queue.
unfoldable pub run_worker : Meter → List (Option Event) → Ledger → Ledger
run_worker m [] l = l
run_worker m (e ∷ es) l = run_worker m es (handle_activity_message m e l).1

-- The tally of a run
unfoldable pub run_tally : Meter → List (Option Event) → Ledger → Tally → Tally
run_tally m [] l t = t
run_tally m (none ∷ es) l t = run_tally m es l t
run_tally m (some e ∷ es) l t =
    let out = handle_activity_message m (some e) l in
    run_tally m es out.1 (note_event out.0 e (m.day_of (time_of m e l)) t)

-- Whether an event carries an id; `Publish` gives one to an event that has none.
abbrev pub IsNamed : Option Event → Type 0
IsNamed none = Unit
IsNamed (some e) = str_eq e.event_id "" ≡ false

-- While Redis answers and no marking key expires, a run of the worker over any deliveries, repeated
-- ones included, and whichever statements of MySQL fail, leaves counters that are the sums over a
-- tally in which no event occurs twice: the tally of the events that were acknowledged.
pub run_worker-Shows :
    (m : Meter) (es : List (Option Event)) (t : Tally) (l : Ledger)
    → IsSteady m
    → All IsNamed es
    → Shows m t l
    → Shows m (run_tally m es l t) (run_worker m es l)
unfolding run_worker run_tally handle_activity_message
run_worker-Shows m [] t l s named h = h
run_worker-Shows m (none ∷ es) t l s named h = run_worker-Shows m es t l s named.1 h
run_worker-Shows m (some e ∷ es) t l s named h =
    run_worker-Shows m es _ _ s named.1 (handle_activity_message-Shows m e t l s h named.0)
