-- ===== src/Activity/Totals.antt =====
-- A tally, the list of the events counted so far, each with its date; and what an update of the
-- counters does to them.
use cloud_vault.Activity.{is_countable}
use cloud_vault.Base.{
  Bool, Bool-cases, List, String, [], any, arith, false, if◌then◌else◌, inl, inr, not, refl, str_eq,
  true, ℕ, ◌&&◌, ◌==◌, ◌∷◌, ◌≡◌,
}
use cloud_vault.Base.Int.{eq_ℤ, ℤ}
use cloud_vault.Download.{Verdict, ack, requeue}
use cloud_vault.Figures.{
  DailyRow, Event, Increments, add_counts, add_to_row, build_increments, counts_of, is_row_of,
  zeros,
}

abbrev pub Tally : Type 0
Tally = List (Event × ℤ)

abbrev pub has_event : String → Tally → Bool
has_event id t = any (λ c. str_eq c.0.event_id id) t

-- What a user did on a date, according to the tally.
abbrev pub sum_of : ℕ → ℤ → Tally → Increments
sum_of user date [] = zeros
sum_of user date ((e, d) ∷ t) =
    let rest = sum_of user date t in
    if e.user_id == user && eq_ℤ d date
    then add_counts rest (build_increments e.action e.file_bytes)
    else rest

abbrev pub IsDistinct : Tally → Type 0
IsDistinct [] = Unit
IsDistinct ((e, d) ∷ t) = (has_event e.event_id t ≡ false) × IsDistinct t

-- The tally after a delivery: an event that is acknowledged is counted, unless it is not countable
-- or was counted before.
unfoldable pub note_event : Verdict → Event → ℤ → Tally → Tally
note_event ack e date t =
    if is_countable e && not (has_event e.event_id t) then (e, date) ∷ t else t
note_event requeue e date t = t

add_counts-zeros : (c : Increments) → add_counts zeros c ≡ c
unfolding add_counts
add_counts-zeros c = ground arith

is_row_of-same :
    (user : ℕ) (date : ℤ) (u : ℕ) (d : ℤ) (r : DailyRow)
    → is_row_of u d r ≡ true
    → is_row_of user date r ≡ (u == user && eq_ℤ d date)
unfolding is_row_of
is_row_of-same user date u d r h = ground arith

is_row_of-counts :
    (user : ℕ) (date : ℤ) (r : DailyRow) (c : Increments)
    → is_row_of user date (record r { counts = c }) ≡ is_row_of user date r
unfolding is_row_of
is_row_of-counts user date r c = refl

is_row_of-new :
    (user : ℕ) (date : ℤ) (u : ℕ) (d : ℤ) (inc : Increments)
    → is_row_of user date (record { user_id = u; stat_date = d; counts = inc })
      ≡ (u == user && eq_ℤ d date)
unfolding is_row_of
is_row_of-new user date u d inc = refl

is_row_of-apart :
    (user : ℕ) (date : ℤ) (u : ℕ) (d : ℤ) (r : DailyRow)
    → is_row_of u d r ≡ false
    → is_row_of user date r ≡ true
    → (u == user && eq_ℤ d date) ≡ false
unfolding is_row_of
is_row_of-apart user date u d r h k = ground arith

-- A change that goes into the row that is read, and one that goes past it.
pick_into :
    {A : Type 0} (b : Bool) (f : A → A) (x y : A)
    → (if b then f x else y) ≡ (if b then f (if b then x else y) else (if b then x else y))
pick_into true f x y = refl
pick_into false f x y = refl

pick_past :
    {A : Type 0} (b c : Bool) (f : A → A) (x y : A)
    → (b ≡ true → c ≡ false)
    → (if b then x else (if c then f y else y))
      ≡ (if c then f (if b then x else y) else (if b then x else y))
pick_past true c f x y h = rw (h refl) refl
pick_past false c f x y h = refl

pub counts_of-add_to_row :
    (user : ℕ) (date : ℤ) (u : ℕ) (d : ℤ) (inc : Increments) (rows : List DailyRow)
    → counts_of user date (add_to_row u d inc rows) ≡ (
        if u == user && eq_ℤ d date
        then add_counts (counts_of user date rows) inc
        else counts_of user date rows)
unfolding add_to_row counts_of
counts_of-add_to_row user date u d inc [] = rw (is_row_of-new, add_counts-zeros) refl
counts_of-add_to_row user date u d inc (r ∷ rs) =
    let here = is_row_of-same user date u d r in
    let rest = counts_of-add_to_row user date u d inc rs in
    elim (Bool-cases (is_row_of u d r)) [
      | inl h ↦
          rw (h, is_row_of-counts, here h)
            (pick_into (u == user && eq_ℤ d date) (λ c. add_counts c inc) r.counts
              (counts_of user date rs))
      | inr h ↦
          rw (h, rest)
            (pick_past (is_row_of user date r) (u == user && eq_ℤ d date) (λ c. add_counts c inc)
              r.counts (counts_of user date rs) (is_row_of-apart user date u d r h))
    ]
