-- ===== src/Download/Retry.antt =====
-- Retries are bounded, their delays are those of the configuration, and no failure is forgotten.
use cloud_vault.Base.{
  Bool-cases, List, Option, [], arith, get_elem?, if◌then◌else◌, inl, inr, leb, length, min, none,
  refl, some, suc, update_where, zero, ℕ, ◌++◌, ◌<◌, ◌==◌, ◌∷◌, ◌≡◌, ◌⊎◌,
}
use cloud_vault.Base.Int.{leb_ℤ, ltb_ℤ, negsuc, pos, pos_part, ℤ, ◌+ℤ◌, ◌-ℤ◌, ◌≤ℤ◌}
use cloud_vault.Download.{
  Broker, Desk, DownloadMessage, ack, get_or, give_up, last_or, mark_failed, max_retry,
  pick_retry_delay, schedule_retry, settle,
}
use cloud_vault.Rows.{Error}
use cloud_vault.World.{attempt}

abbrev pub IsWithin : ℤ → List (DownloadMessage × ℤ) → Type 0
IsWithin max [] = Unit
IsWithin max ((m, _) ∷ ms) = (m.attempt ≤ℤ max) × IsWithin max ms

IsWithin-append :
    (max : ℤ) (ms : List (DownloadMessage × ℤ)) (m : DownloadMessage) (delay : ℤ)
    → IsWithin max ms
    → m.attempt ≤ℤ max
    → IsWithin max (ms ++ (m, delay) ∷ [])
IsWithin-append max [] m delay h k = (k, tt)
IsWithin-append max (x ∷ ms) m delay h k = (h.0, IsWithin-append max ms m delay h.1 k)

mark_failed-retried :
    (broker : Broker) (msg : DownloadMessage) (e : Error) (d : Desk)
    → (mark_failed broker msg e d).1.retried ≡ d.retried
unfolding mark_failed
mark_failed-retried broker msg e d = ground arith

schedule_retry-IsWithin :
    (broker : Broker) (msg : DownloadMessage) (e : Error) (d : Desk)
    → IsWithin (max_retry broker) d.retried
    → IsWithin (max_retry broker) (schedule_retry broker msg e d).1.retried
unfolding schedule_retry
schedule_retry-IsWithin broker msg e d h = ground (
  arith,
  IsWithin-append (max_retry broker) d.retried (record msg { attempt = msg.attempt +ℤ pos 1 })
      (pick_retry_delay (msg.attempt +ℤ pos 1) broker.retry_delays) h,
)

-- Whatever comes of a task, no message is published for a retry beyond the configured number.
pub settle-IsWithin :
    (broker : Broker) (msg : DownloadMessage) (outcome : Option Error) (d : Desk)
    → IsWithin (max_retry broker) d.retried
    → IsWithin (max_retry broker) (settle broker msg outcome d).1.retried
unfolding settle
settle-IsWithin broker msg none d h = h
settle-IsWithin broker msg (some e) d h =
    grind (arith, schedule_retry-IsWithin broker msg e d h, mark_failed-retried broker msg e d)

get_elem?-last_or : (d : ℤ) (ds : List ℤ) → get_elem? (d ∷ ds) (length ds) ≡ some (last_or d ds)
get_elem?-last_or d [] = refl
get_elem?-last_or d (e ∷ es) = get_elem?-last_or e es

get_elem?-get_or :
    (xs : List ℤ) (i : ℕ) (d : ℤ) → i < length xs → get_elem? xs i ≡ some (get_or xs i d)
get_elem?-get_or [] i d h = elim h [ ]
get_elem?-get_or (x ∷ xs) zero d h = refl
get_elem?-get_or (x ∷ xs) (suc i) d h = get_elem?-get_or xs i d (omega arith)

abbrev clamp_index : ℤ → ℤ
clamp_index before = if ltb_ℤ before (pos 0) then pos 0 else before

clamp_index-pos : (before : ℤ) → clamp_index before ≡ pos (pos_part before)
clamp_index-pos (pos n) = ground arith
clamp_index-pos (negsuc n) = ground arith

delay_at :
    (n : ℕ) (d : ℤ) (ds : List ℤ)
    → get_elem? (d ∷ ds) (min n (length ds))
      ≡ some (
          if leb_ℤ (pos (length (d ∷ ds))) (pos n) then last_or d ds else get_or (d ∷ ds) n (pos 0))
delay_at n d ds = elim (Bool-cases (leb (suc (length ds)) n)) [
  | inl beyond ↦
      let e : min n (length ds) ≡ length ds = ground arith in
      rw e (ground (arith, get_elem?-last_or d ds))
  | inr within ↦
      let e : min n (length ds) ≡ n = ground arith in
      rw e (ground (arith, get_elem?-get_or (d ∷ ds) n (pos 0)))
]

-- The configured delays, by the number of the attempt: the first for the attempts up to 1, then one
-- for each attempt, and the last for all attempts beyond.
pub pick_retry_delay-clamped :
    (attempt d : ℤ) (ds : List ℤ)
    → get_elem? (d ∷ ds) (min (pos_part (attempt -ℤ pos 1)) (length ds))
      ≡ some (pick_retry_delay attempt (d ∷ ds))
unfolding pick_retry_delay
pick_retry_delay-clamped attempt d ds =
    rw (clamp_index-pos (attempt -ℤ pos 1)) (delay_at (pos_part (attempt -ℤ pos 1)) d ds)

-- A delivery that is acknowledged after a failure has been published again, or its task has been
-- marked as failed.
pub settle-remembers :
    (broker : Broker) (msg : DownloadMessage) (e : Error) (d : Desk)
    → (settle broker msg (some e) d).0 ≡ ack
    → ((settle broker msg (some e) d).1.tasks
        ≡ update_where (λ t. t.id == msg.task_id) (give_up e (broker.clock d.calls)) d.tasks)
      ⊎ ((settle broker msg (some e) d).1.retried
          ≡ d.retried
            ++ (
              record msg { attempt = msg.attempt +ℤ pos 1 },
              pick_retry_delay (msg.attempt +ℤ pos 1) broker.retry_delays,
            )
              ∷ [])
unfolding settle
settle-remembers broker msg e d h = ground arith
