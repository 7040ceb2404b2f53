-- ===== src/Tests/Locks.antt =====
-- The lock in Redis at a concrete run: the lease of process 0 runs out, and process 1 gets the lock.
use cloud_vault.Base.{String, ap, arith, length, suc, zero, ℕ, ◌+◌, ◌≡◌}
use cloud_vault.Base.Text.{codes}
use cloud_vault.Lock.{Steps, System, lock, locks_it, no_step, then_step, time_passes}
use cloud_vault.Lock.Exclusion.{Steps-exclusive, start}
use cloud_vault.Lock.Grants.{IsUnique}

-- Texts that are all different: n letters and one more
abbrev letters : ℕ → String
letters zero = "a"
letters (suc n) = String.◌∷◌ "a" (letters n)

length-letters : (n : ℕ) → length (codes (letters n)) ≡ n + 1
length-letters zero = omega arith
length-letters (suc n) = omega (arith, length-letters n)

letters-IsUnique : IsUnique letters
letters-IsUnique = record {
  differ = λ m n e. omega (arith, length-letters m, length-letters n, ap (λ s. length (codes s)) e);
  nonempty = λ n e. omega (arith, length-letters n, ap (λ s. length (codes s)) e);
}

abbrev first_lock : System
first_lock = (lock letters 30 0 (start 100)).1

abbrev later : System
later = record first_lock { time = 140 }

abbrev second_lock : System
second_lock = (lock letters 30 1 later).1

the_run : Steps letters 30 (start 100) second_lock
unfolding lock
the_run =
    then_step (then_step (then_step no_step (locks_it 0 (start 100))) (time_passes 40 first_lock))
      (locks_it 1 later)

Steps-exclusive_example : ◌≡◌ {A = ℕ} 1 1
unfolding lock
Steps-exclusive_example =
    Steps-exclusive letters 30 100 second_lock 1 1 letters-IsUnique the_run (omega arith)
      (omega arith)
