-- ===== src/File/Climb.antt =====
-- The loop of `isChildFolder` ends in a forest of folders.
use cloud_vault.Base.{
  All, Bool, Bool-cases, List, Option, [], arith, false, find?, if◌then◌else◌, inl, inr, none, refl,
  some, subst, suc, sym, true, zero, ℕ, ◌&&◌, ◌+◌, ◌<◌, ◌==◌, ◌∷◌, ◌≡◌, ◌≢◌, ◌≤◌,
}
use cloud_vault.File.Edit.{climbs_to, is_child_folder}
use cloud_vault.File.Recycle.{is_file_of}
use cloud_vault.File.Table.{live}
use cloud_vault.Rows.{UserFile, db_failure, record_not_found}
use cloud_vault.World.{
  Env, M, Result, World, attempt, err, first, ok, or_fail, pure, sql, tick, unfinished, ◌>>=◌,
}
use cloud_vault.World.Ends.{Ends, Ends-bind}

module _ {S : Type 0} (env : Env S) where
  -- What an attempt at a row gives: the row that was looked for, or an error; no table changes.
  Found : (World S → Option UserFile) → World S → Result UserFile → World S → Type 0
  Found row w (ok f) v = (row w ≡ some f) × (v.files ≡ w.files)
  Found row w (err e) v = v.files ≡ w.files
  Found row w unfinished v = ⊥

  answer_cases :
      (row : World S → Option UserFile) (w : World S) (lost : Bool) (o : Option UserFile)
      → o ≡ row w
      → Ends (Found row w) (
          let (r, v) =
            if lost then (err db_failure, tick w) else or_fail o record_not_found (tick w) in
          (elim r as (λ _. Result (Result UserFile) × World S) [
            | ok a ↦ (ok (ok a), v)
            | err e ↦ (ok (err e), v)
            | unfinished ↦ (unfinished, v)
          ]))
  unfolding Ends Found
  answer_cases row w true o e = refl
  answer_cases row w false none e = refl
  answer_cases row w false (some f) e = (sym e, refl)

  attempt_first :
      (test : UserFile → Bool) (w : World S)
      → Ends (Found (λ v. find? test v.files) w) (attempt (first env (λ v. find? test v.files)) w)
  unfolding Ends attempt sql Found
  attempt_first test w =
      answer_cases (λ v. find? test v.files) w (env.db_fails w.calls) (find? test w.files) refl

  -- Each row lies deeper than its parent.
  abbrev pub IsRanked : (ℕ → ℕ) → List UserFile → Type 0
  IsRanked depth fs = All (λ f. (q : ℕ) → f.parent_id ≡ some q → depth q < depth f.id) fs

  abbrev pub depth_of : (ℕ → ℕ) → Option ℕ → ℕ
  depth_of depth none = 0
  depth_of depth (some p) = depth p + 1

  depth_of-below :
      (depth : ℕ → ℕ) (n : ℕ) (o : Option ℕ)
      → ((q : ℕ) → o ≡ some q → depth q < n)
      → depth_of depth o ≤ n
  depth_of-below depth n none h = omega arith
  depth_of-below depth n (some q) h = let k = h q refl in omega (arith, k)

  found-depth :
      (depth : ℕ → ℕ) (p : ℕ) (test : UserFile → Bool) (fs : List UserFile) (f : UserFile)
      → ((g : UserFile) → test g ≡ true → g.id ≡ p)
      → IsRanked depth fs
      → find? test fs ≡ some f
      → depth_of depth f.parent_id ≤ depth p
  found-depth depth p test [] f at_p r h = ground arith
  found-depth depth p test (g ∷ gs) f at_p r h = elim (Bool-cases (test g)) [
    | inr past ↦ found-depth depth p test gs f at_p r.1 (rw past at h)
    | inl here ↦
        let same : g ≡ f = cc (rw here at h) in
        subst (λ x. depth_of depth x.parent_id ≤ depth p) same
          (depth_of-below depth (depth p) g.parent_id
            (λ q e. subst (λ n. depth q < depth n) (at_p g here) (r.0 q e)))
  ]

  is_file_of-id : (user p : ℕ) (g : UserFile) → (is_file_of user p g && live g) ≡ true → g.id ≡ p
  is_file_of-id user p g h = ground arith

  is_folder-id :
      (user p : ℕ) (g : UserFile) → (is_file_of user p g && g.is_dir && live g) ≡ true → g.id ≡ p
  is_folder-id user p g h = ground arith

  -- One step up
  climb_from :
      (fuel user goal p : ℕ) (test : UserFile → Bool) (w : World S) (depth : ℕ → ℕ)
      → ((g : UserFile) → test g ≡ true → g.id ≡ p)
      → IsRanked depth w.files
      → depth p < fuel
      → ((parent : Option ℕ) (v : World S)
          → IsRanked depth v.files
          → depth_of depth parent < fuel
          → Ends (λ _ _. Unit {0}) (climbs_to env fuel user goal parent v))
      → Ends
          (λ _ _. Unit {0})
          ((do
            found ← attempt (first env (λ v. find? test v.files))
            elim found [
              | ok f ↦ climbs_to env fuel user goal f.parent_id
              | err _ ↦ pure false
              | unfinished ↦ pure false
            ])
            w)
  unfolding Ends Found
  climb_from fuel user goal p test w depth at_p r h rise =
      Ends-bind (Found (λ v. find? test v.files) w) (λ _ _. Unit {0}) _ _ w (attempt_first test w)
        settle
    where
      settle :
          (found : Result UserFile) (v : World S)
          → Found (λ v. find? test v.files) w found v
          → Ends
              (λ _ _. Unit {0})
              ((elim found as (λ _. M S Bool) [
                | ok f ↦ climbs_to env fuel user goal f.parent_id
                | err _ ↦ pure false
                | unfinished ↦ pure false
              ])
                v)
      settle (ok f) v (here, kept) =
          let below = found-depth depth p test w.files f at_p r here in
          rise f.parent_id v (rw kept r) (omega (arith, below, h))
      settle (err e) v kept = tt
      settle unfinished v absurd = tt

  climbs_to-Ends :
      (fuel user goal : ℕ) (parent : Option ℕ) (w : World S) (depth : ℕ → ℕ)
      → IsRanked depth w.files
      → depth_of depth parent < fuel
      → Ends (λ _ _. Unit {0}) (climbs_to env fuel user goal parent w)
  unfolding climbs_to Ends Found
  climbs_to-Ends zero user goal parent w depth r h = elim h [ ]
  climbs_to-Ends (suc fuel) user goal none w depth r h = tt
  climbs_to-Ends (suc fuel) user goal (some p) w depth r h = climb_on (p == goal) _ (
      climb_from fuel user goal p (λ f. is_file_of user p f && live f) w depth
        (is_file_of-id user p) r (omega (arith, h))
        (λ parent v. climbs_to-Ends fuel user goal parent v depth))
    where
      climb_on :
          (reached : Bool) (m : M S Bool)
          → Ends (λ _ _. Unit {0}) (m w)
          → Ends (λ _ _. Unit {0}) ((if reached then pure true else m) w)
      climb_on true m k = tt
      climb_on false m k = k

  not_unfinished : (x : Result Bool × World S) → Ends (λ _ _. Unit {0}) x → x.0 ≢ unfinished
  unfolding Ends
  not_unfinished (ok b, w) h e = ground arith
  not_unfinished (err k, w) h e = ground arith
  not_unfinished (unfinished, w) h e = h

  -- `isChildFolder` ends, with an answer or without, whichever of its queries fail, when every folder
  -- lies deeper than its parent and the fuel exceeds the depth of the folder it starts from.
  pub is_child_folder-finishes :
      (fuel user folder goal : ℕ) (w : World S) (depth : ℕ → ℕ)
      → IsRanked depth w.files
      → depth folder < fuel
      → (is_child_folder env fuel user folder goal w).0 ≢ unfinished
  unfolding is_child_folder
  is_child_folder-finishes fuel user folder goal w depth r h = not_unfinished _ (
      climb_from fuel user goal folder (λ f. is_file_of user folder f && f.is_dir && live f) w depth
        (is_folder-id user folder) r h (λ parent v. climbs_to-Ends fuel user goal parent v depth))
