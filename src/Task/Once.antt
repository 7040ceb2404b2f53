-- ===== src/Task/Once.antt =====
-- A task that is not open is not run.
use cloud_vault.Base.{
  All, Bool, Bool-cases, List, Option, String, [], any, arith, false, inl, inr, refl, true, ℕ, ◌&&◌,
  ◌==◌, ◌∷◌, ◌≡◌, ◌≢◌, ◌⊎◌,
}
use cloud_vault.Base.Int.{ℤ}
use cloud_vault.Base.Text.{Text}
use cloud_vault.Rows.{DownloadTask, Status, completed, failed, running}
use cloud_vault.Source.{Net, SourceConfig, Url}
use cloud_vault.Task.{claim_task, is_completed, is_open, process_download_task}
use cloud_vault.Transfer.{Response}
use cloud_vault.World.{Env, World}
use cloud_vault.World.Rules.{
  Post, Post-bind, Post-first, Post-if, Post-if_eq, Post-ok, Post-sql, Post-world,
}

abbrev pub IsUntouched : {S : Type 0} → World S → World S → Type 0
IsUntouched w v =
    (v.files ≡ w.files) × (v.objects ≡ w.objects) × (v.store ≡ w.store) × (v.events ≡ w.events)

-- A status in which nobody waits for the task to be run
abbrev pub IsClosed : Status → Type 0
IsClosed s = (s ≡ running) ⊎ (s ≡ failed) ⊎ (s ≡ completed)

IsClosed-is_open : (s : Status) → IsClosed s → is_open s ≡ false
IsClosed-is_open s (inl e) = rw e refl
IsClosed-is_open s (inr (inl e)) = rw e refl
IsClosed-is_open s (inr (inr e)) = rw e refl

All-any_open :
    (id : ℕ) (ts : List DownloadTask)
    → All (λ t. t.id ≡ id → IsClosed t.status) ts
    → any (λ t. t.id == id && is_open t.status) ts ≡ false
All-any_open id [] h = refl
All-any_open id (t ∷ ts) h = elim (Bool-cases (t.id == id)) [
  | inr other_one ↦ rw other_one (All-any_open id ts h.1)
  | inl here ↦ rw (here, IsClosed-is_open t.status (h.0 (ground arith))) (All-any_open id ts h.1)
]

module _ {S : Type 0} (env : Env S) (net : Net) (config : SourceConfig) (max_bytes : ℤ)
    (fetch : (Text → Bool) → Url → Option Response)
    (build_object_name : String → String → String) where
  claim_task-closed :
      (id : ℕ) (w v : World S)
      → any (λ t. t.id == id && is_open t.status) v.tasks ≡ false
      → IsUntouched w v
      → Post
          (λ claimed u. (claimed ≡ false) × IsUntouched w u)
          (IsUntouched w)
          (claim_task env id v)
  unfolding claim_task
  claim_task-closed id w v closed h = Post-sql _ _ env _ v h (Post-ok _ _ _ _ (closed, h))

  process-closed :
      (id : ℕ) (w : World S)
      → any (λ t. t.id == id && is_open t.status) w.tasks ≡ false
      → Post
          (λ _ v. IsUntouched w v)
          (IsUntouched w)
          (process_download_task env net config max_bytes fetch build_object_name id w)
  unfolding process_download_task
  process-closed id w closed =
      Post-bind (λ _ v. IsUntouched w v × (v.tasks ≡ w.tasks)) (IsUntouched w) _ _ _ w
        (Post-first _ _ env _ w (refl, refl, refl, refl) (λ _. ((refl, refl, refl, refl), refl)))
        (λ task v p. Post-if _ _ (is_completed task.status) _ _ v (Post-ok _ _ _ _ p.0) (
          Post-bind (λ claimed u. (claimed ≡ false) × IsUntouched w u) (IsUntouched w) _ _ _ v
            (claim_task-closed id w v (rw p.1 closed) p.0)
            (λ claimed u q.
              Post-if_eq _ _ claimed _ _ u (λ k. elim (clash claimed k q.0) [ ])
                (λ _. Post-ok _ _ _ _ q.1))))
    where
      clash : (b : Bool) → b ≡ true → b ≢ false
      clash b h k = ground arith

  -- A message for a task that is neither waiting nor to be retried, be it delivered twice, while the
  -- task runs or after its end, changes no file, no object and no blob, and reports no event.
  pub process_download_task-closed :
      (id : ℕ) (w : World S)
      → All (λ t. t.id ≡ id → IsClosed t.status) w.tasks
      → IsUntouched w
          (process_download_task env net config max_bytes fetch build_object_name id w).1
  process_download_task-closed id w closed =
      Post-world (IsUntouched w) _ (process-closed id w (All-any_open id w.tasks closed))
