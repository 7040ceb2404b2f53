-- ===== src/Object/Last.antt =====
-- What becomes of an object whose last reference is given up.
use cloud_vault.Base.{
  Bool, Bool-cases, List, [], ap, arith, false, filter, find?, if◌then◌else◌, inl, inr, ltb, none,
  not, refl, some, subst, sym, true, ℕ, ◌==◌, ◌∙◌, ◌∷◌, ◌≡◌, ◌≤◌, ◌⊎◌,
}
use cloud_vault.Object.{
  decrease_ref_count, delete_minio_file, drop_hash_cache, drop_object_cache, drop_path_cache,
  remove_chunks, remove_object,
}
use cloud_vault.Rows.{FileObject, UploadSession, store_failure}
use cloud_vault.World.{
  Env, M, Result, World, err, ok, pure, redis, sql, stored, tick, unfinished, ◌>>◌,
}
use cloud_vault.World.Rules.{
  Always, Post, Post-attempt, Post-bind, Post-err, Post-first, Post-first_eq, Post-if, Post-if_eq,
  Post-imply, Post-ok, Post-redis, Post-sql, Post-weaken, Tried,
}

module _ {S : Type 0} (env : Env S) where
  stored-answer :
      (call : S → Bool × S) (w : World S)
      → Post
          (λ _ v. (call w.store ≡ (true, v.store)) × (v.objects ≡ w.objects))
          (λ v. v.objects ≡ w.objects)
          (stored env call w)
  unfolding stored Post
  stored-answer call w = answer (call w.store) refl
    where
      answer :
          (x : Bool × S)
          → call w.store ≡ x
          → Post
              (λ _ v. (call w.store ≡ (true, v.store)) × (v.objects ≡ w.objects))
              (λ v. v.objects ≡ w.objects)
              (if x.0 then ok tt else err store_failure, record (tick w) { store = x.1 })
      answer (true, s) e = (e, refl)
      answer (false, s) e = refl

  find?-without :
      (id : ℕ) (os : List FileObject)
      → find? (λ o. o.id == id) (filter (λ o. not (o.id == id)) os) ≡ none
  find?-without id [] = refl
  find?-without id (o ∷ os) = elim (Bool-cases (o.id == id)) [
    | inl it ↦ rw it (find?-without id os)
    | inr other_one ↦ rw (other_one, other_one) (find?-without id os)
  ]

  module _ (id : ℕ) (o : FileObject) (w : World S) where
    -- The store has answered that the blob of the object is removed.
    abbrev pub IsErased : World S → Type 0
    IsErased v = env.store.remove_object o.bucket_name o.object_name w.store ≡ (true, v.store)

    -- The blob is removed, and so is the row.
    abbrev pub IsGone : World S → Type 0
    IsGone v = IsErased v × (find? (λ x. x.id == id) v.objects ≡ none)

    -- The rows are as they were, unless the blob is removed.
    abbrev pub IsKeptOrErased : World S → Type 0
    IsKeptOrErased v = (v.objects ≡ w.objects) ⊎ IsErased v

    abbrev Untouched : World S → Type 0
    Untouched v = (v.store ≡ w.store) × (v.objects ≡ w.objects)

    decrease_ref_count-last :
        (v : World S)
        → find? (λ x. x.id == id) w.objects ≡ some o
        → o.ref_count ≤ 1
        → Untouched v
        → Post (λ n u. (n ≡ 0) × Untouched u) IsKeptOrErased (decrease_ref_count env id v)
    unfolding decrease_ref_count
    decrease_ref_count-last v found last same =
        Post-bind (λ x u. (x ≡ o) × Untouched u) IsKeptOrErased _ _ _ v
          (Post-first_eq _ _ env _ v (inl same.1) (λ x e. (ground (arith, same.1, found), same)))
          (λ x u p.
            Post-if_eq _ _ (ltb 1 x.ref_count) _ _ u
              (λ many. absurd (ground (arith, ap (λ (y : FileObject). y.ref_count) p.0)))
              (λ few. Post-ok _ _ _ _ (refl, p.1)))

    remove_chunks-IsGone :
        (obj : FileObject) (v : World S)
        → IsGone v
        → Post (Always IsGone) IsKeptOrErased (remove_chunks env obj v)
    unfolding remove_chunks
    remove_chunks-IsGone obj v h =
        Post-bind (Tried (Always IsGone) IsGone) IsKeptOrErased (Always IsGone) _ _ v
          (Post-weaken _ IsGone IsKeptOrErased _ (λ _ g. inr g.0)
            (Post-attempt _ _ _ v (Post-first (Always IsGone) _ env _ v h (λ _. h))))
          session_end
      where
        session_end :
            (session : Result UploadSession) (u : World S)
            → Tried (Always IsGone) IsGone session u
            → Post (Always IsGone) IsKeptOrErased (
                (elim session as (λ _. M S (Unit {0})) [
                  | ok s ↦ sql env (λ t. (
                    ok tt,
                    record t {
                      chunks = filter (λ c. not (env.same_text c.upload_id s.upload_id)) t.chunks;
                    },
                  ))
                  | err e ↦ pure tt
                  | unfinished ↦ pure tt
                ])
                  u)
        session_end (ok s) u q = Post-sql _ _ env _ u (inr q.0) (Post-ok _ _ _ _ q)
        session_end (err e) u q = Post-ok _ _ _ _ q
        session_end unfinished u q = Post-ok _ _ _ _ q

    delete_minio_file-IsErased :
        (v : World S)
        → Untouched v
        → Post (Always IsErased) IsKeptOrErased (delete_minio_file env o v)
    unfolding delete_minio_file
    delete_minio_file-IsErased v same =
        Post-if _ _ env.store_ready _ _ v
          (Post-weaken _ (λ u. u.objects ≡ v.objects) IsKeptOrErased _ (λ u e. inl (e ∙ same.1))
            (Post-imply _ _ _ _
              (λ _ u p. ap (env.store.remove_object o.bucket_name o.object_name) (sym same.0) ∙ p.0)
              (stored-answer (env.store.remove_object o.bucket_name o.object_name) v)))
          (Post-err _ _ _ _ (inl same.1))

    -- What `RemoveObject` does once no reference remains
    abbrev erase_object : FileObject → M S (Unit {0})
    erase_object obj = do
      delete_minio_file env obj
      sql env λ v. (ok tt, record v { objects = filter (λ x. not (x.id == id)) v.objects })
      redis env (drop_object_cache id)
      redis env (drop_hash_cache obj.hash)
      redis env (drop_path_cache obj.bucket_name obj.object_name)
      remove_chunks env obj

    drop_key :
        (f : World S → World S) (v : World S)
        → IsGone (tick v)
        → IsGone (f (tick v))
        → Post (Always IsGone) IsKeptOrErased (redis env f v)
    drop_key f v h k = Post-redis IsKeptOrErased env (Always IsGone) f v h k

    erase_object-IsGone :
        (v : World S) → Untouched v → Post (Always IsGone) IsKeptOrErased (erase_object o v)
    erase_object-IsGone v same =
        Post-bind (Always IsErased) IsKeptOrErased _ _ _ v (delete_minio_file-IsErased v same)
          λ _ t e.
            Post-bind (Always IsGone) IsKeptOrErased _ _ _ t
              (Post-sql _ _ env _ t (inr e) (Post-ok _ _ _ _ (e, find?-without id t.objects)))
              λ _ s1 k1.
                Post-bind (Always IsGone) IsKeptOrErased _ _ _ s1 (drop_key _ s1 k1 k1) λ _ s2 k2.
                  Post-bind (Always IsGone) IsKeptOrErased _ _ _ s2 (drop_key _ s2 k2 k2) λ _ s3 k3.
                    Post-bind (Always IsGone) IsKeptOrErased _ _ _ s3 (drop_key _ s3 k3 k3)
                      λ _ s4 k4. remove_chunks-IsGone o s4 k4

    -- `RemoveObject` with the last reference: once it has succeeded, the store has removed the blob
    -- and the row is gone; and when it ends in an error, whichever of its calls failed, the rows are
    -- as they were, unless the blob is removed.
    pub remove_object-IsGone :
        find? (λ x. x.id == id) w.objects ≡ some o
        → o.ref_count ≤ 1
        → Post (Always IsGone) IsKeptOrErased (remove_object env id w)
    unfolding remove_object
    remove_object-IsGone found last =
        Post-bind (λ x u. (x ≡ o) × Untouched u) IsKeptOrErased _ _ _ w
          (Post-first_eq _ _ env _ w (inl refl) (λ x e. (ground (arith, found), (refl, refl))))
          (λ x v p.
            Post-bind (λ n u. (n ≡ 0) × Untouched u) IsKeptOrErased _ _ _ v
              (decrease_ref_count-last v found last p.1)
              (λ remain u q.
                Post-if_eq _ _ (ltb 0 remain) _ _ u (λ more. absurd (ground (arith, q.0)))
                  (λ none_left.
                    subst (λ y. Post (Always IsGone) IsKeptOrErased (erase_object y u)) (sym p.0)
                      (erase_object-IsGone u q.1))))
