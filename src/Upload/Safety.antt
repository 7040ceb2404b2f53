-- ===== src/Upload/Safety.antt =====
-- Instant upload never leaves an object with fewer counted references than rows.
use cloud_vault.Base.{
  List, [], any, arith, false, if◌then◌else◌, is_none, none, not, refl, some, ℕ, ◌&&◌, ◌++◌, ◌+◌,
  ◌==◌, ◌∷◌, ◌≡◌, ◌≤◌,
}
use cloud_vault.Base.Int.{eq_ℤ, ltb_ℤ, pos}
use cloud_vault.File.Table.{
  clashes, create_user_file, create_user_file_entry, insert_file, invalidate_file_list_cache,
}
use cloud_vault.Object.{decrease_ref_count, is_file_object_available}
use cloud_vault.Object.Counting.{
  Covers-mono, HasSpare, HasSpare-IsCounted, IsCounted, refs, refs-append,
}
use cloud_vault.Object.Removal.{
  decrease_ref_count-IsCounted, get_file_object_by_hash-IsCounted, increase_ref_count-HasSpare,
  keep_then,
}
use cloud_vault.Rows.{FileObject, UserFile, db_failure}
use cloud_vault.Upload.{
  HashUpload, answer_lookup, fast_upload, reuse_object, share_object, upload_row,
}
use cloud_vault.World.{
  Env, M, Result, World, attempt, err, fail, is_not_found, ok, pure, unfinished, ◌>>◌,
}
use cloud_vault.World.Rules.{
  Always, Post, Post-attempt, Post-bind, Post-err, Post-if, Post-ite, Post-ok, Post-redis, Post-sql,
  Post-weaken, Post-world, Tried,
}

refs-insert :
    (id : ℕ) (f : UserFile) (fs : List UserFile) (i : ℕ)
    → f.object_id ≡ some id
    → refs i (fs ++ f ∷ []) ≤ refs i fs + (if i == id then 1 else 0)
refs-insert id f fs i e = rw (refs-append i fs (f ∷ []), e) (ground arith)

module _ {S : Type 0} (env : Env S) where
  insert_file-IsCounted :
      (id : ℕ) (f : UserFile) (w : World S)
      → f.object_id ≡ some id
      → HasSpare id w
      → Post (Always IsCounted) (HasSpare id) (insert_file env f w)
  unfolding insert_file
  insert_file-IsCounted id f w e h = Post-sql _ _ env _ w h (
      Post-ite _ _ (any (clashes env row) w.files) _ _ (Post-err _ _ _ _ h) (
        Post-ok _ _ _ _ (
          Covers-mono (λ i. refs i (w.files ++ row ∷ []))
            (λ i. refs i w.files + (if i == id then 1 else 0)) w.objects
            (λ i. refs-insert id row w.files i e) h)))
    where
      row : UserFile
      row = record f { id = w.next_file }

  -- The row that takes the reference in hand: it is created, or the reference stays in hand.
  pub create_user_file-IsCounted :
      (id : ℕ) (f : UserFile) (w : World S)
      → f.object_id ≡ some id
      → HasSpare id w
      → Post (Always IsCounted) (HasSpare id) (create_user_file env f w)
  unfolding create_user_file invalidate_file_list_cache
  create_user_file-IsCounted id f w e h =
      Post-if _ _ (is_none f.object_id) _ _ w (Post-err _ _ _ w h) (
        Post-bind (Always IsCounted) (HasSpare id) (Always IsCounted) _ _ w
          (insert_file-IsCounted id
            (record f { is_dir = false; is_deleted = false; deleted_at = none }) w e h)
          (λ row v p.
            Post-bind (Always IsCounted) (HasSpare id) (Always IsCounted) _ _ v
              (Post-redis _ env _ _ v p p)
              (λ _ u q.
                Post-bind (Always IsCounted) (HasSpare id) (Always IsCounted) _ _ u
                  (Post-ok _ _ _ _ q) (λ _ t r. Post-ok _ _ _ _ r))))

  pub create_user_file_entry-IsCounted :
      (id : ℕ) (f : UserFile) (w : World S)
      → f.is_dir ≡ false
      → f.object_id ≡ some id
      → HasSpare id w
      → Post (Always IsCounted) (HasSpare id) (create_user_file_entry env f w)
  unfolding create_user_file_entry
  create_user_file_entry-IsCounted id f w d e h = rw d (create_user_file-IsCounted id f w e h)

  -- Sharing an object keeps every count, whichever of its calls fails.
  pub share_object-IsCounted :
      (obj : FileObject) (f : UserFile) (w : World S)
      → f.is_dir ≡ false
      → f.object_id ≡ some obj.id
      → IsCounted w
      → Post (Always IsCounted) IsCounted (share_object env obj f w)
  unfolding share_object
  share_object-IsCounted obj f w d e h =
      Post-bind (Always (HasSpare obj.id)) IsCounted (Always IsCounted) _ _ w
        (increase_ref_count-HasSpare env obj.id w h)
        (λ _ v p.
          Post-bind (Tried (Always IsCounted) (HasSpare obj.id)) IsCounted (Always IsCounted) _ _ v
            (Post-weaken _ (HasSpare obj.id) IsCounted _ (HasSpare-IsCounted obj.id)
              (Post-attempt _ _ _ v (create_user_file_entry-IsCounted obj.id f v d e p)))
            settle)
    where
      settle :
          (created : Result ℕ) (v : World S)
          → Tried (Always IsCounted) (HasSpare obj.id) created v
          → Post (Always IsCounted) IsCounted (
              (elim created as (λ _. M S ℕ) [
                | ok id ↦ pure id
                | err e' ↦ attempt (decrease_ref_count env obj.id) >> fail e'
                | unfinished ↦ fail db_failure
              ])
                v)
      settle (ok id) v p = Post-ok _ _ _ _ p
      settle (err e') v p =
          Post-bind (Tried (Always IsCounted) IsCounted) IsCounted (Always IsCounted) _ _ v
            (Post-attempt _ _ _ v (decrease_ref_count-IsCounted env obj.id v p)) after
        where
          after :
              (r : Result ℕ) (u : World S)
              → Tried (Always IsCounted) IsCounted r u
              → Post {A = ℕ} (Always IsCounted) IsCounted (fail e' u)
          after (ok _) u q = Post-err _ _ _ _ q
          after (err _) u q = Post-err _ _ _ _ q
          after unfinished u q = Post-err _ _ _ _ q
      settle unfinished v p = Post-err _ _ _ _ (HasSpare-IsCounted obj.id v p)

  pub is_file_object_available-IsCounted :
      (obj : FileObject) (w : World S)
      → IsCounted w
      → Post (Always IsCounted) IsCounted (is_file_object_available env obj w)
  unfolding is_file_object_available
  is_file_object_available-IsCounted obj w h =
      Post-if _ _ env.store_ready _ _ w (Post-ok _ _ _ _ h) (Post-err _ _ _ _ h)

  reuse_object-IsCounted :
      (req : HashUpload) (obj : FileObject) (w : World S)
      → IsCounted w
      → Post (Always IsCounted) IsCounted (reuse_object env req obj w)
  unfolding reuse_object
  reuse_object-IsCounted req obj w h =
      Post-if _ _ (ltb_ℤ (pos 0) req.size && ltb_ℤ (pos 0) obj.size && not (eq_ℤ req.size obj.size))
        _ _ w (Post-ok _ _ _ _ h)
        (keep_then env _ _ w (is_file_object_available-IsCounted obj w h) (λ available v p.
          Post-if _ _ (not available) _ _ v (Post-ok _ _ _ _ p) (
            keep_then env _ _ v (share_object-IsCounted obj (upload_row req obj) v refl refl p)
              (λ id u q. Post-ok _ _ _ _ q))))

  answer_lookup-IsCounted :
      (req : HashUpload) (found : Result FileObject) (w : World S)
      → Tried (Always IsCounted) IsCounted found w
      → Post (Always IsCounted) IsCounted (answer_lookup env req found w)
  unfolding answer_lookup
  answer_lookup-IsCounted req (ok obj) w h = reuse_object-IsCounted req obj w h
  answer_lookup-IsCounted req (err e) w h =
      Post-if _ _ (is_not_found e) _ _ w (Post-ok _ _ _ _ h) (Post-err _ _ _ _ h)
  answer_lookup-IsCounted req unfinished w h = Post-err _ _ _ _ h

  fast_upload-Post :
      (req : HashUpload) (w : World S)
      → IsCounted w
      → Post (Always IsCounted) IsCounted (fast_upload env req w)
  unfolding fast_upload
  fast_upload-Post req w h =
      Post-bind (Tried (Always IsCounted) IsCounted) IsCounted (Always IsCounted) _ _ w
        (Post-attempt _ _ _ w (get_file_object_by_hash-IsCounted env req.hash w h))
        (λ found v p. answer_lookup-IsCounted req found v p)

  -- An instant upload, whichever of its database and cache calls fail, leaves no object that counts
  -- fewer references than there are rows, if there was none before.
  pub fast_upload-IsCounted :
      (req : HashUpload) (w : World S) → IsCounted w → IsCounted (fast_upload env req w).1
  fast_upload-IsCounted req w h = Post-world IsCounted _ (fast_upload-Post req w h)
