-- ===== src/Transfer/Counts.antt =====
-- Files that reach the object store through the server never leave an object with fewer counted
-- references than rows.
use cloud_vault.Base.{Option, String, none, refl, ℕ}
use cloud_vault.Base.Int.{ℤ}
use cloud_vault.File.Table.{create_user_file_entry}
use cloud_vault.Object.Counting.{HasSpare, HasSpare-IsCounted, IsCounted, refs}
use cloud_vault.Object.Creation.{
  Covers-update, IsReady, create_files_object-HasSpare, delete_object_row-IsCounted,
  ignore-IsCounted,
}
use cloud_vault.Object.Removal.{
  decrease_ref_count-IsCounted, increase_ref_count-HasSpare, keep_then,
}
use cloud_vault.Rows.{FileObject}
use cloud_vault.Transfer.{
  SentFile, Stored, discard_blob, file_row, keep_object, minio_upload_file, new_object,
  restore_blob, store_object, take_object, with_blob, write_blob,
}
use cloud_vault.Upload.Safety.{create_user_file_entry-IsCounted, is_file_object_available-IsCounted}
use cloud_vault.World.{Env, M, Result, World, attempt, err, is_not_found, ok, unfinished, ◌>>=◌}
use cloud_vault.World.Rules.{
  Always, Post, Post-attempt, Post-bind, Post-err, Post-first, Post-if, Post-ok, Post-sql,
  Post-stored, Post-weaken, Post-world, Tried,
}

module _ {S : Type 0} (env : Env S) where
  -- A step before the object is placed: the key that comes next stays fresh.
  pub ready_then :
      {A B : Type 0} (Q : B → World S → Type 0) (m : M S A) (f : A → M S B) (w : World S)
      → Post (Always IsReady) IsCounted (m w)
      → ((a : A) (v : World S) → IsReady v → Post Q IsCounted (f a v))
      → Post Q IsCounted ((m >>= f) w)
  ready_then Q m f w h k = Post-bind (Always IsReady) IsCounted Q m f w h k

  pub write_blob-IsReady :
      (bucket object : String) (size : ℤ) (w : World S)
      → IsReady w
      → Post (Always IsReady) IsCounted (write_blob env bucket object size w)
  unfolding write_blob
  write_blob-IsReady bucket object size w h =
      Post-if _ _ env.store_ready _ _ w (Post-stored _ _ env _ w (λ _. h) (λ _. h.0))
        (Post-err _ _ _ _ h.0)

  pub discard_blob-IsCounted :
      (bucket object : String) (w : World S)
      → IsCounted w
      → Post (Always IsCounted) IsCounted (discard_blob env bucket object w)
  unfolding discard_blob
  discard_blob-IsCounted bucket object w h =
      Post-if _ _ env.store_ready _ _ w
        (ignore-IsCounted env _ w (Post-stored _ _ env _ w (λ _. h) (λ _. h))) (Post-ok _ _ _ _ h)

  restore_blob-IsCounted :
      (u : SentFile) (obj : FileObject) (w : World S)
      → IsCounted w
      → Post (Always IsCounted) IsCounted (restore_blob env u obj w)
  unfolding restore_blob write_blob
  restore_blob-IsCounted u obj w h =
      keep_then env _ _ w
        (Post-if _ _ env.store_ready _ _ w (Post-stored _ _ env _ w (λ _. h) (λ _. h))
          (Post-err _ _ _ _ h))
        (λ _ v p. Post-sql _ _ env _ v p (
          Post-ok _ _ _ _ (
            Covers-update (λ i. refs i v.files) _ (with_blob env u) v.objects (λ o. (refl, refl))
              p)))

  store_object-HasSpare :
      (u : SentFile) (w : World S)
      → IsReady w
      → Post (λ p v. HasSpare p.object_id v) IsCounted (store_object env u w)
  unfolding store_object
  store_object-HasSpare u w h =
      ready_then _ _ _ w (write_blob-IsReady u.bucket_name u.object_name u.size w h) (λ _ v p.
        Post-bind (λ row t. HasSpare row.id t) IsCounted _ _ _ v
          (create_files_object-HasSpare env
            (new_object u.user_id u.hash u.bucket_name u.object_name u.size) v refl p)
          (λ row t q. Post-ok _ _ _ _ q))

  take_object-HasSpare :
      (u : SentFile) (found : Result FileObject) (w : World S)
      → IsReady w
      → Post (λ p v. HasSpare p.object_id v) IsCounted (take_object env u found w)
  unfolding take_object
  take_object-HasSpare u (ok obj) w h =
      Post-bind (Always IsCounted) IsCounted _ _ _ w
        (is_file_object_available-IsCounted env obj w h.0)
        (λ available v p.
          Post-bind (Always IsCounted) IsCounted _ _ _ v
            (Post-if _ _ available _ _ v (Post-ok _ _ _ _ p) (restore_blob-IsCounted u obj v p))
            (λ _ t q.
              Post-bind (Always (HasSpare obj.id)) IsCounted _ _ _ t
                (increase_ref_count-HasSpare env obj.id t q) (λ _ s r. Post-ok _ _ _ _ r)))
  take_object-HasSpare u (err e) w h =
      Post-if _ _ (is_not_found e) _ _ w (store_object-HasSpare u w h) (Post-err _ _ _ _ h.0)
  take_object-HasSpare u unfinished w h = Post-err _ _ _ _ h.0

  keep_object-IsCounted :
      (u : SentFile) (placed : Stored) (created : Result ℕ) (w : World S)
      → Tried (Always IsCounted) (HasSpare placed.object_id) created w
      → Post (Always IsCounted) IsCounted (keep_object env u placed created w)
  unfolding keep_object
  keep_object-IsCounted u placed (ok id) w h = Post-ok _ _ _ _ h
  keep_object-IsCounted u placed (err e) w h =
      keep_then env _ _ w
        (Post-if _ _ placed.created_new _ _ w
          (keep_then env _ _ w
            (discard_blob-IsCounted u.bucket_name u.object_name w
              (HasSpare-IsCounted placed.object_id w h))
            (λ _ v p.
              ignore-IsCounted env _ v (delete_object_row-IsCounted env placed.object_id v p)))
          (ignore-IsCounted env _ w (decrease_ref_count-IsCounted env placed.object_id w h)))
        (λ _ v p. Post-err _ _ _ _ p)
  keep_object-IsCounted u placed unfinished w h =
      Post-err _ _ _ _ (HasSpare-IsCounted placed.object_id w h)

  -- The creation of the file that takes the object in hand, as an attempt
  pub file_attempt :
      (user : ℕ) (parent : Option ℕ) (name : String) (object : ℕ) (size : ℤ) (w : World S)
      → HasSpare object w
      → Post
          (Tried (Always IsCounted) (HasSpare object))
          IsCounted
          (attempt (create_user_file_entry env (file_row user parent name object size)) w)
  file_attempt user parent name object size w h =
      Post-weaken _ (HasSpare object) IsCounted _ (HasSpare-IsCounted object) (
        Post-attempt _ _ _ w (
          create_user_file_entry-IsCounted env object (file_row user parent name object size) w refl
            refl h))

  Tried-IsReady :
      {A : Type 0} (r : Result A) (w : World S) → Tried (Always IsReady) IsReady r w → IsReady w
  Tried-IsReady (ok _) w h = h
  Tried-IsReady (err _) w h = h
  Tried-IsReady unfinished w h = h

  minio_upload_file-Post :
      (path_base : String → String) (u : SentFile) (w : World S)
      → IsReady w
      → Post (Always IsCounted) IsCounted (minio_upload_file env path_base u w)
  unfolding minio_upload_file
  minio_upload_file-Post path_base u w h =
      Post-bind (Tried (Always IsReady) IsReady) IsCounted _ _ _ w
        (Post-weaken _ IsReady IsCounted _ (λ v p. p.0)
          (Post-attempt _ _ _ w (Post-first (Always IsReady) _ env _ w h (λ _. h))))
        (λ found v p.
          Post-bind (λ q t. HasSpare q.object_id t) IsCounted _ _ _ v
            (take_object-HasSpare u found v (Tried-IsReady found v p))
            (λ placed t q.
              Post-bind (Tried (Always IsCounted) (HasSpare placed.object_id)) IsCounted _ _ _ t
                (file_attempt u.user_id none (path_base u.file_path) placed.object_id u.size t q)
                (λ created s r. keep_object-IsCounted u placed created s r)))

  -- An upload through the server, whichever of its calls fail, leaves no object that counts fewer
  -- references than there are rows, if there was none before and no row uses the key that the next
  -- object is given.
  pub minio_upload_file-IsCounted :
      (path_base : String → String) (u : SentFile) (w : World S)
      → IsReady w
      → IsCounted (minio_upload_file env path_base u w).1
  minio_upload_file-IsCounted path_base u w h =
      Post-world IsCounted _ (minio_upload_file-Post path_base u w h)
