-- ===== src/Transfer/Sourced.antt =====
-- What `UploadFromURL` does to the counts.
use cloud_vault.Base.{
  Bool, Option, String, find?, if◌then◌else◌, inl, inr, is_none, none, not, refl, some, ℕ, ◌&&◌,
  ◌==◌,
}
use cloud_vault.Base.Int.{ltb_ℤ, pos, ℤ}
use cloud_vault.Base.Text.{Text}
use cloud_vault.File.Table.{create_user_file_entry}
use cloud_vault.Object.{create_files_object}
use cloud_vault.Object.Counting.{HasSpare, HasSpare-IsCounted, IsCounted}
use cloud_vault.Object.Creation.{
  IsReady, create_files_object-HasSpare, delete_object_row-IsCounted, ignore-IsCounted,
}
use cloud_vault.Object.Removal.{keep_then}
use cloud_vault.Rows.{FileObject, User, cached_user, message}
use cloud_vault.Source.{Checked, Net, SourceConfig, Url, validate_download_url}
use cloud_vault.Transfer.{
  Response, after_file, after_object, check_response, checked_source, download_by_http, file_row,
  find_user_name_by_id, new_object, refusal_text, upload_from_url,
}
use cloud_vault.Transfer.Counts.{
  discard_blob-IsCounted, file_attempt, ready_then, write_blob-IsReady,
}
use cloud_vault.World.{
  Env, M, Result, World, attempt, err, fail, first, ok, pure, redis, unfinished, ◌>>=◌, ◌>>◌,
}
use cloud_vault.World.Rules.{
  Always, Post, Post-attempt, Post-bind, Post-err, Post-first, Post-if, Post-ok, Post-or_fail,
  Post-redis, Post-redis_get, Post-world, Tried,
}

module _ {S : Type 0} (env : Env S) where
  find_user_name_by_id-IsReady :
      (user : ℕ) (w : World S)
      → IsReady w
      → Post (Always IsReady) IsCounted (find_user_name_by_id env user w)
  unfolding find_user_name_by_id
  find_user_name_by_id-IsReady user w h =
      ready_then env _ _ _ w (Post-redis_get _ env _ _ w (λ _. h)) source
    where
      source :
          (cached : Option User) (v : World S)
          → IsReady v
          → Post (Always IsReady) IsCounted (
              (elim cached as (λ _. M S String) [
                | some u ↦ pure u.user_name
                | none ↦ (do
                  u ← first env (λ w. find? (λ u. u.id == user && is_none u.deleted_at) w.users)
                  redis env λ w. record w {
                    user_cache = λ k. if k == user then some (cached_user u) else w.user_cache k;
                  }
                  pure u.user_name)
              ])
                v)
      source (some u) v p = Post-ok _ _ _ _ p
      source none v p =
          ready_then env _ _ _ v (Post-first (Always IsReady) _ env _ v p.0 (λ _. p)) (λ u t q.
            ready_then env _ _ _ t (Post-redis _ env _ _ t q q) (λ _ s r. Post-ok _ _ _ _ r))

  module _ (net : Net) (config : SourceConfig) (max_bytes : ℤ)
      (fetch : (Text → Bool) → Url → Option Response)
      (build_object_name : String → String → String) where
    checked_source-IsReady :
        (raw : Text) (w : World S)
        → IsReady w
        → Post
            (Always IsReady)
            IsCounted
            (checked_source env net config max_bytes fetch build_object_name raw w)
    unfolding checked_source
    checked_source-IsReady raw w h = by_outcome (validate_download_url net config raw) w h
      where
        by_outcome :
            (outcome : Checked) (w : World S)
            → IsReady w
            → Post (Always IsReady) IsCounted (
                (elim outcome as (λ _. M S Url) [
                  | inl why ↦ fail (message (refusal_text why))
                  | inr u ↦ pure u
                ])
                  w)
        by_outcome (inl why) w h = Post-err _ _ _ _ h.0
        by_outcome (inr u) w h = Post-ok _ _ _ _ h

    check_response-IsReady :
        (r : Response) (w : World S)
        → IsReady w
        → Post
            (Always IsReady)
            IsCounted
            (check_response env net config max_bytes fetch build_object_name r w)
    unfolding check_response
    check_response-IsReady r w h =
        Post-if _ _ (not (r.status_code == 200)) _ _ w (Post-err _ _ _ _ h.0) (
          Post-if _ _ (ltb_ℤ r.content_length (pos 0)) _ _ w (Post-err _ _ _ _ h.0) (
            Post-if _ _ (ltb_ℤ (pos 0) max_bytes && ltb_ℤ max_bytes r.content_length) _ _ w
              (Post-err _ _ _ _ h.0) (Post-ok _ _ _ _ h)))

    download_by_http-IsReady :
        (raw : Text) (name : String) (user : ℕ) (w : World S)
        → IsReady w
        → Post
            (Always IsReady)
            IsCounted
            (download_by_http env net config max_bytes fetch build_object_name raw name user w)
    unfolding download_by_http
    download_by_http-IsReady raw name user w h =
        ready_then env _ _ _ w (checked_source-IsReady raw w h) (λ u v p.
          ready_then env _ _ _ v (Post-or_fail (Always IsReady) _ _ _ v p.0 (λ _. p)) (λ r t q.
            ready_then env _ _ _ t (check_response-IsReady r t q) (λ size s k.
              ready_then env _ _ _ s (find_user_name_by_id-IsReady user s k) (λ user_name x l.
                ready_then env _ _ _ x
                  (write_blob-IsReady env env.bucket (build_object_name user_name name) size x l)
                  (λ _ y m. Post-ok _ _ _ _ m)))))

    after_object-HasSpare :
        (object : String) (recorded : Result FileObject) (w : World S)
        → Tried (λ row v. HasSpare row.id v) IsCounted recorded w
        → Post
            (λ row v. HasSpare row.id v)
            IsCounted
            (after_object env net config max_bytes fetch build_object_name object recorded w)
    unfolding after_object
    after_object-HasSpare object (ok row) w h = Post-ok _ _ _ _ h
    after_object-HasSpare object (err e) w h =
        Post-bind (Always IsCounted) IsCounted _ _ _ w
          (discard_blob-IsCounted env env.bucket object w h) (λ _ v p. Post-err _ _ _ _ p)
    after_object-HasSpare object unfinished w h = Post-err _ _ _ _ h

    after_file-IsCounted :
        (object : String) (row : ℕ) (created : Result ℕ) (w : World S)
        → Tried (Always IsCounted) (HasSpare row) created w
        → Post
            (Always IsCounted)
            IsCounted
            (after_file env net config max_bytes fetch build_object_name object row created w)
    unfolding after_file
    after_file-IsCounted object row (ok id) w h = Post-ok _ _ _ _ h
    after_file-IsCounted object row (err e) w h =
        keep_then env _ _ w
          (discard_blob-IsCounted env env.bucket object w (HasSpare-IsCounted row w h))
          (λ _ v p.
            keep_then env _ _ v (ignore-IsCounted env _ v (delete_object_row-IsCounted env row v p))
              (λ _ t q. Post-err _ _ _ _ q))
    after_file-IsCounted object row unfinished w h = Post-err _ _ _ _ (HasSpare-IsCounted row w h)

    upload_from_url-Post :
        (user : ℕ) (raw : Text) (file_name : String) (parent : Option ℕ) (w : World S)
        → IsReady w
        → Post (Always IsCounted) IsCounted (
            upload_from_url env net config max_bytes fetch build_object_name user raw file_name
              parent w)
    unfolding upload_from_url
    upload_from_url-Post user raw file_name parent w h =
        ready_then env _ _ _ w (checked_source-IsReady raw w h) (λ _ v p.
          ready_then env _ _ _ v (Post-ok _ _ _ _ p) (λ hash t q.
            ready_then env _ _ _ t (download_by_http-IsReady raw hash user t q) (λ size s k.
              ready_then env _ _ _ s (find_user_name_by_id-IsReady user s k)
                (λ user_name x l. place user_name hash size x l))))
      where
        place :
            (user_name hash : String) (size : ℤ) (x : World S)
            → IsReady x
            → Post (Always IsCounted) IsCounted (
                (do
                  recorded ← attempt (
                      create_files_object env
                        (new_object user hash env.bucket (build_object_name user_name hash) size))
                  row ←
                      after_object env net config max_bytes fetch build_object_name
                        (build_object_name user_name hash)
                        recorded
                  created ←
                      attempt
                        (create_user_file_entry env (file_row user parent file_name row.id size))
                  after_file env net config max_bytes fetch build_object_name
                      (build_object_name user_name hash)
                      row.id
                      created)
                  x)
        place user_name hash size x l =
            Post-bind (Tried (λ row v. HasSpare row.id v) IsCounted) IsCounted _ _ _ x
              (Post-attempt _ _ _ x (
                create_files_object-HasSpare env
                  (new_object user hash env.bucket (build_object_name user_name hash) size) x refl
                  l))
              (λ recorded y m.
                Post-bind (λ row v. HasSpare row.id v) IsCounted _ _ _ y
                  (after_object-HasSpare (build_object_name user_name hash) recorded y m)
                  (λ row z n.
                    Post-bind (Tried (Always IsCounted) (HasSpare row.id)) IsCounted _ _ _ z
                      (file_attempt env user parent file_name row.id size z n)
                      (λ created c r.
                        after_file-IsCounted (build_object_name user_name hash) row.id created c
                          r)))

    -- An upload from a URL, whichever of its calls fail and whatever the download source answers,
    -- leaves no object that counts fewer references than there are rows, if there was none before
    -- and no row uses the key that the next object is given.
    pub upload_from_url-IsCounted :
        (user : ℕ) (raw : Text) (file_name : String) (parent : Option ℕ) (w : World S)
        → IsReady w
        → IsCounted
            (upload_from_url env net config max_bytes fetch build_object_name user raw file_name
              parent w).1
    upload_from_url-IsCounted user raw file_name parent w h =
        Post-world IsCounted _ (upload_from_url-Post user raw file_name parent w h)
