-- ===== src/Multipart/Safety.antt =====
-- The start of a multipart upload keeps the counts of the objects.
use cloud_vault.Base.{String, any, length, refl, ℕ, ◌==◌}
use cloud_vault.Multipart.{
  MultipartInit, check_chunk_num, chunks_of_session, create_upload_session, init_found, init_row,
  multi_part_file_init, upload_flow,
}
use cloud_vault.Object.{latest_session}
use cloud_vault.Object.Counting.{IsCounted}
use cloud_vault.Object.Removal.{get_file_object_by_hash-IsCounted, keep_then}
use cloud_vault.Rows.{FileObject, UploadSession}
use cloud_vault.Upload.Safety.{is_file_object_available-IsCounted, share_object-IsCounted}
use cloud_vault.World.{Env, Result, World, attempt, err, first, is_not_found, ok, unfinished}
use cloud_vault.World.Rules.{
  Always, Post, Post-attempt, Post-bind, Post-err, Post-first, Post-if, Post-ite, Post-ok, Post-sql,
  Post-world, Tried,
}

module _ {S : Type 0} (env : Env S) where
  create_upload_session-IsCounted :
      (req : MultipartInit) (w : World S)
      → IsCounted w
      → Post (Always IsCounted) IsCounted (create_upload_session env req w)
  unfolding create_upload_session
  create_upload_session-IsCounted req w h = keep_then env _ _ w (Post-ok _ _ _ _ h) (λ token v p.
      Post-sql _ _ env _ v p (
        Post-ite _ _ (any (λ s. env.same_text s.upload_id token) v.sessions) _ _
          (Post-err _ _ _ _ p) (Post-ok _ _ _ _ p)))

  chunks_of_session-IsCounted :
      (session : Result UploadSession) (w : World S)
      → Tried (Always IsCounted) IsCounted session w
      → Post (Always IsCounted) IsCounted (chunks_of_session env session w)
  unfolding chunks_of_session
  chunks_of_session-IsCounted (ok s) w h = Post-sql _ _ env _ w h (Post-ok _ _ _ _ h)
  chunks_of_session-IsCounted (err e) w h =
      Post-if _ _ (is_not_found e) _ _ w (Post-ok _ _ _ _ h) (Post-err _ _ _ _ h)
  chunks_of_session-IsCounted unfinished w h = Post-err _ _ _ _ h

  Tried-IsCounted :
      {A : Type 0} (r : Result A) (w : World S)
      → Tried (Always IsCounted) IsCounted r w
      → IsCounted w
  Tried-IsCounted (ok _) w h = h
  Tried-IsCounted (err _) w h = h
  Tried-IsCounted unfinished w h = h

  latest-IsCounted :
      (user : ℕ) (hash : String) (w : World S)
      → IsCounted w
      → Post
          (Tried (Always IsCounted) IsCounted)
          IsCounted
          (attempt (first env (latest_session env user hash)) w)
  latest-IsCounted user hash w h = Post-attempt _ _ _ w (Post-first _ _ env _ w h (λ _. h))

  upload_flow-IsCounted :
      (req : MultipartInit) (w : World S)
      → IsCounted w
      → Post (Always IsCounted) IsCounted (upload_flow env req w)
  unfolding upload_flow check_chunk_num
  upload_flow-IsCounted req w h =
      keep_then env _ _ w
        (Post-bind _ _ _ _ _ w (latest-IsCounted req.user_id req.hash w h)
          (λ session v p. chunks_of_session-IsCounted session v p))
        (λ chunks v p.
          keep_then env _ _ v
            (Post-if _ _ (length chunks == 0) _ _ v (create_upload_session-IsCounted req v p)
              (Post-ok _ _ _ _ p))
            (λ _ u q.
              Post-bind _ _ _ _ _ u (latest-IsCounted req.user_id req.hash u q)
                (λ session t r. Post-ok _ _ _ _ (Tried-IsCounted session t r))))

  init_found-IsCounted :
      (req : MultipartInit) (found : Result FileObject) (w : World S)
      → Tried (Always IsCounted) IsCounted found w
      → Post (Always IsCounted) IsCounted (init_found env req found w)
  unfolding init_found
  init_found-IsCounted req (ok obj) w h =
      keep_then env _ _ w (is_file_object_available-IsCounted env obj w h) (λ available v p.
        Post-if _ _ available _ _ v
          (keep_then env _ _ v (share_object-IsCounted env obj (init_row req obj) v refl refl p)
            (λ _ u q. Post-ok _ _ _ _ q))
          (upload_flow-IsCounted req v p))
  init_found-IsCounted req (err e) w h =
      Post-if _ _ (is_not_found e) _ _ w (upload_flow-IsCounted req w h) (Post-err _ _ _ _ h)
  init_found-IsCounted req unfinished w h = Post-err _ _ _ _ h

  multi_part_file_init-Post :
      (req : MultipartInit) (w : World S)
      → IsCounted w
      → Post (Always IsCounted) IsCounted (multi_part_file_init env req w)
  unfolding multi_part_file_init
  multi_part_file_init-Post req w h =
      Post-bind _ _ _ _ _ w
        (Post-attempt _ _ _ w (get_file_object_by_hash-IsCounted env req.hash w h))
        (λ found v p. init_found-IsCounted req found v p)

  -- The start of a multipart upload, whether it ends in an instant upload or in a session, and
  -- whichever of its calls fail, leaves no object that counts fewer references than there are rows,
  -- if there was none before.
  pub multi_part_file_init-IsCounted :
      (req : MultipartInit) (w : World S)
      → IsCounted w
      → IsCounted (multi_part_file_init env req w).1
  multi_part_file_init-IsCounted req w h =
      Post-world IsCounted _ (multi_part_file_init-Post req w h)
