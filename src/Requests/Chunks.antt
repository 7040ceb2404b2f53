-- ===== src/Requests/Chunks.antt =====
-- Chunks go to the uploads of their sender alone.
use cloud_vault.Accounts.{Answer, rejected, served}
use cloud_vault.Base.{
  Bool, Option, String, false, find?, not, refl, some, str_eq, true, ℕ, ◌&&◌, ◌==◌, ◌||◌, ◌≡◌,
}
use cloud_vault.Base.Int.{leb_ℤ, ltb_ℤ, pos, ℤ}
use cloud_vault.Multipart.{get_upload_session_by_upload_id}
use cloud_vault.Requests.{ChunkForm, chunk_of_session, multipart_upload_chunk}
use cloud_vault.Rows.{UploadSession}
use cloud_vault.World.{Env, Result, World, err, ok, unfinished}
use cloud_vault.World.Rules.{
  Post, Post-attempt, Post-bind, Post-first_eq, Post-if, Post-if_eq, Post-ok, Tried,
}

-- Whether an upload has a chunk of an index
unfoldable pub has_index : UploadSession → ℤ → Bool
has_index s index = not (ltb_ℤ index (pos 0) || leb_ℤ s.total_chunks index)

-- An error
abbrev pub IsRejected : {A : Type 0} → Answer A → Type 0
IsRejected (served _) = ⊥
IsRejected (rejected _ _) = Unit

module _ {S : Type 0} (env : Env S) (w : World S) where
  -- The chunks and the blobs are those of the world `w`.
  abbrev pub SameChunks : World S → Type 0
  SameChunks v = (v.chunks ≡ w.chunks) × (v.store ≡ w.store)

  -- An error, with the same chunks and blobs
  abbrev pub NotStored : Answer (Unit {0}) → World S → Type 0
  NotStored a v = IsRejected a × SameChunks v

  chunk_of_session-refused :
      (chunk_path : String → ℤ → String) (user : ℕ) (form : ChunkForm) (index : ℤ)
      (r : Result UploadSession) (v : World S)
      → Tried
          (λ s u. ((s.user_id == user && has_index s index) ≡ false) × SameChunks u)
          SameChunks
          r
          v
      → Post NotStored SameChunks (chunk_of_session env chunk_path user form index r v)
  unfolding chunk_of_session has_index
  chunk_of_session-refused chunk_path user form index (ok s) v p =
      Post-if_eq _ _ (not (s.user_id == user)) _ _ v (λ _. Post-ok _ _ _ v (tt, p.1))
        (λ own.
          Post-if_eq _ _ (ltb_ℤ index (pos 0) || leb_ℤ s.total_chunks index) _ _ v
            (λ _. Post-ok _ _ _ v (tt, p.1))
            (λ within. absurd (clash (s.user_id == user) _ own within p.0)))
    where
      clash : (a b : Bool) → not a ≡ false → b ≡ false → (a && not b) ≡ false → ⊥
      clash true true own within q = cc
      clash true false own within q = cc
      clash false b own within q = cc
  chunk_of_session-refused chunk_path user form index (err e) v p = Post-ok _ _ _ v (tt, p)
  chunk_of_session-refused chunk_path user form index unfinished v p = Post-ok _ _ _ v (tt, p)

  -- A chunk for an upload of someone else, or outside the chunks of the upload, is refused, and
  -- neither the chunks nor the blobs change, whichever calls fail.
  pub multipart_upload_chunk-refused :
      (chunk_path : String → ℤ → String) (user : ℕ) (index : ℤ) (upload_id : String)
      (size : Option ℤ)
      → ((s : UploadSession)
          → find? (λ t. env.same_text t.upload_id upload_id) w.sessions ≡ some s
          → (s.user_id == user && has_index s index) ≡ false)
      → Post NotStored SameChunks (
          multipart_upload_chunk env chunk_path user
            (record { chunk_index = some index; upload_id = upload_id; size = size })
            w)
  unfolding multipart_upload_chunk get_upload_session_by_upload_id
  multipart_upload_chunk-refused chunk_path user index upload_id size foreign =
      let form : ChunkForm = record {
        chunk_index = some index;
        upload_id = upload_id;
        size = size;
      } in
      let Foreign : UploadSession → World S → Type 0 =
        λ s u. ((s.user_id == user && has_index s index) ≡ false) × SameChunks u in
      Post-if _ _ (str_eq upload_id "") _ _ w (Post-ok _ _ _ w (tt, (refl, refl))) (
        Post-bind (Tried Foreign SameChunks) SameChunks NotStored _ _ w
          (Post-attempt Foreign SameChunks _ w
            (Post-first_eq _ _ env _ w (refl, refl) (λ s found. (foreign s found, (refl, refl)))))
          (λ r u p. chunk_of_session-refused chunk_path user form index r u p))
