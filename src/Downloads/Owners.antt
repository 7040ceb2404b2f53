-- ===== src/Downloads/Owners.antt =====
-- A file is sent, or its URL signed, for nobody but its owner.
use cloud_vault.Accounts.{Answer, rejected, served}
use cloud_vault.Archive.Held.{IsCacheRight}
use cloud_vault.Base.{Option, String, arith, none, not, refl, some, ℕ, ◌==◌, ◌≡◌}
use cloud_vault.Base.Int.{ℤ}
use cloud_vault.Base.Text.{codes}
use cloud_vault.Downloads.{
  DownloadRequest, SentDownload, locate_file, minio_download_file, minio_download_url, name_or,
  on_shelf, open_file, presigned_url, send_file, sign_url,
}
use cloud_vault.Downloads.Served.{
  IsKeyed, IsServed, IsServedBy, locate_by_hash-Located, locate_by_id-Located,
}
use cloud_vault.File.Table.{emit}
use cloud_vault.Names.{sanitize_header_filename}
use cloud_vault.Rows.{Action, FileObject, UserFile, store_failure}
use cloud_vault.Shelf.{record_recent_access}
use cloud_vault.World.{Env, M, Result, World, err, ok, or_fail, pure, unfinished, ◌>>◌}
use cloud_vault.World.Rules.{
  Post, Post-attempt, Post-bind, Post-err, Post-if, Post-if_eq, Post-ok, Tried, always_tt,
}

module _ {S : Type 0} (env : Env S) (w : World S) (keyed : IsKeyed w.files) (right : IsCacheRight w)
    (user : ℕ) (req : DownloadRequest) where
  -- What is sent is a file that was asked for, with its object.
  abbrev pub IsSentRight : Answer SentDownload → World S → Type 0
  IsSentRight (served sent) v = IsServed w.files user req sent.file sent.object
  IsSentRight (rejected _ _) v = Unit

  -- The URL is that of the object of a file that was asked for.
  abbrev pub IsSignedRight :
      (String → String → Option String) → Answer (String × String) → World S → Type 0
  IsSignedRight presign (served (url, name)) v =
      (f : UserFile) × (o : FileObject) × IsServed w.files user req f o
      × (presign o.bucket_name o.object_name ≡ some url)
  IsSignedRight presign (rejected _ _) v = Unit

  abbrev pub Ended : World S → Type 0
  Ended v = Unit

  abbrev Located : Answer (UserFile × FileObject) → World S → Type 0
  Located a v = IsServedBy env w.files keyed user req a

  locate_file-Located : Post Located Ended (locate_file env user req w)
  unfolding locate_file
  locate_file-Located =
      Post-if_eq _ _ (not (req.file_id == 0)) _ _ w
        (λ by_id. locate_by_id-Located env w.files keyed user req w (refl, right))
        (λ by_hash.
          locate_by_hash-Located env w.files keyed user req _ w (ground (arith, by_hash)) refl)

  module _ (copied : ℕ → Option ℤ) (path_base : String → String) where
    send_file-right :
        (f : UserFile) (o : FileObject) (v : World S)
        → IsServed w.files user req f o
        → Post IsSentRight Ended (send_file env copied path_base user f o v)
    unfolding send_file
    send_file-right f o v h = Post-bind _ Ended IsSentRight _ _ v (always_tt _) settle
      where
        sent : SentDownload
        sent = record {
          file = f;
          object = o;
          name = sanitize_header_filename (codes (name_or f.name (path_base o.object_name)));
        }

        settle :
            (written : Option ℤ) (u : World S)
            → Unit {0}
            → Post IsSentRight Ended (
                (elim written as (λ _. M S (Answer SentDownload)) [
                  | none ↦ pure (served sent)
                  | some bytes ↦ (do
                    on_shelf env (λ d l. record_recent_access d user f.id (codes "download") l)
                    emit user Action.download f.id bytes
                    pure (served sent))
                ])
                  u)
        settle none u t = Post-ok _ _ _ u h
        settle (some bytes) u t = Post-bind _ Ended IsSentRight _ _ u (always_tt _) (λ _ x _.
            Post-bind _ Ended IsSentRight _ _ x (always_tt _) (λ _ y _. Post-ok _ _ _ y h))

    open_file-right :
        (a : Answer (UserFile × FileObject)) (v : World S)
        → Located a v
        → Post IsSentRight Ended (open_file env copied path_base user a v)
    unfolding open_file
    open_file-right (rejected status text) v h = Post-ok _ _ _ v tt
    open_file-right (served (f, o)) v h = Post-bind _ Ended IsSentRight _ _ v (always_tt _) settle
      where
        settle :
            (opened : Result (Unit {0})) (u : World S)
            → Unit {0}
            → Post IsSentRight Ended (
                (elim opened as (λ _. M S (Answer SentDownload)) [
                  | ok _ ↦ send_file env copied path_base user f o
                  | err _ ↦ pure (rejected 404 "")
                  | unfinished ↦ pure (rejected 404 "")
                ])
                  u)
        settle (ok _) u t = send_file-right f o u h
        settle (err _) u t = Post-ok _ _ _ u tt
        settle unfinished u t = Post-ok _ _ _ u tt

  module _ (presign : String → String → Option String) (path_base : String → String) where
    presigned_url-right :
        (bucket object : String) (v : World S)
        → Post
            (λ url _. presign bucket object ≡ some url)
            Ended
            (presigned_url env presign path_base bucket object v)
    unfolding presigned_url
    presigned_url-right bucket object v =
        Post-if _ _ env.store_ready _ _ v (of_url (presign bucket object) refl)
          (Post-err _ _ _ v tt)
      where
        of_url :
            (o : Option String)
            → presign bucket object ≡ o
            → Post (λ url _. presign bucket object ≡ some url) Ended (or_fail o store_failure v)
        of_url none e = Post-err _ _ _ v tt
        of_url (some url) e = Post-ok _ _ url v e

    sign_url-right :
        (a : Answer (UserFile × FileObject)) (v : World S)
        → Located a v
        → Post (IsSignedRight presign) Ended (sign_url env presign path_base user a v)
    unfolding sign_url
    sign_url-right (rejected status text) v h = Post-ok _ _ _ v tt
    sign_url-right (served (f, o)) v h =
        Post-bind (Tried (λ url _. presign o.bucket_name o.object_name ≡ some url) Ended) Ended
          (IsSignedRight presign) _ _ v
          (Post-attempt _ _ _ v (presigned_url-right o.bucket_name o.object_name v)) settle
      where
        settle :
            (signed : Result String) (u : World S)
            → Tried (λ url _. presign o.bucket_name o.object_name ≡ some url) Ended signed u
            → Post (IsSignedRight presign) Ended (
                (elim signed as (λ _. M S (Answer (String × String))) [
                  | ok url ↦ (do
                    on_shelf env (λ d l. record_recent_access d user f.id (codes "download_url") l)
                    pure (served (url, name_or f.name (path_base o.object_name))))
                  | err _ ↦ pure (rejected 500 "")
                  | unfinished ↦ pure (rejected 500 "")
                ])
                  u)
        settle (ok url) u p =
            Post-bind _ Ended (IsSignedRight presign) _ _ u (always_tt _)
              (λ _ x _. Post-ok _ _ _ x (f, o, h, p))
        settle (err _) u p = Post-ok _ _ _ u tt
        settle unfinished u p = Post-ok _ _ _ u tt

  -- A download, and a signed URL, is of the object to which a file of the user refers that is not
  -- deleted and has the id that was asked for, if one was; whichever calls fail, provided that the id
  -- is the key of the table of files, and each cached object has the id that it is cached under.
  pub downloads-IsServed :
      (copied : ℕ → Option ℤ) (presign : String → String → Option String)
      (path_base : String → String)
      → Post IsSentRight Ended (minio_download_file env copied path_base user req w)
        × Post (IsSignedRight presign) Ended (minio_download_url env presign path_base user req w)
  unfolding minio_download_file minio_download_url
  downloads-IsServed copied presign path_base = (
    Post-bind Located Ended IsSentRight _ _ w locate_file-Located
        (λ a u p. open_file-right copied path_base a u p),
    Post-bind Located Ended (IsSignedRight presign) _ _ w locate_file-Located
        (λ a u p. sign_url-right presign path_base a u p),
  )
