-- ===== src/Links/Admitted.antt =====
-- A file is sent under a share to whoever the share admits, and is the file that was shared.
use cloud_vault.Accounts.{Answer, rejected, served}
use cloud_vault.Archive.Held.{Among}
use cloud_vault.Base.{not, true, ◌&&◌, ◌≡◌}
use cloud_vault.Base.Text.{Text}
use cloud_vault.File.Table.{live}
use cloud_vault.Rows.{FileObject, UserFile}
use cloud_vault.Shares.{FileShare}
use cloud_vault.World.{Env, World}

-- The file of a share: a row with its id that is not deleted
pub record IsFileOf {S : Type 0} (w : World S) (s : FileShare) (f : UserFile) : Type 0 where
  pub same : f.id ≡ s.file_id
  pub kept : (not f.is_deleted && live f) ≡ true
  pub row : Among w.files f

-- An answer with a file is about the file of the share.
abbrev IsLocated : {S : Type 0} → World S → FileShare → Answer (UserFile × FileObject) → Type 0
IsLocated w s (served (f, o)) = IsFileOf w s f
IsLocated w s (rejected _ _) = Unit

module _ {S : Type 0} (env : Env S) (w : World S) (s : FileShare) where
  abbrev Located : Answer (UserFile × FileObject) → World S → Type 0
  Located a v = IsLocated w s a

  abbrev Any : World S → Type 0
  Any v = Unit
