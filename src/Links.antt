-- ===== src/Links.antt =====
-- The handlers of shares: `CreateShareHandler` and `ShareDownload` of internal/handler/share_file.go.
--
-- The shares, with the log of visits, are a `Counter` (Shares), the files and the blobs a `World`;
-- their calls are numbered apart. Parameters: `stream` has the size that the object store gives for an
-- object and whether `io.Copy` has sent it whole, by the number of the call; `parse_host` is the
-- parsing of a referer. The content type is left out. A request is one that was read.
pub mod Admitted
use cloud_vault.Accounts.{Answer, rejected, served}
use cloud_vault.Base.{Bool, Option, String, [], if◌then◌else◌, inl, inr, none, some, str_eq, ℕ, ◌⊎◌}
use cloud_vault.Base.Int.{ℤ}
use cloud_vault.Base.Text.{Text, codes, trim_space_string}
use cloud_vault.Downloads.{SentDownload}
use cloud_vault.File.Recycle.{get_user_file_by_id}
use cloud_vault.File.Table.{emit}
use cloud_vault.Names.{sanitize_header_filename}
use cloud_vault.Object.{get_file_object_by_id}
use cloud_vault.Rows.{Action, FileObject, UserFile}
use cloud_vault.Shares.{
  Backend, Counter, FileShare, ShareAccessMeta, ShareError, check_share, create_share,
  log_share_access,
}
use cloud_vault.Transfer.{minio_download_object}
use cloud_vault.World.{Env, M, Result, World, attempt, err, ok, pure, unfinished, ◌>>=◌, ◌>>◌}

-- dto.CreateShareRequest
pub record CreateShareRequest : Type 0 where
  pub file_id : ℕ
  pub expire_days : ℤ
  pub need_code : Bool

abbrev pub created_answer : ShareError ⊎ FileShare → Answer (String × String)
created_answer (inl e) = rejected 500 ""
created_answer (inr s) = served (s.share_id, s.extract_code)

-- `CreateShareHandler`
unfoldable pub create_share_handler :
    Backend → ℕ → CreateShareRequest → Counter → Answer (String × String) × Counter
unfolding create_share
create_share_handler b user req c =
    let (made, c') = create_share b user req.file_id req.expire_days req.need_code c in
    (created_answer made, c')

-- What `ShareDownload` reads of a request
pub record ShareRequest : Type 0 where
  pub share_id : String
  pub query_code : String
  pub form_code : String
  pub client_ip : Text
  pub user_agent : Text
  pub referer : Text

-- The code of the query, or else that of the form
abbrev pub given_code : ShareRequest → String
given_code req =
    let code = trim_space_string req.query_code in
    if str_eq code "" then trim_space_string req.form_code else code

module _ {S : Type 0} (env : Env S) where
  unfoldable pub open_shared_object : UserFile → FileObject → M S (Answer (UserFile × FileObject))
  unfolding minio_download_object
  open_shared_object f o = do
    opened ← attempt (minio_download_object env o.object_name)
    elim opened [
      | ok _ ↦ pure (served (f, o))
      | err _ ↦ pure (rejected 500 "")
      | unfinished ↦ pure (rejected 500 "")
    ]

  unfoldable pub shared_object : UserFile → Option ℕ → M S (Answer (UserFile × FileObject))
  unfolding get_file_object_by_id open_shared_object
  shared_object f none = pure (rejected 404 "file not found")
  shared_object f (some object) = do
    stored_as ← attempt (get_file_object_by_id env object)
    elim stored_as [
      | ok o ↦ open_shared_object f o
      | err _ ↦ pure (rejected 404 "file not found")
      | unfinished ↦ pure (rejected 404 "file not found")
    ]

  -- The steps from a share to its object
  unfoldable pub open_share : FileShare → M S (Answer (UserFile × FileObject))
  unfolding get_user_file_by_id shared_object
  open_share s = do
    found ← attempt (get_user_file_by_id env s.file_id)
    elim found [
      | ok f ↦ shared_object f f.object_id
      | err _ ↦ pure (rejected 404 "file not found")
      | unfinished ↦ pure (rejected 404 "file not found")
    ]

  module _ (b : Backend) (parse_host : Text → Option Text) (stream : ℕ → ℤ × Bool) where
    -- The stream to the client, and the visit that is logged once it is whole
    unfoldable pub send_share :
        FileShare
        → ShareRequest
        → UserFile × FileObject
        → World S
        → Counter
        → Answer SentDownload × World S × Counter
    unfolding sanitize_header_filename log_share_access
    send_share s req (f, o) w c =
        let (size, whole) = stream w.calls in
        let sent : SentDownload = record {
          file = f;
          object = o;
          name = sanitize_header_filename (codes f.name);
        } in
        let meta : ShareAccessMeta = record {
          visitor_ip = req.client_ip;
          user_agent = req.user_agent;
          referer = req.referer;
          source = [];
          accessed_at = none;
        } in
        if whole
        then (
          served sent,
          (emit s.user_id Action.download s.file_id size w).1,
          (log_share_access b parse_host s meta c).1,
        )
        else (served sent, w, c)

    unfoldable pub answer_share :
        FileShare
        → ShareRequest
        → Result (Answer (UserFile × FileObject))
        → World S
        → Counter
        → Answer SentDownload × World S × Counter
    unfolding send_share
    answer_share s req (ok (served located)) w c = send_share s req located w c
    answer_share s req (ok (rejected status text)) w c = (rejected status text, w, c)
    answer_share s req (err _) w c = (rejected 404 "file not found", w, c)
    answer_share s req unfinished w c = (rejected 404 "file not found", w, c)

    unfoldable pub hand_out :
        ShareRequest
        → ShareError ⊎ FileShare
        → World S
        → Counter
        → Answer SentDownload × World S × Counter
    unfolding answer_share open_share
    hand_out req (inl e) w c = (rejected 403 "", w, c)
    hand_out req (inr s) w c = let (r, w') = open_share s w in answer_share s req r w' c

    -- `ShareDownload`
    unfoldable pub share_download :
        ShareRequest → World S → Counter → Answer SentDownload × World S × Counter
    unfolding hand_out check_share
    share_download req w c =
        let (checked, c') = check_share b req.share_id (given_code req) c in
        hand_out req checked w c'
