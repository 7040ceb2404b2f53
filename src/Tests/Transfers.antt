-- ===== src/Tests/Transfers.antt =====
-- Uploads through the server and from a URL at concrete inputs.
use cloud_vault.Base.{Bool, Option, String, arith, none, refl, some}
use cloud_vault.Base.Int.{pos}
use cloud_vault.Base.Text.{Text, codes}
use cloud_vault.Object.Counting.{IsCounted}
use cloud_vault.Object.Creation.{IsReady}
use cloud_vault.Source.{Url}
use cloud_vault.Tests.Sources.{resolver, source_config}
use cloud_vault.Tests.Worlds.{env, world}
use cloud_vault.Transfer.{Response, SentFile, minio_upload_file, upload_from_url}
use cloud_vault.Transfer.Counts.{minio_upload_file-IsCounted}
use cloud_vault.Transfer.Sourced.{upload_from_url-IsCounted}

abbrev sent_file : SentFile
sent_file = record {
  user_id = 8;
  bucket_name = "netdisk";
  object_name = "files/bob/def";
  size = pos 4;
  file_path = "notes.txt";
  hash = "def";
}

world-IsReady : IsReady world
world-IsReady = (omega arith, (refl, (ground arith, tt)))

minio_upload_file-IsCounted_example : IsCounted (minio_upload_file env (λ p. p) sent_file world).1
minio_upload_file-IsCounted_example =
    minio_upload_file-IsCounted env (λ p. p) sent_file world world-IsReady

abbrev pub answer_of : (Text → Bool) → Url → Option Response
answer_of check u = some (record { status_code = 200; content_length = pos 4 })

abbrev pub name_of : String → String → String
name_of user hash = hash

upload_from_url-IsCounted_example :
    IsCounted
      (upload_from_url env resolver source_config
        (pos 100)
        answer_of
        name_of
        8
        (codes "https://cdn.example.org/a")
        "a"
        none
        world).1
upload_from_url-IsCounted_example =
    upload_from_url-IsCounted env resolver source_config (pos 100) answer_of name_of 8
      (codes "https://cdn.example.org/a") "a" none world world-IsReady
