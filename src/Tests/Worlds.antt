-- ===== src/Tests/Worlds.antt =====
-- A world with one shared file, for the tests.
use cloud_vault.Base.{[], false, none, some, str_eq, true, ℕ, ◌+◌, ◌==◌, ◌∷◌}
use cloud_vault.Base.Int.{pos}
use cloud_vault.Rows.{FileObject, User, UserFile}
use cloud_vault.World.{Env, Store, World}

-- An object store that holds nothing but accepts every call.
abbrev pub open_store : Store ℕ
open_store = record {
  put_object = λ b o n s. (true, s);
  get_object = λ b o s. (true, s);
  remove_object = λ b o s. (true, s + 1);
  compose_object = λ b o c s. (true, s);
}

abbrev pub env : Env ℕ
env = record {
  store = open_store;
  store_ready = true;
  db_fails = λ n. n == 3;
  redis_fails = λ n. false;
  same_text = λ a b. str_eq a b;
  token = λ n. "token";
  clock = λ n. n;
  bucket = "netdisk";
}

abbrev pub report : FileObject
report = record {
  id = 1;
  user_id = 7;
  hash = "abc";
  bucket_name = "netdisk";
  object_name = "files/ann/abc";
  size = pos 10;
  ref_count = 2;
}

abbrev pub report_file : UserFile
report_file = record {
  id = 1;
  user_id = 7;
  parent_id = none;
  name = "report.pdf";
  is_dir = false;
  object_id = some 1;
  size = pos 10;
  is_deleted = false;
  deleted_at = none;
}

abbrev pub world : World ℕ
world = record {
  calls = 0;
  users = [];
  next_user = 1;
  files = report_file ∷ [];
  next_file = 2;
  objects = report ∷ [];
  next_object = 2;
  sessions = [];
  next_session = 1;
  chunks = [];
  object_cache = λ k. none;
  hash_cache = λ k. none;
  path_cache = λ b o. none;
  list_cache = λ k. none;
  user_cache = λ k. none;
  tasks = [];
  next_task = 1;
  favorites = [];
  recents = [];
  registrations = λ t. none;
  used_tokens = λ t. false;
  store = 0;
  events = [];
}

abbrev pub ann : User
ann = record {
  id = 7;
  user_name = "ann";
  password = "";
  email = "ann@example.org";
  nick_name = "";
  avatar_url = "";
  bio = "";
  is_active = true;
  total_space = 0;
  use_space = 0;
  deleted_at = none;
}
