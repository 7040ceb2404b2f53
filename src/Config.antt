-- ===== src/Config.antt =====
-- The configuration: config/config.go.
--
-- `Process` has what `os.Getenv` gives, the empty text for a variable that is not set, and what the
-- functions of Go's packages strconv, time and net/url answer; `F` stands for float64. A duration
-- is in nanoseconds.
pub mod Lists
pub mod Storage
use cloud_vault.Base.{
  Bool, List, Option, String, [], any, false, if◌then◌else◌, none, some, true, ℕ, ◌*◌, ◌++◌, ◌∷◌,
}
use cloud_vault.Base.Int.{pos, ℤ}
use cloud_vault.Base.Text.{Text, codes, split_on, text_eq, to_lower, trim_space}

-- What the code takes from the process and from Go's packages
pub record Process (F : Type 0) : Type 0 where
  pub env : String → Text
  -- `strconv.Atoi`, and `strconv.ParseInt` with 64 bits
  pub parse_int : Text → Option ℤ
  pub parse_float : Text → Option F
  pub parse_duration : Text → Option ℤ
  pub path_escape : Text → Text
  -- the float64 of a small number
  pub float_of : ℕ → F

pub record Config (F : Type 0) : Type 0 where
  pub jwt_secret : Text
  pub db_host : Text
  pub db_port : Text
  pub db_user : Text
  pub db_pass : Text
  pub db_name : Text
  pub db_name_test : Text
  pub redis_host : Text
  pub redis_port : Text
  pub redis_password : Text
  pub redis_db : ℤ
  pub minio_host : Text
  pub minio_port : Text
  pub minio_username : Text
  pub minio_password : Text
  pub bucket_name : Text
  pub bucket_name_test : Text
  pub rabbit_mq_url : Text
  pub rabbit_mq_host : Text
  pub rabbit_mq_port : Text
  pub rabbit_mq_user : Text
  pub rabbit_mq_pass : Text
  pub rabbit_mq_vhost : Text
  pub rabbit_mq_prefetch : ℤ
  pub download_worker_concurrency : ℤ
  pub download_rate : F
  pub download_burst : ℤ
  pub download_retry_max : ℤ
  pub download_retry_delays : List ℤ
  pub download_http_timeout : ℤ
  pub download_allow_private : Bool
  pub download_allowed_hosts : List Text
  pub download_max_bytes : ℤ

-- A parsed value, or the default
abbrev pub or_default {ℓ} : {A : Type ℓ} → A → Option A → A
or_default default none = default
or_default default (some v) = v

abbrev pub parsed_or : {A : Type 0} → (Text → Option A) → Text → A → A
parsed_or parse value default =
    if text_eq value [] then default else or_default default (parse value)

unfoldable pub get_env : {F : Type 0} → Process F → String → String → Text
get_env p key default = if text_eq (p.env key) [] then codes default else p.env key

unfoldable pub get_env_int : {F : Type 0} → Process F → String → ℕ → ℤ
get_env_int p key default = parsed_or p.parse_int (trim_space (p.env key)) (pos default)

unfoldable pub get_env_float : {F : Type 0} → Process F → String → ℕ → F
get_env_float p key default = parsed_or p.parse_float (trim_space (p.env key)) (p.float_of default)

abbrev pub parse_bool : Text → Option Bool
parse_bool v =
    if any (text_eq v) (codes "1" ∷ codes "true" ∷ codes "yes" ∷ codes "y" ∷ codes "on" ∷ [])
    then some true
    else (if any (text_eq v) (codes "0" ∷ codes "false" ∷ codes "no" ∷ codes "n" ∷ codes "off" ∷ [])
        then some false
        else none)

unfoldable pub get_env_bool : {F : Type 0} → Process F → String → Bool → Bool
get_env_bool p key default = parsed_or parse_bool (trim_space (to_lower (p.env key))) default

unfoldable pub get_env_int64 : {F : Type 0} → Process F → String → ℕ → ℤ
get_env_int64 p key default = parsed_or p.parse_int (trim_space (p.env key)) (pos default)

-- `strings.Split(raw, ",")`
abbrev pub split_commas : Text → List Text
split_commas = split_on 44

-- The parts that are not empty once they are trimmed
abbrev pub trimmed_parts : List Text → List Text
trimmed_parts [] = []
trimmed_parts (part ∷ parts) =
    let rest = trimmed_parts parts in
    if text_eq (trim_space part) [] then rest else trim_space part ∷ rest

abbrev pub unless_empty : {A : Type 0} → List A → List A → List A
unless_empty default [] = default
unless_empty default (v ∷ vs) = v ∷ vs

unfoldable pub get_env_list : {F : Type 0} → Process F → String → List Text → List Text
get_env_list p key default =
    let raw = trim_space (p.env key) in
    if text_eq raw [] then default else unless_empty default (trimmed_parts (split_commas raw))

-- The durations of the parts; one that is no duration spoils the list.
abbrev pub parse_parts : (Text → Option ℤ) → List Text → Option (List ℤ)
parse_parts parse [] = some []
parse_parts parse (part ∷ parts) = elim (parse part) [
  | none ↦ none
  | some v ↦ elim (parse_parts parse parts) [ none ↦ none | some vs ↦ some (v ∷ vs) ]
]

unfoldable pub get_env_duration_list : {F : Type 0} → Process F → String → List ℤ → List ℤ
get_env_duration_list p key default =
    let raw = trim_space (p.env key) in
    if text_eq raw []
    then default
    else elim (parse_parts p.parse_duration (trimmed_parts (split_commas raw))) [
      | none ↦ default
      | some vs ↦ unless_empty default vs
    ]

unfoldable pub get_env_duration : {F : Type 0} → Process F → String → ℕ → ℤ
get_env_duration p key default = parsed_or p.parse_duration (trim_space (p.env key)) (pos default)

abbrev pub second : ℕ
second = 1000000000

unfoldable pub bucket_name_test_of : {F : Type 0} → Process F → Text
bucket_name_test_of p =
    let name = get_env p "BUCKET_NAME_TEST" "" in
    if text_eq name [] then get_env p "BUCKET_NAMETEST" "CloudVault-test" else name

unfoldable pub rabbit_mq_url_of : {F : Type 0} → Process F → Text
rabbit_mq_url_of p =
    let url = get_env p "RABBITMQ_URL" "" in
    if text_eq url []
    then codes "amqp://"
      ++ p.path_escape (get_env p "RABBITMQ_USER" "guest")
      ++ codes ":"
      ++ p.path_escape (get_env p "RABBITMQ_PASSWORD" "guest")
      ++ codes "@"
      ++ get_env p "RABBITMQ_HOST" "localhost"
      ++ codes ":"
      ++ get_env p "RABBITMQ_PORT" "5672"
      ++ codes "/"
      ++ p.path_escape (get_env p "RABBITMQ_VHOST" "/")
    else url

abbrev pub default_delays : List ℤ
default_delays =
    pos (10 * second)
    ∷ pos (30 * second)
    ∷ pos (120 * second)
    ∷ pos (600 * second)
    ∷ pos (1800 * second)
    ∷ []

unfoldable pub retry_delays_of : {F : Type 0} → Process F → List ℤ
retry_delays_of p = get_env_duration_list p "DOWNLOAD_RETRY_DELAYS" default_delays

-- `InitConfig`: the value of `AppConfig`
unfoldable pub init_config : {F : Type 0} → Process F → Config F
init_config p = record {
  jwt_secret = get_env p "JWT_SECRET" "l=ax+b";
  db_host = get_env p "DB_HOST" "localhost";
  db_port = get_env p "DB_PORT" "3306";
  db_user = get_env p "DB_USER" "root";
  db_pass = get_env p "DB_PASS" "root";
  db_name = get_env p "DB_NAME" "CloudVault";
  db_name_test = get_env p "DB_NAME_TEST" "CloudVault_test";
  redis_host = get_env p "REDIS_HOST" "localhost";
  redis_port = get_env p "REDIS_PORT" "6379";
  redis_password = get_env p "REDIS_PASSWORD" "";
  redis_db = get_env_int p "REDIS_DB" 0;
  minio_host = get_env p "MINIO_HOST" "localhost";
  minio_port = get_env p "MINIO_PORT" "9000";
  minio_username = get_env p "MINIO_USERNAME" "minioadmin";
  minio_password = get_env p "MINIO_PASSWORD" "minioadmin";
  bucket_name = get_env p "BUCKET_NAME" "netdisk";
  bucket_name_test = bucket_name_test_of p;
  rabbit_mq_url = rabbit_mq_url_of p;
  rabbit_mq_host = get_env p "RABBITMQ_HOST" "localhost";
  rabbit_mq_port = get_env p "RABBITMQ_PORT" "5672";
  rabbit_mq_user = get_env p "RABBITMQ_USER" "guest";
  rabbit_mq_pass = get_env p "RABBITMQ_PASSWORD" "guest";
  rabbit_mq_vhost = get_env p "RABBITMQ_VHOST" "/";
  rabbit_mq_prefetch = get_env_int p "RABBITMQ_PREFETCH" 8;
  download_worker_concurrency = get_env_int p "DOWNLOAD_WORKER_CONCURRENCY" 4;
  download_rate = get_env_float p "DOWNLOAD_RATE" 2;
  download_burst = get_env_int p "DOWNLOAD_BURST" 4;
  download_retry_max = get_env_int p "DOWNLOAD_RETRY_MAX" 5;
  download_retry_delays = retry_delays_of p;
  download_http_timeout = get_env_duration p "DOWNLOAD_HTTP_TIMEOUT" (1800 * second);
  download_allow_private = get_env_bool p "DOWNLOAD_ALLOW_PRIVATE" false;
  download_allowed_hosts = get_env_list p "DOWNLOAD_ALLOW_HOSTS" [];
  download_max_bytes = get_env_int64 p "DOWNLOAD_MAX_BYTES" 0;
}
