-- ===== src/Shares.antt =====
-- Shares: internal/service/share_file.go, with the expiry of a share's key from
-- internal/repo/redis.go, and `LogShareAccess` of internal/service/share_access.go.
--
-- `Counter` holds the rows that the code reads and writes, the keys "share:<id>" in Redis, and the
-- events and visits that it records; `Backend` says what MySQL, Redis, the clock and the random
-- generators answer, each call by its number. Times are in nanoseconds. No code deletes a share.
pub mod Access
pub mod History
pub mod Roundtrip
use cloud_vault.Base.{
  Bool, List, Option, String, [], any, false, find?, find_last?, if◌then◌else◌, inl, inr, is_none,
  ltb, none, not, some, str_eq, true, update_where, ℕ, ◌%◌, ◌&&◌, ◌*◌, ◌++◌, ◌+◌, ◌==◌, ◌||◌, ◌∷◌,
  ◌⊎◌,
}
use cloud_vault.Base.Int.{leb_ℤ, ltb_ℤ, pos, pos_part, ℤ, ◌+ℤ◌, ◌-ℤ◌}
use cloud_vault.Base.Text.{Text, text_eq, trim_space}
use cloud_vault.Names.{detect_access_source}
use cloud_vault.Rows.{Action, Emitted, UserFile}

-- model/file_share.go
pub record FileShare : Type 0 where
  pub id : ℕ
  pub share_id : String
  pub file_id : ℕ
  pub user_id : ℕ
  pub need_code : Bool
  pub extract_code : String
  pub expire_at : Option ℤ
  pub status : ℕ

-- model/share_access_log.go
pub record ShareAccessLog : Type 0 where
  pub owner_user_id : ℕ
  pub file_id : ℕ
  pub share_id : String
  pub visitor_ip : Text
  pub source : Text
  pub referer : Text
  pub user_agent : Text
  pub accessed_at : ℤ

pub record Counter : Type 0 where
  pub calls : ℕ
  pub files : List UserFile
  pub shares : List FileShare
  pub next_share : ℕ
  -- the key of a share, with its value and the moment at which it expires, if it does
  pub cached : String → Option (FileShare × Option ℤ)
  pub emitted : List Emitted
  pub visits : List ShareAccessLog

pub record Backend : Type 0 where
  pub db_fails : ℕ → Bool
  pub redis_fails : ℕ → Bool
  pub clock : ℕ → ℤ
  pub token : ℕ → String
  -- a time as MySQL keeps it in the column of the end, to the millisecond
  pub rounded : ℤ → ℤ
  -- `utils.GenExtractCode`
  pub extract_code : ℕ → String
  -- `=` between texts in MySQL
  pub same_text : String → String → Bool

pub data ShareError : Type 0 where
  permission_denied share_already_exists share_not_found share_expired : ShareError
  extract_code_mismatch redis_error db_error : ShareError

abbrev pub next_call : Counter → Counter
next_call c = record c { calls = c.calls + 1 }

-- `CheckFileOwner` (internal/service/user_file.go)
unfoldable pub check_file_owner : Backend → ℕ → ℕ → Counter → Bool × Counter
check_file_owner b user file c = (
  not (b.db_fails c.calls)
      && any (λ f. f.id == file && f.user_id == user && not f.is_deleted && is_none f.deleted_at)
          c.files,
  next_call c,
)

-- A duration of whole days in nanoseconds: 64 bits, which go round.
unfoldable pub days_long : ℕ → ℤ
days_long days =
    let n : ℕ = days * 86400000000000 % 18446744073709551616 in
    if ltb n 9223372036854775808 then pos n else pos n -ℤ pos 18446744073709551616

abbrev pub is_active_share : ℕ → ℕ → FileShare → Bool
is_active_share file user s = s.file_id == file && s.user_id == user && s.status == 0

abbrev pub expired_share : FileShare → FileShare
expired_share s = record s { status = 1 }

-- One update of `status` by key, whose error is dropped
unfoldable pub expire_row : Backend → ℕ → Counter → Counter
expire_row b id c =
    if b.db_fails c.calls
    then next_call c
    else record (next_call c) { shares = update_where (λ s. s.id == id) expired_share c.shares }

-- Whether a share that is there blocks a new one
abbrev pub is_running : ℤ → Option ℤ → Bool
is_running now none = true
is_running now (some expiry) = ltb_ℤ now expiry

abbrev pub has_end : ℤ → Bool
has_end days = ltb_ℤ (pos 0) days

-- The new row, but for its key
unfoldable pub new_share : Backend → ℕ → ℕ → ℤ → Bool → ℕ → FileShare
unfolding days_long
new_share b user file days need_code call = record {
  id = 0;
  share_id = b.token call;
  file_id = file;
  user_id = user;
  need_code = need_code;
  extract_code = if need_code then b.extract_code call else "";
  expire_at = if has_end days then some (b.clock call +ℤ days_long (pos_part days)) else none;
  status = 0;
}

-- The moment at which a key expires that is set at `now`: go-redis sets a key for a time to live that
-- is not positive without an expiry.
abbrev pub key_end : ℤ → ℤ → Option ℤ
key_end now ttl = if leb_ℤ ttl (pos 0) then none else some (now +ℤ ttl)

-- `Set` of the key of a share with an end, for what `time.Until` says, a moment before; the error is
-- dropped.
unfoldable pub cache_until : Backend → FileShare → Option ℤ → Counter → Counter
cache_until b s none c = c
cache_until b s (some expiry) c =
    let end : Option ℤ = key_end (b.clock (c.calls + 1)) (expiry -ℤ b.clock c.calls) in
    if b.redis_fails c.calls then next_call c else record (next_call c) {
      cached = λ k. if str_eq s.share_id k then some (s, end) else c.cached k;
    }

unfoldable pub cache_share : Backend → FileShare → Counter → Counter
unfolding cache_until
cache_share b s c = cache_until b s s.expire_at c

abbrev pub share_event : FileShare → Emitted
share_event s = record {
  user_id = s.user_id;
  action = Action.share;
  file_id = s.file_id;
  file_bytes = pos 0;
}

-- The row of a share in the table
abbrev pub as_stored : Backend → FileShare → FileShare
as_stored b s = record s {
  expire_at = elim s.expire_at [ none ↦ none | some expiry ↦ some (b.rounded expiry) ];
}

-- The row of a share is inserted, its key set, and the event handed on.
unfoldable pub insert_share : Backend → FileShare → Counter → (ShareError ⊎ FileShare) × Counter
unfolding cache_share
insert_share b s c =
    let row : FileShare = record s { id = c.next_share } in
    let stored : Counter = record (next_call c) {
      shares = c.shares ++ as_stored b row ∷ [];
      next_share = c.next_share + 1;
    } in
    let kept : Counter = cache_share b row stored in
    if b.db_fails c.calls || any (λ t. b.same_text t.share_id s.share_id) c.shares
    then (inl db_error, next_call c)
    else (inr row, record kept { emitted = kept.emitted ++ share_event row ∷ [] })

-- `CreateShare` when the owner has been checked and the latest active share has been looked up
unfoldable pub replace_share :
    Backend → ℕ → ℕ → ℤ → Bool → Option FileShare → Counter → (ShareError ⊎ FileShare) × Counter
unfolding expire_row new_share insert_share
replace_share b user file days need_code none c =
    insert_share b (new_share b user file days need_code c.calls) (next_call c)
replace_share b user file days need_code (some old) c =
    let now : ℤ = b.clock c.calls in
    let c' : Counter = expire_row b old.id (next_call c) in
    if is_running now old.expire_at
    then (inl share_already_exists, next_call c)
    else insert_share b (new_share b user file days need_code c'.calls) (next_call c')

-- `CreateShare`
unfoldable pub create_share :
    Backend → ℕ → ℕ → ℤ → Bool → Counter → (ShareError ⊎ FileShare) × Counter
unfolding check_file_owner replace_share
create_share b user file days need_code c =
    let (owned, c') = check_file_owner b user file c in
    if not owned
    then (inl permission_denied, c')
    else (if b.db_fails c'.calls
        then (inl db_error, next_call c')
        else replace_share b user file days need_code
            (find_last? (is_active_share file user) c'.shares) (next_call c'))

abbrev pub check_code : FileShare → String → ShareError ⊎ FileShare
check_code s code =
    if s.need_code && not (str_eq s.extract_code code) then inl extract_code_mismatch else inr s

abbrev pub is_over : ℤ → Option ℤ → Bool
is_over now none = false
is_over now (some expiry) = ltb_ℤ expiry now

-- `CheckShare` with the row
unfoldable pub check_row :
    Backend → String → Option FileShare → Counter → (ShareError ⊎ FileShare) × Counter
unfolding expire_row
check_row b code none c = (inl share_not_found, c)
check_row b code (some s) c =
    if is_over (b.clock c.calls) s.expire_at
    then (inl share_expired, expire_row b s.id (next_call c))
    else (check_code s code, next_call c)

-- What `GET` answers: a key that has expired is gone.
abbrev pub live_share : ℤ → Option (FileShare × Option ℤ) → Option FileShare
live_share now none = none
live_share now (some (s, none)) = some s
live_share now (some (s, some expiry)) = if ltb_ℤ now expiry then some s else none

unfoldable pub check_cached :
    Backend → String → String → Option FileShare → Counter → (ShareError ⊎ FileShare) × Counter
unfolding check_row
check_cached b share_id code (some s) c = (check_code s code, c)
check_cached b share_id code none c =
    if b.db_fails c.calls
    then (inl db_error, next_call c)
    else check_row b code (find? (λ s. b.same_text s.share_id share_id && s.status == 0) c.shares)
        (next_call c)

-- `CheckShare`
unfoldable pub check_share :
    Backend → String → String → Counter → (ShareError ⊎ FileShare) × Counter
unfolding check_cached
check_share b share_id code c =
    if b.redis_fails c.calls
    then (inl redis_error, next_call c)
    else check_cached b share_id code (live_share (b.clock c.calls) (c.cached share_id))
        (next_call c)

-- `handleShareExpired`, for the id that follows "share:" in the key
unfoldable pub handle_share_expired : Backend → String → Counter → Counter
handle_share_expired b share_id c =
    if b.db_fails c.calls then next_call c else record (next_call c) {
      shares = update_where (λ s. b.same_text s.share_id share_id) expired_share c.shares;
    }

-- `ShareAccessMeta`; `none` is the zero time.
pub record ShareAccessMeta : Type 0 where
  pub visitor_ip : Text
  pub user_agent : Text
  pub referer : Text
  pub source : Text
  pub accessed_at : Option ℤ

-- `LogShareAccess`: whether it returned nil
unfoldable pub log_share_access :
    Backend → (Text → Option Text) → FileShare → ShareAccessMeta → Counter → Bool × Counter
unfolding detect_access_source
log_share_access b parse_host s meta c =
    let given : Text = trim_space meta.source in
    let source : Text =
      if text_eq given [] then detect_access_source parse_host meta.referer else given in
    let time : ℤ = elim meta.accessed_at [ some t ↦ t | none ↦ b.clock c.calls ] in
    let visit : ShareAccessLog = record {
      owner_user_id = s.user_id;
      file_id = s.file_id;
      share_id = s.share_id;
      visitor_ip = trim_space meta.visitor_ip;
      source = source;
      referer = trim_space meta.referer;
      user_agent = trim_space meta.user_agent;
      accessed_at = time;
    } in
    if b.db_fails c.calls
    then (false, next_call c)
    else (true, record (next_call c) { visits = c.visits ++ visit ∷ [] })
