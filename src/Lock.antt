-- ===== src/Lock.antt =====
-- The lock in Redis (internal/repo/redis.go, `RedisLock`), with which internal/handler/minio.go
-- guards the end of a multipart upload.
--
-- `System` is one key of Redis and the lock objects that name it, each of one process. A step is one
-- command of one process, or time that passes; a command may fail before it has reached Redis, and
-- an answer may be lost after it. `uuid` is what `uuid.NewString` gives, by the number of the call.
pub mod Exclusion
pub mod Grants
use cloud_vault.Base.{Option, String, if◌then◌else◌, ltb, none, some, str_eq, ℕ, ◌+◌, ◌==◌}

-- `RedisLock`, as far as it changes. `until` is no part of the code: it is the end of the lease that
-- the process was granted, 0 when it holds none.
pub record RedisLock : Type 0 where
  pub token : String
  pub until : ℕ

pub record System : Type 0 where
  pub time : ℕ
  -- the key's value and the moment at which it expires
  pub value : Option (String × ℕ)
  pub locks : ℕ → RedisLock
  -- how many uuids have been drawn
  pub drawn : ℕ

pub data Outcome : Type 0 where
  acquired busy failed_command : Outcome

abbrev pub set_lock : ℕ → RedisLock → (ℕ → RedisLock) → ℕ → RedisLock
set_lock i l locks j = if j == i then l else locks j

-- What `GET` answers: an expired key is gone.
abbrev pub live_value : ℕ → Option (String × ℕ) → Option String
live_value time none = none
live_value time (some (token, expiry)) = if ltb time expiry then some token else none

module _ (uuid : ℕ → String) (ttl : ℕ) where
  -- `SetNX` of the key with a token, by an expired or missing key
  abbrev pub set_value : System → System
  set_value s = record s { value = some (uuid s.drawn, s.time + ttl); drawn = s.drawn + 1 }

  abbrev pub draw : System → System
  draw s = record s { drawn = s.drawn + 1 }

  -- `Lock` of process i
  unfoldable pub lock : ℕ → System → Outcome × System
  lock i s = elim (live_value s.time s.value) [
    | some _ ↦ (busy, draw s)
    | none ↦ (
      acquired,
      record (set_value s) {
        locks = set_lock i (record { token = uuid s.drawn; until = s.time + ttl }) s.locks;
      },
    )
  ]

  -- `Lock` whose answer is lost: the command has had its effect, but the process does not know.
  unfoldable pub lock_unanswered : ℕ → System → Outcome × System
  lock_unanswered i s = elim (live_value s.time s.value) [
    | some _ ↦ (failed_command, draw s)
    | none ↦ (failed_command, set_value s)
  ]

-- The script of `Unlock`: the key is deleted if it holds the token.
unfoldable pub delete_if_held : String → System → System
delete_if_held token s = elim (live_value s.time s.value) [
  | some held ↦ if str_eq held token then record s { value = none } else s
  | none ↦ s
]

-- The lease of process i ends.
abbrev pub ended : RedisLock → RedisLock
ended l = record { token = l.token; until = 0 }

abbrev pub give_back : ℕ → System → System
give_back i s = record s { locks = set_lock i (ended (s.locks i)) s.locks }

-- `Unlock` of process i, which leaves the token where it is.
unfoldable pub unlock : ℕ → System → System
unfolding delete_if_held
unlock i s =
    if str_eq (s.locks i).token ""
    then give_back i s
    else give_back i (delete_if_held (s.locks i).token s)

pub data Step (uuid : ℕ → String) (ttl : ℕ) : System → System → Type 0 where
  locks_it : (i : ℕ) (s : System) → Step uuid ttl s (lock uuid ttl i s).1
  is_unanswered : (i : ℕ) (s : System) → Step uuid ttl s (lock_unanswered uuid ttl i s).1
  is_unsent : (s : System) → Step uuid ttl s (draw uuid ttl s)
  unlocks_it : (i : ℕ) (s : System) → Step uuid ttl s (unlock i s)
  -- `Unlock` that fails: the process no longer relies on the lock.
  leaves_it : (i : ℕ) (s : System) → Step uuid ttl s (give_back i s)
  time_passes : (n : ℕ) (s : System) → Step uuid ttl s (record s { time = s.time + n })

pub data Steps (uuid : ℕ → String) (ttl : ℕ) : System → System → Type 0 where
  no_step : {s : System} → Steps uuid ttl s s
  then_step : {s t u : System} → Steps uuid ttl s t → Step uuid ttl t u → Steps uuid ttl s u
