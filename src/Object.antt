-- ===== src/Object.antt =====
-- File objects: the stored blobs, shared between user files and counted by `ref_count`
-- (internal/service/file_object.go, and the object cache of utils/cache.go).
pub mod Counting
pub mod Lookup
pub mod Creation
pub mod Removal
pub mod Shared
pub mod Last
use cloud_vault.Base.{
  Bool, Option, String, [], any, filter, find?, find_last?, if◌then◌else◌, ltb, none, not, some,
  str_eq, suc, update_where, zero, ℕ, ◌&&◌, ◌++◌, ◌+◌, ◌-◌, ◌==◌, ◌||◌, ◌∷◌,
}
use cloud_vault.Rows.{FileObject, UploadSession, duplicate_key, message}
use cloud_vault.World.{
  Env, M, World, attempt, err, fail, first, is_not_found, ok, pure, redis, redis_get, sql, stored,
  tick, unfinished, ◌>>=◌, ◌>>◌,
}

-- utils/cache.go: `SetFileObjectToCache`, `SetFileObjectIDByHash`, `SetFileObjectIDByPath`
abbrev pub put_object_cache : {S : Type 0} → ℕ → FileObject → World S → World S
put_object_cache id obj w = record w {
  object_cache = λ k. if k == id then some obj else w.object_cache k;
}

abbrev pub put_hash_cache : {S : Type 0} → String → ℕ → World S → World S
put_hash_cache hash id w = record w {
  hash_cache = λ k. if str_eq k hash then some id else w.hash_cache k;
}

abbrev pub put_path_cache : {S : Type 0} → String → String → ℕ → World S → World S
put_path_cache bucket object id w = record w {
  path_cache = λ b o. if str_eq b bucket && str_eq o object then some id else w.path_cache b o;
}

-- utils/cache.go: `InvalidateFileObjectCache`, `InvalidateFileObjectHashCache`,
-- `InvalidateFileObjectPathCache`
abbrev pub drop_object_cache : {S : Type 0} → ℕ → World S → World S
drop_object_cache id w = record w { object_cache = λ k. if k == id then none else w.object_cache k }

abbrev pub drop_hash_cache : {S : Type 0} → String → World S → World S
drop_hash_cache hash w = record w {
  hash_cache = λ k. if str_eq k hash then none else w.hash_cache k;
}

abbrev pub drop_path_cache : {S : Type 0} → String → String → World S → World S
drop_path_cache bucket object w = record w {
  path_cache = λ b o. if str_eq b bucket && str_eq o object then none else w.path_cache b o;
}

-- A cached id of 0 counts as a miss (`GetFileObjectIDByHash`, `GetFileObjectIDByPath`).
abbrev pub nonzero : Option ℕ → Option ℕ
nonzero none = none
nonzero (some zero) = none
nonzero (some (suc n)) = some (suc n)

abbrev pub add_reference : FileObject → FileObject
add_reference o = record o { ref_count = o.ref_count + 1 }

abbrev pub drop_reference : FileObject → FileObject
drop_reference o = record o { ref_count = o.ref_count - 1 }

module _ {S : Type 0} (env : Env S) where
  -- `cacheFileObject`
  unfoldable pub cache_file_object : FileObject → M S (Unit {0})
  cache_file_object obj = do
    redis env (put_object_cache obj.id obj)
    if str_eq obj.hash "" then pure tt else redis env (put_hash_cache obj.hash obj.id)
    if str_eq obj.bucket_name "" || str_eq obj.object_name ""
        then pure tt
        else redis env (put_path_cache obj.bucket_name obj.object_name obj.id)

  -- `DeleteMinioFile`
  unfoldable pub delete_minio_file : FileObject → M S (Unit {0})
  delete_minio_file obj =
      if env.store_ready
      then stored env (env.store.remove_object obj.bucket_name obj.object_name)
      else fail (message "storage not initialized")

  -- The insertion of a `file_object` row, whose hash is unique (model/file_object.go).
  unfoldable pub insert_object : FileObject → M S FileObject
  insert_object obj = sql env λ w.
      if any (λ o. env.same_text o.hash obj.hash) w.objects
      then (err duplicate_key, w)
      else (let row : FileObject = record obj { id = w.next_object } in
          (ok row, record w { objects = w.objects ++ row ∷ []; next_object = w.next_object + 1 }))

  -- `CreateFilesObject`
  unfoldable pub create_files_object : FileObject → M S FileObject
  unfolding cache_file_object insert_object
  create_files_object obj = do row ← insert_object obj; cache_file_object row; pure row

  -- `GetFileObjectById`
  unfoldable pub get_file_object_by_id : ℕ → M S FileObject
  unfolding cache_file_object
  get_file_object_by_id id = do
    cached ← redis_get env (λ w. w.object_cache id)
    obj ← elim cached [
      | some obj ↦ pure obj
      | none ↦ first env (λ w. find? (λ o. o.id == id) w.objects)
    ]
    cache_file_object obj
    pure obj

  -- The lookup in the table that ends `GetFileByObject` and `GetFileObjectByHash`.
  unfoldable pub first_object : (FileObject → Bool) → M S FileObject
  unfolding cache_file_object
  first_object test = do
    obj ← first env (λ w. find? test w.objects)
    cache_file_object obj
    pure obj

  -- What `GetFileByObject` and `GetFileObjectByHash` do with a cached id: a row that is gone from
  -- the database is dirty data, which is dropped from the cache before the table is read.
  unfoldable pub through_cache :
      Option ℕ → (World S → World S) → (FileObject → Bool) → M S FileObject
  unfolding get_file_object_by_id first_object
  through_cache none forget test = first_object test
  through_cache (some id) forget test = do
    found ← attempt (get_file_object_by_id id)
    elim found [
      | ok obj ↦ pure obj
      | err e ↦ if is_not_found e then redis env forget >> first_object test else fail e
      | unfinished ↦ first_object test
    ]

  -- `GetFileByObject`
  unfoldable pub get_file_by_object : String → String → M S FileObject
  unfolding through_cache
  get_file_by_object bucket object = do
    id ← redis_get env (λ w. nonzero (w.path_cache bucket object))
    through_cache id (drop_path_cache bucket object)
        (λ o. env.same_text o.bucket_name bucket && env.same_text o.object_name object)

  -- `GetFileObjectByHash`
  unfoldable pub get_file_object_by_hash : String → M S FileObject
  unfolding through_cache
  get_file_object_by_hash hash = do
    id ← redis_get env (λ w. nonzero (w.hash_cache hash))
    through_cache id (drop_hash_cache hash) (λ o. env.same_text o.hash hash)

  -- `IncreaseRefCount`: the update adds 1 in the database, on no row if the object is gone.
  unfoldable pub increase_ref_count : ℕ → M S (Unit {0})
  increase_ref_count id = do
    sql env
        λ w. (ok tt, record w { objects = update_where (λ o. o.id == id) add_reference w.objects })
    redis env (drop_object_cache id)

  -- `DecreaseRefCount`: the count that remains; the last reference is not taken off the row.
  unfoldable pub decrease_ref_count : ℕ → M S ℕ
  decrease_ref_count id = do
    obj ← first env (λ w. find? (λ o. o.id == id) w.objects)
    if ltb 1 obj.ref_count
        then (do
          sql env λ w. (
            ok tt,
            record w { objects = update_where (λ o. o.id == id) drop_reference w.objects },
          )
          redis env (drop_object_cache id)
          pure (obj.ref_count - 1))
        else pure 0

  -- `isFileObjectAvailable`
  unfoldable pub is_file_object_available : FileObject → M S Bool
  is_file_object_available obj =
      if env.store_ready
      then (λ w.
          let (found, s) = env.store.get_object obj.bucket_name obj.object_name w.store in
          (ok found, record (tick w) { store = s }))
      else fail (message "storage not initialized")

  -- The latest upload session of a user for a hash: `Order("id desc")`.
  abbrev pub latest_session : ℕ → String → World S → Option UploadSession
  latest_session user hash w =
      find_last? (λ s. env.same_text s.file_hash hash && s.user_id == user) w.sessions

  -- The end of `RemoveObject`: the chunks of the latest session for the object go too.
  unfoldable pub remove_chunks : FileObject → M S (Unit {0})
  remove_chunks obj = do
    session ← attempt (first env (latest_session obj.user_id obj.hash))
    elim session [
      | ok s ↦ sql env λ w. (
        ok tt,
        record w { chunks = filter (λ c. not (env.same_text c.upload_id s.upload_id)) w.chunks },
      )
      | err e ↦ pure tt
      | unfinished ↦ pure tt
    ]

  -- `RemoveObject`
  unfoldable pub remove_object : ℕ → M S (Unit {0})
  unfolding decrease_ref_count delete_minio_file remove_chunks
  remove_object id = do
    obj ← first env (λ w. find? (λ o. o.id == id) w.objects)
    remain ← decrease_ref_count id
    if ltb 0 remain then pure tt else (do
      delete_minio_file obj
      sql env λ w. (ok tt, record w { objects = filter (λ o. not (o.id == id)) w.objects })
      redis env (drop_object_cache id)
      redis env (drop_hash_cache obj.hash)
      redis env (drop_path_cache obj.bucket_name obj.object_name)
      remove_chunks obj)

  -- `Delete(&model.FileObject{}, id)`, with which an object is taken back
  abbrev pub delete_object_row : ℕ → M S (Unit {0})
  delete_object_row id =
      sql env λ w. (ok tt, record w { objects = filter (λ o. not (o.id == id)) w.objects })

  -- `FindObjectIdByName`
  unfoldable pub find_object_id_by_name : String → M S ℕ
  find_object_id_by_name name = do
    obj ← first env (λ w. find? (λ o. env.same_text o.object_name name) w.objects)
    pure obj.id
