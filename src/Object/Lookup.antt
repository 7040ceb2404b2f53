-- ===== src/Object/Lookup.antt =====
-- Looking an object up keeps whatever does not depend on the caches, and ends.
use cloud_vault.Base.{Bool, Option, String, find?, if◌then◌else◌, none, some, str_eq, ℕ, ◌==◌, ◌||◌}
use cloud_vault.Object.{
  cache_file_object, drop_hash_cache, first_object, get_file_object_by_hash, get_file_object_by_id,
  through_cache,
}
use cloud_vault.Rows.{FileObject, record_not_found}
use cloud_vault.World.{
  Env, M, Result, World, err, fail, first, is_not_found, ok, pure, redis, tick, unfinished, ◌>>=◌,
  ◌>>◌,
}
use cloud_vault.World.Ends.{
  Ends-if_eq, Returns, Returns-bind, Returns-ok, Returns-or_fail, Returns-redis, Returns-redis_get,
  Returns-sql,
}
use cloud_vault.World.Rules.{
  Always, Post, Post-attempt, Post-bind, Post-err, Post-first, Post-if, Post-ok, Post-redis,
  Post-redis_get, Tried,
}

module _ {S : Type 0} (env : Env S) (I : World S → Type 0)
    (quiet : (w : World S) (c : ℕ) (by_id : ℕ → Option FileObject) (by_hash : String → Option ℕ)
        (by_path : String → String → Option ℕ)
      → I w
      → I (record w {
        calls = c;
        object_cache = by_id;
        hash_cache = by_hash;
        path_cache = by_path;
      })) where
  later : (w : World S) → I w → I (tick w)
  later w h = quiet w _ _ _ _ h

  then_keep :
      {A B : Type 0} (m : M S A) (f : A → M S B) (w : World S)
      → Post (Always I) I (m w)
      → ((a : A) (v : World S) → I v → Post (Always I) I (f a v))
      → Post (Always I) I ((m >>= f) w)
  then_keep m f w h k = Post-bind (Always I) I (Always I) m f w h k

  keep_redis :
      (f : World S → World S) (w : World S)
      → I (tick w)
      → I (f (tick w))
      → Post (Always I) I (redis env f w)
  keep_redis f w h k = Post-redis I env (Always I) f w h k

  pub cache_file_object-keeps :
      (obj : FileObject) (w : World S) → I w → Post (Always I) I (cache_file_object env obj w)
  unfolding cache_file_object
  cache_file_object-keeps obj w h =
      then_keep _ _ w (keep_redis _ w (later w h) (quiet w _ _ _ _ h)) (λ _ v p.
        then_keep _ _ v
          (Post-if _ _ (str_eq obj.hash "") _ _ v (Post-ok _ _ _ _ p)
            (keep_redis _ v (later v p) (quiet v _ _ _ _ p)))
          (λ _ u q.
            Post-if _ _ (str_eq obj.bucket_name "" || str_eq obj.object_name "") _ _ u
              (Post-ok _ _ _ _ q) (keep_redis _ u (later u q) (quiet u _ _ _ _ q))))

  first_object-keeps :
      (test : FileObject → Bool) (w : World S) → I w → Post (Always I) I (first_object env test w)
  unfolding first_object
  first_object-keeps test w h =
      then_keep _ _ w (Post-first _ _ env _ w (later w h) (λ _. later w h))
        (λ obj v p. then_keep _ _ v (cache_file_object-keeps obj v p) (λ _ u q. Post-ok _ _ _ _ q))

  pub get_file_object_by_id-keeps :
      (id : ℕ) (w : World S) → I w → Post (Always I) I (get_file_object_by_id env id w)
  unfolding get_file_object_by_id
  get_file_object_by_id-keeps id w h =
      Post-bind (Always I) I _ _ _ w (Post-redis_get _ env _ _ w (λ _. later w h)) λ cached v p.
        then_keep _ _ v (source cached v p) (λ obj u q.
          then_keep _ _ u (cache_file_object-keeps obj u q) (λ _ t r. Post-ok _ _ _ _ r))
    where
      source :
          (cached : Option FileObject) (v : World S)
          → I v
          → Post (Always I) I (
              (elim cached as (λ _. M S FileObject) [
                | some obj ↦ pure obj
                | none ↦ first env (λ u. find? (λ o. o.id == id) u.objects)
              ])
                v)
      source none v p = Post-first _ _ env _ v (later v p) (λ _. later v p)
      source (some obj) v p = Post-ok _ _ _ _ p

  through_cache-keeps :
      (id : Option ℕ) (forget : World S → World S) (test : FileObject → Bool) (w : World S)
      → ((v : World S) → I v → I (forget (tick v)))
      → I w
      → Post (Always I) I (through_cache env id forget test w)
  unfolding through_cache
  through_cache-keeps none forget test w forgets h = first_object-keeps test w h
  through_cache-keeps (some id) forget test w forgets h =
      Post-bind (Tried (Always I) I) I (Always I) _ _ w
        (Post-attempt _ _ _ w (get_file_object_by_id-keeps id w h)) settle
    where
      settle :
          (found : Result FileObject) (v : World S)
          → Tried (Always I) I found v
          → Post (Always I) I (
              (elim found as (λ _. M S FileObject) [
                | ok obj ↦ pure obj
                | err e ↦
                    if is_not_found e then redis env forget >> first_object env test else fail e
                | unfinished ↦ first_object env test
              ])
                v)
      settle (ok obj) v p = Post-ok _ _ _ _ p
      settle (err e) v p =
          Post-if _ _ (is_not_found e) _ _ v
            (then_keep _ _ v (keep_redis _ v (later v p) (forgets v p))
              (λ _ u q. first_object-keeps test u q))
            (Post-err _ _ e v p)
      settle unfinished v p = first_object-keeps test v p

  pub get_file_object_by_hash-keeps :
      (hash : String) (w : World S) → I w → Post (Always I) I (get_file_object_by_hash env hash w)
  unfolding get_file_object_by_hash
  get_file_object_by_hash-keeps hash w h =
      Post-bind (Always I) I _ _ _ w (Post-redis_get _ env _ _ w (λ _. later w h))
        (λ id v p. through_cache-keeps id (drop_hash_cache hash) _ v (λ u q. quiet u _ _ _ _ q) p)

-- Looking an object up by its id ends.
module _ {S : Type 0} (env : Env S) where
  cache_file_object-Returns : (o : FileObject) (w : World S) → Returns (cache_file_object env o w)
  unfolding cache_file_object
  cache_file_object-Returns o w = Returns-bind _ _ w (Returns-redis env _ w) (λ _ v.
      Returns-bind _ _ v
        (Ends-if_eq _ (str_eq o.hash "") _ _ v (λ _. Returns-ok _ v) (λ _. Returns-redis env _ v))
        (λ _ u.
          Ends-if_eq _ (str_eq o.bucket_name "" || str_eq o.object_name "") _ _ u
            (λ _. Returns-ok _ u) (λ _. Returns-redis env _ u)))

  pub get_file_object_by_id-Returns :
      (id : ℕ) (w : World S) → Returns (get_file_object_by_id env id w)
  unfolding get_file_object_by_id
  get_file_object_by_id-Returns id w = Returns-bind _ _ w (Returns-redis_get env _ w) (λ cached v.
      Returns-bind _ _ v (source cached v)
        (λ o u. Returns-bind _ _ u (cache_file_object-Returns o u) (λ _ t. Returns-ok _ t)))
    where
      source :
          (cached : Option FileObject) (v : World S)
          → Returns (
              (elim cached as (λ _. M S FileObject) [
                | some obj ↦ pure obj
                | none ↦ first env (λ u. find? (λ o. o.id == id) u.objects)
              ])
                v)
      source (some obj) v = Returns-ok obj v
      source none v = Returns-sql env _ v (Returns-or_fail _ record_not_found (tick v))
