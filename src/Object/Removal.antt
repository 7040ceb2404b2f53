-- ===== src/Object/Removal.antt =====
-- Counting and uncounting a reference, whatever call fails.
use cloud_vault.Base.{String, filter, ltb, not, ℕ}
use cloud_vault.Object.{
  cache_file_object, decrease_ref_count, delete_minio_file, get_file_object_by_hash,
  increase_ref_count, remove_chunks, remove_object,
}
use cloud_vault.Object.Counting.{
  Covers-add_reference, Covers-drop_reference, Covers-filter, HasSpare, HasSpare-IsCounted,
  IsCounted, refs,
}
use cloud_vault.Object.Lookup.{cache_file_object-keeps, get_file_object_by_hash-keeps}
use cloud_vault.Rows.{FileObject}
use cloud_vault.World.{Env, M, World, err, ok, pure, redis, sql, tick, unfinished, ◌>>=◌}
use cloud_vault.World.Rules.{
  Always, Post, Post-attempt, Post-bind, Post-err, Post-first, Post-if, Post-ok, Post-redis,
  Post-sql, Post-stored, Tried,
}

module _ {S : Type 0} (env : Env S) where
  -- Once a reference has been counted it is in hand.
  pub increase_ref_count-HasSpare :
      (id : ℕ) (w : World S)
      → IsCounted w
      → Post (Always (HasSpare id)) IsCounted (increase_ref_count env id w)
  unfolding increase_ref_count
  increase_ref_count-HasSpare id w h =
      Post-bind (Always (HasSpare id)) IsCounted _ _ _ w
        (Post-sql _ _ env _ w h
          (Post-ok _ _ _ _ (Covers-add_reference id (λ i. refs i w.files) w.objects h)))
        (λ _ v p. Post-redis _ env _ _ v p p)

  -- A reference in hand can be given back.
  pub decrease_ref_count-IsCounted :
      (id : ℕ) (w : World S)
      → HasSpare id w
      → Post (Always IsCounted) IsCounted (decrease_ref_count env id w)
  unfolding decrease_ref_count
  decrease_ref_count-IsCounted id w h =
      Post-bind (Always (HasSpare id)) IsCounted _ _ _ w
        (Post-first _ _ env _ w (HasSpare-IsCounted id w h) (λ _. h))
        (λ obj v p.
          Post-if _ _ (ltb 1 obj.ref_count) _ _ v
            (Post-bind (Always IsCounted) IsCounted _ _ _ v
              (Post-sql _ _ env _ v (HasSpare-IsCounted id v p)
                (Post-ok _ _ _ _ (Covers-drop_reference id (λ i. refs i v.files) v.objects p)))
              (λ _ u q.
                Post-bind (Always IsCounted) IsCounted _ _ _ u (Post-redis _ env _ _ u q q)
                  (λ _ t r. Post-ok _ _ _ _ r)))
            (Post-ok _ _ _ _ (HasSpare-IsCounted id v p)))

  -- A step of the proofs below: a call that keeps the counts, and what follows it.
  pub keep_then :
      {A B : Type 0} (m : M S A) (f : A → M S B) (w : World S)
      → Post (Always IsCounted) IsCounted (m w)
      → ((a : A) (v : World S) → IsCounted v → Post (Always IsCounted) IsCounted (f a v))
      → Post (Always IsCounted) IsCounted ((m >>= f) w)
  keep_then m f w h k = Post-bind (Always IsCounted) IsCounted (Always IsCounted) m f w h k

  pub keep_redis :
      (f : World S → World S) (w : World S)
      → IsCounted (tick w)
      → IsCounted (f (tick w))
      → Post (Always IsCounted) IsCounted (redis env f w)
  keep_redis f w h k = Post-redis IsCounted env (Always IsCounted) f w h k

  pub cache_file_object-IsCounted :
      (obj : FileObject) (w : World S)
      → IsCounted w
      → Post (Always IsCounted) IsCounted (cache_file_object env obj w)
  cache_file_object-IsCounted = cache_file_object-keeps env IsCounted (λ _ _ _ _ _ h. h)

  pub get_file_object_by_hash-IsCounted :
      (hash : String) (w : World S)
      → IsCounted w
      → Post (Always IsCounted) IsCounted (get_file_object_by_hash env hash w)
  get_file_object_by_hash-IsCounted = get_file_object_by_hash-keeps env IsCounted (λ _ _ _ _ _ h. h)

  delete_minio_file-IsCounted :
      (obj : FileObject) (w : World S)
      → IsCounted w
      → Post (Always IsCounted) IsCounted (delete_minio_file env obj w)
  unfolding delete_minio_file
  delete_minio_file-IsCounted obj w h =
      Post-if _ _ env.store_ready _ _ w (Post-stored _ _ env _ w (λ _. h) (λ _. h))
        (Post-err _ _ _ _ h)

  remove_chunks-IsCounted :
      (obj : FileObject) (w : World S)
      → IsCounted w
      → Post (Always IsCounted) IsCounted (remove_chunks env obj w)
  unfolding remove_chunks
  remove_chunks-IsCounted obj w h =
      Post-bind (Tried (Always IsCounted) IsCounted) IsCounted (Always IsCounted) _ _ w
        (Post-attempt _ _ _ w (Post-first (Always IsCounted) _ env _ w h (λ _. h)))
        λ session v p.
          elim session
              as (λ s.
                Tried (Always IsCounted) IsCounted s v
                → Post (Always IsCounted) IsCounted (
                    (elim s as (λ _. M S (Unit {0})) [
                      | ok s ↦ sql env (λ u. (
                        ok tt,
                        record u {
                          chunks =
                              filter (λ c. not (env.same_text c.upload_id s.upload_id)) u.chunks;
                        },
                      ))
                      | err e ↦ pure tt
                      | unfinished ↦ pure tt
                    ])
                      v)) [
                        | ok s ↦ λ q. Post-sql _ _ env _ v q (Post-ok _ _ _ _ q)
                        | err e ↦ λ q. Post-ok _ _ _ _ q
                        | unfinished ↦ λ q. Post-ok _ _ _ _ q
                      ]
            p

  -- Giving up a reference, down to the removal of the object, keeps the counts of what is left.
  pub remove_object-IsCounted :
      (id : ℕ) (w : World S)
      → HasSpare id w
      → Post (Always IsCounted) IsCounted (remove_object env id w)
  unfolding remove_object
  remove_object-IsCounted id w h =
      Post-bind (Always (HasSpare id)) IsCounted _ _ _ w
        (Post-first _ _ env _ w (HasSpare-IsCounted id w h) (λ _. h))
        λ obj v p.
          Post-bind (Always IsCounted) IsCounted _ _ _ v (decrease_ref_count-IsCounted id v p)
            λ remain u q. Post-if _ _ (ltb 0 remain) _ _ u (Post-ok _ _ _ _ q) (
              keep_then _ _ u (delete_minio_file-IsCounted obj u q) λ _ t r.
                keep_then _ _ t
                  (Post-sql _ _ env _ t r
                    (Post-ok _ _ _ _ (Covers-filter (λ i. refs i t.files) _ t.objects r)))
                  λ _ s1 k1. keep_then _ _ s1 (keep_redis _ s1 k1 k1) λ _ s2 k2.
                    keep_then _ _ s2 (keep_redis _ s2 k2 k2) λ _ s3 k3.
                      keep_then _ _ s3 (keep_redis _ s3 k3 k3)
                        λ _ s4 k4. remove_chunks-IsCounted obj s4 k4)
