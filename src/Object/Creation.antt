-- ===== src/Object/Creation.antt =====
-- A new object counts the one reference that its creator is about to hand out.
use cloud_vault.Base.{
  Bool, Bool-cases, List, [], any, arith, if◌then◌else◌, inl, inr, str_eq, update_where, ℕ, ◌++◌,
  ◌+◌, ◌==◌, ◌||◌, ◌∷◌, ◌≡◌, ◌≢◌, ◌≤◌,
}
use cloud_vault.Object.{cache_file_object, create_files_object, delete_object_row, insert_object}
use cloud_vault.Object.Counting.{Covers, Covers-filter, HasSpare, IsCounted, refs}
use cloud_vault.Rows.{FileObject}
use cloud_vault.World.{Env, M, Result, World, err, ignore, ok, unfinished}
use cloud_vault.World.Rules.{
  Always, Post, Post-attempt, Post-bind, Post-err, Post-if, Post-ite, Post-ok, Post-redis, Post-sql,
  Tried,
}

abbrev pub Unused : ℕ → List FileObject → Type 0
Unused n [] = Unit
Unused n (o ∷ os) = (o.id ≢ n) × Unused n os

-- Nothing refers yet to the key that MySQL gives next.
abbrev pub IsFresh : {S : Type 0} → World S → Type 0
IsFresh w = (refs w.next_object w.files ≡ 0) × Unused w.next_object w.objects

-- The counts hold, and the next key is fresh.
abbrev pub IsReady : {S : Type 0} → World S → Type 0
IsReady w = IsCounted w × IsFresh w

Covers-new :
    (need : ℕ → ℕ) (row : FileObject) (os : List FileObject)
    → need row.id ≡ 0
    → 1 ≤ row.ref_count
    → Unused row.id os
    → Covers need os
    → Covers (λ i. need i + (if i == row.id then 1 else 0)) (os ++ row ∷ [])
Covers-new need row [] e h u c = ground arith
Covers-new need row (o ∷ os) e h u c = ground (arith, Covers-new need row os e h u.1 c.1)

pub Covers-update :
    (need : ℕ → ℕ) (p : FileObject → Bool) (f : FileObject → FileObject) (os : List FileObject)
    → ((o : FileObject) → ((f o).id ≡ o.id) × ((f o).ref_count ≡ o.ref_count))
    → Covers need os
    → Covers need (update_where p f os)
Covers-update need p f [] h c = tt
Covers-update need p f (o ∷ os) h c = elim (Bool-cases (p o)) [
  | inl b ↦ rw (b, (h o).0, (h o).1) (c.0, Covers-update need p f os h c.1)
  | inr b ↦ rw b (c.0, Covers-update need p f os h c.1)
]

module _ {S : Type 0} (env : Env S) where
  insert_object-HasSpare :
      (obj : FileObject) (w : World S)
      → obj.ref_count ≡ 1
      → IsReady w
      → Post (λ row v. HasSpare row.id v) IsCounted (insert_object env obj w)
  unfolding insert_object
  insert_object-HasSpare obj w e h = Post-sql _ _ env _ w h.0 (
      Post-ite _ _ (any (λ o. env.same_text o.hash obj.hash) w.objects) _ _ (Post-err _ _ _ _ h.0) (
        Post-ok _ _ _ _ (
          Covers-new (λ i. refs i w.files) (record obj { id = w.next_object }) w.objects h.1.0
            (omega (arith, e)) h.1.1 h.0)))

  cache_file_object-HasSpare :
      (id : ℕ) (obj : FileObject) (w : World S)
      → HasSpare id w
      → Post (Always (HasSpare id)) IsCounted (cache_file_object env obj w)
  unfolding cache_file_object
  cache_file_object-HasSpare id obj w h =
      Post-bind (Always (HasSpare id)) IsCounted (Always (HasSpare id)) _ _ w
        (Post-redis _ env _ _ w h h)
        (λ _ v p.
          Post-bind (Always (HasSpare id)) IsCounted (Always (HasSpare id)) _ _ v
            (Post-if _ _ (str_eq obj.hash "") _ _ v (Post-ok _ _ _ _ p)
              (Post-redis _ env _ _ v p p))
            (λ _ u q.
              Post-if _ _ (str_eq obj.bucket_name "" || str_eq obj.object_name "") _ _ u
                (Post-ok _ _ _ _ q) (Post-redis _ env _ _ u q q)))

  -- A created object has its reference in hand.
  pub create_files_object-HasSpare :
      (obj : FileObject) (w : World S)
      → obj.ref_count ≡ 1
      → IsReady w
      → Post (λ row v. HasSpare row.id v) IsCounted (create_files_object env obj w)
  unfolding create_files_object
  create_files_object-HasSpare obj w e h =
      Post-bind (λ row v. HasSpare row.id v) IsCounted _ _ _ w (insert_object-HasSpare obj w e h)
        (λ row v p.
          Post-bind (Always (HasSpare row.id)) IsCounted _ _ _ v
            (cache_file_object-HasSpare row.id row v p) (λ _ u q. Post-ok _ _ _ _ q))

  -- A call whose error is dropped, and a row that is taken back
  pub ignore-IsCounted :
      {A : Type 0} (m : M S A) (w : World S)
      → Post (Always IsCounted) IsCounted (m w)
      → Post (Always IsCounted) IsCounted (ignore m w)
  ignore-IsCounted m w h =
      Post-bind (Tried (Always IsCounted) IsCounted) IsCounted (Always IsCounted) _ _ w
        (Post-attempt _ _ _ w h) after
    where
      after :
          {A : Type 0} (r : Result A) (v : World S)
          → Tried (Always IsCounted) IsCounted r v
          → Post {A = Unit} (Always IsCounted) IsCounted (ok tt, v)
      after (ok _) v q = Post-ok _ _ _ _ q
      after (err _) v q = Post-ok _ _ _ _ q
      after unfinished v q = Post-ok _ _ _ _ q

  pub delete_object_row-IsCounted :
      (id : ℕ) (w : World S)
      → IsCounted w
      → Post (Always IsCounted) IsCounted (delete_object_row env id w)
  delete_object_row-IsCounted id w h =
      Post-sql _ _ env _ w h (Post-ok _ _ _ _ (Covers-filter (λ i. refs i w.files) _ w.objects h))
