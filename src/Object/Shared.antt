-- ===== src/Object/Shared.antt =====
-- An object that is shared stays where it is when one reference to it is given up.
use cloud_vault.Base.{ap, arith, find?, ltb, refl, some, ℕ, ◌-◌, ◌<◌, ◌==◌, ◌≡◌}
use cloud_vault.Object.{decrease_ref_count, remove_object}
use cloud_vault.Rows.{FileObject}
use cloud_vault.World.{Env, World}
use cloud_vault.World.Rules.{
  Always, Post, Post-bind, Post-first, Post-first_eq, Post-if_eq, Post-ok, Post-redis, Post-sql,
  Post-world,
}

module _ {S : Type 0} (env : Env S) (id : ℕ) (o : FileObject) (s : S) where
  -- The object is the row for its id, and the store is as it was.
  abbrev IsHeld : World S → Type 0
  IsHeld w = (find? (λ x. x.id == id) w.objects ≡ some o) × (w.store ≡ s)

  abbrev IsStored : World S → Type 0
  IsStored w = w.store ≡ s

  abbrev IsLeft : ℕ → World S → Type 0
  IsLeft n w = (0 < n) × (w.store ≡ s)

  decrease_ref_count-IsLeft :
      (w : World S)
      → 1 < o.ref_count
      → IsHeld w
      → Post IsLeft IsStored (decrease_ref_count env id w)
  unfolding decrease_ref_count
  decrease_ref_count-IsLeft w h held =
      Post-bind (λ obj v. (obj ≡ o) × (v.store ≡ s)) IsStored IsLeft _ _ w
        (Post-first_eq _ _ env _ w held.1 (λ obj e. (ground (arith, held.0), held.1)))
        (λ obj v p.
          Post-if_eq _ _ (ltb 1 obj.ref_count) _ _ v
            (λ many.
              Post-bind (Always IsStored) IsStored IsLeft _ _ v
                (Post-sql _ _ env _ v p.1 (Post-ok _ _ _ _ p.1))
                (λ _ u q.
                  Post-bind (Always IsStored) IsStored IsLeft _ _ u (Post-redis _ env _ _ u q q)
                    (λ _ t r. Post-ok IsLeft IsStored (obj.ref_count - 1) t (ground arith, r))))
            (λ few. absurd (ground (arith, ap (λ (x : FileObject). x.ref_count) p.0))))

  remove_object-IsStored :
      (w : World S)
      → 1 < o.ref_count
      → IsHeld w
      → Post (Always IsStored) IsStored (remove_object env id w)
  unfolding remove_object
  remove_object-IsStored w h held =
      Post-bind (Always IsHeld) IsStored (Always IsStored) _ _ w
        (Post-first _ _ env _ w held.1 (λ _. held))
        (λ obj v p.
          Post-bind IsLeft IsStored (Always IsStored) _ _ v (decrease_ref_count-IsLeft v h p)
            (λ remain u q.
              Post-if_eq _ _ (ltb 0 remain) _ _ u (λ _. Post-ok _ _ _ _ q.1)
                (λ none_left. absurd (ground (arith, q.0)))))

-- While a second reference to the object is counted, `RemoveObject` leaves the object store alone,
-- whichever of its calls fail.
pub remove_object-shared :
    {S : Type 0} (env : Env S) (id : ℕ) (o : FileObject) (w : World S)
    → find? (λ x. x.id == id) w.objects ≡ some o
    → 1 < o.ref_count
    → (remove_object env id w).1.store ≡ w.store
remove_object-shared env id o w e h =
    Post-world (IsStored env id o w.store) _ (remove_object-IsStored env id o w.store w h (e, refl))
