-- ===== src/World/Rules.antt =====
-- Postconditions of calls in `M`: one predicate for a result, one for the world after an error, and
-- a rule for each way in which the services are put together.
use cloud_vault.Base.{Bool, Option, false, if◌then◌else◌, none, refl, some, true, ◌≡◌}
use cloud_vault.Rows.{Error, db_failure, record_not_found, store_failure}
use cloud_vault.World.{
  Env, M, Result, World, attempt, err, first, ok, or_fail, redis, redis_get, sql, stored, tick,
  unfinished, ◌>>=◌,
}

unfoldable pub Post :
    {S A : Type 0} → (A → World S → Type 0) → (World S → Type 0) → Result A × World S → Type 0
Post P E (ok a, w) = P a w
Post P E (err e, w) = E w
Post P E (unfinished, w) = E w

module _ {S : Type 0} where
  -- What an attempt hands on.
  abbrev pub Tried :
      {A : Type 0} → (A → World S → Type 0) → (World S → Type 0) → Result A → World S → Type 0
  Tried P E (ok a) w = P a w
  Tried P E (err e) w = E w
  Tried P E unfinished w = E w

  -- A predicate of the world alone.
  abbrev pub Always : {A : Type 0} → (World S → Type 0) → A → World S → Type 0
  Always I a w = I w

module _ {S : Type 0} {A : Type 0} (P : A → World S → Type 0) (E : World S → Type 0) where
  pub Post-ok : (a : A) (w : World S) → P a w → Post P E (ok a, w)
  unfolding Post
  Post-ok a w h = h

  pub Post-err : (e : Error) (w : World S) → E w → Post P E (err e, w)
  unfolding Post
  Post-err e w h = h

  pub Post-unfinished : (w : World S) → E w → Post P E (unfinished, w)
  unfolding Post
  Post-unfinished w h = h

  -- A weaker predicate of the world after an error.
  pub Post-weaken :
      (E' : World S → Type 0) (x : Result A × World S)
      → ((w : World S) → E w → E' w)
      → Post P E x
      → Post P E' x
  unfolding Post
  Post-weaken E' (ok a, w) h p = p
  Post-weaken E' (err e, w) h p = h w p
  Post-weaken E' (unfinished, w) h p = h w p

  -- A weaker predicate of the result.
  pub Post-imply :
      (Q : A → World S → Type 0) (x : Result A × World S)
      → ((a : A) (w : World S) → P a w → Q a w)
      → Post P E x
      → Post Q E x
  unfolding Post
  Post-imply Q (ok a, w) h p = h a w p
  Post-imply Q (err e, w) h p = p
  Post-imply Q (unfinished, w) h p = p

  bind_cases :
      {B : Type 0} (Q : B → World S → Type 0) (f : A → M S B) (x : Result A × World S)
      → Post P E x
      → ((a : A) (v : World S) → P a v → Post Q E (f a v))
      → Post Q E
          (elim x.0 [ ok a ↦ f a x.1 | err e ↦ (err e, x.1) | unfinished ↦ (unfinished, x.1) ])
  unfolding Post
  bind_cases Q f (ok a, v) p k = k a v p
  bind_cases Q f (err e, v) p k = p
  bind_cases Q f (unfinished, v) p k = p

  pub Post-bind :
      {B : Type 0} (Q : B → World S → Type 0) (m : M S A) (f : A → M S B) (w : World S)
      → Post P E (m w)
      → ((a : A) (v : World S) → P a v → Post Q E (f a v))
      → Post Q E ((m >>= f) w)
  unfolding ◌>>=◌
  Post-bind Q m f w h k = bind_cases Q f (m w) h k

  attempt_cases :
      (x : Result A × World S)
      → Post P E x
      → Post (Tried P E) E (elim x.0 [
        | ok a ↦ (ok (ok a), x.1)
        | err e ↦ (ok (err e), x.1)
        | unfinished ↦ (unfinished, x.1)
      ])
  unfolding Post
  attempt_cases (ok a, v) p = p
  attempt_cases (err e, v) p = p
  attempt_cases (unfinished, v) p = p

  pub Post-attempt : (m : M S A) (w : World S) → Post P E (m w) → Post (Tried P E) E (attempt m w)
  unfolding attempt
  Post-attempt m w h = attempt_cases (m w) h

  -- The two branches of a test.
  pub Post-if :
      (b : Bool) (m n : M S A) (w : World S)
      → Post P E (m w)
      → Post P E (n w)
      → Post P E ((if b then m else n) w)
  Post-if true m n w h k = h
  Post-if false m n w h k = k

  pub Post-ite :
      (b : Bool) (x y : Result A × World S)
      → Post P E x
      → Post P E y
      → Post P E (if b then x else y)
  Post-ite true x y h k = h
  Post-ite false x y h k = k

  pub Post-or_fail :
      (o : Option A) (e : Error) (w : World S) → E w → ((a : A) → P a w) → Post P E (or_fail o e w)
  unfolding Post
  Post-or_fail none e w h k = h
  Post-or_fail (some a) e w h k = k a

  pub Post-sql :
      (env : Env S) (q : M S A) (w : World S)
      → E (tick w)
      → Post P E (q (tick w))
      → Post P E (sql env q w)
  unfolding sql
  Post-sql env q w h k =
      Post-ite (env.db_fails w.calls) (err db_failure, tick w) (q (tick w))
        (Post-err db_failure (tick w) h) k

  pub Post-first :
      (env : Env S) (row : World S → Option A) (w : World S)
      → E (tick w)
      → ((a : A) → P a (tick w))
      → Post P E (first env row w)
  Post-first env row w h k =
      Post-sql env (λ v. or_fail (row v) record_not_found v) w h
        (Post-or_fail (row (tick w)) record_not_found (tick w) h k)

  -- The same rules, with what the test or the row was.
  pub Post-if_eq :
      (b : Bool) (m n : M S A) (w : World S)
      → (b ≡ true → Post P E (m w))
      → (b ≡ false → Post P E (n w))
      → Post P E ((if b then m else n) w)
  Post-if_eq true m n w h k = h refl
  Post-if_eq false m n w h k = k refl

  or_fail_eq :
      (o : Option A) (e : Error) (w : World S)
      → E w
      → ((a : A) → o ≡ some a → P a w)
      → Post P E (or_fail o e w)
  unfolding Post
  or_fail_eq none e w h k = h
  or_fail_eq (some a) e w h k = k a refl

  pub Post-first_eq :
      (env : Env S) (row : World S → Option A) (w : World S)
      → E (tick w)
      → ((a : A) → row (tick w) ≡ some a → P a (tick w))
      → Post P E (first env row w)
  Post-first_eq env row w h k =
      Post-sql env (λ v. or_fail (row v) record_not_found v) w h
        (or_fail_eq (row (tick w)) record_not_found (tick w) h k)

module _ {S : Type 0} (P : Unit {0} → World S → Type 0) (E : World S → Type 0) (env : Env S) where
  stored_cases :
      (b : Bool) (w : World S) → P tt w → E w → Post P E (if b then ok tt else err store_failure, w)
  unfolding Post
  stored_cases true w h k = h
  stored_cases false w h k = k

  pub Post-stored :
      (call : S → Bool × S) (w : World S)
      → ((s : S) → P tt (record (tick w) { store = s }))
      → ((s : S) → E (record (tick w) { store = s }))
      → Post P E (stored env call w)
  unfolding stored
  Post-stored call w h k =
      let (b, s) = call w.store in stored_cases b (record (tick w) { store = s }) (h s) (k s)

module _ {S : Type 0} (E : World S → Type 0) (env : Env S) where
  redis_cases :
      (P : Unit {0} → World S → Type 0) (b : Bool) (v w : World S)
      → P tt v
      → P tt w
      → Post P E (ok tt, if b then v else w)
  unfolding Post
  redis_cases P true v w h k = h
  redis_cases P false v w h k = k

  pub Post-redis :
      (P : Unit {0} → World S → Type 0) (f : World S → World S) (w : World S)
      → P tt (tick w)
      → P tt (f (tick w))
      → Post P E (redis env f w)
  unfolding redis
  Post-redis P f w h k = redis_cases P (env.redis_fails w.calls) (tick w) (f (tick w)) h k

  pub Post-redis_get :
      {A : Type 0} (P : Option A → World S → Type 0) (read : World S → Option A) (w : World S)
      → ((o : Option A) → P o (tick w))
      → Post P E (redis_get env read w)
  unfolding redis_get Post
  Post-redis_get P read w k = k (if env.redis_fails w.calls then none else read w)

  -- The same rule, with what was read.
  pub Post-redis_get_eq :
      {A : Type 0} (P : Option A → World S → Type 0) (read : World S → Option A) (w : World S)
      → P none (tick w)
      → ((a : A) → read w ≡ some a → P (some a) (tick w))
      → Post P E (redis_get env read w)
  unfolding redis_get Post
  Post-redis_get_eq {A = A} P read w h k = answered (env.redis_fails w.calls) (read w) k
    where
      answered :
          (lost : Bool) (o : Option A)
          → ((a : A) → o ≡ some a → P (some a) (tick w))
          → P (if lost then none else o) (tick w)
      answered true o f = h
      answered false none f = h
      answered false (some a) f = f a refl

-- A predicate that holds after a call and after an error holds of the world that is left.
pub Post-world :
    {S A : Type 0} (I : World S → Type 0) (x : Result A × World S) → Post (Always I) I x → I x.1
unfolding Post
Post-world I (ok a, w) h = h
Post-world I (err e, w) h = h
Post-world I (unfinished, w) h = h

-- Nothing is asked of a call.
pub always_tt : {S A : Type 0} (x : Result A × World S) → Post (λ _ _. Unit {0}) (λ _. Unit {0}) x
unfolding Post
always_tt (ok a, w) = tt
always_tt (err e, w) = tt
always_tt (unfinished, w) = tt
