-- ===== src/World/Ends.antt =====
-- Calls that end: none is left unfinished for want of fuel.
use cloud_vault.Base.{Bool, Option, false, if◌then◌else◌, none, refl, some, true, ◌≡◌}
use cloud_vault.Rows.{Error, db_failure}
use cloud_vault.World.{
  Env, M, Result, World, err, ok, or_fail, redis, redis_get, sql, tick, unfinished, ◌>>=◌,
}
use cloud_vault.World.Rules.{Post}

-- A call that ends, with a predicate of its result.
unfoldable pub Ends : {S A : Type 0} → (A → World S → Type 0) → Result A × World S → Type 0
Ends P (ok a, w) = P a w
Ends P (err e, w) = Unit
Ends P (unfinished, w) = ⊥

module _ {S : Type 0} {A B : Type 0} (P : A → World S → Type 0) (Q : B → World S → Type 0) where
  Ends-cases :
      (f : A → M S B) (x : Result A × World S)
      → Ends P x
      → ((a : A) (v : World S) → P a v → Ends Q (f a v))
      → Ends Q (elim x.0 [ ok a ↦ f a x.1 | err e ↦ (err e, x.1) | unfinished ↦ (unfinished, x.1) ])
  unfolding Ends
  Ends-cases f (ok a, v) p k = k a v p
  Ends-cases f (err e, v) p k = tt
  Ends-cases f (unfinished, v) p k = elim p [ ]

  pub Ends-bind :
      (m : M S A) (f : A → M S B) (w : World S)
      → Ends P (m w)
      → ((a : A) (v : World S) → P a v → Ends Q (f a v))
      → Ends Q ((m >>= f) w)
  unfolding ◌>>=◌
  Ends-bind m f w h k = Ends-cases f (m w) h k

-- A call that ends has whatever postcondition is shown of it.
pub Ends-Post :
    {S A : Type 0} (P Q : A → World S → Type 0) (E : World S → Type 0) (x : Result A × World S)
    → Post P E x
    → Ends Q x
    → Ends P x
unfolding Ends Post
Ends-Post P Q E (ok a, w) p q = p
Ends-Post P Q E (err e, w) p q = tt
Ends-Post P Q E (unfinished, w) p q = q

pub Ends-if_eq :
    {S A : Type 0} (P : A → World S → Type 0) (b : Bool) (m n : M S A) (w : World S)
    → (b ≡ true → Ends P (m w))
    → (b ≡ false → Ends P (n w))
    → Ends P ((if b then m else n) w)
Ends-if_eq P true m n w h k = h refl
Ends-if_eq P false m n w h k = k refl

pub Ends-ok :
    {S A : Type 0} (P : A → World S → Type 0) (a : A) (w : World S) → P a w → Ends P (ok a, w)
unfolding Ends
Ends-ok P a w h = h

pub Ends-imply :
    {S A : Type 0} (P Q : A → World S → Type 0) (x : Result A × World S)
    → ((a : A) (w : World S) → P a w → Q a w)
    → Ends P x
    → Ends Q x
unfolding Ends
Ends-imply P Q (ok a, w) h p = h a w p
Ends-imply P Q (err e, w) h p = tt
Ends-imply P Q (unfinished, w) h p = p

-- A call that ends, with any result.
abbrev pub Returns : {S A : Type 0} → Result A × World S → Type 0
Returns x = Ends (λ _ _. Unit {0}) x

module _ {S : Type 0} where
  pub Returns-ok : {A : Type 0} (a : A) (w : World S) → Returns {S = S} (ok a, w)
  unfolding Ends
  Returns-ok a w = tt

  pub Returns-err : (A : Type 0) (e : Error) (w : World S) → Returns {S = S} {A = A} (err e, w)
  unfolding Ends
  Returns-err A e w = tt

  Returns-ite :
      {A : Type 0} (b : Bool) (x y : Result A × World S)
      → Returns x
      → Returns y
      → Returns (if b then x else y)
  Returns-ite true x y h k = h
  Returns-ite false x y h k = k

  pub Returns-or_fail :
      {A : Type 0} (o : Option A) (e : Error) (w : World S) → Returns (or_fail o e w)
  unfolding Ends
  Returns-or_fail none e w = tt
  Returns-or_fail (some a) e w = tt

  pub Returns-sql :
      {A : Type 0} (env : Env S) (q : M S A) (w : World S)
      → Returns (q (tick w))
      → Returns (sql env q w)
  unfolding sql
  Returns-sql env q w h =
      Returns-ite (env.db_fails w.calls) _ _ (Returns-err _ db_failure (tick w)) h

  pub Returns-redis : (env : Env S) (f : World S → World S) (w : World S) → Returns (redis env f w)
  unfolding Ends redis
  Returns-redis env f w = tt

  pub Returns-redis_get :
      {A : Type 0} (env : Env S) (read : World S → Option A) (w : World S)
      → Returns (redis_get env read w)
  unfolding Ends redis_get
  Returns-redis_get env read w = tt

  pub Returns-bind :
      {A B : Type 0} (m : M S A) (f : A → M S B) (w : World S)
      → Returns (m w)
      → ((a : A) (v : World S) → Returns (f a v))
      → Returns ((m >>= f) w)
  Returns-bind m f w h k = Ends-bind _ _ m f w h (λ a v _. k a v)
