-- ===== src/World/Runs.antt =====
-- Calls in `M` that succeed, step by step.
use cloud_vault.Base.{Option, ap, false, none, refl, some, ◌∙◌, ◌≡◌}
use cloud_vault.Rows.{Error, record_not_found}
use cloud_vault.World.{
  Env, M, Result, World, attempt, err, first, ok, redis, redis_get, redis_try, sql, tick,
  unfinished, ◌>>=◌,
}

module _ {S A : Type 0} where
  pub bind_ok :
      {B : Type 0} (m : M S A) (f : A → M S B) (w : World S) (a : A) (v : World S)
      → m w ≡ (ok a, v)
      → (m >>= f) w ≡ f a v
  unfolding ◌>>=◌
  bind_ok {B} m f w a v h =
      ap
        (λ (x : Result A × World S).
          let out : Result B × World S = elim x.0 [
            | ok b ↦ f b x.1
            | err e ↦ (err e, x.1)
            | unfinished ↦ (unfinished, x.1)
          ] in
          out)
        h

  pub bind_err :
      {B : Type 0} (m : M S A) (f : A → M S B) (w : World S) (e : Error) (v : World S)
      → m w ≡ (err e, v)
      → (m >>= f) w ≡ (err e, v)
  unfolding ◌>>=◌
  bind_err {B} m f w e v h =
      ap
        (λ (x : Result A × World S).
          let out : Result B × World S = elim x.0 [
            | ok b ↦ f b x.1
            | err e' ↦ (err e', x.1)
            | unfinished ↦ (unfinished, x.1)
          ] in
          out)
        h

  pub attempt_ok :
      (m : M S A) (w : World S) (a : A) (v : World S)
      → m w ≡ (ok a, v)
      → attempt m w ≡ (ok (ok a), v)
  unfolding attempt
  attempt_ok m w a v h =
      ap
        (λ (x : Result A × World S).
          let out : Result (Result A) × World S = elim x.0 [
            | ok b ↦ (ok (ok b), x.1)
            | err e ↦ (ok (err e), x.1)
            | unfinished ↦ (unfinished, x.1)
          ] in
          out)
        h

  pub attempt_err :
      (m : M S A) (w : World S) (e : Error) (v : World S)
      → m w ≡ (err e, v)
      → attempt m w ≡ (ok (err e), v)
  unfolding attempt
  attempt_err m w e v h =
      ap
        (λ (x : Result A × World S).
          let out : Result (Result A) × World S = elim x.0 [
            | ok b ↦ (ok (ok b), x.1)
            | err e ↦ (ok (err e), x.1)
            | unfinished ↦ (unfinished, x.1)
          ] in
          out)
        h

  pub sql_up :
      (env : Env S) (q : M S A) (w : World S)
      → env.db_fails w.calls ≡ false
      → sql env q w ≡ q (tick w)
  unfolding sql
  sql_up env q w h = rw h refl

  pub first_found :
      (env : Env S) (row : World S → Option A) (w : World S) (a : A)
      → env.db_fails w.calls ≡ false
      → row (tick w) ≡ some a
      → first env row w ≡ (ok a, tick w)
  first_found env row w a h e = sql_up env _ w h ∙ rw e refl

  pub first_missing :
      (env : Env S) (row : World S → Option A) (w : World S)
      → env.db_fails w.calls ≡ false
      → row (tick w) ≡ none
      → first env row w ≡ (err record_not_found, tick w)
  first_missing env row w h e = sql_up env _ w h ∙ rw e refl

  pub redis_get_up :
      (env : Env S) (read : World S → Option A) (w : World S) (o : Option A)
      → env.redis_fails w.calls ≡ false
      → read w ≡ o
      → redis_get env read w ≡ (ok o, tick w)
  unfolding redis_get
  redis_get_up env read w o h e = rw (h, e) refl

module _ {S : Type 0} (env : Env S) (f : World S → World S) (w : World S)
    (up : env.redis_fails w.calls ≡ false) where
  pub redis_done : redis env f w ≡ (ok tt, f (tick w))
  unfolding redis
  redis_done = rw up refl

  pub redis_try_done : redis_try env f w ≡ (ok tt, f (tick w))
  unfolding redis_try
  redis_try_done = rw up refl
