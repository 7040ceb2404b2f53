-- ===== src/Transfer/Limit.antt =====
-- What a download from a URL writes is within the limit.
use cloud_vault.Base.{Bool, Option, String, ◌≡◌, ◌⊎◌}
use cloud_vault.Base.Int.{pos, ℤ, ◌≤ℤ◌}
use cloud_vault.Base.Text.{Text}
use cloud_vault.Source.{Net, SourceConfig, Url}
use cloud_vault.Transfer.{Response}
use cloud_vault.World.{Env, World, ◌>>◌}

module _ {S : Type 0} (env : Env S) (w : World S) where
  -- The store of `w`
  abbrev Same : World S → Type 0
  Same v = v.store ≡ w.store

  module _ (net : Net) (config : SourceConfig) (max_bytes : ℤ)
      (fetch : (Text → Bool) → Url → Option Response)
      (build_object_name : String → String → String) where
    -- A size that is known, and that the limit allows, if there is a limit
    abbrev pub IsWithinLimit : ℤ → Type 0
    IsWithinLimit size = (pos 0 ≤ℤ size) × ((max_bytes ≤ℤ pos 0) ⊎ (size ≤ℤ max_bytes))

    -- The store after one write, of an object of a size
    abbrev pub IsWritten : ℤ → World S → Type 0
    IsWritten size v =
        (object : String) × (v.store ≡ (env.store.put_object env.bucket object size w.store).1)

    -- After an error the store is as it was, or one write of an allowed size was tried.
    abbrev pub IsBounded : World S → Type 0
    IsBounded v = (v.store ≡ w.store) ⊎ (size : ℤ) × IsWithinLimit size × IsWritten size v
