-- ===== src/Tests/Sources.antt =====
-- The check of a download source at a concrete input.
use cloud_vault.Base.{[], false, none, refl, some, ◌∷◌}
use cloud_vault.Base.Text.{codes, is_space}
use cloud_vault.Source.{
  Net, SourceConfig, check_address, check_lookup, check_url, host_allowed, is_blocked_ip,
  is_local_hostname, v4, validate_download_url,
}
use cloud_vault.Source.Safety.{IsSafe, validate_download_url-IsSafe}

abbrev pub resolver : Net
resolver = record {
  parse_url = λ s. some (record { scheme = codes "https"; hostname = codes "cdn.example.org" });
  parse_ip = λ s. none;
  -- 93.184.216.34
  lookup_ip = λ s. some (some (v4 1572395042) ∷ []);
}

abbrev pub source_config : SourceConfig
source_config = record {
  download_allowed_hosts = codes " .Example.org" ∷ [];
  download_allow_private = false;
}

validate_download_url-IsSafe_example :
    IsSafe resolver source_config
      (record { scheme = codes "https"; hostname = codes "cdn.example.org" })
unfolding validate_download_url check_url host_allowed is_local_hostname check_address check_lookup
    is_blocked_ip is_space
validate_download_url-IsSafe_example =
    validate_download_url-IsSafe resolver source_config (codes "https://cdn.example.org/a")
      (record { scheme = codes "https"; hostname = codes "cdn.example.org" }) refl
