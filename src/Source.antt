-- ===== src/Source.antt =====
-- The check of a download source: internal/service/minio.go, from `hostAllowed` to
-- `ValidateDownloadSourceURL`. Parsing a URL, parsing an address and looking up a host are Go's net
-- packages: `Net` has what they answer. The classes of addresses are written out as package net
-- documents them.
pub mod Safety
use cloud_vault.Base.{
  Bool, List, Option, [], any, false, if◌then◌else◌, inl, inr, none, not, some, true, ℕ, ◌%◌, ◌&&◌,
  ◌/◌, ◌==◌, ◌^◌, ◌||◌, ◌∷◌, ◌⊎◌,
}
use cloud_vault.Base.Text.{Text, codes, has_suffix, text_eq, to_lower, trim_space}

pub record Url : Type 0 where
  pub scheme : Text
  -- `u.Hostname()`
  pub hostname : Text

-- net.IP, with an IPv4 address in either of its forms as one number of 32 bits and any other
-- IPv6 address as one of 128.
pub data Ip : Type 0 where
  v4 : ℕ → Ip
  v6 : ℕ → Ip

pub record Net : Type 0 where
  -- `url.Parse`
  pub parse_url : Text → Option Url
  -- `net.ParseIP`
  pub parse_ip : Text → Option Ip
  -- `net.LookupIP`: `none` is an error, and an address may be nil.
  pub lookup_ip : Text → Option (List (Option Ip))

-- The part of config.AppConfig that the check reads
pub record SourceConfig : Type 0 where
  pub download_allowed_hosts : List Text
  pub download_allow_private : Bool

-- The errors, by their texts
pub data Refusal : Type 0 where
  invalid_url unsupported_scheme missing_host host_not_allowed : Refusal
  ip_not_allowed host_not_resolvable : Refusal

abbrev pub normal : Text → Text
normal s = to_lower (trim_space s)

unfoldable pub entry_allows : Text → Text → Bool
entry_allows host [] = false
entry_allows host (c ∷ entry) =
    if c == 46 then has_suffix host (c ∷ entry) else text_eq host (c ∷ entry)

-- `hostAllowed`
unfoldable pub host_allowed : Text → List Text → Bool
unfolding entry_allows
host_allowed host [] = true
host_allowed host (e ∷ es) = any (λ entry. entry_allows (normal host) (normal entry)) (e ∷ es)

-- `isLocalHostname`
unfoldable pub is_local_hostname : Text → Bool
is_local_hostname host =
    text_eq (normal host) (codes "localhost")
    || text_eq (normal host) (codes "localhost.localdomain")
    || has_suffix (normal host) (codes ".local")

unfoldable pub is_loopback : Ip → Bool
is_loopback (v4 n) = n / 16777216 == 127
is_loopback (v6 n) = n == 1

unfoldable pub is_multicast : Ip → Bool
is_multicast (v4 n) = n / 268435456 == 14
is_multicast (v6 n) = n / 2 ^ 120 == 255

unfoldable pub is_link_local_multicast : Ip → Bool
is_link_local_multicast (v4 n) = n / 256 == 14680064
is_link_local_multicast (v6 n) = n / 2 ^ 120 == 255 && n / 2 ^ 112 % 16 == 2

unfoldable pub is_link_local_unicast : Ip → Bool
is_link_local_unicast (v4 n) = n / 65536 == 43518
is_link_local_unicast (v6 n) = n / 2 ^ 118 == 1018

unfoldable pub is_unspecified : Ip → Bool
is_unspecified (v4 n) = n == 0
is_unspecified (v6 n) = n == 0

unfoldable pub is_private : Ip → Bool
is_private (v4 n) = n / 16777216 == 10 || n / 1048576 == 2753 || n / 65536 == 49320
is_private (v6 n) = n / 2 ^ 121 == 126

-- `isBlockedIP`; `none` is nil.
unfoldable pub is_blocked_ip : Option Ip → Bool
unfolding is_loopback is_multicast is_link_local_multicast is_link_local_unicast is_unspecified
    is_private
is_blocked_ip none = true
is_blocked_ip (some ip) =
    (is_loopback ip
      || is_multicast ip
      || is_link_local_multicast ip
      || is_link_local_unicast ip
      || is_unspecified ip)
    || is_private ip

abbrev pub Checked : Type 0
Checked = Refusal ⊎ Url

-- The end of `validateDownloadURL`, with the outcome of the lookup
unfoldable pub check_lookup : Url → Option (List (Option Ip)) → Checked
check_lookup u none = inl host_not_resolvable
check_lookup u (some []) = inl host_not_resolvable
check_lookup u (some (ip ∷ ips)) =
    if any is_blocked_ip (ip ∷ ips) then inl ip_not_allowed else inr u

unfoldable pub check_address : Net → Url → Option Ip → Checked
check_address net u (some ip) = if is_blocked_ip (some ip) then inl ip_not_allowed else inr u
check_address net u none = check_lookup u (net.lookup_ip u.hostname)

unfoldable pub check_url : Net → SourceConfig → Option Url → Checked
check_url net config none = inl invalid_url
check_url net config (some u) =
    if not (text_eq u.scheme (codes "http")) && not (text_eq u.scheme (codes "https"))
    then inl unsupported_scheme
    else (if text_eq u.hostname []
        then inl missing_host
        else (if not (host_allowed u.hostname config.download_allowed_hosts)
            then inl host_not_allowed
            else (if config.download_allow_private
                then inr u
                else (if is_local_hostname u.hostname
                    then inl host_not_allowed
                    else check_address net u (net.parse_ip u.hostname)))))

-- `validateDownloadURL`
unfoldable pub validate_download_url : Net → SourceConfig → Text → Checked
validate_download_url net config raw = check_url net config (net.parse_url (trim_space raw))
