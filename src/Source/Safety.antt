-- ===== src/Source/Safety.antt =====
-- An accepted source leads to public addresses only.
use cloud_vault.Base.{
  All, Bool, Bool-cases, List, Option, [], any, arith, false, if◌then◌else◌, inl, inr,
  inr_injective, none, not, past_guard, refl, some, subst, true, ◌&&◌, ◌*◌, ◌++◌, ◌<◌, ◌==◌, ◌^◌,
  ◌||◌, ◌∷◌, ◌≡◌, ◌≢◌, ◌≤◌, ◌⊎◌,
}
use cloud_vault.Base.Text.{Text, codes, has_suffix→++, text_eq, text_eq→≡, trim_space}
use cloud_vault.Source.{
  Ip, Net, SourceConfig, Url, check_address, check_lookup, check_url, entry_allows, host_allowed,
  host_not_allowed, ip_not_allowed, is_blocked_ip, is_local_hostname, missing_host, normal,
  unsupported_scheme, v4, v6, validate_download_url,
}

-- An IPv4 address outside every range that is reserved for local use, written as ranges.
abbrev pub IsPublic : Ip → Type 0
IsPublic (v4 n) =
    (1 ≤ n)
    × ((n < 167772160) ⊎ (184549376 ≤ n))
    × ((n < 2130706432) ⊎ (2147483648 ≤ n))
    × ((n < 2851995648) ⊎ (2852061184 ≤ n))
    × ((n < 2886729728) ⊎ (2887778304 ≤ n))
    × ((n < 3232235520) ⊎ (3232301056 ≤ n))
    × ((n < 3758096384) ⊎ (4026531840 ≤ n))
IsPublic (v6 n) =
    (2 ≤ n)
    × ((n < 126 * 2 ^ 121) ⊎ (127 * 2 ^ 121 ≤ n))
    × ((n < 1018 * 2 ^ 118) ⊎ (1019 * 2 ^ 118 ≤ n))
    × (n < 255 * 2 ^ 120 ⊎ 256 * 2 ^ 120 ≤ n)

is_blocked_ip-IsPublic : (ip : Ip) → is_blocked_ip (some ip) ≡ false → IsPublic ip
unfolding is_blocked_ip
is_blocked_ip-IsPublic (v4 n) h = ground arith
is_blocked_ip-IsPublic (v6 n) h = ground arith

abbrev pub IsPublicAddress : Option Ip → Type 0
IsPublicAddress none = ⊥
IsPublicAddress (some ip) = IsPublic ip

any_blocked-nil : (ips : List (Option Ip)) → any is_blocked_ip (none ∷ ips) ≢ false
unfolding is_blocked_ip
any_blocked-nil ips h = ground arith

true_or-false : (a b : Bool) → a ≡ true → (a || b) ≢ false
true_or-false a b h k = ground arith

any_blocked-All : (ips : List (Option Ip)) → any is_blocked_ip ips ≡ false → All IsPublicAddress ips
any_blocked-All [] h = tt
any_blocked-All (none ∷ ips) h = elim (any_blocked-nil ips h) [ ]
any_blocked-All (some ip ∷ ips) h = elim (Bool-cases (is_blocked_ip (some ip))) [
  | inl blocked ↦
      elim (true_or-false (is_blocked_ip (some ip)) (any is_blocked_ip ips) blocked h) [ ]
  | inr free ↦ (is_blocked_ip-IsPublic ip free, any_blocked-All ips (rw free at h))
]

-- The addresses that a host stands for: its own, if it is one, or those that the lookup gives.
abbrev pub looked_up : Option (List (Option Ip)) → List (Option Ip)
looked_up none = []
looked_up (some ips) = ips

abbrev pub addresses : Net → Option Ip → Text → List (Option Ip)
addresses net (some ip) host = some ip ∷ []
addresses net none host = looked_up (net.lookup_ip host)

-- A host against one entry of the list, both in lower case without spaces around them: an entry
-- that begins with a dot takes every host that ends in it, any other entry itself.
abbrev pub Admits : Text → Text → Type 0
Admits host [] = ⊥
Admits host (c ∷ entry) =
    ((c ≡ 46) × ((r : Text) × (host ≡ r ++ c ∷ entry))) ⊎ ((c ≢ 46) × (host ≡ c ∷ entry))

abbrev pub Some : {A : Type 0} → (A → Type 0) → List A → Type 0
Some P [] = ⊥
Some P (x ∷ xs) = P x ⊎ Some P xs

abbrev pub IsAllowed : Text → List Text → Type 0
IsAllowed host entries =
    (entries ≡ []) ⊎ Some (λ entry. Admits (normal host) (normal entry)) entries

entry_allows-Admits : (host entry : Text) → entry_allows host entry ≡ true → Admits host entry
unfolding entry_allows
entry_allows-Admits host [] h = ground arith
entry_allows-Admits host (c ∷ entry) h = elim (Bool-cases (c == 46)) [
  | inl dot ↦ inl (ground arith, has_suffix→++ host (c ∷ entry) (rw dot at h))
  | inr no_dot ↦ inr (ground arith, text_eq→≡ host (c ∷ entry) (rw no_dot at h))
]

any_allows-Some :
    (host : Text) (entries : List Text)
    → any (λ entry. entry_allows (normal host) (normal entry)) entries ≡ true
    → Some (λ entry. Admits (normal host) (normal entry)) entries
any_allows-Some host [] h = ground arith
any_allows-Some host (e ∷ es) h = elim (Bool-cases (entry_allows (normal host) (normal e))) [
  | inl fit ↦ inl (entry_allows-Admits (normal host) (normal e) fit)
  | inr unfit ↦ inr (any_allows-Some host es (rw unfit at h))
]

host_allowed-IsAllowed :
    (host : Text) (entries : List Text) → host_allowed host entries ≡ true → IsAllowed host entries
unfolding host_allowed
host_allowed-IsAllowed host [] h = inl refl
host_allowed-IsAllowed host (e ∷ es) h = inr (any_allows-Some host (e ∷ es) h)

-- What an accepted source is.
pub record IsSafe (net : Net) (config : SourceConfig) (u : Url) : Type 0 where
  pub scheme : (u.scheme ≡ codes "http") ⊎ (u.scheme ≡ codes "https")
  pub named : u.hostname ≢ []
  pub allowed : IsAllowed u.hostname config.download_allowed_hosts
  pub leads_out :
      (config.download_allow_private ≡ true)
      ⊎ ((is_local_hostname u.hostname ≡ false)
          × (addresses net (net.parse_ip u.hostname) u.hostname ≢ [])
          × All IsPublicAddress (addresses net (net.parse_ip u.hostname) u.hostname))

check_lookup-safe :
    (u v : Url) (found : Option (List (Option Ip)))
    → check_lookup u found ≡ inr v
    → (u ≡ v) × (looked_up found ≢ []) × All IsPublicAddress (looked_up found)
unfolding check_lookup
check_lookup-safe u v none h = ground arith
check_lookup-safe u v (some []) h = ground arith
check_lookup-safe u v (some (ip ∷ ips)) h =
    let (free, e) = past_guard (any is_blocked_ip (ip ∷ ips)) ip_not_allowed (inr u) v h in
    (inr_injective u v e, (λ k. ground arith), any_blocked-All (ip ∷ ips) free)

check_address-safe :
    (net : Net) (u v : Url) (own : Option Ip)
    → check_address net u own ≡ inr v
    → (u ≡ v)
      × (addresses net own u.hostname ≢ [])
      × All IsPublicAddress (addresses net own u.hostname)
unfolding check_address
check_address-safe net u v none h = check_lookup-safe u v (net.lookup_ip u.hostname) h
check_address-safe net u v (some ip) h =
    let (free, e) = past_guard (is_blocked_ip (some ip)) ip_not_allowed (inr u) v h in
    (inr_injective u v e, (λ k. ground arith), (is_blocked_ip-IsPublic ip free, tt))

check_private-safe :
    (net : Net) (config : SourceConfig) (u v : Url) (private : Bool)
    → (if private
        then inr u
        else (if is_local_hostname u.hostname
            then inl host_not_allowed
            else check_address net u (net.parse_ip u.hostname)))
      ≡ inr v
    → (u ≡ v)
      × ((private ≡ true)
          ⊎ ((is_local_hostname u.hostname ≡ false)
              × (addresses net (net.parse_ip u.hostname) u.hostname ≢ [])
              × All IsPublicAddress (addresses net (net.parse_ip u.hostname) u.hostname)))
check_private-safe net config u v true h = (inr_injective u v h, inl refl)
check_private-safe net config u v false h =
    let (far, e) = past_guard (is_local_hostname u.hostname) host_not_allowed _ v h in
    let (same, some_address, all_out) = check_address-safe net u v (net.parse_ip u.hostname) e in
    (same, inr (far, some_address, all_out))

http_or_https :
    (s : Text)
    → (not (text_eq s (codes "http")) && not (text_eq s (codes "https"))) ≡ false
    → (s ≡ codes "http") ⊎ (s ≡ codes "https")
http_or_https s h = elim (Bool-cases (text_eq s (codes "http"))) [
  | inl plain ↦ inl (text_eq→≡ s (codes "http") plain)
  | inr other_one ↦ inr (text_eq→≡ s (codes "https") (ground arith))
]

is_named : (s : Text) → text_eq s [] ≡ false → s ≢ []
is_named [] h e = ground arith
is_named (c ∷ s) h e = ground arith

check_url-IsSafe :
    (net : Net) (config : SourceConfig) (parsed : Option Url) (v : Url)
    → check_url net config parsed ≡ inr v
    → IsSafe net config v
unfolding check_url
check_url-IsSafe net config none v h = ground arith
check_url-IsSafe net config (some u) v h =
    let (web, h1) = past_guard _ unsupported_scheme _ v h in
    let (has_host, h2) = past_guard _ missing_host _ v h1 in
    let (listed, h3) = past_guard _ host_not_allowed _ v h2 in
    let (same, out) = check_private-safe net config u v config.download_allow_private h3 in
    subst (IsSafe net config) same (record {
      scheme = http_or_https u.scheme web;
      named = λ e. is_named u.hostname has_host e;
      allowed = host_allowed-IsAllowed u.hostname config.download_allowed_hosts (ground arith);
      leads_out = out;
    })

-- A source that is accepted is a http or https URL with a host that the list of allowed hosts
-- admits, if there is one; and unless private sources are allowed, the host is no local name and
-- every address it stands for, one at least, is outside the loopback, private, link-local and
-- multicast ranges.
pub validate_download_url-IsSafe :
    (net : Net) (config : SourceConfig) (raw : Text) (u : Url)
    → validate_download_url net config raw ≡ inr u
    → IsSafe net config u
unfolding validate_download_url
validate_download_url-IsSafe net config raw u =
    check_url-IsSafe net config (net.parse_url (trim_space raw)) u
