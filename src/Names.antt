-- ===== src/Names.antt =====
-- Texts that users choose, made harmless: utils/sanitize.go, `sanitizeArchiveName` of
-- internal/service/archive.go, internal/service/order.go and `detectAccessSource` of
-- internal/service/share_access.go. Texts are lists of code points (Base/Text).
pub mod Harmless
use cloud_vault.Base.{
  List, Option, [], filter, if◌then◌else◌, length, map, none, not, some, suc, zero, ℕ, ◌&&◌, ◌==◌,
  ◌||◌, ◌∷◌,
}
use cloud_vault.Base.Text.{Text, codes, has_prefix, text_eq, to_lower, trim_space}

-- `strings.ReplaceAll` of one character by nothing, and by another
abbrev pub remove_code : ℕ → Text → Text
remove_code c = filter (λ d. not (d == c))

abbrev pub swap_code : ℕ → ℕ → Text → Text
swap_code c e = map (λ d. if d == c then e else d)

-- `strings.ReplaceAll(s, "..", "_")`
abbrev pub replace_dots : Text → Text
replace_dots [] = []
replace_dots (c ∷ []) = c ∷ []
replace_dots (c ∷ d ∷ s) =
    let after_pair = replace_dots s in
    let after_one = replace_dots (d ∷ s) in
    if c == 46 && d == 46 then 95 ∷ after_pair else c ∷ after_one

-- `SanitizeHeaderFilename`
unfoldable pub sanitize_header_filename : Text → Text
sanitize_header_filename name = elim (trim_space name) [
  | [] ↦ codes "download"
  | c ∷ clean ↦ remove_code 34 (remove_code 10 (remove_code 13 (c ∷ clean)))
]

-- "unnamed" in place of nothing and of one dot
unfoldable pub named_or : Text → Text
named_or clean = if text_eq clean [] || text_eq clean (codes ".") then codes "unnamed" else clean

-- `sanitizeArchiveName`
unfoldable pub sanitize_archive_name : Text → Text
unfolding named_or
sanitize_archive_name name =
    named_or (replace_dots (swap_code 47 95 (swap_code 92 47 (trim_space name))))

-- `allowedOrderBy`
abbrev pub allowed_order_by : List (Text × Text)
allowed_order_by =
    (codes "created_at", codes "created_at")
    ∷ (codes "updated_at", codes "updated_at")
    ∷ (codes "name", codes "name")
    ∷ (codes "size", codes "size")
    ∷ (codes "id", codes "id")
    ∷ []

-- What a map of texts has under a key: the empty text, if nothing
abbrev pub look_up : Text → List (Text × Text) → Text
look_up key [] = []
look_up key ((name, column) ∷ columns) =
    let rest = look_up key columns in if text_eq key name then column else rest

-- `sanitizeOrderBy`; the empty text says that the order is not allowed.
unfoldable pub sanitize_order_by : Text → Text
sanitize_order_by order_by = look_up (to_lower (trim_space order_by)) allowed_order_by

abbrev pub skip : ℕ → Text → Text
skip zero s = s
skip (suc n) [] = []
skip (suc n) (c ∷ s) = skip n s

-- `strings.TrimPrefix`
abbrev pub trim_prefix : Text → Text → Text
trim_prefix s prefix = if has_prefix s prefix then skip (length prefix) s else s

-- What follows `url.Parse` in `detectAccessSource`; `none` is its error, `some` the host name.
unfoldable pub source_of_host : Option Text → Text
source_of_host none = codes "unknown"
source_of_host (some hostname) =
    let host : Text = to_lower (trim_space hostname) in
    if text_eq host [] then codes "unknown" else trim_prefix host (codes "www.")

-- `detectAccessSource`, with the host name that `url.Parse` finds as a parameter
unfoldable pub detect_access_source : (Text → Option Text) → Text → Text
unfolding source_of_host
detect_access_source parse_host referer =
    let ref : Text = trim_space referer in
    if text_eq ref [] then codes "direct" else source_of_host (parse_host ref)
