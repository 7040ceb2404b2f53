-- ===== src/Tests/Spelling.antt =====
-- Names that users choose, at concrete inputs.
use cloud_vault.Base.{[], refl, ◌∷◌, ◌≡◌, ◌⊎◌}
use cloud_vault.Base.Lower.{lower_in, lower_wide}
use cloud_vault.Base.Text.{codes, is_space}
use cloud_vault.Names.{named_or, sanitize_archive_name, sanitize_header_filename, sanitize_order_by}
use cloud_vault.Names.Harmless.{
  IsColumn, IsPlain, Lacks, sanitize_archive_name-IsPlain, sanitize_header_filename-Lacks,
  sanitize_order_by-IsColumn,
}

sanitize_header_filename-Lacks_example :
    Lacks 13 (codes "aX-Admin: true")
    × Lacks 10 (codes "aX-Admin: true")
    × Lacks 34 (codes "aX-Admin: true")
unfolding sanitize_header_filename is_space
sanitize_header_filename-Lacks_example =
    sanitize_header_filename-Lacks (97 ∷ 34 ∷ 13 ∷ 10 ∷ codes "X-Admin: true")

sanitize_archive_name-IsPlain_example : IsPlain (codes "__etc_passwd")
unfolding sanitize_archive_name named_or is_space
sanitize_archive_name-IsPlain_example = sanitize_archive_name-IsPlain (codes "../etc/passwd")

sanitize_order_by-IsColumn_example :
    (IsColumn (codes "name") × (sanitize_order_by (codes " Name") ≡ codes "name"))
    ⊎ ((IsColumn (codes "name") → ⊥) × (sanitize_order_by (codes " Name") ≡ []))
unfolding sanitize_order_by is_space
sanitize_order_by-IsColumn_example = sanitize_order_by-IsColumn (codes " Name")

injected : sanitize_order_by (codes "name; DROP TABLE user") ≡ []
unfolding sanitize_order_by is_space
injected = refl

-- A capital I with a dot is lowered as well.
dotted : sanitize_order_by (83 ∷ 304 ∷ codes "ZE") ≡ codes "size"
unfolding sanitize_order_by is_space lower_wide lower_in
dotted = refl
