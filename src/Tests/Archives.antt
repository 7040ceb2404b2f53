-- ===== src/Tests/Archives.antt =====
-- An archive of a folder with one file, at a concrete input.
use cloud_vault.Archive.{
  add_children, add_entry, add_files, build_archive_entries, collect_archive_children, file_entry,
  folder_entry, object_of,
}
use cloud_vault.Archive.Contents.{IsStacked, build_archive_entries-IsOwn}
use cloud_vault.Archive.Held.{IsOwn}
use cloud_vault.Base.{
  All, Bool, [], arith, false, none, not_some, refl, some, true, ℕ, ◌&&◌, ◌++◌, ◌-◌, ◌==◌, ◌∷◌, ◌≡◌,
}
use cloud_vault.Base.Text.{Text, codes, is_space}
use cloud_vault.File.Table.{sql_eq}
use cloud_vault.Names.{named_or, sanitize_archive_name}
use cloud_vault.Object.{cache_file_object, get_file_object_by_id}
use cloud_vault.Rows.{UserFile}
use cloud_vault.Tests.Worlds.{env, report, report_file, world}
use cloud_vault.World.{Env, World, ok, redis, redis_get, sql, ◌>>=◌}
use cloud_vault.World.Ends.{Ends}

abbrev docs : UserFile
docs = record report_file { id = 2; name = "docs"; is_dir = true; object_id = none }

abbrev docs_world : World ℕ
docs_world = record world { files = docs ∷ record report_file { parent_id = some 2 } ∷ [] }

abbrev join : Text → Text → Text
join path name = path ++ 47 ∷ name

abbrev steady_env : Env ℕ
steady_env = record env { db_fails = λ n. false }

docs-IsStacked : IsStacked (λ n. n - 1) docs_world.files
docs-IsStacked f folder among below =
    let q : UserFile → Bool = λ g. g.id == f.id && sql_eq g.parent_id (some folder) in
    let found = among q (ground (arith, below)) in ground (arith, found)

build_archive_entries-IsOwn_example :
    Ends
      (λ entries v. All (IsOwn docs_world.files 7) entries)
      (build_archive_entries steady_env join 2 7 (2 ∷ []) docs_world)
build_archive_entries-IsOwn_example =
    build_archive_entries-IsOwn steady_env join 2 7 (2 ∷ []) docs_world (λ n. n - 1)
      (λ path name inside plain. refl) docs-IsStacked (omega arith, tt)
      (λ k o e. absurd (not_some o e))

-- The folder and the file in it
collected :
    (build_archive_entries steady_env join 2 7 (2 ∷ []) docs_world).0
    ≡ ok (folder_entry (codes "docs") ∷ file_entry (codes "docs/report.pdf") report ∷ [])
unfolding build_archive_entries add_files collect_archive_children add_children add_entry object_of
    get_file_object_by_id cache_file_object sql redis redis_get sanitize_archive_name named_or ◌>>=◌
    is_space
collected = refl
