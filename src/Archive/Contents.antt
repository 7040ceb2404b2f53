-- ===== src/Archive/Contents.antt =====
-- An archive holds files of its user only, at paths that stay in the folder where it is unpacked.
use cloud_vault.Archive.{
  ArchiveEntry, add_children, add_entry, add_files, build_archive_entries, collect_archive_children,
  file_entry, folder_entry, is_child_of, object_of,
}
use cloud_vault.Archive.Held.{
  Among, Among-filter, Among-find?, Done, Good, IsCacheRight, IsOwn, Owned, holds_for, object_of-id,
}
use cloud_vault.Archive.Paths.{All-append, IsInside, IsInside-append, IsInside-name}
use cloud_vault.Base.{
  All, List, Option, [], arith, false, filter, find?, inl, inr, none, not, refl, some, subst, suc,
  sym, true, zero, ℕ, ◌&&◌, ◌++◌, ◌<◌, ◌==◌, ◌∷◌, ◌≡◌, ◌≤◌,
}
use cloud_vault.Base.Text.{Text, codes}
use cloud_vault.File.Edit.{is_active_of}
use cloud_vault.File.Table.{live, sql_eq}
use cloud_vault.Names.Harmless.{IsPlain, sanitize_archive_name-IsPlain}
use cloud_vault.Object.{get_file_object_by_id}
use cloud_vault.Object.Lookup.{get_file_object_by_id-Returns}
use cloud_vault.Rows.{FileObject, UserFile, message, record_not_found}
use cloud_vault.World.{Env, M, Result, World, fail, tick}
use cloud_vault.World.Ends.{
  Ends, Ends-Post, Ends-bind, Ends-if_eq, Ends-imply, Ends-ok, Returns, Returns-err, Returns-ok,
  Returns-or_fail, Returns-sql,
}
use cloud_vault.World.Rules.{Post-first_eq, Post-ok, Post-sql}

module _ (files : List UserFile) (user : ℕ) (f : UserFile)
    (active : (f.user_id == user && not f.is_deleted && live f) ≡ true) (among : Among files f)
    (path : Text) (inside : IsInside path) where
  folder_entry-IsOwn : f.is_dir ≡ true → IsOwn files user (folder_entry path)
  unfolding holds_for
  folder_entry-IsOwn folder = record {
    row = among (holds_for user (folder_entry path)) (ground arith);
    place = (path, inside, inr refl);
  }

  file_entry-IsOwn :
      (o : FileObject)
      → f.is_dir ≡ false
      → sql_eq f.object_id (some o.id) ≡ true
      → IsOwn files user (file_entry path o)
  unfolding holds_for
  file_entry-IsOwn o file same = record {
    row = among (holds_for user (file_entry path o)) (ground arith);
    place = (path, inside, inl refl);
  }

module _ {S : Type 0} (env : Env S) where
  object_of-Returns : (f : UserFile) (w : World S) → Returns (object_of env f w)
  unfolding object_of
  object_of-Returns f w = by_object f.object_id
    where
      by_object :
          (id : Option ℕ)
          → Returns (
              (elim id as (λ _. M S FileObject) [
                | none ↦ fail (message "file has no object")
                | some n ↦ get_file_object_by_id env n
              ])
                w)
      by_object none = Returns-err _ _ w
      by_object (some n) = get_file_object_by_id-Returns env n w

-- Each folder is lower than its parent.
abbrev pub IsStacked : (ℕ → ℕ) → List UserFile → Type 0
IsStacked height files =
    (f : UserFile) (folder : ℕ)
    → Among files f
    → sql_eq f.parent_id (some folder) ≡ true
    → height f.id < height folder

module _ {S : Type 0} (env : Env S) (files : List UserFile) (user : ℕ) (height : ℕ → ℕ) where
  abbrev Adds : Result (List ArchiveEntry) × World S → Type 0
  Adds x = Ends (Owned env files user) x

  -- A call that ends for the folders below a height, and adds entries of the user.
  abbrev AddsOwn : ℕ → (ℕ → Text → List ArchiveEntry → M S (List ArchiveEntry)) → Type 0
  AddsOwn limit recurse =
      (id : ℕ) (path : Text) (entries : List ArchiveEntry) (v : World S)
      → height id < limit
      → IsInside path
      → Owned env files user entries v
      → Adds (recurse id path entries v)

  add_entry-Adds :
      (limit : ℕ) (recurse : ℕ → Text → List ArchiveEntry → M S (List ArchiveEntry))
      → AddsOwn limit recurse
      → (f : UserFile) → (f.user_id == user && not f.is_deleted && live f) ≡ true
      → Among files f
      → height f.id < limit
      → (path : Text) (entries : List ArchiveEntry) (v : World S) → IsInside path
      → Owned env files user entries v
      → Adds (add_entry env recurse f path entries v)
  unfolding add_entry
  add_entry-Adds limit recurse adds f active among low path entries v inside h =
      Ends-if_eq _ f.is_dir _ _ v
        (λ folder. adds f.id path (entries ++ folder_entry path ∷ []) v low inside (
          All-append _ entries _ h.0
              (folder_entry-IsOwn files user f active among path inside folder),
          h.1,
        ))
        (λ file.
          Ends-bind _ _ _ _ v
            (Ends-Post _ _ _ _ (object_of-id env files user f v h.1) (object_of-Returns env f v))
            (λ o u p. Ends-ok _ _ u (
              All-append _ entries _ h.0
                  (file_entry-IsOwn files user f active among path inside o file p.0),
              p.1,
            )))

  module _ (stacked : IsStacked height files) (path_join : Text → Text → Text)
      (joins : (path name : Text)
        → IsInside path
        → IsPlain name
        → path_join path name ≡ path ++ 47 ∷ name) where
    add_children-Adds :
        (limit : ℕ) (recurse : ℕ → Text → List ArchiveEntry → M S (List ArchiveEntry))
        → AddsOwn limit recurse
        → (prefix : Text) → IsInside prefix
        → (folder : ℕ) → height folder ≤ limit
        → (children : List UserFile)
        → All (λ f. (is_child_of user folder f ≡ true) × Among files f) children
        → (entries : List ArchiveEntry) (v : World S) → Owned env files user entries v
        → Adds (add_children env path_join recurse prefix children entries v)
    unfolding add_children
    add_children-Adds limit recurse adds prefix inside folder low [] own entries v h =
        Ends-ok _ _ v h
    add_children-Adds limit recurse adds prefix inside folder low (f ∷ children) own entries v h =
        let plain = sanitize_archive_name-IsPlain (codes f.name) in
        let lower = stacked f folder own.0.1 (ground (arith, own.0.0)) in
        Ends-bind (Owned env files user) _ _ _ v
          (add_entry-Adds limit recurse adds f (ground (arith, own.0.0)) own.0.1
            (omega (arith, lower, low)) _ entries v
            (subst IsInside (sym (joins prefix _ inside plain))
              (IsInside-append prefix _ inside plain))
            h)
          (λ more u p.
            add_children-Adds limit recurse adds prefix inside folder low children own.1 more u p)

    collect_archive_children-Adds :
        (fuel : ℕ) → AddsOwn fuel (collect_archive_children env path_join fuel user)
    unfolding collect_archive_children
    collect_archive_children-Adds zero folder path entries v low inside h = elim low [ ]
    collect_archive_children-Adds (suc fuel) folder path entries v low inside h =
        Ends-bind
          (λ children u.
            All (λ f. (is_child_of user folder f ≡ true) × Among files f) children
            × Good env files user u)
          _ _ _ v
          (Ends-Post _ _ _ _
            (Post-sql _ (Done env files user) env _ v tt (
              Post-ok _ _ _ (tick v) (
                subst
                    (λ fs.
                      All (λ f. (is_child_of user folder f ≡ true) × Among files f)
                        (filter (is_child_of user folder) fs))
                    (sym h.1.0) (Among-filter (is_child_of user folder) files),
                h.1,
              )))
            (Returns-sql env _ v (Returns-ok _ (tick v))))
          (λ children u p.
            add_children-Adds fuel (collect_archive_children env path_join fuel user)
              (collect_archive_children-Adds fuel) path inside folder (omega (arith, low)) children
              p.0 entries u (h.0, p.1))

    add_files-Adds :
        (fuel : ℕ) (ids : List ℕ)
        → All (λ id. height id < fuel) ids
        → (entries : List ArchiveEntry) (v : World S) → Owned env files user entries v
        → Adds (add_files env path_join fuel user ids entries v)
    unfolding add_files
    add_files-Adds fuel [] low entries v h = Ends-ok _ _ v h
    add_files-Adds fuel (id ∷ ids) low entries v h =
        Ends-bind (λ f u. (is_active_of user id f ≡ true) × Among files f × Good env files user u) _
          _ _ v
          (Ends-Post _ _ _ _
            (Post-first_eq _ (Done env files user) env _ v tt (λ f found.
              let (yes_it, among) =
                Among-find? (is_active_of user id) files f
                  (subst (λ fs. find? (is_active_of user id) fs ≡ some f) h.1.0 found) in
              (yes_it, among, h.1)))
            (Returns-sql env _ v (Returns-or_fail _ record_not_found (tick v))))
          (λ f u p.
            let it : f.id ≡ id = ground (arith, p.0) in
            Ends-bind (Owned env files user) _ _ _ u
              (add_entry-Adds fuel _ (collect_archive_children-Adds fuel) f (ground (arith, p.0))
                p.1 (subst (λ n. height n < fuel) (sym it) low.0) _ entries u
                (IsInside-name (codes f.name)) (h.0, p.2))
              (λ more t q. add_files-Adds fuel ids low.1 more t q))

-- The collection of the entries of an archive ends, in an error or with entries, of which each is for
-- a file or a folder that its user has, not deleted, and lies at a path whose parts are plain names,
-- so that it stays in the folder where it is unpacked; provided that each file lies lower than its
-- folder and the fuel exceeds the heights of the files asked for, that each cached object has the id
-- that it is cached under, and that `path.Join` puts a slash between a path of plain names and a
-- plain name.
pub build_archive_entries-IsOwn :
    {S : Type 0} (env : Env S) (path_join : Text → Text → Text) (fuel user : ℕ) (ids : List ℕ)
    (w : World S) (height : ℕ → ℕ)
    → ((path name : Text) → IsInside path → IsPlain name → path_join path name ≡ path ++ 47 ∷ name)
    → IsStacked height w.files
    → All (λ id. height id < fuel) ids
    → IsCacheRight w
    → Ends
        (λ entries v. All (IsOwn w.files user) entries)
        (build_archive_entries env path_join fuel user ids w)
unfolding build_archive_entries
build_archive_entries-IsOwn env path_join fuel user ids w height joins stacked low right =
    Ends-imply _ _ _ (λ entries v p. p.0)
      (add_files-Adds env w.files user height stacked path_join joins fuel ids low [] w
        (tt, (refl, right)))
