-- ===== src/Depot/Kept.antt =====
-- No object is lost.
use cloud_vault.Base.{
  All, Bool, Bool-cases, List, Option, String, [], ap, arith, false, get_elem?, if◌then◌else◌, inl,
  inr, length, none, not_some, refl, some, str_eq, str_eq_iff, subst, suc, sym, true, zero, ℕ, ◌+◌,
  ◌==◌, ◌∙◌, ◌∷◌, ◌≡◌, ◌⊎◌,
}
use cloud_vault.Base.Int.{ℤ}
use cloud_vault.Cluster.{
  Choice, StorageNode, chosen, no_nodes, panics, select_least_conn, update_used_size,
}
use cloud_vault.Depot.{
  Depot, Minio, check_and_migrate, check_from, copy_object, drop_source, is_overfull, migrate_all,
  migrate_files, migrate_object, migrate_to, put_blob, put_object, remove_blob, tick_depot,
}

-- Some node holds the content under the key, and every node that holds the key holds this content.
pub record IsHeld {C : Type 0} (key : String) (content : C) (blobs : ℕ → String → Option C)
    : Type 0 where
  pub node : ℕ
  pub held : blobs node key ≡ some content
  pub alike : (k : ℕ) → (blobs k key ≡ none) ⊎ (blobs k key ≡ some content)

put_blob-other :
    {C : Type 0} (j : ℕ) (name key : String) (v : Option C) (blobs : ℕ → String → Option C) (k : ℕ)
    → str_eq key name ≡ false
    → put_blob j name v blobs k key ≡ blobs k key
put_blob-other j name key v blobs k h = ground arith

put_blob-same :
    {C : Type 0} (j : ℕ) (name key : String) (v : Option C) (blobs : ℕ → String → Option C) (k : ℕ)
    → str_eq key name ≡ true
    → put_blob j name v blobs k key ≡ (if k == j then v else blobs k key)
put_blob-same j name key v blobs k h = ground arith

module _ {C : Type 0} (key : String) (content : C) where
  -- A change under another key
  other-IsHeld :
      (j : ℕ) (name : String) (v : Option C) (blobs : ℕ → String → Option C)
      → str_eq key name ≡ false
      → IsHeld key content blobs
      → IsHeld key content (put_blob j name v blobs)
  other-IsHeld j name v blobs other_key h = record {
    node = h.node;
    held = put_blob-other j name key v blobs h.node other_key ∙ h.held;
    alike = λ k. rw (put_blob-other j name key v blobs k other_key) (h.alike k);
  }

  -- What a node holds under the key is the content.
  held_content :
      (o : Option C) (c : C)
      → o ≡ some c
      → (o ≡ none) ⊎ (o ≡ some content)
      → ◌≡◌ {A = Option C} (some c) (some content)
  held_content o c e (inl gone) = cc
  held_content o c e (inr there) = cc

  held_at :
      (i : ℕ) (name : String) (c : C) (blobs : ℕ → String → Option C)
      → str_eq key name ≡ true
      → blobs i name ≡ some c
      → IsHeld key content blobs
      → ◌≡◌ {A = Option C} (some c) (some content)
  held_at i name c blobs same e h = held_content (blobs i name) c e (
      subst (λ n. (blobs i n ≡ none) ⊎ (blobs i n ≡ some content)) ((str_eq_iff key name).0 same)
        (h.alike i))

  -- A write to the node `j`, under the key only of the content
  write-IsHeld :
      (j : ℕ) (name : String) (c : C) (blobs : ℕ → String → Option C)
      → (str_eq key name ≡ true → ◌≡◌ {A = Option C} (some c) (some content))
      → IsHeld key content blobs
      → IsHeld key content (put_blob j name (some c) blobs)
  write-IsHeld j name c blobs source h = elim (Bool-cases (str_eq key name)) [
    | inr other_key ↦ other-IsHeld j name (some c) blobs other_key h
    | inl same ↦
        let c_is = source same in
        let here = λ (k : ℕ). put_blob-same j name key (some c) blobs k same in
        record {
          node = j;
          held = here j ∙ ground (arith, c_is);
          alike = λ k. rw (here k) (elim (Bool-cases (k == j)) [
            | inl target ↦ rw target (inr c_is)
            | inr apart ↦ rw apart (h.alike k)
          ]);
        }
  ]

  -- A removal where another node holds the object
  remove-IsHeld :
      (i j : ℕ) (name : String) (c : C) (blobs : ℕ → String → Option C)
      → (i == j) ≡ false
      → blobs j name ≡ some c
      → IsHeld key content blobs
      → IsHeld key content (put_blob i name none blobs)
  remove-IsHeld i j name c blobs apart target h = elim (Bool-cases (str_eq key name)) [
    | inr other_key ↦ other-IsHeld i name none blobs other_key h
    | inl same ↦
        let c_is = held_at j name c blobs same target h in
        let here = λ (k : ℕ). put_blob-same i name key none blobs k same in
        let at_key : blobs j key ≡ some c =
          subst (λ n. blobs j n ≡ some c) (sym ((str_eq_iff key name).0 same)) target in
        record {
          node = j;
          held = here j ∙ ground (arith, c_is, at_key);
          alike = λ k. rw (here k) (elim (Bool-cases (k == i)) [
            | inl source ↦ rw source (inl refl)
            | inr elsewhere ↦ rw elsewhere (h.alike k)
          ]);
        }
  ]

  -- A size with which the content is sent whole, and an unreadable object not as something else.
  abbrev pub IsExact : Minio C → ℤ → Type 0
  IsExact minio size =
      (minio.sent size (some content) ≡ some content)
      × ((minio.sent size none ≡ none) ⊎ (minio.sent size none ≡ some content))

  abbrev pub IsExactEntry : Minio C → Option (String × ℤ) → Type 0
  IsExactEntry minio none = Unit
  IsExactEntry minio (some (name, size)) = str_eq key name ≡ true → IsExact minio size

  abbrev pub IsExactlyListed : Minio C → Type 0
  IsExactlyListed minio = (n i : ℕ) → All (IsExactEntry minio) (minio.listing n i)

  exact_stored :
      (minio : Minio C) (size : ℤ) (reader : Option C) (c : C)
      → minio.sent size reader ≡ some c
      → IsExact minio size
      → (reader ≡ none) ⊎ (reader ≡ some content)
      → ◌≡◌ {A = Option C} (some c) (some content)
  exact_stored minio size reader c e (whole, inl gone) (inl none_there) =
      absurd (not_some c (sym gone ∙ ap (minio.sent size) (sym none_there) ∙ e))
  exact_stored minio size reader c e (whole, inr same) (inl none_there) =
      sym e ∙ ap (minio.sent size) none_there ∙ same
  exact_stored minio size reader c e (whole, r) (inr there) =
      sym e ∙ ap (minio.sent size) there ∙ whole

  -- What holds after a copy to the node `j`
  abbrev Copied : ℕ → String → Bool × Depot C → Type 0
  Copied j name (true, d) = ((c : C) × (d.blobs j name ≡ some c)) × IsHeld key content d.blobs
  Copied j name (false, d) = IsHeld key content d.blobs

  module _ (minio : Minio C) (exact : IsExactlyListed minio) where
    put_object-Copied :
        (j : ℕ) (name : String) (size : ℤ) (reader : Option C) (d : Depot C)
        → (str_eq key name ≡ true → IsExact minio size)
        → (str_eq key name ≡ true → (reader ≡ none) ⊎ (reader ≡ some content))
        → IsHeld key content d.blobs
        → Copied j name (put_object minio j name size reader d)
    unfolding put_object
    put_object-Copied j name size reader d fits source h = elim (Bool-cases (minio.fails d.calls)) [
      | inl down ↦ rw down h
      | inr up ↦ rw up (of_stored (minio.sent size reader) refl)
    ]
      where
        of_stored :
            (o : Option C)
            → minio.sent size reader ≡ o
            → Copied j name (elim o as (λ _. Bool × Depot C) [
              | none ↦ (false, tick_depot d)
              | some c ↦ (true, record (tick_depot d) { blobs = put_blob j name (some c) d.blobs })
            ])
        of_stored none e = h
        of_stored (some c) e = (
          (
            c,
            put_blob-same j name name (some c) d.blobs j ((str_eq_iff name name).1 refl)
                ∙ ground arith,
          ),
          write-IsHeld j name c d.blobs
              (λ same. exact_stored minio size reader c e (fits same) (source same)) h,
        )

    copy_object-Copied :
        (i j : ℕ) (name : String) (size : ℤ) (d : Depot C)
        → (str_eq key name ≡ true → IsExact minio size)
        → IsHeld key content d.blobs
        → Copied j name (copy_object minio i j name size d)
    unfolding copy_object
    copy_object-Copied i j name size d fits h =
        put_object-Copied j name size (d.blobs i name) d fits
          (λ same.
            subst (λ n. (d.blobs i n ≡ none) ⊎ (d.blobs i n ≡ some content))
              ((str_eq_iff key name).0 same) (h.alike i))
          h

    drop_source-IsHeld :
        (i j : ℕ) (name : String) (size : ℤ) (out : Bool × Depot C)
        → (i == j) ≡ false
        → Copied j name out
        → IsHeld key content (drop_source minio i j name size out).blobs
    unfolding drop_source remove_blob update_used_size
    drop_source-IsHeld i j name size (false, d) apart h = h
    drop_source-IsHeld i j name size (true, d) apart ((c, target), h) =
        elim (Bool-cases (minio.fails d.calls)) [
          | inl down ↦ rw down h
          | inr up ↦ rw up (remove-IsHeld i j name c d.blobs apart target h)
        ]

    migrate_object-IsHeld :
        (i j : ℕ) (name : String) (size : ℤ) (d : Depot C)
        → (i == j) ≡ false
        → (str_eq key name ≡ true → IsExact minio size)
        → IsHeld key content d.blobs
        → IsHeld key content (migrate_object minio i j name size d).blobs
    unfolding migrate_object
    migrate_object-IsHeld i j name size d apart fits h = elim (Bool-cases (minio.fails d.calls)) [
      | inl down ↦ rw down h
      | inr up ↦ rw up (
          drop_source-IsHeld i j name size _ apart
            (copy_object-Copied i j name size (tick_depot d) fits h))
    ]

    migrate_all-IsHeld :
        (i j : ℕ) (listed : List (Option (String × ℤ))) (d : Depot C)
        → (i == j) ≡ false
        → All (IsExactEntry minio) listed
        → IsHeld key content d.blobs
        → IsHeld key content (migrate_all minio i j listed d).blobs
    unfolding migrate_all
    migrate_all-IsHeld i j [] d apart fits h = h
    migrate_all-IsHeld i j (none ∷ listed) d apart fits h =
        migrate_all-IsHeld i j listed d apart fits.1 h
    migrate_all-IsHeld i j (some (name, size) ∷ listed) d apart fits h =
        migrate_all-IsHeld i j listed _ apart fits.1
          (migrate_object-IsHeld i j name size d apart fits.0 h)

    migrate_to-IsHeld :
        (i : ℕ) (choice : Choice) (d : Depot C)
        → IsHeld key content d.blobs
        → IsHeld key content (migrate_to minio i choice d).blobs
    unfolding migrate_to migrate_files
    migrate_to-IsHeld i (chosen j) d h = elim (Bool-cases (i == j)) [
      | inl same ↦ rw same h
      | inr apart ↦ rw apart (
          migrate_all-IsHeld i j (minio.listing d.calls i) (tick_depot d) apart (exact d.calls i) h)
    ]
    migrate_to-IsHeld i no_nodes d h = h
    migrate_to-IsHeld i panics d h = h

    check_from-IsHeld :
        (threshold : ℤ) (n i : ℕ) (d : Depot C)
        → IsHeld key content d.blobs
        → IsHeld key content (check_from minio threshold n i d).blobs
    unfolding check_from
    check_from-IsHeld threshold zero i d h = h
    check_from-IsHeld threshold (suc n) i d h =
        check_from-IsHeld threshold n (i + 1) _ (of_node (get_elem? d.cluster.nodes i))
      where
        of_node :
            (o : Option StorageNode)
            → IsHeld key content
                (elim o as (λ _. Depot C) [
                  | none ↦ d
                  | some node ↦
                      if is_overfull minio threshold node
                      then migrate_to minio i (select_least_conn d.cluster) d
                      else d
                ]).blobs
        of_node none = h
        of_node (some node) = elim (Bool-cases (is_overfull minio threshold node)) [
          | inl full ↦ rw full (migrate_to-IsHeld i (select_least_conn d.cluster) d h)
          | inr light ↦ rw light h
        ]

    -- A migration loses no object, whichever calls fail and whichever keys are listed: if some node
    -- holds an object, and all nodes that have its key hold the same content, then this is so
    -- afterwards; provided that an entry of a listing under this key has a size with which `PutObject`
    -- stores this content whole, and of an unreadable object nothing else.
    pub check_and_migrate-IsHeld :
        (threshold : ℤ) (d : Depot C)
        → IsHeld key content d.blobs
        → IsHeld key content (check_and_migrate minio threshold d).blobs
    unfolding check_and_migrate
    check_and_migrate-IsHeld threshold d h =
        check_from-IsHeld threshold (length d.cluster.nodes) 0 d h
