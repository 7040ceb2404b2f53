-- ===== src/Archive/Held.antt =====
-- The rows behind the entries of an archive, and the objects that are found for them.
use cloud_vault.Archive.{ArchiveEntry, object_of}
use cloud_vault.Archive.Paths.{IsInside}
use cloud_vault.Base.{
  All, All-weaken, Bool, Bool-cases, List, Option, [], any, ap, arith, false, filter, find?,
  if◌then◌else◌, inl, inr, none, not, not_some, refl, some, str_eq, subst, sym, true, ℕ, ◌&&◌, ◌++◌,
  ◌==◌, ◌||◌, ◌∙◌, ◌∷◌, ◌≡◌, ◌⊎◌,
}
use cloud_vault.Base.Text.{Text, codes}
use cloud_vault.File.Table.{live, sql_eq}
use cloud_vault.Object.{cache_file_object, get_file_object_by_id}
use cloud_vault.Rows.{FileObject, UserFile, message}
use cloud_vault.World.{Env, M, World, fail, first, pure, redis_get}
use cloud_vault.World.Rules.{
  Always, Post, Post-bind, Post-err, Post-first_eq, Post-if, Post-imply, Post-ok, Post-redis,
}

-- Whether a row stands behind an entry for the user
unfoldable pub holds_for : ℕ → ArchiveEntry → UserFile → Bool
holds_for user e f = f.user_id == user && not f.is_deleted && live f && (elim e.file_obj [
  | none ↦ f.is_dir && e.is_dir
  | some o ↦ not f.is_dir && not e.is_dir && sql_eq f.object_id (some o.id)
])

-- An entry for a file of the user, or for a folder, whose path ends in a slash
pub record IsOwn (files : List UserFile) (user : ℕ) (e : ArchiveEntry) : Type 0 where
  pub row : any (holds_for user e) files ≡ true
  pub place :
      (path : Text) × IsInside path × ((e.zip_path ≡ path) ⊎ (e.zip_path ≡ path ++ codes "/"))

-- The object that is cached under an id has this id.
abbrev pub IsCacheRight : {S : Type 0} → World S → Type 0
IsCacheRight w = (k : ℕ) (o : FileObject) → w.object_cache k ≡ some o → o.id ≡ k

-- A row that is among others
abbrev pub Among : List UserFile → UserFile → Type 0
Among files f = (q : UserFile → Bool) → q f ≡ true → any q files ≡ true

pub Among-find? :
    (p : UserFile → Bool) (files : List UserFile) (f : UserFile)
    → find? p files ≡ some f
    → (p f ≡ true) × Among files f
Among-find? p [] f h = absurd (not_some f h)
Among-find? p (g ∷ files) f h = elim (Bool-cases (p g)) [
  | inl yes_it ↦
      let same : g ≡ f = cc (rw yes_it at h) in
      (subst (λ x. p x ≡ true) same yes_it, λ q t. rw (ap q same ∙ t) refl)
  | inr not_it ↦
      let (t, among) = Among-find? p files f (rw not_it at h) in
      (t, λ q s. ground (arith, among q s))
]

pub Among-filter :
    (p : UserFile → Bool) (files : List UserFile)
    → All (λ f. (p f ≡ true) × Among files f) (filter p files)
Among-filter p [] = tt
Among-filter p (g ∷ files) =
    let rest =
      All-weaken (λ f. (p f ≡ true) × Among files f) (λ f. (p f ≡ true) × Among (g ∷ files) f) _
        (λ f h. (h.0, λ q s. ground (arith, h.1 q s))) (Among-filter p files) in
    elim (Bool-cases (p g)) [
      | inl yes_it ↦ rw yes_it ((yes_it, λ q t. rw t refl), rest)
      | inr not_it ↦ rw not_it rest
    ]

found-id :
    (id : ℕ) (objects : List FileObject) (o : FileObject)
    → find? (λ x. x.id == id) objects ≡ some o
    → o.id ≡ id
found-id id [] o e = absurd (not_some o e)
found-id id (x ∷ objects) o e = elim (Bool-cases (x.id == id)) [
  | inl this ↦
      let same : ◌≡◌ {A = FileObject} x o = cc (rw this at e) in
      let key : x.id ≡ id = ground arith in ap (λ (y : FileObject). y.id) (sym same) ∙ key
  | inr other_one ↦ found-id id objects o (rw other_one at e)
]

module _ {S : Type 0} (env : Env S) (files : List UserFile) (user : ℕ) where
  -- The files are these, and the cache of the objects is right.
  abbrev pub Good : World S → Type 0
  Good v = (v.files ≡ files) × IsCacheRight v

  abbrev pub Done : World S → Type 0
  Done v = Unit

  abbrev pub Owned : List ArchiveEntry → World S → Type 0
  Owned entries v = All (IsOwn files user) entries × Good v

  cache_file_object-Good :
      (o : FileObject) (v : World S)
      → Good v
      → Post (λ _ u. Good u) Done (cache_file_object env o v)
  unfolding cache_file_object
  cache_file_object-Good o v h =
      Post-bind (Always Good) Done _ _ _ v (Post-redis Done env (Always Good) _ v h (h.0, cached))
        (λ _ u p.
          Post-bind (Always Good) Done _ _ _ u
            (Post-if _ _ (str_eq o.hash "") _ _ u (Post-ok _ _ _ _ p)
              (Post-redis Done env (Always Good) _ u p p))
            (λ _ t q.
              Post-if _ _ (str_eq o.bucket_name "" || str_eq o.object_name "") _ _ t
                (Post-ok _ _ _ _ q) (Post-redis Done env (Always Good) _ t q q)))
    where
      cached :
          (k : ℕ) (x : FileObject)
          → (if k == o.id then some o else v.object_cache k) ≡ some x
          → x.id ≡ k
      cached k x e = elim (Bool-cases (k == o.id)) [
        | inl this ↦
            let same : ◌≡◌ {A = FileObject} o x = cc (rw this at e) in
            let key : k ≡ o.id = ground arith in ap (λ (y : FileObject). y.id) (sym same) ∙ sym key
        | inr other_one ↦ h.1 k x (cc (rw other_one at e))
      ]

  -- What the cache says of an id
  cached-id :
      (b : Bool) (cached : Option FileObject) (id : ℕ) (o : FileObject)
      → ((x : FileObject) → cached ≡ some x → x.id ≡ id)
      → (if b then none else cached) ≡ some o
      → o.id ≡ id
  cached-id true cached id o right e = absurd (not_some o e)
  cached-id false cached id o right e = right o e

  abbrev pub WithId : ℕ → FileObject → World S → Type 0
  WithId id o v = (o.id ≡ id) × Good v

  read_object-id :
      (id : ℕ) (v : World S)
      → Good v
      → Post
          (λ cached u. ((x : FileObject) → cached ≡ some x → x.id ≡ id) × Good u)
          Done
          (redis_get env (λ (u : World S). u.object_cache id) v)
  unfolding redis_get Post
  read_object-id id v h =
      (λ x e. cached-id (env.redis_fails v.calls) (v.object_cache id) id x (h.1 id) e, h)

  pub get_file_object_by_id-id :
      (id : ℕ) (v : World S) → Good v → Post (WithId id) Done (get_file_object_by_id env id v)
  unfolding get_file_object_by_id
  get_file_object_by_id-id id v h =
      Post-bind (λ cached u. ((x : FileObject) → cached ≡ some x → x.id ≡ id) × Good u) Done
        (WithId id) _ _ v (read_object-id id v h)
        (λ cached u p. Post-bind (WithId id) Done (WithId id) _ _ u (source cached u p) (λ o t q.
          Post-bind (Always Good) Done (WithId id) _ _ t (cache_file_object-Good o t q.1)
            (λ _ r good. Post-ok _ _ o r (q.0, good))))
    where
      source :
          (cached : Option FileObject) (u : World S)
          → ((x : FileObject) → cached ≡ some x → x.id ≡ id) × Good u
          → Post (WithId id) Done (
              (elim cached as (λ _. M S FileObject) [
                | some obj ↦ pure obj
                | none ↦ first env (λ t. find? (λ o. o.id == id) t.objects)
              ])
                u)
      source (some obj) u p = Post-ok _ _ obj u (p.0 obj refl, p.1)
      source none u p =
          Post-first_eq (WithId id) Done env _ u tt (λ o e. (found-id id u.objects o e, p.1))

  pub object_of-id :
      (f : UserFile) (v : World S)
      → Good v
      → Post (λ o u. (sql_eq f.object_id (some o.id) ≡ true) × Good u) Done (object_of env f v)
  unfolding object_of
  object_of-id f v h = by_object f.object_id
    where
      by_object :
          (id : Option ℕ)
          → Post
              (λ o u. (sql_eq id (some o.id) ≡ true) × Good u)
              Done
              ((elim id as (λ _. M S FileObject) [
                | none ↦ fail (message "file has no object")
                | some n ↦ get_file_object_by_id env n
              ])
                v)
      by_object none = Post-err _ _ _ v tt
      by_object (some n) =
          Post-imply (WithId n) Done _ _ (λ o u q. (ground (arith, q.0), q.1))
            (get_file_object_by_id-id n v h)
