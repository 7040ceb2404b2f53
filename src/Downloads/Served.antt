-- ===== src/Downloads/Served.antt =====
-- Who is served with a file has it, and gets the object that it refers to.
use cloud_vault.Accounts.{Answer, rejected, served}
use cloud_vault.Archive.Held.{Among, Among-find?, Good, get_file_object_by_id-id}
use cloud_vault.Base.{
  Bool, Bool-cases, List, Option, String, [], arith, false, filter, find?, inl, inr, length, ltb,
  none, not, refl, some, str_eq, subst, sym, true, ℕ, ◌&&◌, ◌==◌, ◌||◌, ◌∷◌, ◌≡◌,
}
use cloud_vault.Downloads.{DownloadRequest, locate_by_hash, locate_by_id}
use cloud_vault.File.Recycle.{
  check_file_owner, get_user_file_by_id, get_user_file_by_object_id, is_file_of,
}
use cloud_vault.File.Table.{live, sql_eq}
use cloud_vault.Object.{get_file_object_by_id}
use cloud_vault.Object.Lookup.{get_file_object_by_hash-keeps}
use cloud_vault.Rows.{FileObject, UserFile}
use cloud_vault.World.{Env, M, Result, World, attempt, err, ok, pure, tick, unfinished, ◌>>=◌}
use cloud_vault.World.Rules.{
  Always, Post, Post-attempt, Post-bind, Post-first_eq, Post-if, Post-if_eq, Post-ok, Post-sql,
  Post-weaken, Tried,
}

-- Whether a row is a file of the user that is not deleted, with the id that is asked for, if one is
unfoldable pub is_asked : ℕ → DownloadRequest → UserFile → Bool
is_asked user req f =
    f.user_id == user && not f.is_deleted && live f && (req.file_id == 0 || f.id == req.file_id)

-- The row and the object of an answer
pub record IsServed (files : List UserFile) (user : ℕ) (req : DownloadRequest) (f : UserFile)
    (o : FileObject) : Type 0 where
  pub asked : is_asked user req f ≡ true
  pub row : Among files f
  pub object : sql_eq f.object_id (some o.id) ≡ true

-- The id of a row is its key.
abbrev pub IsKeyed : List UserFile → Type 0
IsKeyed files =
    (f g : UserFile) → Among files f → Among files g → f.id ≡ g.id → f.user_id ≡ g.user_id

Among-length :
    (p : UserFile → Bool) (files : List UserFile)
    → ltb 0 (length (filter p files)) ≡ true
    → (f : UserFile) × (p f ≡ true) × Among files f
Among-length p [] h = ground arith
Among-length p (g ∷ files) h = elim (Bool-cases (p g)) [
  | inl yes_it ↦ (g, yes_it, (λ q t. rw t refl))
  | inr not_it ↦
      let (f, it, among) = Among-length p files (rw not_it at h) in
      (f, it, (λ q t. ground (arith, among q t)))
]

module _ {S : Type 0} (env : Env S) (files : List UserFile) (keyed : IsKeyed files) (user : ℕ) where
  abbrev Kept : World S → Type 0
  Kept v = Good env files user v

  abbrev Any : World S → Type 0
  Any v = Unit

  -- An answer with a file is right.
  abbrev pub IsServedBy : DownloadRequest → Answer (UserFile × FileObject) → Type 0
  IsServedBy req (served (f, o)) = IsServed files user req f o
  IsServedBy req (rejected _ _) = Unit

  abbrev Located : DownloadRequest → Answer (UserFile × FileObject) → World S → Type 0
  Located req a v = IsServedBy req a

  -- What the count of rows says, if it is not 0
  abbrev Owned : ℕ → Bool → World S → Type 0
  Owned id owned v =
      (owned ≡ true
        → (g : UserFile) × ((is_file_of user id g && not g.is_deleted && live g) ≡ true)
          × Among files g)
      × Kept v

  abbrev counted : ℕ → World S → ℕ
  counted id v = length (filter (λ f. is_file_of user id f && not f.is_deleted && live f) v.files)

  check_file_owner-Owned :
      (id : ℕ) (v : World S) → Kept v → Post (Owned id) Any (check_file_owner env user id v)
  unfolding check_file_owner
  check_file_owner-Owned id v h =
      Post-bind (Tried (λ n u. (n ≡ counted id v) × Kept u) Kept) Any (Owned id) _ _ v
        (Post-weaken _ Kept Any _ (λ _ _. tt)
          (Post-attempt _ Kept _ v (Post-sql _ Kept env _ v h (Post-ok _ _ _ (tick v) (refl, h)))))
        settle
    where
      settle :
          (r : Result ℕ) (u : World S)
          → Tried (λ n t. (n ≡ counted id v) × Kept t) Kept r u
          → Post (Owned id) Any (
              (elim r as (λ _. M S Bool) [
                | ok n ↦ pure (ltb 0 n)
                | err _ ↦ pure false
                | unfinished ↦ pure false
              ])
                u)
      settle (ok n) u p = Post-ok _ _ _ u (
        (λ more.
            Among-length (λ f. is_file_of user id f && not f.is_deleted && live f) files
              (subst
                (λ fs.
                  ltb 0
                    (length (filter (λ f. is_file_of user id f && not f.is_deleted && live f) fs))
                  ≡ true)
                h.0 (subst (λ k. ltb 0 k ≡ true) p.0 more))),
        p.1,
      )
      settle (err _) u p = Post-ok _ _ _ u ((λ more. ground arith), p)
      settle unfinished u p = Post-ok _ _ _ u ((λ more. ground arith), p)

  -- The object of a row that was found by its id
  object_by_id :
      (req : DownloadRequest) (f : UserFile) (object : Option ℕ) (v : World S)
      → is_asked user req f ≡ true
      → Among files f
      → f.object_id ≡ object
      → Kept v
      → Post (Located req) Any (
          (elim object as (λ _. M S (Answer (UserFile × FileObject))) [
            | none ↦ pure (rejected 404 "file not found")
            | some n ↦ (do
              stored_as ← attempt (get_file_object_by_id env n)
              elim stored_as [
                | ok o ↦ pure (served (f, o))
                | err _ ↦ pure (rejected 404 "file not found")
                | unfinished ↦ pure (rejected 404 "file not found")
              ])
          ])
            v)
  object_by_id req f none v asked row e h = Post-ok _ _ _ v tt
  object_by_id req f (some n) v asked row e h =
      Post-bind (Tried (λ o u. (o.id ≡ n) × Kept u) Any) Any (Located req) _ _ v
        (Post-attempt _ _ _ v (get_file_object_by_id-id env files user n v h)) settle
    where
      settle :
          (r : Result FileObject) (u : World S)
          → Tried (λ o t. (o.id ≡ n) × Kept t) Any r u
          → Post (Located req) Any (
              (elim r as (λ _. M S (Answer (UserFile × FileObject))) [
                | ok o ↦ pure (served (f, o))
                | err _ ↦ pure (rejected 404 "file not found")
                | unfinished ↦ pure (rejected 404 "file not found")
              ])
                u)
      settle (ok o) u p =
          let same : n ≡ o.id = sym p.0 in
          Post-ok _ _ _ u
            (record { asked = asked; row = row; object = rw e (ground (arith, same)) })
      settle (err _) u p = Post-ok _ _ _ u tt
      settle unfinished u p = Post-ok _ _ _ u tt

  pub locate_by_id-Located :
      (req : DownloadRequest) (v : World S)
      → Kept v
      → Post (Located req) Any (locate_by_id env user req.file_id v)
  unfolding locate_by_id get_user_file_by_id is_asked
  locate_by_id-Located req v h =
      Post-bind (Owned req.file_id) Any (Located req) _ _ v (check_file_owner-Owned req.file_id v h)
        (λ owned u p.
          Post-if_eq _ _ (not owned) _ _ u (λ _. Post-ok _ _ _ u tt)
            (λ its.
              Post-bind (Tried (Row owned) Any) Any (Located req) _ _ u
                (Post-attempt _ _ _ u
                  (Post-first_eq (Row owned) Any env _ u tt (λ f found. row_of owned f u p found)))
                (settle owned (ground (arith, its)) p.0)))
    where
      Row : Bool → UserFile → World S → Type 0
      Row owned f t =
          ((f.id == req.file_id && not f.is_deleted && live f) ≡ true) × Among files f × Kept t

      row_of :
          (owned : Bool) (f : UserFile) (u : World S)
          → Owned req.file_id owned u
          → find? (λ g. g.id == req.file_id && not g.is_deleted && live g) u.files ≡ some f
          → Row owned f (tick u)
      row_of owned f u p found =
          let test : UserFile → Bool = λ g. g.id == req.file_id && not g.is_deleted && live g in
          let (it, among) =
            Among-find? test files f (subst (λ fs. find? test fs ≡ some f) p.1.0 found) in
          (it, among, p.1)

      asked_of :
          (f g : UserFile)
          → (f.id == req.file_id && not f.is_deleted && live f) ≡ true
          → Among files f
          → (is_file_of user req.file_id g && not g.is_deleted && live g) ≡ true
          → Among files g
          → is_asked user req f ≡ true
      asked_of f g it row mine there =
          let same_id : f.id ≡ g.id = ground (arith, it, mine) in
          let owner : f.user_id ≡ g.user_id = keyed f g row there same_id in
          ground (arith, it, mine, owner)

      settle :
          (owned : Bool)
          → owned ≡ true
          → (owned ≡ true
              → (g : UserFile) × ((is_file_of user req.file_id g && not g.is_deleted && live g)
                  ≡ true)
                × Among files g)
          → (found : Result UserFile) (u : World S) → Tried (Row owned) Any found u
          → Post (Located req) Any (
              (elim found as (λ _. M S (Answer (UserFile × FileObject))) [
                | ok f ↦ elim f.object_id [
                  | none ↦ pure (rejected 404 "file not found")
                  | some object ↦ (do
                    stored_as ← attempt (get_file_object_by_id env object)
                    elim stored_as [
                      | ok o ↦ pure (served (f, o))
                      | err _ ↦ pure (rejected 404 "file not found")
                      | unfinished ↦ pure (rejected 404 "file not found")
                    ])
                ]
                | err _ ↦ pure (rejected 404 "file not found")
                | unfinished ↦ pure (rejected 404 "file not found")
              ])
                u)
      settle owned its who (ok f) u p =
          let (g, mine, there) = who its in
          object_by_id req f f.object_id u (asked_of f g p.0 p.1 mine there) p.1 refl p.2
      settle owned its who (err _) u p = Post-ok _ _ _ u tt
      settle owned its who unfinished u p = Post-ok _ _ _ u tt

  abbrev SameFiles : World S → Type 0
  SameFiles v = v.files ≡ files

  pub locate_by_hash-Located :
      (req : DownloadRequest) (hash : String) (v : World S)
      → (req.file_id == 0) ≡ true
      → SameFiles v
      → Post (Located req) Any (locate_by_hash env user hash v)
  unfolding locate_by_hash get_user_file_by_object_id is_asked
  locate_by_hash-Located req hash v no_id h =
      Post-if _ _ (str_eq hash "") _ _ v (Post-ok _ _ _ v tt) (
        Post-bind (Tried (Always SameFiles) SameFiles) Any (Located req) _ _ v
          (Post-weaken _ SameFiles Any _ (λ _ _. tt)
            (Post-attempt _ _ _ v
              (get_file_object_by_hash-keeps env SameFiles (λ _ _ _ _ _ q. q) hash v h)))
          settle)
    where
      served_of :
          (o : FileObject) (r : Result UserFile) (u : World S)
          → Tried (λ f _. IsServed files user req f o) Any r u
          → Post (Located req) Any (
              (elim r as (λ _. M S (Answer (UserFile × FileObject))) [
                | ok f ↦ pure (served (f, o))
                | err _ ↦ pure (rejected 403 "file not found")
                | unfinished ↦ pure (rejected 403 "file not found")
              ])
                u)
      served_of o (ok f) u p = Post-ok _ _ _ u p
      served_of o (err _) u p = Post-ok _ _ _ u tt
      served_of o unfinished u p = Post-ok _ _ _ u tt

      of_row :
          (o : FileObject) (u : World S) (f : UserFile)
          → SameFiles u
          → find?
              (λ g.
                g.user_id == user
                && sql_eq g.object_id (some o.id)
                && not g.is_deleted
                && not g.is_dir
                && live g)
              u.files
            ≡ some f
          → IsServed files user req f o
      of_row o u f same found =
          let test : UserFile → Bool = λ g.
            g.user_id == user
            && sql_eq g.object_id (some o.id)
            && not g.is_deleted
            && not g.is_dir
            && live g in
          let (it, among) =
            Among-find? test files f (subst (λ fs. find? test fs ≡ some f) same found) in
          record { asked = ground (arith, it, no_id); row = among; object = ground (arith, it) }

      settle :
          (r : Result FileObject) (u : World S)
          → Tried (Always SameFiles) SameFiles r u
          → Post (Located req) Any (
              (elim r as (λ _. M S (Answer (UserFile × FileObject))) [
                | ok o ↦ (do
                  found ← attempt (get_user_file_by_object_id env user o.id)
                  elim found [
                    | ok f ↦ pure (served (f, o))
                    | err _ ↦ pure (rejected 403 "file not found")
                    | unfinished ↦ pure (rejected 403 "file not found")
                  ])
                | err _ ↦ pure (rejected 404 "file not found")
                | unfinished ↦ pure (rejected 404 "file not found")
              ])
                u)
      settle (ok o) u p =
          Post-bind (Tried (λ f _. IsServed files user req f o) Any) Any (Located req) _ _ u
            (Post-attempt _ _ _ u
              (Post-first_eq _ Any env _ u tt (λ f found. of_row o u f p found)))
            (λ r t q. served_of o r t q)
      settle (err _) u p = Post-ok _ _ _ u tt
      settle unfinished u p = Post-ok _ _ _ u tt
