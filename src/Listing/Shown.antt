-- ===== src/Listing/Shown.antt =====
-- A listing shows rows of its user and folder, and no more than a page, from the cache or the table.
use cloud_vault.Accounts.{Answer, rejected, served}
use cloud_vault.Base.{
  List, Option, filter, length, none, not_some, refl, some, suc, zero, ℕ, ◌∙◌, ◌≡◌,
}
use cloud_vault.Base.Text.{Text, codes}
use cloud_vault.Downloads.{on_shelf}
use cloud_vault.Listing.{
  ListRequest, get_file_list, get_file_list_request, is_listed, key_of, list_rows, order_clause,
  page_of, put_list_cache, record_browse, with_defaults,
}
use cloud_vault.Listing.Pages.{
  IsAnswered, IsListRight, IsListed, IsOrder, page_of-IsListed, put_list_cache-IsListRight,
}
use cloud_vault.Rows.{FileListCache, ListKey, UserFile}
use cloud_vault.World.{Env, M, Result, World, err, ok, pure, redis, tick, unfinished, ◌>>=◌, ◌>>◌}
use cloud_vault.World.Rules.{
  Always, Post, Post-attempt, Post-bind, Post-ok, Post-redis, Post-redis_get_eq, Post-sql, Tried,
}

module _ {S : Type 0} (env : Env S) (ordered : Text → List UserFile → List UserFile)
    (order : IsOrder ordered) where
  -- What is shown for a key, with the cache in order.
  abbrev Shown : ListKey → FileListCache → World S → Type 0
  Shown k c v = IsListed k c × IsListRight v

  list_rows-Shown :
      (user : ℕ) (req : ListRequest) (w : World S)
      → IsListRight w
      → Post
          (Shown (key_of user req))
          IsListRight
          (list_rows env ordered (is_listed user req.parent_id) req w)
  unfolding list_rows
  list_rows-Shown user req w right =
      Post-bind
        (λ total v.
          (total ≡ length (filter (is_listed user req.parent_id) w.files))
          × (v.files ≡ w.files)
          × IsListRight v)
        IsListRight (Shown (key_of user req)) _ _ w
        (Post-sql _ IsListRight env _ w right (Post-ok _ _ _ (tick w) (refl, refl, right)))
        (λ total v p.
          Post-bind
            (λ files u.
              IsListed (key_of user req) (record { files = files; total = total }) × IsListRight u)
            IsListRight (Shown (key_of user req)) _ _ v
            (Post-sql _ IsListRight env _ v p.2 (Post-ok _ _ _ (tick v) (at_once total v p, p.2)))
            (λ files u q. Post-ok _ _ _ u q))
    where
      by : Text
      by = order_clause (codes req.order_by) req.order_desc

      at_once :
          (total : ℕ) (v : World S)
          → (total ≡ length (filter (is_listed user req.parent_id) w.files))
            × (v.files ≡ w.files)
            × IsListRight v
          → IsListed (key_of user req) (record {
            files =
                page_of req.page req.page_size
                  (ordered by (filter (is_listed user req.parent_id) v.files));
            total = total;
          })
      at_once total v p = rw (p.0, p.1) (page_of-IsListed ordered order by user req w.files)

  get_file_list-Shown :
      (user : ℕ) (req : ListRequest) (w : World S)
      → IsListRight w
      → Post (Shown (key_of user req)) IsListRight (get_file_list env ordered user req w)
  unfolding get_file_list
  get_file_list-Shown user req w right =
      Post-bind
        (λ cached v. ((c : FileListCache) → cached ≡ some c → IsListed key c) × IsListRight v)
        IsListRight (Shown key) _ _ w
        (Post-redis_get_eq IsListRight env _ _ w ((λ c e. absurd (not_some c e)), right)
          (λ a found. ((λ c e. right key c (found ∙ e)), right)))
        settle
    where
      key : ListKey
      key = key_of user req

      settle :
          (cached : Option FileListCache) (v : World S)
          → ((c : FileListCache) → cached ≡ some c → IsListed key c) × IsListRight v
          → Post (Shown key) IsListRight (
              (elim cached as (λ _. M S FileListCache) [
                | some c ↦ pure c
                | none ↦ (do
                  c ← list_rows env ordered (is_listed user req.parent_id) req
                  redis env (put_list_cache key c)
                  pure c)
              ])
                v)
      settle (some c) v p = Post-ok _ _ c v (p.0 c refl, p.1)
      settle none v p =
          Post-bind (Shown key) IsListRight (Shown key) _ _ v (list_rows-Shown user req v p.1)
            (λ c u q.
              Post-bind (Always IsListRight) IsListRight (Shown key) _ _ u
                (Post-redis IsListRight env (Always IsListRight) _ u q.1
                  (put_list_cache-IsListRight key c (tick u) q.0 q.1))
                (λ _ t r. Post-ok _ _ c t (q.0, r)))

  record_browse-keeps :
      (user : ℕ) (parent : Option ℕ) (w : World S)
      → IsListRight w
      → Post (Always IsListRight) IsListRight (record_browse env user parent w)
  unfolding record_browse on_shelf Post ◌>>=◌
  record_browse-keeps user none w right = right
  record_browse-keeps user (some zero) w right = right
  record_browse-keeps user (some (suc n)) w right = right

  -- A listing, whichever of its calls fail, shows rows of the user in the folder that are not
  -- deleted, no more than the page size and than the total that is sent with them, from the cache as
  -- from the table; and each cached list stays one that may be shown for its key; if this is so
  -- before, and ORDER BY neither adds nor drops rows.
  pub get_file_list_request-IsListed :
      (user : ℕ) (asked : ListRequest) (w : World S)
      → IsListRight w
      → Post
          (λ answer v. IsAnswered (key_of user (with_defaults asked)) answer × IsListRight v)
          IsListRight
          (get_file_list_request env ordered user asked w)
  unfolding get_file_list_request
  get_file_list_request-IsListed user asked w right =
      Post-bind (Tried (Shown key) IsListRight) IsListRight Served _ _ w
        (Post-attempt _ _ _ w (get_file_list-Shown user req w right)) settle
    where
      req : ListRequest
      req = with_defaults asked

      key : ListKey
      key = key_of user req

      Served : Answer FileListCache → World S → Type 0
      Served answer v = IsAnswered key answer × IsListRight v

      settle :
          (listed : Result FileListCache) (v : World S)
          → Tried (Shown key) IsListRight listed v
          → Post Served IsListRight (
              (elim listed as (λ _. M S (Answer FileListCache)) [
                | ok c ↦ (do record_browse env user req.parent_id; pure (served c))
                | err _ ↦ pure (rejected 500 "")
                | unfinished ↦ pure (rejected 500 "")
              ])
                v)
      settle (ok c) v p =
          Post-bind (Always IsListRight) IsListRight Served _ _ v
            (record_browse-keeps user req.parent_id v p.1)
            (λ _ u q. Post-ok _ _ (served c) u (p.0, q))
      settle (err _) v p = Post-ok _ _ _ v (tt, p)
      settle unfinished v p = Post-ok _ _ _ v (tt, p)
