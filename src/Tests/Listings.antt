-- ===== src/Tests/Listings.antt =====
-- A listing of the root at a concrete input, where the page is kept in the cache.
use cloud_vault.Accounts.{served}
use cloud_vault.Base.{List, [], false, none, not_some, refl, ◌∷◌, ◌≡◌}
use cloud_vault.Base.Int.{pos}
use cloud_vault.Base.Text.{Text}
use cloud_vault.Listing.{
  ListRequest, get_file_list, get_file_list_request, key_of, list_rows, page_of, record_browse,
  with_defaults,
}
use cloud_vault.Listing.Pages.{IsAnswered, IsListRight, IsOrder}
use cloud_vault.Listing.Shown.{get_file_list_request-IsListed}
use cloud_vault.Rows.{UserFile}
use cloud_vault.Tests.Worlds.{env, report_file, world}
use cloud_vault.World.{attempt, ok, redis, redis_get, sql, ◌>>=◌}
use cloud_vault.World.Rules.{Post}

abbrev asked : ListRequest
asked = record {
  parent_id = none;
  page = pos 0;
  page_size = pos 0;
  order_by = "name";
  order_desc = false;
}

abbrev as_stored : Text → List UserFile → List UserFile
as_stored by rows = rows

as_stored-IsOrder : IsOrder as_stored
as_stored-IsOrder = record { same_rows = λ by P rows h. h; same_length = λ by rows. refl }

get_file_list_request-IsListed_example :
    Post
      (λ answer v. IsAnswered (key_of 7 (with_defaults asked)) answer × IsListRight v)
      IsListRight
      (get_file_list_request env as_stored 7 asked world)
get_file_list_request-IsListed_example =
    get_file_list_request-IsListed env as_stored as_stored-IsOrder 7 asked world
      (λ k c e. absurd (not_some c e))

-- The file is shown, with the size of a page that is the default.
shown :
    (get_file_list_request env as_stored 7 asked world).0
    ≡ ok (served (record { files = report_file ∷ []; total = 1 }))
unfolding get_file_list_request get_file_list list_rows page_of record_browse redis_get redis sql
    attempt ◌>>=◌
shown = refl
