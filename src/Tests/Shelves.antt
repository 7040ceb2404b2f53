-- ===== src/Tests/Shelves.antt =====
-- Favourites and recent files at concrete inputs.
use cloud_vault.Base.{List, [], any, arith, false, refl, true, ℕ, ◌∷◌, ◌≡◌}
use cloud_vault.Base.Int.{pos}
use cloud_vault.Base.Text.{Text, codes}
use cloud_vault.Shelf.{
  Library, Shelver, accepted, add_favorite, is_favorite_of, owns_file, remove_favorite,
}
use cloud_vault.Shelf.Marks.{
  accesses, record_all, record_all-accesses, remove_favorite-add_favorite,
}
use cloud_vault.Tests.Worlds.{report_file}

abbrev shelver : Shelver
shelver = record { db_fails = λ n. false; clock = λ n. pos n }

abbrev library : Library
library = record { calls = 0; files = report_file ∷ []; favorites = []; recents = [] }

remove_favorite-add_favorite_example :
    (any (is_favorite_of 7 1) (add_favorite shelver 7 1 library).1.favorites ≡ true)
    × ((remove_favorite shelver 7 1 (add_favorite shelver 7 1 library).1).0 ≡ accepted)
    × ((remove_favorite shelver 7 1 (add_favorite shelver 7 1 library).1).1.favorites ≡ [])
unfolding add_favorite owns_file
remove_favorite-add_favorite_example =
    remove_favorite-add_favorite shelver 7 1 library refl refl refl

abbrev opened : List (ℕ × ℕ × Text)
opened = (7, 1, codes "Web") ∷ (8, 1, codes "web") ∷ (7, 1, []) ∷ []

record_all-accesses_example : accesses 7 1 (record_all shelver opened library).recents ≡ 2
unfolding accesses
record_all-accesses_example =
    record_all-accesses shelver 7 1 opened library (λ n. refl) (omega arith) (omega arith) refl
