-- ===== src/Tests/Folders.antt =====
-- The folders of a user at a concrete input: a folder in a folder in the root.
use cloud_vault.Base.{Option, [], arith, none, some, true, ℕ, ◌∷◌, ◌≢◌}
use cloud_vault.File.Climb.{IsRanked, is_child_folder-finishes}
use cloud_vault.File.Edit.{is_child_folder}
use cloud_vault.Rows.{UserFile}
use cloud_vault.Tests.Worlds.{env, report_file, world}
use cloud_vault.World.{World, unfinished}

abbrev folder_at : ℕ → Option ℕ → UserFile
folder_at id parent = record report_file {
  id = id;
  parent_id = parent;
  is_dir = true;
  object_id = none;
}

abbrev folders_world : World ℕ
folders_world = record world { files = folder_at 2 none ∷ folder_at 3 (some 2) ∷ []; next_file = 4 }

folders-IsRanked : IsRanked env (λ n. n) folders_world.files
folders-IsRanked = ((λ q e. ground arith), ((λ q e. ground arith), tt))

is_child_folder-finishes_example : (is_child_folder env 4 7 3 9 folders_world).0 ≢ unfinished
is_child_folder-finishes_example =
    is_child_folder-finishes env 4 7 3 9 folders_world (λ n. n) folders-IsRanked (omega arith)
