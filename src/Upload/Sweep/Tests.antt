-- ===== src/Upload/Sweep/Tests.antt =====
-- Sweeps of a directory with four entries.
use bi_ble_atlas.Base.{◌≡◌, ◌≤◌, refl, true, false, none, some, List, [], ◌∷◌, length}
use bi_ble_atlas.Database.Chunked.{take}
use bi_ble_atlas.Upload.Sweep.{Entry, sweep_expired_task_workspaces, sweep_once}
use bi_ble_atlas.Upload.Sweep.Laws.{expired, sweep_expired_task_workspaces-expired}

abbrev entries : List Entry
entries =
    record { path = "a"; is_dir = true; mtime = some 100 }
    ∷ record { path = "b"; is_dir = false; mtime = some 100 }
    ∷ record { path = "c"; is_dir = true; mtime = none }
    ∷ record { path = "d"; is_dir = true; mtime = some 9000 }
    ∷ record { path = "e"; is_dir = true; mtime = some 200 }
    ∷ []

swept_once : sweep_once 10000 1 (some entries) ≡ ("a" ∷ "e" ∷ [], 2)
unfolding sweep_once
swept_once = refl

no_directory : sweep_once 10000 1 none ≡ ([], 0)
unfolding sweep_once
no_directory = refl

sweep_expired_task_workspaces-expired_example :
    ((sweep_expired_task_workspaces 10000 1 1 (some entries)).0 ≡ take 1 (expired 10000 1 entries))
    × ((sweep_expired_task_workspaces 10000 1 1 (some entries)).1
        ≡ length (take 1 (expired 10000 1 entries)))
    × ((sweep_expired_task_workspaces 10000 1 1 (some entries)).1 ≤ 1)
sweep_expired_task_workspaces-expired_example =
    sweep_expired_task_workspaces-expired 10000 1 1 entries
