-- ===== src/Upload/Sweep.antt =====
-- The removal of old task workspaces: `sweep_expired_task_workspaces` of store_memory.py and `_sweep_once` of
-- workspace_sweeper.py. Times are whole seconds.
pub mod Laws
mod Tests
use bi_ble_atlas.Base.{
  ℕ, suc, ◌+◌, ◌*◌, String, Bool, true, false, ◌&&◌, Option, none, some, List, [], ◌∷◌, ltb, leb,
  if◌then◌else◌,
}

-- An entry of the directory of workspaces; `entry.stat()` gives no time where it raises.
pub record Entry : Type 0 where
  pub path : String
  pub is_dir : Bool
  pub mtime : Option ℕ

-- `mtime < time.time() - ttl_hours * 3600`
abbrev pub is_expired : (now ttl_hours : ℕ) → Option ℕ → Bool
is_expired now ttl_hours none = false
is_expired now ttl_hours (some mtime) = ltb (mtime + ttl_hours * 3600) now

unfoldable pub is_swept : (now ttl_hours : ℕ) → Entry → Bool
is_swept now ttl_hours entry = entry.is_dir && is_expired now ttl_hours entry.mtime

abbrev pub removed_first : String → List String × ℕ → List String × ℕ
removed_first path (removed, deleted) = (path ∷ removed, deleted)

-- The loop over the entries, from a count on: the workspaces that `rmtree` is called on, in their order, and
-- the count at the end. `rmtree` ignores errors, so that each is counted.
unfoldable pub sweep_entries :
    (now ttl_hours limit : ℕ) → List Entry → (deleted : ℕ) → List String × ℕ
unfolding is_swept
sweep_entries now ttl_hours limit [] deleted = ([], deleted)
sweep_entries now ttl_hours limit (entry ∷ entries) deleted =
    let rest = sweep_entries now ttl_hours limit entries in
    if leb limit deleted
    then ([], deleted)
    else if is_swept now ttl_hours entry
    then removed_first entry.path (rest (suc deleted))
    else rest deleted

-- `sweep_expired_task_workspaces`; there are no entries where the directory does not exist.
unfoldable pub sweep_expired_task_workspaces :
    (now ttl_hours limit : ℕ) → Option (List Entry) → List String × ℕ
unfolding sweep_entries
sweep_expired_task_workspaces now ttl_hours limit none = ([], 0)
sweep_expired_task_workspaces now ttl_hours limit (some entries) =
    sweep_entries now ttl_hours limit entries 0

-- `_sweep_once`: with the limit that is the default.
unfoldable pub sweep_once : (now ttl_hours : ℕ) → Option (List Entry) → List String × ℕ
unfolding sweep_expired_task_workspaces
sweep_once now ttl_hours entries = sweep_expired_task_workspaces now ttl_hours 1000 entries
