-- ===== src/Task/Redis/Decode.antt =====
-- The JSON document of a task: reading back what was written, and what the assignments of an update
-- do to the task that the document stands for.
use bi_ble_atlas.Base.{ℕ, String, true, Option, none, some, ◌≡◌, refl, arith}
use bi_ble_atlas.Base.Dict.{Dict, get, get-put}
use bi_ble_atlas.Base.Value.{Value, fields-to_fields}
use bi_ble_atlas.Base.Result.{ok}
use bi_ble_atlas.Task.{
  Status, running, completed, failed, cancelled, valid_transitions, is_allowed, AsyncTask,
}
use bi_ble_atlas.Task.Repository.{assign as assign_task}
use bi_ble_atlas.Task.Redis.{
  Backend, status_text, text_status, optional_dict, optional_text, text_value, dict_value,
  error_value, task_to_dict, task_from_dict, assign, put_some,
}

-- A status whose text stands for it: one of the five, or another text than theirs.
abbrev pub IsPlain : Status → Type 0
IsPlain s = text_status (status_text s) ≡ s

pub allowed-IsPlain : (s t : Status) → is_allowed t (valid_transitions s) ≡ true → IsPlain t
unfolding is_allowed valid_transitions text_status status_text
allowed-IsPlain s running h = refl
allowed-IsPlain s cancelled h = refl
allowed-IsPlain s completed h = refl
allowed-IsPlain s failed h = refl
allowed-IsPlain s t h = ground arith

dict_value-optional :
    (k : String) (o : Option (Dict Value)) → dict_value k (some (optional_dict o)) ≡ ok o
unfolding dict_value
dict_value-optional k none = refl
dict_value-optional k (some d) = rw (fields-to_fields d)

error_value-optional :
    (k : String) (o : Option String) → error_value k (some (optional_text o)) ≡ ok o
unfolding error_value
error_value-optional k none = refl
error_value-optional k (some d) = refl

module _ (b : Backend) where
  -- The document of a task is read back as that task.
  pub task_from_dict-task_to_dict :
      (t : AsyncTask) → IsPlain t.status → task_from_dict b (task_to_dict b t) ≡ ok t
  unfolding task_from_dict task_to_dict get text_value dict_value
  task_from_dict-task_to_dict t plain = simp (
    dict_value-optional, error_value-optional, fields-to_fields, plain, b.fromisoformat-isoformat,
  )

  -- The assignments to the document are those to the task.
  pub task_from_dict-assign :
      (now : ℕ) (status : Status) (result : Option (Dict Value)) (error : Option String)
      (d : Dict Value) (t : AsyncTask)
      → IsPlain status
      → task_from_dict b d ≡ ok t
      → task_from_dict b (assign b now status result error d)
        ≡ ok (assign_task now status result error t)
  unfolding task_from_dict assign put_some assign_task text_value dict_value error_value
  task_from_dict-assign now status none none d t plain h =
      simp get-put (ground (arith, b.fromisoformat-isoformat now))
  task_from_dict-assign now status none (some e) d t plain h =
      simp get-put (ground (arith, b.fromisoformat-isoformat now))
  task_from_dict-assign now status (some v) none d t plain h =
      simp get-put (ground (arith, b.fromisoformat-isoformat now, fields-to_fields v))
  task_from_dict-assign now status (some v) (some e) d t plain h =
      simp get-put (ground (arith, b.fromisoformat-isoformat now, fields-to_fields v))
