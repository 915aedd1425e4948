-- ===== src/Task/Redis.antt =====
-- bible/features/async_task/redis_repository.py: the repository in Redis, a JSON document per task.
-- The Redis client, `json` and the ISO format of times are not in the repository's sources: they are
-- the record `Backend`, with the laws that the code relies on. Expiry is not modelled: a key is read
-- before its `ttl` has run out. `list_by_type` is left out.
pub mod Decode
pub mod Store
pub mod Calls
pub mod Refines
pub mod Race
mod Tests
use mathlib.Core.Option
use bi_ble_atlas.Base.{
  ℕ, String, Bool, true, false, Option, none, some, List, [], ◌∷◌, ◌≡◌, ◌*◌, ◌==◌, text_append,
  if◌then◌else◌,
}
use bi_ble_atlas.Base.Dict.{Dict, get, put}
use bi_ble_atlas.Base.Value.{Value, null, str, obj, fields, dict_of}
use bi_ble_atlas.Base.Result.{Result, ok, raise, ◌>>=◌}
use bi_ble_atlas.Task.{
  Status, queued, running, completed, failed, cancelled, other, valid_transitions, is_allowed,
  AsyncTask, Exception, key_error, value_error,
}
use bi_ble_atlas.Task.Repository.{new_task}

pub record Backend : Type 1 where
  pub State : Type 0
  pub Json : Type 0
  -- GET, and SET with an expiry
  pub redis_get : String → State → Option Json
  pub redis_set : String → Json → ℕ → State → State
  pub redis_get-set :
      (j k : String) (v : Json) (ttl : ℕ) (s : State)
      → redis_get j (redis_set k v ttl s) ≡ (if k == j then some v else redis_get j s)
  -- `json.dumps` and `json.loads`
  pub dumps : Value → Json
  pub loads : Json → Value
  pub loads-dumps : (v : Value) → loads (dumps v) ≡ v
  -- `datetime.isoformat` and `datetime.fromisoformat`
  pub isoformat : ℕ → String
  pub fromisoformat : String → ℕ
  pub fromisoformat-isoformat : (t : ℕ) → fromisoformat (isoformat t) ≡ t

-- `_DEFAULT_TTL_SECONDS`
abbrev pub default_ttl_seconds : ℕ
default_ttl_seconds = 7 * 24 * 3600

-- `_key`
unfoldable pub key : String → String
key task_id = text_append "bible_atlas:task:" task_id

-- The text of a status, and the status that a text stands for.
unfoldable pub status_text : Status → String
status_text queued = "queued"
status_text running = "running"
status_text completed = "completed"
status_text failed = "failed"
status_text cancelled = "cancelled"
status_text (other s) = s

unfoldable pub text_status : String → Status
text_status s =
    if s == "queued"
    then queued
    else if s == "running"
    then running
    else if s == "completed"
    then completed
    else if s == "failed"
    then failed
    else if s == "cancelled"
    then cancelled
    else other s

abbrev pub optional_dict : Option (Dict Value) → Value
optional_dict none = null
optional_dict (some d) = dict_of d

abbrev pub optional_text : Option String → Value
optional_text none = null
optional_text (some s) = str s

-- `data[k]` where a text is expected. A document of another shape, which nothing here writes, is a
-- `value_error` of the model.
unfoldable pub text_value : String → Option Value → Result Exception String
text_value k none = raise (key_error k)
text_value k (some (str s)) = ok s
text_value k (some _) = raise (value_error k)

-- `data.get(k)` where a dictionary or `None` is expected.
unfoldable pub dict_value : String → Option Value → Result Exception (Option (Dict Value))
dict_value k none = ok none
dict_value k (some null) = ok none
dict_value k (some (obj fs)) = ok (some (fields fs))
dict_value k (some _) = raise (value_error k)

unfoldable pub error_value : String → Option Value → Result Exception (Option String)
error_value k none = ok none
error_value k (some null) = ok none
error_value k (some (str s)) = ok (some s)
error_value k (some _) = raise (value_error k)

-- A decoded document, a dictionary.
unfoldable pub as_dict : Value → Result Exception (Dict Value)
as_dict (obj fs) = ok (fields fs)
as_dict v = raise (value_error "json")

-- `x or {}`
abbrev pub or_empty : Option (Dict Value) → Dict Value
or_empty none = []
or_empty (some d) = d

-- `if v is not None: data[k] = v`
unfoldable pub put_some : String → Option Value → Dict Value → Dict Value
put_some k none d = d
put_some k (some v) d = put k v d

module _ (b : Backend) where
  open b use {State, Json, redis_get, redis_set, dumps, loads, isoformat, fromisoformat}

  unfoldable pub task_to_dict : AsyncTask → Dict Value
  task_to_dict t =
      ("task_id", str t.task_id)
      ∷ ("task_type", str t.task_type)
      ∷ ("status", str (status_text t.status))
      ∷ ("payload", dict_of t.payload)
      ∷ ("result", optional_dict t.result)
      ∷ ("error", optional_text t.error)
      ∷ ("created_at", str (isoformat t.created_at))
      ∷ ("updated_at", str (isoformat t.updated_at))
      ∷ []

  unfoldable pub task_from_dict : Dict Value → Result Exception AsyncTask
  task_from_dict d = do
    task_id ← text_value "task_id" (get "task_id" d)
    task_type ← text_value "task_type" (get "task_type" d)
    status ← text_value "status" (get "status" d)
    payload ← dict_value "payload" (get "payload" d)
    result ← dict_value "result" (get "result" d)
    error ← error_value "error" (get "error" d)
    created_at ← text_value "created_at" (get "created_at" d)
    updated_at ← text_value "updated_at" (get "updated_at" d)
    ok (record {
      task_id = task_id;
      task_type = task_type;
      status = text_status status;
      payload = or_empty payload;
      result = result;
      error = error;
      created_at = fromisoformat created_at;
      updated_at = fromisoformat updated_at;
    })

  -- `json.loads(raw)`, a dictionary
  unfoldable pub load_dict : Json → Result Exception (Dict Value)
  unfolding as_dict
  load_dict raw = as_dict (loads raw)

  unfoldable pub create : ℕ → ℕ → String → String → Dict Value → State → AsyncTask × State
  unfolding task_to_dict
  create ttl now task_id task_type payload s =
      let task = new_task now now task_id task_type payload in
      (task, redis_set (key task_id) (dumps (dict_of (task_to_dict task))) ttl s)

  -- The rest of `get`, on what Redis returned.
  unfoldable pub read_back : Option Json → Result Exception (Option AsyncTask)
  read_back none = ok none
  read_back (some raw) = do d ← load_dict raw; t ← task_from_dict d; ok (some t)

  unfoldable pub find : String → State → Result Exception (Option AsyncTask)
  unfolding read_back
  find task_id s = read_back (redis_get (key task_id) s)

  -- The assignments to `data`.
  unfoldable pub assign : ℕ → Status → Option (Dict Value) → Option String → Dict Value → Dict Value
  assign now status result error d =
      let d = put "status" (str (status_text status)) d in
      let d = put "updated_at" (str (isoformat now)) d in
      let d = put_some "result" (Option.map (λ v. dict_of v) result) d in
      put_some "error" (Option.map (λ e. str e) error) d

  -- What one call decides on the document that it has read: the document to write, if any, and the
  -- task to return.
  unfoldable pub decide :
      ℕ
      → Status
      → Option (Dict Value)
      → Option String
      → Json
      → Result Exception (Option (Dict Value) × Result Exception AsyncTask)
  decide now status result error raw = do
    d ← load_dict raw
    current ← text_value "status" (get "status" d)
    let d' = assign now status result error d
    if is_allowed status (valid_transitions (text_status current))
        then ok (some d', task_from_dict d')
        else ok (none, task_from_dict d)

  -- The write that follows, and the returned value.
  unfoldable pub commit :
      ℕ
      → String
      → Result Exception (Option (Dict Value) × Result Exception AsyncTask)
      → State
      → Result Exception AsyncTask × State
  commit ttl task_id (raise e) s = (raise e, s)
  commit ttl task_id (ok (none, task)) s = (task, s)
  commit ttl task_id (ok (some d, task)) s =
      (task, redis_set (key task_id) (dumps (dict_of d)) ttl s)

  -- `if raw is None: raise KeyError(...)`, and the decision.
  unfoldable pub decide_on :
      ℕ
      → String
      → Status
      → Option (Dict Value)
      → Option String
      → Option Json
      → Result Exception (Option (Dict Value) × Result Exception AsyncTask)
  decide_on now task_id status result error none = raise (key_error task_id)
  decide_on now task_id status result error (some raw) = decide now status result error raw

  -- The read of a call of `update_status` and what it decides.
  unfoldable pub read_phase :
      ℕ
      → String
      → Status
      → Option (Dict Value)
      → Option String
      → State
      → Result Exception (Option (Dict Value) × Result Exception AsyncTask)
  unfolding decide_on
  read_phase now task_id status result error s =
      decide_on now task_id status result error (redis_get (key task_id) s)

  unfoldable pub update_status :
      ℕ
      → ℕ
      → String
      → Status
      → Option (Dict Value)
      → Option String
      → State
      → Result Exception AsyncTask × State
  unfolding read_phase commit
  update_status ttl now task_id status result error s =
      commit ttl task_id (read_phase now task_id status result error s) s
