-- ===== src/Task/Redis/Tests.antt =====
-- A client over a dictionary, with values as their own JSON and times in unary, and the theorems at it.
use Prim.Native.String.{◌∷◌ as cons, [] as nil}
use bi_ble_atlas.Base.{ℕ, zero, suc, String, ◌≡◌, refl, ap, none, some, List, [], ◌∷◌, map}
use bi_ble_atlas.Base.Dict.{Dict, get, put, get-put}
use bi_ble_atlas.Base.Value.{Value}
use bi_ble_atlas.Base.Result.{ok}
use bi_ble_atlas.Task.{queued, running, completed, cancelled, AsyncTask}
use bi_ble_atlas.Task.Repository.{AsyncTaskRepository}
use bi_ble_atlas.Task.Repository
use bi_ble_atlas.Task.Redis
use bi_ble_atlas.Task.Redis.{
  Backend, default_ttl_seconds, key, find, update_status, read_phase, commit, create,
  task_from_dict, task_to_dict, load_dict,
}
use bi_ble_atlas.Task.Redis.Decode.{task_from_dict-task_to_dict}
use bi_ble_atlas.Task.Redis.Calls.{Call, create_task, update_task, run_memory, untimed_result}
use bi_ble_atlas.Task.Redis.Refines.{AgreesUntimed, run_redis, run-Agrees}
use bi_ble_atlas.Task.Redis.Race.{cancelled_then_running}

tick : ℕ → String
tick zero = ""
tick (suc n) = cons "x" (tick n)

ticks : String → ℕ
ticks nil = 0
ticks (cons c s) = suc (ticks s)

ticks-tick : (n : ℕ) → ticks (tick n) ≡ n
unfolding ticks tick
ticks-tick zero = refl
ticks-tick (suc n) = ap suc (ticks-tick n)

abbrev table : Backend
table = record {
  State = Dict Value;
  Json = Value;
  redis_get = get;
  redis_set = λ k v ttl s. put k v s;
  redis_get-set = λ j k v ttl s. get-put j k v s;
  dumps = λ v. v;
  loads = λ v. v;
  loads-dumps = λ v. refl;
  isoformat = tick;
  fromisoformat = ticks;
  fromisoformat-isoformat = ticks-tick;
}

abbrev task : AsyncTask
task = record {
  task_id = "t1";
  task_type = "import.memory";
  status = queued;
  payload = [];
  result = none;
  error = none;
  created_at = 1;
  updated_at = 1;
}

abbrev stored : Dict Value
stored = (create table default_ttl_seconds 1 "t1" "import.memory" [] []).1

found : find table "t1" stored ≡ ok (some task)
unfolding find create Redis.task_from_dict Redis.task_to_dict Redis.load_dict Redis.text_value
    Redis.dict_value Redis.error_value Redis.text_status Redis.status_text Repository.new_task key
    get put tick ticks
found = refl

task_from_dict-task_to_dict_example : task_from_dict table (task_to_dict table task) ≡ ok task
unfolding Redis.text_status Redis.status_text
task_from_dict-task_to_dict_example = task_from_dict-task_to_dict table task refl

abbrev calls : List Call
calls =
    create_task 1 5 "t1" "import.memory" []
    ∷ update_task
        (record { now = 2; task_id = "t1"; status = running; result = none; error = none })
    ∷ update_task
        (record { now = 3; task_id = "t2"; status = cancelled; result = none; error = none })
    ∷ update_task
        (record { now = 4; task_id = "t1"; status = completed; result = some []; error = none })
    ∷ []

run-Agrees_example :
    (map untimed_result (run_redis table default_ttl_seconds calls []).0
      ≡ map untimed_result (run_memory calls Repository.empty).0)
    × AgreesUntimed table default_ttl_seconds
        (run_memory calls Repository.empty).1
        (run_redis table default_ttl_seconds calls []).1
unfolding find Redis.read_back Repository.find get
run-Agrees_example =
    run-Agrees table default_ttl_seconds calls Repository.empty [] (λ task_id. refl)

cancelled_then_running_example :
    (t_cancel : AsyncTask) × (t_run : AsyncTask) × (find table "t1"
        (update_status table 60 9 "t1" cancelled none none stored).1
      ≡ ok (some t_cancel))
    × (t_cancel.status ≡ cancelled)
    × (find table "t1"
          (commit table 60 "t1"
            (read_phase table 8 "t1" running none none stored)
            (update_status table 60 9 "t1" cancelled none none stored).1).1
        ≡ ok (some t_run))
    × (t_run.status ≡ running)
cancelled_then_running_example = cancelled_then_running table 60 8 9 "t1" stored task found refl
