-- ===== src/Task/Dispatch/Tests.antt =====
use bi_ble_atlas.Base.{String, ◌≡◌, refl, none, some, [], ◌∷◌}
use bi_ble_atlas.Base.Dict.{get, put}
use bi_ble_atlas.Base.Value.{str}
use bi_ble_atlas.Base.Result.{ok, raise}
use bi_ble_atlas.Task.{
  queued, completed, AsyncTask, Exception, value_error, is_allowed, valid_transitions,
}
use bi_ble_atlas.Task.Repository.{AsyncTaskRepository, find, update_status}
use bi_ble_atlas.Task.Dispatch.{
  AsyncTaskDispatcher, Handler, returned, register, execute, dispatch_task,
}
use bi_ble_atlas.Task.Dispatch.Laws.{dispatch-settles, settled}

abbrev answer : Handler
answer task_id task_type payload r = (returned (("n", str "1") ∷ []), r)

abbrev one_handler : AsyncTaskDispatcher
one_handler = record { handlers = ("import.memory", answer) ∷ [] }

abbrev text_of : Exception → String
text_of e = "error"

abbrev task : AsyncTask
task = record {
  task_id = "t1";
  task_type = "import.memory";
  status = queued;
  payload = [];
  result = none;
  error = none;
  created_at = 5;
  updated_at = 5;
}

abbrev holding : AsyncTask → AsyncTaskRepository
holding t = record { store = ("t1", t) ∷ [] }

abbrev done : AsyncTask
done = record task { status = completed; result = some [] }

no_empty_type : register "" answer one_handler ≡ raise (value_error "task_type must not be empty")
unfolding register
no_empty_type = refl

dispatch-settles_example :
    ((dispatch_task 6 7 (some one_handler) text_of "t1" "import.memory" [] (holding done)).0
      ≡ ok tt)
    × (find "t1"
          (dispatch_task 6 7 (some one_handler) text_of "t1" "import.memory" [] (holding done)).1
        ≡ some (settled 7 (returned (("n", str "1") ∷ [])) done))
unfolding find get execute update_status is_allowed valid_transitions put
dispatch-settles_example =
    dispatch-settles 6 7 one_handler text_of "t1" "import.memory" [] (holding done) done done refl
      (λ e. cc (e)) refl
