-- ===== src/Task/Repository/Tests.antt =====
use bi_ble_atlas.Base.{◌≡◌, refl, none, some, List, [], ◌∷◌}
use bi_ble_atlas.Base.Dict.{get, put}
use bi_ble_atlas.Task.{queued, running, completed, failed, cancelled, is_terminal, AsyncTask}
use bi_ble_atlas.Task.Repository.{
  AsyncTaskRepository, empty, create, find, update_status, list_by_type,
}
use bi_ble_atlas.Task.Repository.Laws.{Follows}
use bi_ble_atlas.Task.Repository.Runs.{Update, run, run-Follows, run-terminal}

abbrev queued_task : AsyncTask
queued_task = record {
  task_id = "t1";
  task_type = "import.memory";
  status = queued;
  payload = [];
  result = none;
  error = none;
  created_at = 5;
  updated_at = 5;
}

abbrev done_task : AsyncTask
done_task = record queued_task { status = completed; result = some []; updated_at = 9 }

abbrev one_queued : AsyncTaskRepository
one_queued = record { store = ("t1", queued_task) ∷ [] }

abbrev one_done : AsyncTaskRepository
one_done = record { store = ("t1", done_task) ∷ [] }

abbrev calls : List Update
calls =
    record { now = 6; task_id = "t1"; status = running; result = none; error = none }
    ∷ record { now = 7; task_id = "t1"; status = cancelled; result = none; error = none }
    ∷ record { now = 8; task_id = "t2"; status = running; result = none; error = none }
    ∷ record { now = 9; task_id = "t1"; status = completed; result = some []; error = none }
    ∷ record { now = 10; task_id = "t1"; status = failed; result = none; error = some "late" }
    ∷ []

created : (create 5 5 "t1" "import.memory" [] empty).1 ≡ one_queued
unfolding create put
created = refl

ran : run calls one_queued ≡ one_done
unfolding run update_status get put
ran = refl

listed : list_by_type "import.skill" one_done ≡ []
unfolding list_by_type
listed = refl

run-Follows_example :
    (t' : AsyncTask) × (find "t1" (run calls one_queued) ≡ some t') × Follows queued_task t'
unfolding find get
run-Follows_example = run-Follows calls one_queued "t1" queued_task refl

run-terminal_example : find "t1" (run calls one_done) ≡ some done_task
unfolding find get is_terminal
run-terminal_example = run-terminal calls one_done "t1" done_task refl refl
