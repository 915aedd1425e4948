-- ===== src/Task/Service/Tests.antt =====
use bi_ble_atlas.Base.{◌≡◌, refl, false, none, some, [], ◌∷◌}
use bi_ble_atlas.Base.Dict.{get}
use bi_ble_atlas.Base.Result.{ok}
use bi_ble_atlas.Task.{queued, cancelled, AsyncTask}
use bi_ble_atlas.Task.Repository.{find, updated}
use bi_ble_atlas.Task.Service.{Broker, System, cancel, view}
use bi_ble_atlas.Task.Service.Laws.{cancel-accepted}

abbrev up : Broker
up = record { apply_async = λ m. none; revoke = λ r. none }

abbrev waiting : AsyncTask
waiting = record {
  task_id = "k";
  task_type = "import.skill";
  status = queued;
  payload = [];
  result = none;
  error = none;
  created_at = 1;
  updated_at = 1;
}

abbrev holding : System
holding = record { repository = record { store = ("k", waiting) ∷ [] }; sent = []; revoked = [] }

cancel-accepted_example :
    ((cancel up 3 "k" holding).0 ≡ ok (view (updated 3 cancelled none none waiting)))
    × (find "k" (cancel up 3 "k" holding).1.repository
        ≡ some (updated 3 cancelled none none waiting))
    × ((cancel up 3 "k" holding).1.revoked ≡ record { task_id = "k"; terminate = false } ∷ [])
unfolding find get
cancel-accepted_example = cancel-accepted up 3 "k" holding waiting refl (λ r. refl)
