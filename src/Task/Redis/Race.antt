-- ===== src/Task/Redis/Race.antt =====
-- Two clients of one Redis: `update_status` reads in one command and writes in another, with nothing
-- that ties them together, so another call may come in between.
use bi_ble_atlas.Base.{ℕ, String, true, none, some, ◌≡◌, refl, arith, eq_refl}
use bi_ble_atlas.Task.{Status, queued, running, cancelled, valid_transitions, is_allowed, AsyncTask}
use bi_ble_atlas.Task.Repository.{updated, assign as assign_task}
use bi_ble_atlas.Base.Dict.{Dict}
use bi_ble_atlas.Base.Value.{Value}
use bi_ble_atlas.Base.Result.{ok}
use bi_ble_atlas.Task.Redis.{
  Backend, find, update_status, read_phase, commit, decide_on, assign, task_from_dict,
}
use bi_ble_atlas.Task.Redis.Store.{document, decide-document, find-redis_set, updated_document}

module _ (b : Backend) where
  open b use {State}

  -- The read of an update of a queued task, then a whole other update of that task, then the write
  -- of the first: both are allowed, and the second write stands alone.
  module _ (ttl now_first now_second : ℕ) (task_id : String) (first second : Status) (s : State)
      (t : AsyncTask) where
    reads :
        (now : ℕ) (status : Status)
        → find b task_id s ≡ ok (some t)
        → is_allowed status (valid_transitions t.status) ≡ true
        → (d : Dict Value) × (read_phase b now task_id status none none s
            ≡ ok (some d, ok (updated now status none none t)))
          × (task_from_dict b d ≡ ok (updated now status none none t))
    unfolding read_phase
    reads now status stored good =
        let (raw, d, there, loaded, decoded) = document b task_id s t stored in
        (
          assign b now status none none d,
          rw (
            there,
            decide_on,
            decide-document b now status none none raw d t loaded decoded,
            good,
          ),
          updated_document b now status none none d t decoded good,
        )

    phases :
        update_status b ttl now_second task_id second none none s
        ≡ commit b ttl task_id (read_phase b now_second task_id second none none s) s
    phases = unfold update_status read_phase in refl

    lost_update :
        find b task_id s ≡ ok (some t)
        → is_allowed first (valid_transitions t.status) ≡ true
        → is_allowed second (valid_transitions t.status) ≡ true
        → (find b task_id (update_status b ttl now_second task_id second none none s).1
            ≡ ok (some (updated now_second second none none t)))
          × (find b task_id
                (commit b ttl task_id
                  (read_phase b now_first task_id first none none s)
                  (update_status b ttl now_second task_id second none none s).1).1
              ≡ ok (some (updated now_first first none none t)))
    unfolding commit
    lost_update stored good_first good_second =
        let (d1, read_first, first_task) = reads now_first first stored good_first in
        let (d2, read_second, second_task) = reads now_second second stored good_second in
        (
          rw (phases, read_second, find-redis_set, eq_refl, second_task),
          rw (read_first, find-redis_set, eq_refl, first_task),
        )

  -- A queued task in Redis, a worker that has read it to mark it running, and a cancellation that
  -- runs from start to end before the worker writes: after the cancellation the task reads
  -- cancelled, and after the worker's write it reads running. So a task leaves a terminal state,
  -- which no sequence of undivided updates does.
  pub cancelled_then_running :
      (ttl now_worker now_cancel : ℕ) (task_id : String) (s : State) (t : AsyncTask)
      → find b task_id s ≡ ok (some t)
      → t.status ≡ queued
      → (t_cancel : AsyncTask) × (t_run : AsyncTask) × (find b task_id
            (update_status b ttl now_cancel task_id cancelled none none s).1
          ≡ ok (some t_cancel))
        × (t_cancel.status ≡ cancelled)
        × (find b task_id
              (commit b ttl task_id
                (read_phase b now_worker task_id running none none s)
                (update_status b ttl now_cancel task_id cancelled none none s).1).1
            ≡ ok (some t_run))
        × (t_run.status ≡ running)
  unfolding updated assign_task is_allowed valid_transitions
  cancelled_then_running ttl now_worker now_cancel task_id s t stored waits =
      let (cancel, run) =
        lost_update ttl now_worker now_cancel task_id running cancelled s t stored (rw waits)
          (rw waits) in
      (
        updated now_cancel cancelled none none t,
        updated now_worker running none none t,
        cancel,
        ground arith,
        run,
        ground arith,
      )
