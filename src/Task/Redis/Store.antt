-- ===== src/Task/Redis/Store.antt =====
-- Reading and writing one document, and what the phases of an update do to it.
use text.Mathlib.TextLemmas.{append_cancel_left}
use bi_ble_atlas.Base.{
  ℕ, String, true, Option, none, some, ◌≡◌, ◌==◌, arith, ◌∙◌, sym, eq_iff, inl, inr, Option-cases,
  Bool-cases, if◌then◌else◌,
}
use bi_ble_atlas.Base.Dict.{Dict, get}
use bi_ble_atlas.Base.Value.{Value, dict_of, fields-to_fields}
use bi_ble_atlas.Base.Result.{Result, ok, ◌>>=◌, >>=-eq-ok}
use bi_ble_atlas.Task.{Status, valid_transitions, is_allowed, AsyncTask, Exception}
use bi_ble_atlas.Task.Repository.{updated}
use bi_ble_atlas.Task.Redis.{
  Backend, key, text_status, text_value, task_from_dict, load_dict, as_dict, find, read_back,
  assign, decide,
}
use bi_ble_atlas.Task.Redis.Decode.{task_from_dict-assign, allowed-IsPlain}

-- Two tasks have two keys.
pub key-eq : (a c : String) → (key a == key c) ≡ (a == c)
unfolding key
key-eq a c = elim (Bool-cases (a == c)) [
  | inl same ↦ rw ((eq_iff a c).0 same) (ground (arith, eq_iff (key c) (key c), eq_iff c c))
  | inr apart ↦ elim (Bool-cases (key a == key c)) [
    | inl joined ↦
        let same = append_cancel_left "bible_atlas:task:" a c ((eq_iff (key a) (key c)).0 joined) in
        cc ((eq_iff a c).1 same)
    | inr distinct ↦ distinct ∙ sym apart
  ]
]

module _ (b : Backend) where
  open b use {State, Json, redis_get, redis_set, redis_get-set, dumps, loads, loads-dumps}

  pub load_dict-dumps : (d : Dict Value) → load_dict b (dumps (dict_of d)) ≡ ok d
  unfolding load_dict
  load_dict-dumps d = rw (loads-dumps, as_dict, fields-to_fields)

  abbrev pub found : Result Exception AsyncTask → Result Exception (Option AsyncTask)
  found m = m >>= λ t. ok (some t)

  pub find-redis_set :
      (j k : String) (d : Dict Value) (ttl : ℕ) (s : State)
      → find b j (redis_set (key k) (dumps (dict_of d)) ttl s)
        ≡ (if k == j then found (task_from_dict b d) else find b j s)
  unfolding find
  find-redis_set j k d ttl s =
      rw (redis_get-set, key-eq, read_back) (ground (arith, load_dict-dumps d))

  -- A stored task has a document that stands for it.
  pub document :
      (task_id : String) (s : State) (t : AsyncTask)
      → find b task_id s ≡ ok (some t)
      → (raw : Json) × (d : Dict Value) × (redis_get (key task_id) s ≡ some raw)
        × (load_dict b raw ≡ ok d)
        × (task_from_dict b d ≡ ok t)
  unfolding find
  document task_id s t h = elim (Option-cases (redis_get (key task_id) s)) [
    | inl missing ↦ absurd (cc (rw (missing, read_back) at h))
    | inr (raw, there) ↦
        let (d, loaded, more) = >>=-eq-ok (load_dict b raw) _ (rw (there, read_back) at h) in
        let (t', decoded, same) = >>=-eq-ok (task_from_dict b d) _ more in
        (raw, d, there, loaded, ground (arith, decoded, same))
  ]

  -- The status that an update reads is that of the task.
  pub status_of_document :
      (d : Dict Value) (t : AsyncTask)
      → task_from_dict b d ≡ ok t
      → (st : String) × (text_value "status" (get "status" d) ≡ ok st) × (text_status st ≡ t.status)
  unfolding task_from_dict
  status_of_document d t h =
      let (a, p, h) = >>=-eq-ok (text_value "task_id" (get "task_id" d)) _ h in
      let (a2, p, h) = >>=-eq-ok (text_value "task_type" (get "task_type" d)) _ h in
      let (st, p, h) = >>=-eq-ok (text_value "status" (get "status" d)) _ h in (st, p, ground arith)

  -- What a call decides on the document of a task: the updated document, where the transition is
  -- allowed, and the updated task.
  pub decide-document :
      (now : ℕ) (status : Status) (result : Option (Dict Value)) (error : Option String)
      (raw : Json) (d : Dict Value) (t : AsyncTask)
      → load_dict b raw ≡ ok d
      → task_from_dict b d ≡ ok t
      → decide b now status result error raw
        ≡ ok (
          (if is_allowed status (valid_transitions t.status)
              then some (assign b now status result error d)
              else none),
          ok (updated now status result error t),
        )
  unfolding decide updated
  decide-document now status result error raw d t loaded decoded =
      let (st, there, same) = status_of_document d t decoded in
      elim (Bool-cases (is_allowed status (valid_transitions t.status))) [
        | inl good ↦ rw (
          loaded,
          there,
          same,
          good,
          task_from_dict-assign b now status result error d t (allowed-IsPlain t.status status good)
              decoded,
        )
        | inr bad ↦ rw (loaded, there, same, bad, decoded)
      ]

  -- The document that an allowed update writes stands for the updated task.
  pub updated_document :
      (now : ℕ) (status : Status) (result : Option (Dict Value)) (error : Option String)
      (d : Dict Value) (t : AsyncTask)
      → task_from_dict b d ≡ ok t
      → is_allowed status (valid_transitions t.status) ≡ true
      → task_from_dict b (assign b now status result error d)
        ≡ ok (updated now status result error t)
  unfolding updated
  updated_document now status result error d t decoded good = rw good (
      task_from_dict-assign b now status result error d t (allowed-IsPlain t.status status good)
        decoded)
