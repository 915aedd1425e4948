-- ===== src/Database/Tests.antt =====
-- The theorems on the writers, at a store in memory and at a pool.
use bi_ble_atlas.Base.{
  ◌+◌, String, ◌≡◌, ◌≢◌, refl, ◌≤◌, ◌<◌, true, Option, none, some, List, [], ◌∷◌, length, arith,
  All, strip, lstrip, rstrip, is_space,
}
use bi_ble_atlas.Base.Dict.{Dict, get, put}
use bi_ble_atlas.Base.Int.{pos}
use bi_ble_atlas.Base.Value.{
  Value, obj, null, str, int, dict_of, bool, field, Fields, arr, cons, end, list_of, float, nil,
}
use bi_ble_atlas.Base.Result.{ok, raise}
use bi_ble_atlas.Database.{
  opensearch, IndexBinding, item, as_dict, post_init, decoded, BulkWriteResult,
}
use bi_ble_atlas.Database.Lookup.{
  binding_doc_id, get_binding_by_domain_index, fetched, active_binding, to_binding,
}
use bi_ble_atlas.Database.Lookup.Laws.{Describes}
use bi_ble_atlas.Database.Client.{written}
use bi_ble_atlas.Database.Vector.{
  first_content_vector_dims, ensure_vector_index_mapping, ensure_dims, ensure_in,
  mapping_properties, ensure_field, put_width, num_candidates_from_options,
}
use bi_ble_atlas.Database.Binding.{
  create_index_binding, check_complete, missing, required, create_document, payload_of,
  deactivate_binding, run_update, deactivation,
}
use bi_ble_atlas.Database.Binding.Payload.{IsCreated}
use bi_ble_atlas.Database.Binding.Laws.{
  first_some, create_index_binding-lookup, deactivate_binding-lookup, deactivate_binding-create,
}
use bi_ble_atlas.Database.Memory.{Store, store, runtime, no_docs, doc}
use bi_ble_atlas.Database.Tasks.{
  update_async_task, check_expected, get_async_task, task_of, is_expected, has_status, write_patch,
  is_updated,
}
use bi_ble_atlas.Database.Tasks.Laws.{update_async_task-expected}
use bi_ble_atlas.Database.Tasks.Race.{update_async_task-race}
use bi_ble_atlas.Database.Bulk.{
  bulk, bulk_docs, write_chunks, collect, doc_id, reject, send, count, action_of,
}
use bi_ble_atlas.Database.Bulk.Laws.{Counts, bulk-counted}
use bi_ble_atlas.Database.Chunked.{chunked, windows, take, drop, concat, chunked-concat}
use bi_ble_atlas.Database.Dsl.{prepare_opensearch, strip_node}
use bi_ble_atlas.Database.Dsl.Laws.{IsStripped, prepare_opensearch-IsStripped}
use bi_ble_atlas.Database.Vector.Laws.{HasField, ensure_vector_index_mapping-HasField}
use bi_ble_atlas.Database.Content.{
  Found, search_content_docs, prepare, found_in, total_value, as_int,
}
use bi_ble_atlas.Database.Content.Laws.{search_content_docs-asked}
use bi_ble_atlas.Database.Postgres
use bi_ble_atlas.Database.Postgres.{Pool}
use bi_ble_atlas.Database.Postgres.Bulk.{bulk_upsert_json_records, content_id_fields}
use bi_ble_atlas.Database.Postgres.Laws.{bulk_upsert_json_records-returns}

abbrev created : Store
created = (create_index_binding runtime store "bindings" "t0" doc no_docs).1

abbrev binding : IndexBinding
binding = record {
  domain_type = str "MEMORY";
  kb_index = str "notes";
  tag = str "memory";
  parser_script_source = str "parse_memory.py";
  parser_script_sha256 = str "ab";
  vector_model = null;
  search_profile_json = [];
  search_profile_sha256 = str "cd";
  is_active = true;
  created_at = str "t0";
  updated_at = str "t0";
  deleted_at = null;
}

create_index_binding-lookup_example :
    (b : IndexBinding) × (some binding ≡ some b) × Describes b doc × IsCreated runtime "t0" b doc
unfolding get put create_index_binding check_complete missing required create_document payload_of
    item as_dict binding_doc_id get_binding_by_domain_index fetched active_binding to_binding
    post_init decoded
create_index_binding-lookup_example =
    create_index_binding-lookup runtime store "bindings" "t0" "MEMORY" "notes" doc no_docs refl refl
      refl refl refl

abbrev deactivated : Store
deactivated = (deactivate_binding runtime store "bindings" "t1" "MEMORY" "notes" created).1

deactivate_binding-lookup_example : ◌≡◌ {A = Option IndexBinding} none none
unfolding get put create_index_binding check_complete missing required create_document payload_of
    item as_dict binding_doc_id get_binding_by_domain_index fetched active_binding
    deactivate_binding run_update deactivation
deactivate_binding-lookup_example =
    deactivate_binding-lookup runtime store "bindings" "t1" "MEMORY" "notes" created {answer = _}
      {o = none} refl refl

deactivate_binding-create_example :
    (create_index_binding runtime store "bindings" "t2" doc deactivated).0
    ≢ ok (("created", bool true) ∷ [])
unfolding get put create_index_binding check_complete missing required create_document payload_of
    item as_dict binding_doc_id deactivate_binding run_update deactivation
deactivate_binding-create_example =
    deactivate_binding-create runtime store "bindings" "t2" "MEMORY" "notes" created doc refl refl
      refl

-- A queued task.
abbrev queued_task : Dict Value
queued_task = ("task_id", str "t1") ∷ ("status", str "queued") ∷ []

abbrev tasks : Store
tasks = record no_docs { docs = written "tasks" "t1" queued_task no_docs.docs }

abbrev to_running : Dict Value
to_running = ("status", str "running") ∷ []

abbrev to_cancelled : Dict Value
to_cancelled = ("status", str "cancelled") ∷ []

update_async_task-expected_example :
    (d d' : Dict Value) × (tasks.docs "tasks" "t1" ≡ some d)
    × (has_status ("queued" ∷ []) d ≡ true)
    × ((k : String)
        → get k d' ≡ first_some (get k (put "updated_at" (str "now") to_running)) (get k d))
    × ((j l : String)
        → (update_async_task runtime store "tasks" "now" "t1" to_running
              (some ("queued" ∷ []))
              tasks).1.docs
            j l
          ≡ written "tasks" "t1" d' tasks.docs j l)
unfolding get put update_async_task check_expected get_async_task task_of is_expected has_status
    write_patch is_updated
update_async_task-expected_example =
    update_async_task-expected runtime store "tasks" "t1" "now" to_running "queued" [] tasks refl

-- A worker and a cancellation, both at a queued task: the cancelled task runs.
update_async_task-race_example :
    (d' : Dict Value) × ((check_expected runtime store "tasks" "t1" (some ("queued" ∷ [])) tasks).0
      ≡ ok true)
    × ((check_expected runtime store "tasks" "t1" (some ("queued" ∷ "running" ∷ [])) tasks).0
        ≡ ok true)
    × ((write_patch runtime store "tasks" "now" "t1" to_cancelled tasks).0 ≡ ok true)
    × ((write_patch runtime store "tasks" "t2" "t1" to_running
          (write_patch runtime store "tasks" "now" "t1" to_cancelled tasks).1).0
        ≡ ok true)
    × ((write_patch runtime store "tasks" "t2" "t1" to_running
            (write_patch runtime store "tasks" "now" "t1" to_cancelled tasks).1).1.docs
          "tasks" "t1"
        ≡ some d')
    × ((k : String)
        → get k d'
          ≡ first_some
              (get k (put "updated_at" (str "t2") to_running))
              (first_some (get k (put "updated_at" (str "now") to_cancelled)) (get k queued_task)))
unfolding get has_status
update_async_task-race_example =
    update_async_task-race runtime store "tasks" "t1" "now" "t2" to_cancelled to_running "queued"
      "queued" [] ("running" ∷ []) tasks {d = queued_task} refl refl refl refl

-- One document with an id, and one without.
abbrev two_docs : List (Dict Value)
two_docs = (("doc_id", str "d1") ∷ []) ∷ (("text", str "x") ∷ []) ∷ []

abbrev bulk_result : BulkWriteResult
bulk_result = record {
  success_count = 1;
  fail_count = 1;
  errors =
      dict_of (
        ("reason", str "missing _id/doc_id/chunk_id")
        ∷ ("doc_preview", list_of (str "text" ∷ []))
        ∷ [])
      ∷ [];
}

bulk-counted_example :
    Counts runtime store "memory_notes" (pos 1) two_docs no_docs bulk_result no_docs
unfolding bulk bulk_docs chunked windows take drop write_chunks collect doc_id get strip lstrip
    rstrip is_space reject send count action_of
bulk-counted_example =
    bulk-counted runtime store "memory_notes" (pos 1) two_docs no_docs {r = bulk_result} refl

abbrev letters : List String
letters = "a" ∷ "b" ∷ "c" ∷ []

chunked-concat_example :
    (concat (chunked 2 letters) ≡ letters)
    × All (λ ys. (0 < length ys) × (length ys ≤ 2)) (chunked 2 letters)
    × (length (chunked 2 letters) ≤ 3)
chunked-concat_example = chunked-concat 2 letters (omega arith)

-- The body of a vector search.
abbrev clause : Fields
clause =
    field "content_vector"
      (obj (
        field "vector" (arr (cons (float 1) nil))
          (field "k" (int (pos 3)) (field "num_candidates" (int (pos 50)) end))))
      end

abbrev vector_body : Dict Value
vector_body = ("size", int (pos 3)) ∷ ("query", obj (field "knn" (obj clause) end)) ∷ []

prepare_opensearch-IsStripped_example : IsStripped (prepare_opensearch (dict_of vector_body))
prepare_opensearch-IsStripped_example = prepare_opensearch-IsStripped (dict_of vector_body)

abbrev vector_docs : List (Dict Value)
vector_docs = (("content_vector", arr (cons (float 1) (cons (float 2) nil))) ∷ []) ∷ []

ensure_vector_index_mapping-HasField_example : HasField opensearch 2 [] (
    (ensure_vector_index_mapping runtime store opensearch "memory_notes" vector_docs none
        no_docs).1.props
      "memory_notes")
unfolding first_content_vector_dims get ensure_vector_index_mapping ensure_dims ensure_in
    mapping_properties num_candidates_from_options ensure_field put_width
ensure_vector_index_mapping-HasField_example =
    ensure_vector_index_mapping-HasField runtime store opensearch "memory_notes" vector_docs none 2
      no_docs refl refl

abbrev no_hits : Found
no_hits = record { total = pos 0; hits = arr nil }

search_content_docs-asked_example :
    (body response : Dict Value) × IsStripped (dict_of body)
    × (store.find "memory_notes" body no_docs ≡ ok response)
    × (found_in runtime response ≡ ok no_hits)
unfolding search_content_docs prepare prepare_opensearch strip_node as_dict found_in total_value
    as_int get
search_content_docs-asked_example =
    search_content_docs-asked runtime store "memory_notes" vector_body no_docs {found = no_hits}
      refl

-- A pool that refuses every statement.
abbrev refusing : Pool
refusing = record {
  State = Unit {0};
  run = λ statement s. (raise (Postgres.other "refused"), s);
  repr = λ e. "refused";
}

bulk_upsert_json_records-returns_example :
    (r : BulkWriteResult) × ((bulk_upsert_json_records runtime refusing "content" "notes"
        content_id_fields
        (pos 1)
        two_docs
        tt).0
      ≡ ok r)
    × (r.success_count + r.fail_count ≡ 2)
bulk_upsert_json_records-returns_example =
    bulk_upsert_json_records-returns runtime refusing "content" "notes" content_id_fields (pos 1)
      two_docs tt refl refl
