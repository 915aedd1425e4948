-- ===== src/Upload/Examples.antt =====
-- Concrete answers of the machine, the database and the libraries, and one upload, for the tests.
use bi_ble_atlas.Base.{String, true, none, some, [], ◌∷◌, ◌==◌, if◌then◌else◌, text_append, length}
use bi_ble_atlas.Base.Int.{pos}
use bi_ble_atlas.Base.Value.{Value, int, str, dict_of, list_of}
use bi_ble_atlas.Base.Result.{Result, ok}
use bi_ble_atlas.Upload.{Exception, Runtime}
use bi_ble_atlas.Upload.World.{FileStoreResult, World}
use bi_ble_atlas.Upload.Guard.{Node, call, other, leaf, branch, Scripts}
use bi_ble_atlas.Upload.Sandbox.{Processes, exited}
use bi_ble_atlas.Upload.Service.{Host}
use bi_ble_atlas.Upload.Service.Stage.{Settings}

abbrev pub text_of_value : Value → String
text_of_value (str s) = s
text_of_value v = "1"

abbrev pub meta_json : Value
meta_json = dict_of (
    ("memory_id", str " m1 ")
    ∷ ("title", str "Title")
    ∷ ("abstract", str "Short")
    ∷ ("task_ids", list_of (str "t1" ∷ str " " ∷ []))
    ∷ [])

abbrev pub manifest_entry : String → String → String → Value
manifest_entry ref name path =
    dict_of (("file_ref", str ref) ∷ ("filename", str name) ∷ ("abs_path", str path) ∷ [])

abbrev pub manifest_json : Value
manifest_json = dict_of (
    (
      "files",
      list_of (
          manifest_entry "f1" "META.json" "/up/meta"
          ∷ manifest_entry "f2" "a.txt" "/up/a"
          ∷ manifest_entry "f3" "b.txt" "/gone/b"
          ∷ []),
    )
    ∷ [])

abbrev pub lower : String → String
lower s = if s == "META.json" then "meta.json" else s

abbrev pub read_json : String → Result Exception Value
read_json path = if path == "/up/meta" then ok meta_json else ok manifest_json

abbrev pub runtime : Runtime
runtime = record {
  str_of = text_of_value;
  lower = lower;
  to_int = λ v. ok v;
  is_iso8601 = λ s. true;
  read_json = read_json;
}

abbrev pub stored_at : String → FileStoreResult
stored_at filename = record {
  filename = filename;
  storage_path = text_append "/store/" filename;
  file_hash = "h";
  size_bytes = int (pos 1);
}

abbrev pub world : World
world = record {
  exists = λ path. path == "/up/a";
  basename = λ path. path;
  store = λ index path filename task. ok (stored_at filename);
  get_binding_by_domain_index = λ domain index. ok none;
  create_index_binding = λ doc. ok tt;
  upgrade_binding_vector_model = λ index model. ok tt;
  update_binding = λ index patch. ok tt;
  embed_chunks = λ chunks model template. ok chunks;
  text_of = λ e. "error";
  bulk_upsert_content_docs = λ index chunks options. ok (length chunks);
  dumps = λ profile. "{}";
  sha256 = λ s. text_append "sha:" s;
  now = "2026-01-01";
}

abbrev pub clean_script : Node
clean_script = other (branch (call (some "print") 1 leaf) leaf)

abbrev pub scripts : Scripts
scripts = record {
  read_text = λ path. ok "print()";
  ast_parse = λ source. ok clean_script;
  str_of = text_of_value;
}

abbrev pub parsed_json : Value
parsed_json = dict_of (
    ("chunks", list_of (dict_of (("doc_id", str "d1") ∷ []) ∷ []))
    ∷ ("search_profile", dict_of (("tag", str "memory") ∷ []))
    ∷ [])

abbrev pub processes : Processes
processes = record {
  timeout_seconds = int (pos 60);
  run = λ script manifest context. ok (exited (pos 0) "{}" "");
  loads = λ text. ok parsed_json;
  str_of = text_of_value;
}

abbrev pub host : Host
host = record {
  scripts = scripts;
  processes = processes;
  join = λ a b. text_append a (text_append "/" b);
  exists = λ path. true;
  is_dir = λ path. true;
  abspath = λ path. path;
  basename = λ path. path;
  get_size = λ path. some (int (pos 3));
  write_text = λ path v. ok tt;
  write_json = λ path d. ok tt;
  file_sha256 = λ path. ok "sha";
  copy_parser = λ a b. ok tt;
  text_of = λ e. "error";
}

abbrev pub settings : String → Settings
settings name = record {
  custom_parsers_dir = "/parsers/custom";
  parsers_dir = "/parsers";
  import_work_root = "/work";
  parser_name = name;
  manifest_name = "request_manifest.json";
  no_parser_message = "No parser script found";
  keep_failed_workspace = true;
}
