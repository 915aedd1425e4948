-- ===== src/Upload/Service/Documents.antt =====
-- The documents that an import has written when it returns.
use mathlib.Core.List.{append-nil}
use bi_ble_atlas.Base.{
  String, ◌≡◌, refl, sym, ap, ◌∙◌, Bool, true, false, Option, none, some, List, [], ◌∷◌, ◌++◌, All,
  Bool-cases, inl, inr, ◌==◌,
}
use bi_ble_atlas.Base.Dict.{Dict}
use bi_ble_atlas.Base.Value.{Value}
use bi_ble_atlas.Base.Result.{Result, ok, raise}
use bi_ble_atlas.Upload.{Exception}
use bi_ble_atlas.Upload.Trace.{Event, Trace, wrote_chunks, ◌>>=◌, ◌>>◌, pure, lift}
use bi_ble_atlas.Upload.Trace.Laws.{Within, Within->>=}
use bi_ble_atlas.Upload.Store.{ParseResult, Script}
use bi_ble_atlas.Upload.Store.Quiet.{writes}
use bi_ble_atlas.Upload.Store.Laws.{OneWrite}
use bi_ble_atlas.Upload.Service.Stage.{Payload, Settings, keeps}
use bi_ble_atlas.Upload.Service.{
  Host, select_parser_script, guard_script, build_parse_manifest, run_parse,
  persist_custom_parser_if_needed, import_with, import_files, settled, upload_removal,
  cleanup_staged_workspace, execute_task,
}
use bi_ble_atlas.Upload.Service.Laws.{
  IsKept, IsGuardedScript, select_parser_script-Within, build_parse_manifest-Within,
  run_parse-Within, persist-Within, guard_script-ok,
}

abbrev IsOther : Event → Type 0
IsOther (wrote_chunks _ _ _) = ⊥
IsOther _ = Unit {0}

writes-skip : (es fs : List Event) → All IsOther es → writes (es ++ fs) ≡ writes fs
writes-skip [] fs h = refl
writes-skip (wrote_chunks _ _ _ ∷ es) fs (u, h) = elim u [ ]
writes-skip (e ∷ es) fs (u, h) = writes-skip es fs h

writes-stop : (es fs : List Event) → All IsOther fs → writes (es ++ fs) ≡ writes es
writes-stop [] fs h = ap writes (sym (append-nil fs)) ∙ writes-skip fs [] h
writes-stop (wrote_chunks index chunks options ∷ es) fs h =
    ap (λ ws. record { index = index; chunks = chunks; options = options } ∷ ws)
      (writes-stop es fs h)
writes-stop (e ∷ es) fs h = writes-stop es fs h

module _ {ℓ κ} (index : String) {A : Type ℓ} {B : Type κ} where
  OneWrite-after :
      (m : Trace A) (f : A → Trace B)
      → Within IsOther m
      → ((a : A) → OneWrite index (f a))
      → OneWrite index (m >>= f)
  unfolding OneWrite
  OneWrite-after (raise e, es) f h k b r = cc
  OneWrite-after (ok a, es) f h k b r =
      let (w, written, at_index) = k a b r in (w, writes-skip es (f a).1 h ∙ written, at_index)

  OneWrite-before :
      (m : Trace A) (f : A → Trace B)
      → OneWrite index m
      → ((a : A) → Within IsOther (f a))
      → OneWrite index (m >>= f)
  unfolding OneWrite
  OneWrite-before (raise e, es) f h k b r = cc
  OneWrite-before (ok a, es) f h k b r =
      let (w, written, at_index) = h a refl in (w, writes-stop es (f a).1 (k a) ∙ written, at_index)

  OneWrite-lift :
      (r : Result Exception A) (f : A → Trace B)
      → ((a : A) → r ≡ ok a → OneWrite index (f a))
      → OneWrite index (lift r >>= f)
  unfolding OneWrite
  OneWrite-lift (ok a) f h b r = h a refl b r
  OneWrite-lift (raise e) f h b r = cc

module _ (host : Host) (s : Settings) (task_id : String) (payload : Payload) where
  IsKept-IsOther : IsKept host s task_id payload IsOther
  IsKept-IsOther = record {
    on_file = λ path. tt;
    on_parser = λ script manifest context h. tt;
    on_persist = λ path. tt;
  }

  upload_removal-IsOther :
      (o : Option String) → All IsOther (upload_removal host s task_id payload o)
  upload_removal-IsOther none = tt
  upload_removal-IsOther (some dir) = elim (Bool-cases (dir == "")) [
    | inl e ↦ rw (e) tt
    | inr e ↦ rw (e) (tt, tt)
  ]

  cleanup-IsOther :
      (keep : Bool) → All IsOther (cleanup_staged_workspace host s task_id payload keep)
  unfolding cleanup_staged_workspace
  cleanup-IsOther true = tt
  cleanup-IsOther false = elim (Bool-cases (host.is_dir (host.join s.import_work_root task_id))) [
    | inl e ↦ rw (e) (tt, upload_removal-IsOther payload.session_upload_dir)
    | inr e ↦ rw (e) (upload_removal-IsOther payload.session_upload_dir)
  ]

  settled-ok :
      (r : Result Exception (Dict Value)) {d : Dict Value}
      → settled host s task_id payload r ≡ ok d
      → r ≡ ok d
  unfolding settled
  settled-ok (ok v) h = h
  settled-ok (raise e) h = cc

  module _
      (store : String → ParseResult → Option String → Script → Option Value → Trace (Dict Value))
      (index : String)
      (stored : (result : ParseResult) (model : Option String) (script : Script)
          (task : Option Value)
        → OneWrite index (store payload.kb_index result model script task))
      (files : List (Dict Value)) where
    lift-IsOther {ℓ} : {A : Type ℓ} (r : Result Exception A) → Within IsOther (lift r)
    lift-IsOther r = tt

    build-IsOther :
        (staged : List (Dict Value))
        → Within IsOther (build_parse_manifest host s task_id payload staged)
    build-IsOther = build_parse_manifest-Within host s task_id payload IsOther IsKept-IsOther

    run-IsOther :
        (script manifest : String)
        → IsGuardedScript host s task_id payload script
        → Within IsOther (run_parse host s task_id payload script manifest)
    run-IsOther = run_parse-Within host s task_id payload IsOther IsKept-IsOther

    persisted-IsOther :
        (script : String) (d : Dict Value)
        → Within IsOther (persist_custom_parser_if_needed host s task_id payload script >> pure d)
    persisted-IsOther script d =
        Within->>= IsOther (persist_custom_parser_if_needed host s task_id payload script)
          (λ u. pure d) (persist-Within host s task_id payload IsOther IsKept-IsOther script)
          (λ u. tt)

    import_with-OneWrite :
        (script : String)
        → IsGuardedScript host s task_id payload script
        → OneWrite index (import_with host s task_id payload store script files)
    unfolding import_with
    import_with-OneWrite script h =
        search
          (
            OneWrite-after, OneWrite-before, stored, lift-IsOther, build-IsOther, run-IsOther,
            persisted-IsOther,
          )
          depth 24

    import_files-OneWrite : OneWrite index (import_files host s task_id payload store files)
    unfolding import_files
    import_files-OneWrite =
        OneWrite-after index (select_parser_script host s task_id payload) _
          (select_parser_script-Within host s task_id payload IsOther IsKept-IsOther)
          (λ script.
            OneWrite-lift index (guard_script host s task_id payload script) _ (λ u h.
              import_with-OneWrite script (guard_script-ok host s task_id payload script h)))

    -- Where the storage writes documents once into an index when it returns, so does the import.
    pub execute_task-OneWrite : OneWrite index (execute_task host s task_id payload store files)
    unfolding execute_task OneWrite
    execute_task-OneWrite d h =
        let t = import_files host s task_id payload store files in
        let (w, written, at_index) = import_files-OneWrite d (settled-ok t.0 h) in
        (w, writes-stop t.1 _ (cleanup-IsOther (keeps s t.0)) ∙ written, at_index)
