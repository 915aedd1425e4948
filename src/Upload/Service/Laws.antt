-- ===== src/Upload/Service/Laws.antt =====
-- What every run of an import keeps to: its parser is guarded, its workspace is cleaned up, and what it
-- raises is an error of the application.
use bi_ble_atlas.Base.{
  String, ◌≡◌, refl, subst, ◌∙◌, Bool, true, false, ◌&&◌, ◌||◌, Option, none, some, List, [], ◌∷◌,
  ◌++◌, ◌⊎◌, ◌==◌, inl, inr, if◌then◌else◌, Bool-cases, All,
}
use bi_ble_atlas.Base.Dict.{Dict}
use bi_ble_atlas.Base.Value.{Value}
use bi_ble_atlas.Base.Result.{Result, ok, raise}
use bi_ble_atlas.Errors.{DomainError}
use bi_ble_atlas.Upload.{
  Exception, domain, value_error, soft_time_limit_exceeded, attribute_error, type_error, key_error,
  external,
}
use bi_ble_atlas.Upload.Trace.{
  Event, Trace, wrote_file, ran_parser, persisted_parser, removed_workspace, removed_upload, ◌>>=◌,
  pure, lift,
}
use bi_ble_atlas.Upload.Trace.Laws.{Within, Within->>=, All-append, All-map}
use bi_ble_atlas.Upload.Guard.{validate}
use bi_ble_atlas.Upload.Store.{ParseResult, Script}
use bi_ble_atlas.Upload.Store.Laws.{IsStored}
use bi_ble_atlas.Upload.Service.Stage.{Payload, Settings, is_user_supplied, is_raise}
use bi_ble_atlas.Upload.Service.{
  Host, given_or, inline_or_registered, write_inline_script, select_parser_script, is_custom_parser,
  guard_script, build_parse_manifest, run_parse, persist_custom_parser_if_needed, import_with,
  import_files, handled, settled, upload_removal, cleanup_staged_workspace, execute_task,
}

pub Within-lift {ℓ κ} :
    (P : Event → Type 0) {A : Type ℓ} {B : Type κ} (r : Result Exception A) (f : A → Trace B)
    → ((a : A) → r ≡ ok a → Within P (f a))
    → Within P (lift r >>= f)
Within-lift P (ok a) f h = h a refl
Within-lift P (raise e) f h = tt

module _ (host : Host) (s : Settings) (task_id : String) (payload : Payload) where
  -- The script is of a registered parser, or the guard accepted it.
  abbrev pub IsGuardedScript : String → Type 0
  IsGuardedScript script =
      ((is_user_supplied payload || is_custom_parser host s task_id payload script) ≡ false)
      ⊎ (validate host.scripts script ≡ ok tt)

  pub guard_script-ok :
      (script : String) {u : Unit {0}}
      → guard_script host s task_id payload script ≡ ok u
      → IsGuardedScript script
  unfolding guard_script
  guard_script-ok script h =
      elim (Bool-cases
        (is_user_supplied payload || is_custom_parser host s task_id payload script)) [
          | inr trusted ↦ inl trusted
          | inl brought ↦ inr (rw (brought) at h)
        ]

  -- What holds of the calls of an import, cleanup aside.
  pub record IsKept (P : Event → Type 0) : Type 0 where
    pub on_file : (path : String) → P (wrote_file path)
    pub on_parser :
        (script manifest : String) (context : Option (Dict Value))
        → IsGuardedScript script
        → P (ran_parser script manifest context)
    pub on_persist : (path : String) → P (persisted_parser path)

  module _ (P : Event → Type 0) (kept : IsKept P) where
    pub lift-Within {ℓ} : {A : Type ℓ} (r : Result Exception A) → Within P (lift r)
    lift-Within r = tt

    -- A call, then a result.
    pub call-Within {ℓ} :
        {A : Type ℓ} (r : Result Exception (Unit {0})) (a : A) → Within P (lift r >>= λ u. pure a)
    call-Within (ok u) a = tt
    call-Within (raise e) a = tt

    given_or-Within : (o : Option String) (t : Trace String) → Within P t → Within P (given_or o t)
    given_or-Within (some path) t h = tt
    given_or-Within none t h = h

    inline_or_registered-Within :
        (o : Option Value) → Within P (inline_or_registered host s task_id payload o)
    unfolding write_inline_script
    inline_or_registered-Within none = tt
    inline_or_registered-Within (some content) = (kept.on_file _, call-Within _ _)

    lift-lift-Within {ℓ κ} :
        {A : Type ℓ} {B : Type κ} (r : Result Exception A) (f : A → Result Exception B)
        → Within P (lift r >>= λ a. lift (f a))
    lift-lift-Within (ok a) f = tt
    lift-lift-Within (raise e) f = tt

    pub select_parser_script-Within : Within P (select_parser_script host s task_id payload)
    unfolding select_parser_script
    select_parser_script-Within = search (given_or-Within, inline_or_registered-Within)

    pub build_parse_manifest-Within :
        (files : List (Dict Value)) → Within P (build_parse_manifest host s task_id payload files)
    unfolding build_parse_manifest
    build_parse_manifest-Within files = (kept.on_file _, call-Within _ _)

    pub run_parse-Within :
        (script manifest : String)
        → IsGuardedScript script
        → Within P (run_parse host s task_id payload script manifest)
    unfolding run_parse
    run_parse-Within script manifest h = (kept.on_parser script manifest _ h, lift-lift-Within _ _)

    pub persist-Within :
        (script : String) → Within P (persist_custom_parser_if_needed host s task_id payload script)
    unfolding persist_custom_parser_if_needed
    persist-Within script = elim (Bool-cases (is_user_supplied payload)) [
      | inl yes' ↦ rw (yes') (kept.on_persist _, tt)
      | inr no' ↦ rw (no') tt
    ]

    module _
        (store : String → ParseResult → Option String → Script → Option Value → Trace (Dict Value))
        (stored : (kb_index : String) (result : ParseResult) (model : Option String)
            (script : Script) (task : Option Value)
          → Within IsStored (store kb_index result model script task))
        (on_stored : (e : Event) → IsStored e → P e) where
      store-Within :
          (kb_index : String) (result : ParseResult) (model : Option String) (script : Script)
          (task : Option Value)
          → Within P (store kb_index result model script task)
      store-Within kb_index result model script task =
          All-map IsStored P (store kb_index result model script task).1 on_stored
            (stored kb_index result model script task)

      import_with-Within :
          (script : String) (files : List (Dict Value))
          → IsGuardedScript script
          → Within P (import_with host s task_id payload store script files)
      unfolding import_with
      import_with-Within script files h =
          search
            (
              Within->>=, build_parse_manifest-Within, run_parse-Within, lift-Within, store-Within,
              persist-Within,
            )
            depth 24

      import_files-Within :
          (files : List (Dict Value)) → Within P (import_files host s task_id payload store files)
      unfolding import_files
      import_files-Within files =
          Within->>= P (select_parser_script host s task_id payload) _ select_parser_script-Within
            (λ script.
              Within-lift P (guard_script host s task_id payload script) _
                (λ u h. import_with-Within script files (guard_script-ok script h)))

  -- Calls of the parser are guarded; other calls are free.
  abbrev pub IsGuarded : Event → Type 0
  IsGuarded (ran_parser script manifest context) = IsGuardedScript script
  IsGuarded _ = Unit {0}

  -- The directories that are removed.
  abbrev pub removals : List Event → List String
  removals [] = []
  removals (removed_workspace dir ∷ es) = dir ∷ removals es
  removals (removed_upload dir ∷ es) = dir ∷ removals es
  removals (e ∷ es) = removals es

  abbrev IsWork : Event → Type 0
  IsWork (removed_workspace dir) = ⊥
  IsWork (removed_upload dir) = ⊥
  IsWork _ = Unit {0}

  stored-IsGuarded : (e : Event) → IsStored e → IsGuarded e
  stored-IsGuarded (ran_parser script manifest context) h = elim h [ ]
  stored-IsGuarded e h = tt

  stored-IsWork : (e : Event) → IsStored e → IsWork e
  stored-IsWork (removed_workspace dir) h = elim h [ ]
  stored-IsWork (removed_upload dir) h = elim h [ ]
  stored-IsWork e h = tt

  removals-append : (es fs : List Event) → All IsWork es → removals (es ++ fs) ≡ removals fs
  removals-append [] fs h = refl
  removals-append (removed_workspace dir ∷ es) fs (u, h) = elim u [ ]
  removals-append (removed_upload dir ∷ es) fs (u, h) = elim u [ ]
  removals-append (e ∷ es) fs (u, h) = removals-append es fs h

  IsKept-IsGuarded : IsKept IsGuarded
  IsKept-IsGuarded = record {
    on_file = λ path. tt;
    on_parser = λ script manifest context h. h;
    on_persist = λ path. tt;
  }

  IsKept-IsWork : IsKept IsWork
  IsKept-IsWork = record {
    on_file = λ path. tt;
    on_parser = λ script manifest context h. tt;
    on_persist = λ path. tt;
  }

  is_raise-settled :
      (r : Result Exception (Dict Value)) → is_raise (settled host s task_id payload r) ≡ is_raise r
  unfolding settled
  is_raise-settled (ok v) = refl
  is_raise-settled (raise e) = refl

  upload_removal-IsGuarded :
      (o : Option String) → All IsGuarded (upload_removal host s task_id payload o)
  upload_removal-IsGuarded none = tt
  upload_removal-IsGuarded (some dir) = elim (Bool-cases (dir == "")) [
    | inl e ↦ rw (e) tt
    | inr e ↦ rw (e) (tt, tt)
  ]

  cleanup-IsGuarded :
      (keep : Bool) → All IsGuarded (cleanup_staged_workspace host s task_id payload keep)
  unfolding cleanup_staged_workspace
  cleanup-IsGuarded true = tt
  cleanup-IsGuarded false = elim (Bool-cases (host.is_dir (host.join s.import_work_root task_id))) [
    | inl e ↦ rw (e) (tt, upload_removal-IsGuarded payload.session_upload_dir)
    | inr e ↦ rw (e) (upload_removal-IsGuarded payload.session_upload_dir)
  ]

  cleanup-removals :
      (keep : Bool) (dir : String)
      → payload.session_upload_dir ≡ some dir
      → (dir == "") ≡ false
      → let task_dir = host.join s.import_work_root task_id in
        removals (cleanup_staged_workspace host s task_id payload keep)
        ≡ (if keep then [] else if host.is_dir task_dir then task_dir ∷ dir ∷ [] else dir ∷ [])
  unfolding cleanup_staged_workspace
  cleanup-removals true dir given filled = refl
  cleanup-removals false dir given filled =
      elim (Bool-cases (host.is_dir (host.join s.import_work_root task_id))) [
        | inl e ↦ rw (e, given, filled) refl
        | inr e ↦ rw (e, given, filled) refl
      ]

  handled-raises :
      (x : Exception)
      → ((d : DomainError) × (handled host s task_id payload x ≡ domain d))
        ⊎ (handled host s task_id payload x ≡ soft_time_limit_exceeded)
  unfolding handled
  handled-raises (domain d) = inl (d, refl)
  handled-raises soft_time_limit_exceeded = inr refl
  handled-raises (value_error p) = inl (_, refl)
  handled-raises attribute_error = inl (_, refl)
  handled-raises type_error = inl (_, refl)
  handled-raises (key_error k) = inl (_, refl)
  handled-raises (external t) = inl (_, refl)

  settled-raises :
      (r : Result Exception (Dict Value)) (e : Exception)
      → settled host s task_id payload r ≡ raise e
      → ((d : DomainError) × (e ≡ domain d)) ⊎ (e ≡ soft_time_limit_exceeded)
  unfolding settled
  settled-raises (ok v) e h = cc
  settled-raises (raise x) e h =
      let same : handled host s task_id payload x ≡ e = cc (h) in
      subst
        (λ (y : Exception). ((d : DomainError) × (y ≡ domain d)) ⊎ (y ≡ soft_time_limit_exceeded))
        same (handled-raises x)

  module _
      (store : String → ParseResult → Option String → Script → Option Value → Trace (Dict Value))
      (stored : (kb_index : String) (result : ParseResult) (model : Option String) (script : Script)
          (task : Option Value)
        → Within IsStored (store kb_index result model script task))
      (files : List (Dict Value)) where
    -- Of the storage it is asked that its calls are on files, bindings and documents. An import starts a
    -- parser that its user brought, or that stands where such parsers are kept, only if the guard accepted
    -- it, whatever the import ends with.
    pub execute_task-IsGuarded : Within IsGuarded (execute_task host s task_id payload store files)
    unfolding execute_task
    execute_task-IsGuarded =
        All-append IsGuarded (import_files host s task_id payload store files).1 _
          (import_files-Within IsGuarded IsKept-IsGuarded store stored stored-IsGuarded files)
          (cleanup-IsGuarded _)

    -- Of the storage the same is asked. An import that fails where failed workspaces are kept removes
    -- nothing; any other removes the task's directory, where there is one, and then the directory of the
    -- upload, and nothing else.
    pub execute_task-removals :
        (dir : String)
        → payload.session_upload_dir ≡ some dir
        → (dir == "") ≡ false
        → let t = execute_task host s task_id payload store files in
          let task_dir = host.join s.import_work_root task_id in
          removals t.1 ≡ (
            if is_raise t.0 && s.keep_failed_workspace
            then []
            else if host.is_dir task_dir
            then task_dir ∷ dir ∷ []
            else dir ∷ [])
    unfolding execute_task
    execute_task-removals dir given filled =
        removals-append (import_files host s task_id payload store files).1 _
          (import_files-Within IsWork IsKept-IsWork store stored stored-IsWork files)
        ∙ rw (is_raise-settled (import_files host s task_id payload store files).0)
            (cleanup-removals _ dir given filled)

    -- What an import raises is an error of the application or the soft time limit.
    pub execute_task-raises :
        (e : Exception)
        → (execute_task host s task_id payload store files).0 ≡ raise e
        → ((d : DomainError) × (e ≡ domain d)) ⊎ (e ≡ soft_time_limit_exceeded)
    unfolding execute_task
    execute_task-raises e h = settled-raises (import_files host s task_id payload store files).0 e h
