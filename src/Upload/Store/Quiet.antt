-- ===== src/Upload/Store/Quiet.antt =====
-- The calls of an import that write no document, and the writes that it makes.
use mathlib.Core.List.{append-nil}
use bi_ble_atlas.Base.{
  sym, String, ◌≡◌, refl, ap, ◌∙◌, Option, none, some, List, [], ◌∷◌, ◌++◌, inl, inr, if◌then◌else◌,
  Bool-cases, All,
}
use bi_ble_atlas.Base.Dict.{Dict}
use bi_ble_atlas.Base.Value.{Value}
use bi_ble_atlas.Base.Result.{Result, ok, raise}
use bi_ble_atlas.Upload.{Exception}
use bi_ble_atlas.Upload.Trace.{
  Event, Trace, stored_file, created_binding, upgraded_binding, updated_binding, wrote_chunks,
  wrote_file, ran_parser, persisted_parser, removed_workspace, removed_upload, ◌>>=◌, pure, lift,
}
use bi_ble_atlas.Upload.Trace.Laws.{Within, Within->>=}
use bi_ble_atlas.Upload.World.{FileStoreResult, IndexBinding, World}
use bi_ble_atlas.Upload.Plan.{plan_file}
use bi_ble_atlas.Upload.Files.{is_missing, store_file, save_files, save_files_by_plan}
use bi_ble_atlas.Upload.Binding.{
  Import, by_existing, create_binding, upgrade_model, upgrade_binding, get_or_create_binding,
  update_if_needed, overwrite_binding, get_or_create_skill_binding,
}

-- One call of `bulk_upsert_content_docs`.
pub record Write : Type 0 where
  pub index : String
  pub chunks : List (Dict Value)
  pub options : Option (Dict Value)

abbrev pub writes : List Event → List Write
writes [] = []
writes (wrote_chunks index chunks options ∷ es) =
    record { index = index; chunks = chunks; options = options } ∷ writes es
writes (e ∷ es) = writes es

-- The calls before the documents are written: files and bindings.
abbrev pub IsStoring : Event → Type 0
IsStoring (stored_file _ _ _) = Unit {0}
IsStoring (created_binding _) = Unit {0}
IsStoring (upgraded_binding _ _) = Unit {0}
IsStoring (updated_binding _ _) = Unit {0}
IsStoring _ = ⊥

pub writes-append : (es fs : List Event) → All IsStoring es → writes (es ++ fs) ≡ writes fs
writes-append [] fs h = refl
writes-append (stored_file _ _ _ ∷ es) fs (u, h) = writes-append es fs h
writes-append (created_binding _ ∷ es) fs (u, h) = writes-append es fs h
writes-append (upgraded_binding _ _ ∷ es) fs (u, h) = writes-append es fs h
writes-append (updated_binding _ _ ∷ es) fs (u, h) = writes-append es fs h
writes-append (wrote_chunks _ _ _ ∷ es) fs (u, h) = elim u [ ]
writes-append (wrote_file _ ∷ es) fs (u, h) = elim u [ ]
writes-append (ran_parser _ _ _ ∷ es) fs (u, h) = elim u [ ]
writes-append (persisted_parser _ ∷ es) fs (u, h) = elim u [ ]
writes-append (removed_workspace _ ∷ es) fs (u, h) = elim u [ ]
writes-append (removed_upload _ ∷ es) fs (u, h) = elim u [ ]

pub writes-none : (es : List Event) → All IsStoring es → writes es ≡ []
writes-none es h = ap writes (sym (append-nil es)) ∙ writes-append es [] h

-- A step that writes no document.
abbrev pub Quiet {ℓ} : {A : Type ℓ} → Trace A → Type 0
Quiet t = Within IsStoring t

pub Quiet->>= {ℓ κ} :
    {A : Type ℓ} {B : Type κ} (m : Trace A) (f : A → Trace B)
    → Quiet m
    → ((a : A) → Quiet (f a))
    → Quiet (m >>= f)
Quiet->>= m f h k = Within->>= IsStoring m f h k

pub lift-Quiet {ℓ} : {A : Type ℓ} (r : Result Exception A) → Quiet (lift r)
lift-Quiet r = tt

module _ (world : World) where
  pub save_files-Quiet :
      (kb_index : Option String) (task_id : Option Value) (vs : List Value)
      (acc : Dict FileStoreResult)
      → Quiet (save_files world kb_index task_id vs acc)
  unfolding save_files store_file
  save_files-Quiet kb_index task_id [] acc = tt
  save_files-Quiet kb_index task_id (v ∷ vs) acc = Quiet->>= (lift (plan_file world v)) _ tt (λ f.
      Quiet->>= (if is_missing world f then pure acc else store_file world kb_index task_id f acc) _
        (elim (Bool-cases (is_missing world f)) [
          | inl gone ↦ rw (gone) tt
          | inr there ↦ rw (there) (search Quiet->>=)
        ])
        (λ results. save_files-Quiet kb_index task_id vs results))

  pub save_files_by_plan-Quiet :
      (kb_index : Option String) (plan : Option (Dict Value)) (task_id : Option Value)
      → Quiet (save_files_by_plan world kb_index plan task_id)
  unfolding save_files_by_plan
  save_files_by_plan-Quiet kb_index none task_id = tt
  save_files_by_plan-Quiet kb_index (some []) task_id = tt
  save_files_by_plan-Quiet kb_index (some (entry ∷ plan)) task_id =
      search (Quiet->>=, save_files-Quiet)

  by_existing-Quiet :
      (create : Trace IndexBinding) (reuse : IndexBinding → Trace IndexBinding)
      (o : Option IndexBinding)
      → Quiet create
      → ((old : IndexBinding) → Quiet (reuse old))
      → Quiet (by_existing create reuse o)
  by_existing-Quiet create reuse none h k = h
  by_existing-Quiet create reuse (some old) h k = k old

  -- A call, then a result.
  call-Quiet {ℓ} :
      {A : Type ℓ} (r : Result Exception (Unit {0})) (a : A) → Quiet (lift r >>= λ u. pure a)
  call-Quiet (ok u) a = tt
  call-Quiet (raise e) a = tt

  module _ (i : Import) where
    create_binding-Quiet : (domain_type : String) → Quiet (create_binding world i domain_type)
    unfolding create_binding
    create_binding-Quiet domain_type = (tt, call-Quiet _ _)

    upgrade_model-Quiet :
        (m m' : Option String) (old : IndexBinding) → Quiet (upgrade_model world i m m' old)
    unfolding upgrade_model
    upgrade_model-Quiet none none old = tt
    upgrade_model-Quiet (some m) m' old = tt
    upgrade_model-Quiet none (some m) old = (tt, call-Quiet _ _)

    update_if_needed-Quiet : (p : Dict Value) → Quiet (update_if_needed world i p)
    unfolding update_if_needed
    update_if_needed-Quiet [] = tt
    update_if_needed-Quiet (entry ∷ p) = (tt, tt)

    pub get_or_create_binding-Quiet : Quiet (get_or_create_binding world i)
    unfolding get_or_create_binding upgrade_binding
    get_or_create_binding-Quiet =
        search (Quiet->>=, by_existing-Quiet, create_binding-Quiet, upgrade_model-Quiet)

    overwrite_binding-Quiet : (old : IndexBinding) → Quiet (overwrite_binding world i old)
    unfolding overwrite_binding
    overwrite_binding-Quiet old = search (Quiet->>=, update_if_needed-Quiet)

    pub get_or_create_skill_binding-Quiet : Quiet (get_or_create_skill_binding world i)
    unfolding get_or_create_skill_binding
    get_or_create_skill_binding-Quiet =
        search (Quiet->>=, by_existing-Quiet, create_binding-Quiet, overwrite_binding-Quiet)
