-- ===== src/Upload/Trace.antt =====
-- The effects of an import on the world outside of it, as a list of events in their order: a step that
-- raises leaves its own and those before it. What the world answers is a parameter of the steps.
pub mod Laws
use mathlib.Core.List.{append_assoc, append-nil}
use bi_ble_atlas.Base.{String, ◌≡◌, refl, ap, Option, List, [], ◌∷◌, ◌++◌, ◌⊎◌}
use bi_ble_atlas.Base.Dict.{Dict}
use bi_ble_atlas.Base.Value.{Value}
use bi_ble_atlas.Base.Result.{Result, ok, raise}
use bi_ble_atlas.Upload.{Exception}

-- The calls that were made, those that raised included.
pub data Event : Type 0 where
  -- `gateway.store`: the source path, the name and the task
  stored_file : (path filename : String) (task_id : Option Value) → Event
  -- `writer.create_index_binding`
  created_binding : Dict Value → Event
  -- `writer.upgrade_binding_vector_model`: the index and the model
  upgraded_binding : String → String → Event
  -- `writer.update_binding`
  updated_binding : String → Dict Value → Event
  -- `writer.bulk_upsert_content_docs`
  wrote_chunks : String → List (Dict Value) → Option (Dict Value) → Event
  -- a file that the service writes
  wrote_file : String → Event
  -- the parser's process, with its context
  ran_parser : (script manifest : String) → Option (Dict Value) → Event
  persisted_parser : String → Event
  -- `shutil.rmtree` of the task's workspace, and of the upload's directory
  removed_workspace removed_upload : String → Event

abbrev pub Trace {ℓ} : Type ℓ → Type ℓ
Trace A = Result Exception A × List Event

abbrev pub after {ℓ} : {B : Type ℓ} → List Event → Trace B → Trace B
after es (r, fs) = (r, es ++ fs)

infixl 5 ◌>>=◌ ◌>>◌
abbrev pub ◌>>=◌ {ℓ κ} : {A : Type ℓ} {B : Type κ} → Trace A → (A → Trace B) → Trace B
(ok a, es) >>= f = after es (f a)
(raise e, es) >>= f = (raise e, es)

abbrev pub ◌>>◌ {ℓ κ} : {A : Type ℓ} {B : Type κ} → Trace A → Trace B → Trace B
m >> k = m >>= λ _. k

module _ {ℓ} {A : Type ℓ} where
  abbrev pub pure : A → Trace A
  pure a = (ok a, [])

  -- A step without an effect.
  abbrev pub lift : Result Exception A → Trace A
  lift r = (r, [])

abbrev pub emit : Event → Trace (Unit {0})
emit e = (ok tt, e ∷ [])

-- A chain that returned: what each of its steps returned.
pub >>=-eq-ok {ℓ κ} :
    {A : Type ℓ} {B : Type κ} (m : Trace A) (f : A → Trace B) {b : B}
    → (m >>= f).0 ≡ ok b
    → (a : A) × (m.0 ≡ ok a) × ((f a).0 ≡ ok b)
>>=-eq-ok (ok a, es) f e = (a, refl, e)
>>=-eq-ok (raise x, es) f e = cc
