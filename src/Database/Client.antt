-- ===== src/Database/Client.antt =====
-- The client of a search engine, opensearchpy or elasticsearch. It is not in the repository's sources: the
-- writers take it as a parameter, with the behaviour that its documentation gives for the calls that they
-- make. The refresh policy and the timeout, which every call carries, are part of the client.
use bi_ble_atlas.Base.{
  ℕ, ◌+◌, String, ◌≡◌, Bool, true, Option, none, some, List, [], ◌∷◌, ◌==◌, ◌&&◌, if◌then◌else◌,
  length, refl, eq_refl, or_else,
}
use bi_ble_atlas.Base.Dict.{Dict, get, put}
use bi_ble_atlas.Base.Value.{Value, dict_of}
use bi_ble_atlas.Base.Result.{Result, ok, raise}
use bi_ble_atlas.Database.{Failure, not_found, DatabaseError, Exception, database, client}
use bi_ble_atlas.Database.Step.{Step}

-- A Painless script, as the assignments `ctx._source.k = params.p;` and `ctx._source.k = v;` of its text.
pub data Operand : Type 0 where
  param : String → Operand
  literal : Value → Operand

pub record Script : Type 0 where
  pub source : List (String × Operand)
  pub params : Dict Value

-- An action of the `bulk` helper: an update with `doc_as_upsert`.
pub record Action : Type 0 where
  pub index : String
  pub id : String
  pub doc : Dict Value

abbrev pub operand : Dict Value → Operand → Value
operand params (param p) = or_else (get p params) Value.null
operand params (literal v) = v

-- The assignments, in their order.
abbrev pub assign_all : Dict Value → List (String × Operand) → Dict Value → Dict Value
assign_all params [] d = d
assign_all params ((k, o) ∷ source) d = assign_all params source (put k (operand params o) d)

abbrev pub run_script : Script → Dict Value → Dict Value
run_script script d = assign_all script.params script.source d

-- The documents after one of them is written.
abbrev pub written :
    String
    → String
    → Dict Value
    → (String → String → Option (Dict Value))
    → String
    → String
    → Option (Dict Value)
written i k d docs j l = if (i == j) && (k == l) then some d else docs j l

pub written_self :
    (i k : String) (d : Dict Value) (docs : String → String → Option (Dict Value))
    → written i k d docs i k ≡ some d
written_self i k d docs = rw (eq_refl i, eq_refl k) refl

pub record Client : Type 1 where
  pub State : Type 0
  -- the documents, by index and id
  pub documents : State → String → String → Option (Dict Value)
  -- is the exception one of the class `TransportError`?
  pub is_transport_error : Failure → Bool
  -- `client.get`, `client.search`: the response
  pub fetch : String → String → State → Result Failure (Dict Value)
  pub find : String → Dict Value → State → Result Failure (Dict Value)
  -- `client.index` with `op_type="create"`, and `client.update` with a script
  pub create : String → String → Dict Value → Step State Failure (Dict Value)
  pub update : String → String → Script → Step State Failure (Dict Value)
  -- `bulk` with `raise_on_error=False`: the number of successes and the errors
  pub bulk : List Action → Step State Failure (ℕ × List Value)
  -- `client.indices`: `exists`, `create`, `get_mapping`, `put_mapping`, `put_settings`
  pub exists : String → State → Result Failure Bool
  pub create_index : String → Dict Value → Step State Failure (Unit {0})
  pub get_mapping : String → State → Result Failure Value
  pub put_mapping : String → Dict Value → Step State Failure (Unit {0})
  pub put_settings : String → Dict Value → Step State Failure (Unit {0})
  -- the fields of an index
  pub properties : State → String → Dict Value
  -- A mapping that is got shows the fields; those of a new index are the ones of its body, and those that
  -- are put come before the ones that were there. The settings change none.
  pub get_mapping-ok :
      (i : String) (s : State) {v : Value}
      → get_mapping i s ≡ ok v
      → v
        ≡ dict_of (
            (
              i,
              dict_of (("mappings", dict_of (("properties", dict_of (properties s i)) ∷ [])) ∷ []),
            )
            ∷ [])
  pub create_index-ok :
      (i : String) (body p : Dict Value) (s : State) {u : Unit {0}}
      → get "mappings" body ≡ some (dict_of (("properties", dict_of p) ∷ []))
      → (create_index i body s).0 ≡ ok u
      → properties (create_index i body s).1 i ≡ p
  pub put_mapping-ok :
      (i k : String) (p : Dict Value) (s : State) {u : Unit {0}}
      → (put_mapping i (("properties", dict_of p) ∷ []) s).0 ≡ ok u
      → get k (properties (put_mapping i (("properties", dict_of p) ∷ []) s).1 i)
        ≡ elim (get k p) [ none ↦ get k (properties s i) | some v ↦ some v ]
  pub put_settings-ok :
      (i : String) (settings : Dict Value) (s : State)
      → properties (put_settings i settings s).1 i ≡ properties s i
  -- Where the engine is reachable, a document that is there is got, and a script on it runs.
  pub reachable : State → Bool
  pub fetch-there :
      (i k : String) (s : State) {d : Dict Value}
      → reachable s ≡ true
      → documents s i k ≡ some d
      → (r : Dict Value) × (fetch i k s ≡ ok r)
  pub update-there :
      (i k : String) (script : Script) (s : State) {d : Dict Value}
      → reachable s ≡ true
      → documents s i k ≡ some d
      → (r : Dict Value) × ((update i k script s).0 ≡ ok r)
        × (reachable (update i k script s).1 ≡ true)
  -- A document that is got is one that is there.
  pub fetch-ok :
      (i k : String) (s : State) {r : Dict Value}
      → fetch i k s ≡ ok r
      → (d : Dict Value) × (documents s i k ≡ some d) × (get "_source" r ≡ some (dict_of d))
  pub fetch-not_found :
      (i k : String) (s : State) → fetch i k s ≡ raise not_found → documents s i k ≡ none
  -- A creation succeeds only where there is no such document, and then there is this one.
  pub create-ok :
      (i k : String) (d : Dict Value) (s : State) {r : Dict Value}
      → (create i k d s).0 ≡ ok r
      → (documents s i k ≡ none)
        × ((j l : String) → documents (create i k d s).1 j l ≡ written i k d (documents s) j l)
  -- A script that ran has made its assignments on a document that was there.
  pub update-ok :
      (i k : String) (script : Script) (s : State) {r : Dict Value}
      → (update i k script s).0 ≡ ok r
      → (d : Dict Value) × (documents s i k ≡ some d)
        × ((j l : String)
            → documents (update i k script s).1 j l
              ≡ written i k (run_script script d) (documents s) j l)
  -- Every action either succeeds or is among the errors.
  pub bulk-ok :
      (actions : List Action) (s : State) {n : ℕ} {errors : List Value}
      → (bulk actions s).0 ≡ ok (n, errors)
      → n + length errors ≡ length actions

-- What a client raised, as the exception of a writer that names `TransportError` alone.
unfoldable pub unavailable : Client → DatabaseError → Failure → Exception
unavailable c error e = if c.is_transport_error e then database error else client e
