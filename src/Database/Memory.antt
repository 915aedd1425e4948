-- ===== src/Database/Memory.antt =====
-- A client over a store in memory, with the laws of `Client`, for the tests.
use bi_ble_atlas.Base.{
  ℕ, ◌+◌, String, ◌≡◌, refl, ap, ◌∙◌, true, Option, none, some, List, [], ◌∷◌, ◌==◌, if◌then◌else◌,
  length, eq_refl, Option-cases, inl, inr, arith,
}
use bi_ble_atlas.Base.Dict.{Dict, get}
use bi_ble_atlas.Base.Value.{Value, str, int, dict_of, fields-to_fields}
use bi_ble_atlas.Base.Result.{Result, ok, raise}
use bi_ble_atlas.Database.{Failure, not_found, conflict, Runtime, get_or_null}
use bi_ble_atlas.Database.Client.{Client, Script, Action, written, run_script, assign_all}
use bi_ble_atlas.Database.Vector.{or_no_dict, dict_in}
use bi_ble_atlas.Database.Binding.{set_clauses}
use bi_ble_atlas.Database.Binding.Laws.{get-patched}

pub record Store : Type 0 where
  pub docs : String → String → Option (Dict Value)
  pub props : String → Dict Value

abbrev fetch_doc : Option (Dict Value) → Result Failure (Dict Value)
fetch_doc none = raise not_found
fetch_doc (some d) = ok (("_source", dict_of d) ∷ [])

abbrev create_doc :
    String → String → Dict Value → Option (Dict Value) → Store → Result Failure (Dict Value) × Store
create_doc i k d none s = (ok [], record s { docs = written i k d s.docs })
create_doc i k d (some old) s = (raise conflict, s)

abbrev update_doc :
    String → String → Script → Option (Dict Value) → Store → Result Failure (Dict Value) × Store
update_doc i k script none s = (raise not_found, s)
update_doc i k script (some d) s =
    (ok [], record s { docs = written i k (run_script script d) s.docs })

abbrev set_props : String → Dict Value → Store → Store
set_props i p s = record s { props = λ j. if i == j then p else s.props j }

abbrev overlay : Dict Value → Dict Value → Dict Value
overlay p d = assign_all p (set_clauses p) d

set_props_self : (i : String) (p : Dict Value) (s : Store) → (set_props i p s).props i ≡ p
set_props_self i p s = rw (eq_refl i) refl

pub fetch-law :
    (o : Option (Dict Value)) {r : Dict Value}
    → fetch_doc o ≡ ok r
    → (d : Dict Value) × (o ≡ some d) × (get "_source" r ≡ some (dict_of d))
unfolding get
fetch-law none e = cc
fetch-law (some d) {r} e =
    let same : (("_source", dict_of d) ∷ []) ≡ r = cc (e) in (d, refl, rw (← same) refl)

pub fetch-none : (o : Option (Dict Value)) → fetch_doc o ≡ raise not_found → o ≡ none
fetch-none none e = refl
fetch-none (some d) e = cc

pub create-law :
    (i k : String) (d : Dict Value) (o : Option (Dict Value)) (s : Store) {r : Dict Value}
    → (create_doc i k d o s).0 ≡ ok r
    → (o ≡ none) × ((j l : String) → (create_doc i k d o s).1.docs j l ≡ written i k d s.docs j l)
create-law i k d none s e = (refl, λ j l. refl)
create-law i k d (some old) s e = cc

pub fetch_there-law :
    (o : Option (Dict Value)) {d : Dict Value}
    → o ≡ some d
    → (r : Dict Value) × (fetch_doc o ≡ ok r)
fetch_there-law none h = cc
fetch_there-law (some d) h = (("_source", dict_of d) ∷ [], refl)

pub update_there-law :
    (i k : String) (script : Script) (o : Option (Dict Value)) (s : Store) {d : Dict Value}
    → o ≡ some d
    → (r : Dict Value) × ((update_doc i k script o s).0 ≡ ok r) × (true ≡ true)
update_there-law i k script none s h = cc
update_there-law i k script (some d) s h = ([], refl, refl)

pub update-law :
    (i k : String) (script : Script) (o : Option (Dict Value)) (s : Store) {r : Dict Value}
    → (update_doc i k script o s).0 ≡ ok r
    → (d : Dict Value) × (o ≡ some d)
      × ((j l : String)
          → (update_doc i k script o s).1.docs j l ≡ written i k (run_script script d) s.docs j l)
update-law i k script none s e = cc
update-law i k script (some d) s e = (d, refl, λ j l. refl)

overlay-law :
    (k : String) (p d : Dict Value)
    → get k (overlay p d) ≡ elim (get k p) [ none ↦ get k d | some v ↦ some v ]
overlay-law k p d = elim (Option-cases (get k p)) [
  | inl e ↦ get-patched k p d ∙ rw (e) refl
  | inr (v, e) ↦ get-patched k p d ∙ rw (e) refl
]

pub create_index-law :
    (i : String) (body p : Dict Value) (s : Store)
    → get "mappings" body ≡ some (dict_of (("properties", dict_of p) ∷ []))
    → (set_props i (or_no_dict (dict_in "properties" (get_or_null "mappings" body))) s).props i ≡ p
unfolding get
create_index-law i body p s e = set_props_self i _ s ∙ rw (e) (fields-to_fields p)

pub mapped-law :
    (i k : String) (p : Dict Value) (s : Store)
    → get k (
        (set_props i
            (overlay
              (or_no_dict (get_or_null "properties" (("properties", dict_of p) ∷ [])))
              (s.props i))
            s).props
          i)
      ≡ elim (get k p) [ none ↦ get k (s.props i) | some v ↦ some v ]
unfolding get
mapped-law i k p s = rw (eq_refl i, fields-to_fields p) (overlay-law k p (s.props i))

pub bulk-law :
    (actions : List Action) {n : ℕ} {errors : List Value}
    → ◌≡◌ {A = Result Failure (ℕ × List Value)} (ok (length actions, [])) (ok (n, errors))
    → n + length errors ≡ length actions
bulk-law actions {n} {errors} e =
    let same : ◌≡◌ {A = ℕ × List Value} (length actions, []) (n, errors) = cc (e) in
    let count : length actions ≡ n = ap (λ t. t.0) same in
    let none_left : 0 ≡ length errors = ap (λ t. length t.1) same in omega (arith, count, none_left)

pub ok-law : (v : Value) {w : Value} → ◌≡◌ {A = Result Failure Value} (ok v) (ok w) → w ≡ v
ok-law v e = cc (e)

abbrev pub store : Client
store = record {
  State = Store;
  documents = λ s. s.docs;
  is_transport_error = λ e. true;
  fetch = λ i k s. fetch_doc (s.docs i k);
  find = λ i body s. ok [];
  create = λ i k d s. create_doc i k d (s.docs i k) s;
  update = λ i k script s. update_doc i k script (s.docs i k) s;
  bulk = λ actions s. (ok (length actions, []), s);
  exists = λ i s. ok true;
  create_index = λ i body s.
      (ok tt, set_props i (or_no_dict (dict_in "properties" (get_or_null "mappings" body))) s);
  get_mapping = λ i s. ok (
      dict_of (
        (i, dict_of (("mappings", dict_of (("properties", dict_of (s.props i)) ∷ [])) ∷ [])) ∷ []));
  put_mapping = λ i body s.
      (ok tt, set_props i (overlay (or_no_dict (get_or_null "properties" body)) (s.props i)) s);
  put_settings = λ i settings s. (ok tt, s);
  properties = λ s. s.props;
  get_mapping-ok = λ i s e. ok-law _ e;
  create_index-ok = λ i body p s has e. create_index-law i body p s has;
  put_mapping-ok = λ i k p s e. mapped-law i k p s;
  put_settings-ok = λ i settings s. refl;
  reachable = λ s. true;
  fetch-there = λ i k s up there. fetch_there-law (s.docs i k) there;
  update-there = λ i k script s up there. update_there-law i k script (s.docs i k) s there;
  fetch-ok = λ i k s e. fetch-law (s.docs i k) e;
  fetch-not_found = λ i k s e. fetch-none (s.docs i k) e;
  create-ok = λ i k d s e. create-law i k d (s.docs i k) s e;
  update-ok = λ i k script s e. update-law i k script (s.docs i k) s e;
  bulk-ok = λ actions s e. bulk-law actions e;
}

-- `str`, `json.loads` and `int` at what the tests meet.
abbrev pub runtime : Runtime
runtime = record {
  str_of = λ v. elim v [ str s ↦ s | _ ↦ "{}" ];
  str_of-str = λ s. refl;
  loads = λ s. some (dict_of []);
  to_int = λ v. elim v [ int z ↦ some z | _ ↦ none ];
}

abbrev pub no_docs : Store
no_docs = record { docs = λ i k. none; props = λ i. [] }

abbrev pub doc : Dict Value
doc =
    ("domain_type", str "MEMORY")
    ∷ ("kb_index", str "notes")
    ∷ ("tag", str "memory")
    ∷ ("parser_script_source", str "parse_memory.py")
    ∷ ("parser_script_sha256", str "ab")
    ∷ ("search_profile_json", str "{}")
    ∷ ("search_profile_sha256", str "cd")
    ∷ []
