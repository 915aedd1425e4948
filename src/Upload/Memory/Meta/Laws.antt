-- ===== src/Upload/Memory/Meta/Laws.antt =====
-- What holds of the description that a meta.json is accepted with.
use bi_ble_atlas.Base.{
  ℕ, String, ◌≡◌, subst, true, false, Option, none, some, List, [], ◌∷◌, ◌==◌, or_else, strip,
  text_length, ◌≤◌, All, arith, Bool-cases, Option-cases, inl, inr,
}
use bi_ble_atlas.Base.Text.Laws.{length-strip}
use bi_ble_atlas.Base.Dict.{Dict, get}
use bi_ble_atlas.Base.Value.{Value, str, arr, items, truthy}
use bi_ble_atlas.Base.Result.{ok, >>=-eq-ok}
use bi_ble_atlas.Upload.{Runtime, as_dict, stripped}
use bi_ble_atlas.Upload.Memory.Meta.{
  MemoryMeta, opt, nonblank, str_list, require_field, validate_required, limit_field,
  validate_lengths, iso8601, validate_iso8601, item, overview_of, build_meta, parse_meta,
}

abbrev pub IsGiven : String → Type 0
IsGiven s = (s == "") ≡ false

module _ (rt : Runtime) where
  abbrev pub IsTime : Option String → Type 0
  IsTime none = Unit {0}
  IsTime (some s) = rt.is_iso8601 s ≡ true

  pub record IsValid (m : MemoryMeta) : Type 0 where
    pub id_given : IsGiven m.memory_id
    pub title_given : IsGiven m.title
    pub abstract_given : IsGiven m.abstract
    pub title_short : text_length m.title ≤ 200
    pub abstract_short : text_length m.abstract ≤ 500
    pub overview_short : text_length m.overview ≤ 2000
    pub created_is_time : IsTime m.created_at
    pub updated_is_time : IsTime m.updated_at
    pub tasks_given : All IsGiven m.task_ids
    pub features_given : All IsGiven m.feature_tags
    pub domains_given : All IsGiven m.domain_tags
    pub components_given : All IsGiven m.component_tags

  nonblank-All : (vs : List Value) → All IsGiven (nonblank rt vs)
  unfolding nonblank
  nonblank-All [] = tt
  nonblank-All (v ∷ vs) = elim (Bool-cases (strip (rt.str_of v) == "")) [
    | inl blank ↦ rw blank (nonblank-All vs)
    | inr given ↦ rw given (given, nonblank-All vs)
  ]

  str_list-All : (v : Value) {ss : List String} → str_list rt v ≡ ok ss → All IsGiven ss
  unfolding str_list
  str_list-All Value.null {ss} h = let same : [] ≡ ss = cc (h) in subst (All IsGiven) same tt
  str_list-All (arr vs) {ss} h =
      let same : nonblank rt (items vs) ≡ ss = cc (h) in
      subst (All IsGiven) same (nonblank-All (items vs))
  str_list-All _ h = cc

  iso8601-IsTime :
      (k : String) (o : Option String) {u : Unit {0}} → iso8601 rt k o ≡ ok u → IsTime o
  iso8601-IsTime k none h = tt
  iso8601-IsTime k (some s) h = elim (Bool-cases (rt.is_iso8601 s)) [
    | inl good ↦ good
    | inr bad ↦ cc (rw bad at h)
  ]

  item-value :
      (k : String) (d : Dict Value) (o : Value) {v : Value}
      → item rt k d ≡ ok v
      → or_else (get k d) o ≡ v
  item-value k d o {v} h = elim (Option-cases (get k d)) [
    | inl absent ↦ cc (rw (absent, item) at h)
    | inr (w, found) ↦ (let same : w ≡ v = cc (rw (found, item) at h) in rw found same)
  ]

  field-IsGiven :
      (k : String) (d : Dict Value) {u : Unit {0}} {v : Value}
      → require_field rt k d ≡ ok u
      → item rt k d ≡ ok v
      → IsGiven (strip (rt.str_of v))
  unfolding require_field
  field-IsGiven k d h e = elim (Bool-cases (stripped rt k d == "")) [
    | inl blank ↦ cc (rw blank at h)
    | inr given ↦ subst (λ w. IsGiven (strip (rt.str_of w))) (item-value k d (str "") e) given
  ]

  field-short :
      (k : String) (limit : ℕ) (d : Dict Value) {u : Unit {0}}
      → limit_field rt k limit d ≡ ok u
      → text_length (rt.str_of (or_else (get k d) (str ""))) ≤ limit
  unfolding limit_field
  field-short k limit d h = ground (arith, h)

  strip-short :
      (k : String) (limit : ℕ) (d : Dict Value) {v : Value}
      → text_length (rt.str_of (or_else (get k d) (str ""))) ≤ limit
      → item rt k d ≡ ok v
      → text_length (strip (rt.str_of v)) ≤ limit
  strip-short k limit d {v} h e =
      let le : text_length (rt.str_of v) ≤ limit =
        subst (λ w. text_length (rt.str_of w) ≤ limit) (item-value k d (str "") e) h in
      omega (arith, length-strip (rt.str_of v))

  overview_short :
      (d : Dict Value)
      → text_length (rt.str_of (or_else (get "overview" d) (str ""))) ≤ 2000
      → text_length (rt.str_of (str "")) ≤ 2000
      → text_length (overview_of rt d) ≤ 2000
  overview_short d h k =
      let v = or_else (get "overview" d) (str "") in
      elim (Bool-cases (truthy v)) [
        | inl filled ↦ rw filled (omega (arith, h, length-strip (rt.str_of v)))
        | inr empty ↦ rw empty (omega (arith, k, length-strip (rt.str_of (str ""))))
      ]

  build_meta-IsValid :
      (d : Dict Value) {m : MemoryMeta} {u v w x y : Unit {0}}
      → text_length (rt.str_of (str "")) ≤ 2000
      → validate_required rt d ≡ ok u
      → validate_lengths rt d ≡ ok v
      → validate_iso8601 rt "created_at" d ≡ ok w
      → validate_iso8601 rt "updated_at" d ≡ ok x
      → build_meta rt d ≡ ok m
      → IsValid m
  unfolding validate_required validate_lengths validate_iso8601 build_meta
  build_meta-IsValid d {m} empty required lengths created updated h =
      let (u, by_id, required) = >>=-eq-ok (require_field rt "memory_id" d) _ required in
      let (u, by_title, by_abstract) = >>=-eq-ok (require_field rt "title" d) _ required in
      let (u, title_le, lengths) = >>=-eq-ok (limit_field rt "title" 200 d) _ lengths in
      let (u, abstract_le, overview_le) = >>=-eq-ok (limit_field rt "abstract" 500 d) _ lengths in
      let (i, at_id, h) = >>=-eq-ok (item rt "memory_id" d) _ h in
      let (t, at_title, h) = >>=-eq-ok (item rt "title" d) _ h in
      let (a, at_abstract, h) = >>=-eq-ok (item rt "abstract" d) _ h in
      let (tasks, at_tasks, h) =
        >>=-eq-ok (str_list rt (or_else (get "task_ids" d) Value.null)) _ h in
      let (features, at_features, h) =
        >>=-eq-ok (str_list rt (or_else (get "feature_tags" d) Value.null)) _ h in
      let (domains, at_domains, h) =
        >>=-eq-ok (str_list rt (or_else (get "domain_tags" d) Value.null)) _ h in
      let (components, at_components, h) =
        >>=-eq-ok (str_list rt (or_else (get "component_tags" d) Value.null)) _ h in
      let same : record {
        memory_id = strip (rt.str_of i);
        title = strip (rt.str_of t);
        abstract = strip (rt.str_of a);
        overview = overview_of rt d;
        created_at = opt rt "created_at" d;
        updated_at = opt rt "updated_at" d;
        task_ids = tasks;
        feature_tags = features;
        domain_tags = domains;
        component_tags = components;
        source_client = opt rt "source_client" d;
        language = some (or_else (opt rt "language" d) "zh");
      }
          ≡ m =
        cc (h) in
      subst IsValid same (record {
        id_given = field-IsGiven "memory_id" d by_id at_id;
        title_given = field-IsGiven "title" d by_title at_title;
        abstract_given = field-IsGiven "abstract" d by_abstract at_abstract;
        title_short = strip-short "title" 200 d (field-short "title" 200 d title_le) at_title;
        abstract_short =
            strip-short "abstract" 500 d (field-short "abstract" 500 d abstract_le) at_abstract;
        overview_short = overview_short d (field-short "overview" 2000 d overview_le) empty;
        created_is_time = iso8601-IsTime "created_at" (opt rt "created_at" d) created;
        updated_is_time = iso8601-IsTime "updated_at" (opt rt "updated_at" d) updated;
        tasks_given = str_list-All _ at_tasks;
        features_given = str_list-All _ at_features;
        domains_given = str_list-All _ at_domains;
        components_given = str_list-All _ at_components;
      })

  -- A meta.json that is accepted has an id, a title and an abstract that are not blank, none of title,
  -- abstract and overview is longer than its limit, the times are ISO 8601 where they are given, and no
  -- task id and no tag is blank. `str` of the empty text is taken to be that text.
  pub parse_meta-IsValid :
      (path : String) {m : MemoryMeta}
      → rt.str_of (str "") ≡ ""
      → parse_meta rt path ≡ ok m
      → IsValid m
  unfolding parse_meta
  parse_meta-IsValid path e h =
      let (v, a, h) = >>=-eq-ok (rt.read_json path) _ h in
      let (d, b, h) = >>=-eq-ok (as_dict v) _ h in
      let (u, required, h) = >>=-eq-ok (validate_required rt d) _ h in
      let (u, lengths, h) = >>=-eq-ok (validate_lengths rt d) _ h in
      let (u, created, h) = >>=-eq-ok (validate_iso8601 rt "created_at" d) _ h in
      let (u, updated, h) = >>=-eq-ok (validate_iso8601 rt "updated_at" d) _ h in
      build_meta-IsValid d (rw e (omega arith)) required lengths created updated h
