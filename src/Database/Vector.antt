-- ===== src/Database/Vector.antt =====
-- `_ensure_vector_index_mapping` and `bulk_upsert_content_docs` of opensearch/writer.py and of
-- elasticsearch/writer.py: before documents with vectors are written, the index gets a field for them.
pub mod Laws
use bi_ble_atlas.Base.{
  ℕ, zero, suc, String, Bool, true, false, not, Option, none, some, List, [], ◌∷◌, ◌++◌, ◌==◌,
  if◌then◌else◌, length,
}
use bi_ble_atlas.Base.Dict.{Dict, get}
use bi_ble_atlas.Base.Int.{ℤ, pos, is_positive}
use bi_ble_atlas.Base.Value.{
  Value, Items, obj, arr, cons, null, str, bool, int, fields, items, dict_of, truthy,
}
use bi_ble_atlas.Base.Result.{Result, ok, raise}
use bi_ble_atlas.Database.{
  Engine, opensearch, elasticsearch, database_backend_unavailable, DatabaseError, Failure,
  Exception, client, Runtime, BulkWriteResult, as_dict, get_or_null,
}
use bi_ble_atlas.Database.Client.{Client, unavailable}
use bi_ble_atlas.Database.Lookup.{error}
use bi_ble_atlas.Database.Bulk.{bulk}
use bi_ble_atlas.Database.Step.{Step, ◌>>=◌, ◌>>◌, pure, lift, rescue}

-- `isinstance(vector, list) and vector`
abbrev pub dims_of : Option Value → Option ℕ
dims_of (some (arr (cons v vs))) = some (length (items (cons v vs)))
dims_of v = none

abbrev pub first_dims : Option ℕ → Option ℕ → Option ℕ
first_dims none rest = rest
first_dims (some n) rest = some n

-- `_first_content_vector_dims`
unfoldable pub first_content_vector_dims : List (Dict Value) → Option ℕ
first_content_vector_dims [] = none
first_content_vector_dims (doc ∷ docs) =
    first_dims (dims_of (get "content_vector" doc)) (first_content_vector_dims docs)

-- `d.get(k)` where that is a dictionary, and the empty one otherwise
abbrev pub dict_in : String → Value → Value
dict_in k (obj fs) = get_or_null k (fields fs)
dict_in k v = null

abbrev pub or_no_dict : Value → Dict Value
or_no_dict (obj fs) = fields fs
or_no_dict v = []

-- `_mapping_properties`
unfoldable pub mapping_properties : Value → String → Dict Value
mapping_properties response index =
    or_no_dict (dict_in "properties" (dict_in "mappings" (dict_in index response)))

-- `type(num_candidates) is int and num_candidates > 0`
abbrev pub positive_int : Option Value → Option ℤ
positive_int (some (int z)) = if is_positive z then some z else none
positive_int v = none

-- `_num_candidates_from_options`
unfoldable pub num_candidates_from_options : Option (Dict Value) → Option ℤ
num_candidates_from_options none = none
num_candidates_from_options (some options) = positive_int (get "num_candidates" options)

-- The form of the mapping of vectors.
unfoldable pub vector_type : Engine → String
vector_type opensearch = "knn_vector"
vector_type elasticsearch = "dense_vector"

unfoldable pub vector_mapping : Engine → ℕ → Dict Value
unfolding vector_type
vector_mapping opensearch dims =
    ("type", str (vector_type opensearch)) ∷ ("dimension", int (pos dims)) ∷ []
vector_mapping elasticsearch dims =
    ("type", str (vector_type elasticsearch))
    ∷ ("dims", int (pos dims))
    ∷ ("index", bool true)
    ∷ ("similarity", str "cosine")
    ∷ []

-- The setting of the search width.
abbrev pub ef_search : Option ℤ → Dict Value
ef_search none = []
ef_search (some z) = ("knn.algo_param.ef_search", int z) ∷ []

abbrev pub with_field : Engine → ℕ → Dict Value
with_field engine dims = ("content_vector", dict_of (vector_mapping engine dims)) ∷ []

-- The body of a new index.
unfoldable pub index_body : Engine → ℕ → Option ℤ → Dict Value
index_body opensearch dims num_candidates =
    ("settings", dict_of (("index", dict_of (("knn", bool true) ∷ ef_search num_candidates)) ∷ []))
    ∷ ("mappings", dict_of (("properties", dict_of (with_field opensearch dims)) ∷ []))
    ∷ []
index_body elasticsearch dims num_candidates =
    ("mappings", dict_of (("properties", dict_of (with_field elasticsearch dims)) ∷ [])) ∷ []

-- `is not None`
abbrev pub given_type : Value → Result Exception (Option Value)
given_type null = ok none
given_type (obj fs) = ok (some (get_or_null "type" (fields fs)))
given_type v = raise (Exception.attribute_error)

abbrev pub is_type : Engine → Value → Bool
is_type engine (str s) = s == vector_type engine
is_type engine v = false

abbrev pub width_details : Engine → Option ℤ → Dict Value
width_details opensearch none = ("num_candidates", null) ∷ []
width_details opensearch (some z) = ("num_candidates", int z) ∷ []
width_details elasticsearch num_candidates = []

module _ (rt : Runtime) (c : Client) (engine : Engine) (index : String) where
  -- A call of the client that raises as the client does.
  abbrev pub call {ℓ} : {A : Type ℓ} → Step c.State Failure A → Step c.State Exception A
  call m s = rescue client (m s)

  -- `except TransportError`
  abbrev pub catch_transport {ℓ} :
      {A : Type ℓ} → DatabaseError → Result Exception A × c.State → Result Exception A × c.State
  catch_transport e (raise (client failure), s) = (raise (unavailable c e failure), s)
  catch_transport e r = r

  -- Elasticsearch has no such setting.
  unfoldable pub put_width : Engine → Option ℤ → Step c.State Exception (Unit {0})
  put_width opensearch (some z) =
      call (c.put_settings index (("index", dict_of (ef_search (some z))) ∷ []))
  put_width engine num_candidates = pure tt

  -- The field of vectors by the type of the one that is there, if one is.
  unfoldable pub ensure_field : ℕ → Option ℤ → Option Value → Step c.State Exception (Unit {0})
  unfolding put_width
  ensure_field dims num_candidates none =
      call (c.put_mapping index (("properties", dict_of (with_field engine dims)) ∷ []))
      >> put_width engine num_candidates
  ensure_field dims num_candidates (some type) =
      if is_type engine type then put_width engine num_candidates else pure tt

  unfoldable pub ensure_in : ℕ → Option ℤ → Bool → Step c.State Exception (Unit {0})
  ensure_in dims num_candidates false =
      call (c.create_index index (index_body engine dims num_candidates))
  ensure_in dims num_candidates true =
      (λ s. rescue client (c.get_mapping index s, s)) >>= λ response.
      lift (given_type (get_or_null "content_vector" (mapping_properties response index)))
      >>= ensure_field dims num_candidates

  abbrev pub dims_details : ℕ → Option ℤ → Dict Value
  dims_details dims num_candidates =
      ("index", str index) ∷ ("vector_dims", int (pos dims)) ∷ width_details engine num_candidates

  unfoldable pub ensure_dims : ℕ → Option ℤ → Step c.State Exception (Unit {0})
  ensure_dims dims num_candidates s =
      catch_transport
        (error database_backend_unavailable "Failed to prepare vector index mapping."
          (dims_details dims num_candidates))
        (((λ t. rescue client (c.exists index t, t)) >>= ensure_in dims num_candidates) s)

  unfoldable pub ensure_vector_index_mapping :
      List (Dict Value) → Option (Dict Value) → Step c.State Exception (Unit {0})
  ensure_vector_index_mapping docs vector_options = elim (first_content_vector_dims docs) [
    | none ↦ pure tt
    | some dims ↦ ensure_dims dims (num_candidates_from_options vector_options)
  ]

  unfoldable pub bulk_upsert_content_docs :
      ℤ → List (Dict Value) → Option (Dict Value) → Step c.State Exception BulkWriteResult
  bulk_upsert_content_docs bulk_chunk_size docs vector_options =
      ensure_vector_index_mapping docs vector_options >> bulk rt c index bulk_chunk_size docs
