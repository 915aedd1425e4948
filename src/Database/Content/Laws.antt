-- ===== src/Database/Content/Laws.antt =====
-- What a search of documents asks the client, and what it makes of the answer.
use bi_ble_atlas.Base.{String, ◌≡◌, false}
use bi_ble_atlas.Base.Dict.{Dict}
use bi_ble_atlas.Base.Value.{Value, fields, dict_of, to_fields, to_fields-fields}
use bi_ble_atlas.Base.Result.{Result, ok, raise, >>=-eq-ok}
use bi_ble_atlas.Database.{opensearch, DatabaseError, Failure, Runtime, as_dict}
use bi_ble_atlas.Database.Client.{Client}
use bi_ble_atlas.Database.Lookup.{expect}
use bi_ble_atlas.Database.Dsl.{prepare_opensearch, strip_node, strip_fields}
use bi_ble_atlas.Database.Dsl.Laws.{IsStripped, prepare_opensearch-IsStripped}
use bi_ble_atlas.Database.Content.{Found, prepare, found_in, search_content_docs}

expect-ok :
    {A : Type 0} (c : Client) (e : DatabaseError) (r : Result Failure A) {a : A}
    → expect c e r ≡ ok a
    → r ≡ ok a
expect-ok c e (ok a) h = cc
expect-ok c e (raise f) h = cc

-- A search on OpenSearch that returns: the client was asked once, with a body that has no `num_candidates`
-- below a `knn` clause, and what it answered is what the result was read from.
pub search_content_docs-asked :
    (rt : Runtime) (c : Client) (index : String) (dsl : Dict Value) (s : c.State) {found : Found}
    → search_content_docs rt c opensearch index dsl s ≡ ok found
    → (body response : Dict Value) × IsStripped (dict_of body)
      × (c.find index body s ≡ ok response)
      × (found_in rt response ≡ ok found)
unfolding search_content_docs prepare prepare_opensearch strip_node as_dict
search_content_docs-asked rt c index dsl s e =
    let body = fields (strip_fields false false (to_fields dsl)) in
    let (response, asked, read) = >>=-eq-ok _ _ e in
    (
      body,
      response,
      rw (to_fields-fields (strip_fields false false (to_fields dsl)))
          (prepare_opensearch-IsStripped (dict_of dsl)),
      expect-ok c _ (c.find index body s) asked,
      read,
    )
