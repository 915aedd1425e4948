-- ===== src/Search/Http/Laws.antt =====
-- Which answers a failed search can have.
use bi_ble_atlas.Base.{String, ◌≡◌, refl, none, ◌⊎◌, inl, inr, ◌≤◌, arith}
use bi_ble_atlas.Base.Dict.{get}
use bi_ble_atlas.Search.{
  Exception, profile_invalid, internal_error, index_not_bound, vector_model_conflict,
  attribute_error, type_error, value_error, key_error,
}
use bi_ble_atlas.Search.Http.{
  http_status_for_search_code, exception_map, HttpException, raise_search_http_exception,
}

-- The answer `h` to the exception `e`: it has the status of its code, an error status, and shows the
-- exception's message, unless that is an internal error's.
abbrev pub IsAnswer : (Exception → String) → Exception → HttpException → Type 0
IsAnswer message_of e h =
    (h.status_code ≡ http_status_for_search_code h.code)
    × (404 ≤ h.status_code)
    × (h.status_code ≤ 500)
    × ((h.message ≡ message_of e)
        ⊎ ((h.message ≡ "An internal error occurred.")
            × ((text : String) × (e ≡ internal_error text))))

-- A failed search is answered with the status of the answer's code, from 404 to 500, and with the
-- exception's message, but for an internal error, whose message is not shown; an exception that is
-- none of the four of the search domain is raised again as it is.
pub raise_search_http_exception-answers :
    (message_of : Exception → String) (e : Exception)
    → ((h : HttpException) × (raise_search_http_exception message_of e ≡ inl h)
        × IsAnswer message_of e h)
      ⊎ ((raise_search_http_exception message_of e ≡ inr e) × (exception_map e ≡ none))
unfolding raise_search_http_exception exception_map http_status_for_search_code get
raise_search_http_exception-answers m (index_not_bound s v) =
    inl (_, refl, (refl, omega arith, omega arith, inl refl))
raise_search_http_exception-answers m (vector_model_conflict r b) =
    inl (_, refl, (refl, omega arith, omega arith, inl refl))
raise_search_http_exception-answers m (profile_invalid r) =
    inl (_, refl, (refl, omega arith, omega arith, inl refl))
raise_search_http_exception-answers m (internal_error text) =
    inl (_, refl, (refl, omega arith, omega arith, inr (refl, (text, refl))))
raise_search_http_exception-answers m attribute_error = inr (refl, refl)
raise_search_http_exception-answers m type_error = inr (refl, refl)
raise_search_http_exception-answers m value_error = inr (refl, refl)
raise_search_http_exception-answers m (key_error k) = inr (refl, refl)
