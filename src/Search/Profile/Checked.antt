-- ===== src/Search/Profile/Checked.antt =====
-- What holds of a profile part that `_extract_type_profile` returns.
use mathlib.Core.List.{append-nil}
use bi_ble_atlas.Base.{
  ℕ, suc, String, ◌≡◌, refl, true, Option, none, some, List, [], ◌∷◌, ◌++◌, arith, member, not,
  is_empty, Option-cases, inl, inr, All,
}
use bi_ble_atlas.Base.Dict.{Dict, get, unknown_keys}
use bi_ble_atlas.Base.Int.{pos}
use bi_ble_atlas.Base.Value.{Value, int, obj, arr, Items, Fields, fields, items, present, dict_of}
use bi_ble_atlas.Base.Result.{ok, >>=-eq-ok, raise_if}
use bi_ble_atlas.Search.{Reason, profile_invalid, as_dict, unknown_profile_keys, unknown_entry_keys}
use bi_ble_atlas.Search.Profile.{
  SearchType, name, type_profile_keys, field_list_names, field_entry_keys, reject_unknown,
  validate_type_profile, validate_num_candidates, require_enabled, require_entry, require_dict,
  extract_wrapped, extract_grouped, extract_legacy, extract_flat, extract_by_wrapper,
  extract_type_profile, validate_top_level_profile, validate_profile_wrapper,
  validate_grouped_flat_profile, validate_entries, validate_field, validate_field_lists,
  validate_field_entries,
}

-- An entry of a field list: a dictionary with no keys but "field" and "weight".
abbrev pub IsEntry : Value → Type 0
IsEntry v = (fs : Fields) × (v ≡ obj fs) × (unknown_keys field_entry_keys (fields fs) ≡ [])

abbrev pub IsFieldList : Dict Value → String → Type 0
IsFieldList d l =
    (v : Value) → get l d ≡ some v → (xs : Items) × (v ≡ arr xs) × All IsEntry (items xs)

pub record IsChecked (t : SearchType) (d : Dict Value) : Type 0 where
  pub known : unknown_keys (type_profile_keys t ++ "tag" ∷ "response_fields" ∷ []) d ≡ []
  pub lists : All (IsFieldList d) (field_list_names t)
  pub candidates : (v : Value) → get "num_candidates" d ≡ some v → (n : ℕ) × (v ≡ int (pos (suc n)))

member-append : (k : String) (ks js : List String) → member k ks ≡ true → member k (ks ++ js) ≡ true
member-append k [] js h = cc
member-append k (i ∷ ks) js h = ground (arith, member-append k ks js)

unknown_keys-append :
    (ks js : List String) (d : Dict Value) → unknown_keys ks d ≡ [] → unknown_keys (ks ++ js) d ≡ []
unfolding unknown_keys
unknown_keys-append ks js [] h = refl
unknown_keys-append ks js ((k, v) ∷ d) h =
    ground (arith, member-append k ks js, unknown_keys-append ks js d)

reject_unknown-ok :
    (allowed : List String) (reason : List String → Reason) (d : Dict Value)
    → reject_unknown allowed reason d ≡ ok tt
    → unknown_keys allowed d ≡ []
reject_unknown-ok allowed reason d h = none_left (unknown_keys allowed d) h
  where
    none_left :
        (ks : List String)
        → raise_if (not (is_empty ks)) (profile_invalid (reason ks)) ≡ ok tt
        → ks ≡ []
    none_left [] h = refl
    none_left (k ∷ ks) h = cc

validate_entries-ok :
    (t l : String) (vs : List Value) → validate_entries t l vs ≡ ok tt → All IsEntry vs
unfolding validate_entries
validate_entries-ok t l [] h = tt
validate_entries-ok t l (obj fs ∷ vs) h =
    let (u, first, rest) =
      >>=-eq-ok (reject_unknown field_entry_keys (unknown_entry_keys t l) (fields fs)) _ h in
    (
      (fs, refl, reject_unknown-ok field_entry_keys (unknown_entry_keys t l) (fields fs) first),
      validate_entries-ok t l vs rest,
    )
validate_entries-ok t l (v ∷ vs) h = cc

validate_field-ok :
    (t l : String) (d : Dict Value) → validate_field t l (get l d) ≡ ok tt → IsFieldList d l
unfolding validate_field_entries
validate_field-ok t l d h (arr xs) e = (xs, refl, validate_entries-ok t l (items xs) (rw e at h))
validate_field-ok t l d h v e = absurd (cc (h, e))

validate_field_lists-ok :
    (t : String) (ls : List String) (d : Dict Value)
    → validate_field_lists t ls d ≡ ok tt
    → All (IsFieldList d) ls
unfolding validate_field_lists
validate_field_lists-ok t [] d h = tt
validate_field_lists-ok t (l ∷ ls) d h =
    let (u, first, rest) = >>=-eq-ok (validate_field t l (get l d)) _ h in
    (validate_field-ok t l d first, validate_field_lists-ok t ls d rest)

validate_num_candidates-ok :
    (t : String) (o : Option Value)
    → validate_num_candidates t o ≡ ok tt
    → (v : Value) → o ≡ some v
    → (n : ℕ) × (v ≡ int (pos (suc n)))
unfolding validate_num_candidates
validate_num_candidates-ok t o h (int (pos (suc n))) e = (n, refl)
validate_num_candidates-ok t o h v e = absurd (cc (rw e at h))

validate_type_profile-ok :
    (t : SearchType) (v : Value) (extra : List String) (d : Dict Value)
    → validate_type_profile t v extra ≡ ok d
    → (unknown_keys (type_profile_keys t ++ extra) d ≡ [])
      × All (IsFieldList d) (field_list_names t)
      × ((v : Value) → get "num_candidates" d ≡ some v → (n : ℕ) × (v ≡ int (pos (suc n))))
unfolding validate_type_profile
validate_type_profile-ok t (obj fs) extra d h =
    let (u, known, h) =
      >>=-eq-ok
        (reject_unknown (type_profile_keys t ++ extra) (unknown_profile_keys (name t)) (fields fs))
        _ h in
    let (u, lists, h) =
      >>=-eq-ok (validate_field_lists (name t) (field_list_names t) (fields fs)) _ h in
    let (u, candidates, h) =
      >>=-eq-ok (validate_num_candidates (name t) (get "num_candidates" (fields fs))) _ h in
    let same : fields fs ≡ d = cc h in
    rw (← same) (
      reject_unknown-ok (type_profile_keys t ++ extra) (unknown_profile_keys (name t)) (fields fs)
          known,
      validate_field_lists-ok (name t) (field_list_names t) (fields fs) lists,
      validate_num_candidates-ok (name t) (get "num_candidates" (fields fs)) candidates,
    )
validate_type_profile-ok t v extra d h = cc

grouped-IsChecked :
    (t : SearchType) (v : Value) (d : Dict Value)
    → validate_type_profile t v [] ≡ ok d
    → IsChecked t d
grouped-IsChecked t v d h =
    let (known, lists, candidates) = validate_type_profile-ok t v [] d h in
    record {
      known =
          unknown_keys-append (type_profile_keys t) ("tag" ∷ "response_fields" ∷ []) d
            (rw append-nil at known);
      lists = lists;
      candidates = candidates;
    }

wrapped-IsChecked :
    (t : SearchType) (p : Dict Value) (wrapper : Value) (d : Dict Value)
    → extract_wrapped t p wrapper ≡ ok d
    → IsChecked t d
unfolding extract_wrapped
wrapped-IsChecked t p wrapper d h =
    let (u, a, h) = >>=-eq-ok (validate_top_level_profile p) _ h in
    let (w, a, h) = >>=-eq-ok (validate_profile_wrapper wrapper) _ h in
    let (v, a, h) = >>=-eq-ok (require_entry t (present (get (name t) w))) _ h in
    let (e, a, h) = >>=-eq-ok (as_dict v) _ h in
    let (u, a, h) = >>=-eq-ok (require_enabled t e) _ h in grouped-IsChecked t v d h

flat-IsChecked :
    (t : SearchType) (p : Dict Value) (o : Option Value) (d : Dict Value)
    → extract_flat t p o ≡ ok d
    → IsChecked t d
unfolding extract_flat extract_legacy extract_grouped
flat-IsChecked t p none d h =
    let (known, lists, candidates) =
      validate_type_profile-ok t (dict_of p) ("tag" ∷ "response_fields" ∷ []) d h in
    record { known = known; lists = lists; candidates = candidates }
flat-IsChecked t p (some v) d h =
    let (u, a, h) = >>=-eq-ok (validate_grouped_flat_profile p) _ h in
    let (e, a, h) = >>=-eq-ok (require_dict t v) _ h in
    let (u, a, h) = >>=-eq-ok (require_enabled t e) _ h in grouped-IsChecked t v d h

-- Whatever the form of the profile, a part that `_extract_type_profile` returns has no key but those
-- of its search type (and "tag" and "response_fields", which the legacy form may carry), its field
-- lists are lists of dictionaries with no key but "field" and "weight", and its "num_candidates", if
-- any, is a positive integer.
pub extract-IsChecked :
    (t : SearchType) (p : Dict Value) {d : Dict Value}
    → extract_type_profile t p ≡ ok d
    → IsChecked t d
unfolding extract_type_profile extract_by_wrapper
extract-IsChecked t p {d} h = elim (Option-cases (present (get "search_type_profile" p))) [
  | inl flat ↦ flat-IsChecked t p (get (name t) p) d (rw (flat, extract_by_wrapper) at h)
  | inr (wrapper, e) ↦ wrapped-IsChecked t p wrapper d (rw (e, extract_by_wrapper) at h)
]
