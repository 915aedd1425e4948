-- ===== src/Search/Hits/Laws.antt =====
-- What a result item holds under each key.
use Prim.Native.String.{[] as no_text, ◌∷◌ as char_before}
use bi_ble_atlas.Base.{
  ℕ, String, ◌≡◌, refl, sym, ◌∙◌, Bool, true, false, not, ◌&&◌, ◌||◌, Option, none, some, List, [],
  ◌∷◌, ◌==◌, is_empty, member, if◌then◌else◌, split, has_char, arith, eq_iff, eq_refl, All,
  Bool-cases, inl, inr,
}
use bi_ble_atlas.Base.Dict.{
  Dict, get, put, get-put, get-put_self, get-without-member, get-without-other,
}
use bi_ble_atlas.Base.Value.{Value, dict_of, fields-to_fields}
use bi_ble_atlas.Search.Hits.{
  Hit, excluded_fields, score_field, step_into, walk, leaf_key, resolve_dot_path, put_found,
  map_field, map_fields, source_of, score_of, map_source, map_hit, kb_fields, kb_source, kb_map_hit,
}

-- The dictionaries that lead along a path to a value.
abbrev pub nest : List String → Value → Value
nest [] v = v
nest (part ∷ parts) v = dict_of ((part, nest parts v) ∷ [])

pub walk-nest : (parts : List String) (v : Value) → walk parts (nest parts v) ≡ some v
unfolding walk step_into get
walk-nest [] v = refl
walk-nest (part ∷ parts) v = rw (eq_refl part, walk-nest parts v)

split-plain : (sep : ℕ) (s : String) → has_char sep s ≡ false → split sep s ≡ s ∷ []
unfolding split has_char
split-plain sep no_text h = refl
split-plain sep (char_before c s) h = ground (arith, split-plain sep s)

-- A path without a dot is a plain lookup.
resolve-plain :
    (d : Dict Value) (path : String)
    → has_char b'.' path ≡ false
    → resolve_dot_path (dict_of d) path ≡ (path, get path d)
unfolding resolve_dot_path walk step_into
resolve-plain d path h = rw (split-plain b'.' path h) (ground (arith, fields-to_fields d))

-- A found value, or what was there.
abbrev pub or_new : Option Value → Option Value → Option Value
or_new none old = old
or_new (some v) old = some v

get-put_found :
    (k j : String) (o : Option Value) (d : Dict Value)
    → get k (put_found j o d) ≡ (if j == k then or_new o (get k d) else get k d)
get-put_found k j none d = ground arith
get-put_found k j (some v) d = ground (arith, get-put k j v d)

-- A field that may come from the source.
abbrev pub is_open : String → Bool
is_open k = not (member k excluded_fields || k == score_field)

abbrev pub IsDotless : String → Type 0
IsDotless f = has_char b'.' f ≡ false

map_field-plain :
    (k f : String) (source item : Dict Value)
    → IsDotless f
    → get k (map_field source item f)
      ≡ (if (f == k) && is_open k then or_new (get k source) (get k item) else get k item)
unfolding map_field
map_field-plain k f source item h = ground (
  arith,
  eq_iff f k,
  eq_iff f "chunk_id",
  eq_iff f "took_ms",
  eq_iff f "score",
  get-put_found k f (get f source) item,
)

map_fields-plain :
    (k : String) (fs : List String) (source item : Dict Value)
    → All IsDotless fs
    → get k (map_fields source item fs)
      ≡ (if member k fs && is_open k then or_new (get k source) (get k item) else get k item)
unfolding map_fields
map_fields-plain k [] source item h = refl
map_fields-plain k (f ∷ fs) source item (plain, h) = ground (
  arith,
  map_fields-plain k fs source (map_field source item f) h,
  map_field-plain k f source item plain,
)

-- The fields that are asked for: all of them where the list is empty.
abbrev pub is_wanted : String → List String → Bool
is_wanted k fs = is_empty fs || member k fs

map_source-plain :
    (k : String) (fs : List String) (source : Dict Value)
    → All IsDotless fs
    → (is_empty fs && k == score_field) ≡ false
    → get k (map_source fs source) ≡ (if is_wanted k fs && is_open k then get k source else none)
unfolding get
map_source-plain k [] source h e = elim (Bool-cases (member k excluded_fields)) [
  | inl out ↦ rw (get-without-member k excluded_fields source out) (ground arith)
  | inr kept ↦ rw (get-without-other k excluded_fields source kept) (ground arith)
]
map_source-plain k (f ∷ fs) source h e = map_fields-plain k (f ∷ fs) source [] h ∙ ground arith

-- The branch that adds the score.
with_score-plain :
    (k : String) (wanted : Bool) (score : Value) (item : Dict Value)
    → get k (if wanted then put score_field score item else item)
      ≡ (if k == score_field && wanted then some score else get k item)
with_score-plain k false score item = ground arith
with_score-plain k true score item =
    ground (arith, get-put k score_field score item, eq_iff k "score", eq_iff "score" k)

-- The two readings of the wish for the score agree.
score_hidden :
    (k : String) (fs : List String)
    → (k == score_field && is_wanted score_field fs) ≡ false
    → (is_empty fs && k == score_field) ≡ false
score_hidden k fs h = ground (arith, h)

-- The value that stands under a field `k` of a result item, where no requested field has a dot: the
-- score, where every field or the score is requested, and otherwise what the source holds under `k`,
-- if `k` is requested and neither excluded nor the score.
pub map_hit-plain :
    (k : String) (fs : List String) (hit : Hit)
    → All IsDotless fs
    → get k (map_hit fs hit) ≡ (
        if k == score_field && is_wanted score_field fs
        then some (score_of hit)
        else if is_wanted k fs && is_open k
        then get k (source_of hit)
        else none)
unfolding map_hit
map_hit-plain k fs hit h =
    with_score-plain k (is_wanted score_field fs) (score_of hit) (map_source fs (source_of hit))
    ∙ elim (Bool-cases (k == score_field && is_wanted score_field fs)) [
      | inl shown ↦ rw shown refl
      | inr hidden ↦
          rw (hidden, map_source-plain k fs (source_of hit) h (score_hidden k fs hidden)) refl
    ]

kb_fields-open :
    (k : String) (fs : List String) (source item : Dict Value)
    → get k (kb_fields source item fs) ≡ (
        if member k fs && not (member k excluded_fields)
        then or_new (get k source) (get k item)
        else get k item)
unfolding kb_fields
kb_fields-open k [] source item = refl
kb_fields-open k (f ∷ fs) source item =
    kb_fields-open k fs source
      (if member f excluded_fields then item else put_found f (get f source) item)
    ∙ ground (
      arith,
      eq_iff f k,
      eq_iff f "chunk_id",
      eq_iff f "took_ms",
      get-put_found k f (get f source) item,
    )

kb_source-open :
    (k : String) (fs : List String) (source : Dict Value)
    → get k (kb_source fs source)
      ≡ (if is_wanted k fs && not (member k excluded_fields) then get k source else none)
unfolding get
kb_source-open k [] source = elim (Bool-cases (member k excluded_fields)) [
  | inl out ↦ rw (get-without-member k excluded_fields source out) (ground arith)
  | inr kept ↦ rw (get-without-other k excluded_fields source kept) (ground arith)
]
kb_source-open k (f ∷ fs) source = kb_fields-open k (f ∷ fs) source [] ∙ ground arith

-- Where no requested field has a dot and the score is wanted, the mapper of the knowledge-base
-- searcher and the shared one put the same value under every key.
pub kb_map_hit-map_hit :
    (k : String) (fs : List String) (hit : Hit)
    → All IsDotless fs
    → is_wanted score_field fs ≡ true
    → get k (kb_map_hit fs hit) ≡ get k (map_hit fs hit)
unfolding kb_map_hit
kb_map_hit-map_hit k fs hit h wanted =
    get-put k score_field (score_of hit) (kb_source fs (source_of hit))
    ∙ (ground
          (arith, wanted, kb_source-open k fs (source_of hit), eq_iff k "score", eq_iff "score" k)
        ∙ sym (map_hit-plain k fs hit h))

dotted-other : (f g : String) → has_char b'.' f ≡ true → has_char b'.' g ≡ false → (f == g) ≡ false
dotted-other f g dot plain = ground (arith, eq_iff f g)

eq_flip : (f g : String) → (g == f) ≡ false → (f == g) ≡ false
eq_flip f g h = ground (arith, eq_iff f g, eq_iff g f)

-- A path with a dot that is requested alone and leads to a value puts it under the path's last
-- part, whatever that part is: also under a key of `excluded_fields`, and also under the key of
-- the score.
pub map_hit-dotted :
    (f : String) (hit : Hit) (v : Value)
    → has_char b'.' f ≡ true
    → walk (split b'.' f) (dict_of (source_of hit)) ≡ some v
    → get (leaf_key (split b'.' f)) (map_hit (f ∷ []) hit) ≡ some v
unfolding map_hit map_fields has_char
map_hit-dotted f hit v dot found =
    rw
      (
        dotted-other f "score" dot refl,
        eq_flip "chunk_id" f (dotted-other f "chunk_id" dot refl),
        eq_flip "took_ms" f (dotted-other f "took_ms" dot refl),
        dot,
        found,
      )
      (get-put_self (leaf_key (split b'.' f)) v [])
