-- ===== src/Upload/Skill/Markdown/Laws.antt =====
-- The heading of a SKILL.md that was found is never empty.
use Prim.Native.Char.{code}
use bi_ble_atlas.Base.{
  nat_eq, is_space, is_blank, arith, eq_iff, ℕ, String, ◌≡◌, refl, ap, subst, Bool, true, false,
  ◌&&◌, Option, none, some, List, [], ◌∷◌, ◌==◌, strip, splitlines, Bool-cases, inl, inr,
  starts_with,
}
use bi_ble_atlas.Base.Text.Laws.{strip-rest}
use bi_ble_atlas.Base.Result.{Result, ok, raise, ◌>>=◌, ◌>>◌, raise_if}
use bi_ble_atlas.Upload.{
  Exception, value_error, skill_md_empty, skill_md_no_heading, skill_md_empty_heading,
  skill_md_no_description,
}
use bi_ble_atlas.Upload.Skill.Markdown.{
  SkillDoc, heading_of, find_paragraph, join_with, parse_text, without_marker, is_heading,
  find_heading,
}

nat_eq-eq : (m n : ℕ) → nat_eq m n ≡ true → n ≡ m
nat_eq-eq m n h = ground (arith, h)

blank-text : (s : String) → is_blank s ≡ false → (s == "") ≡ false
blank-text String.[] h = cc
blank-text (String.◌∷◌ c s) h = elim (Bool-cases (String.◌∷◌ c s == "")) [
  | inr filled ↦ filled
  | inl empty ↦
      let same : String.◌∷◌ c s ≡ "" = ground (arith, eq_iff (String.◌∷◌ c s) "") in
      cc (ap is_blank same)
]

-- The tests of `starts_with` on a text of one, and of two characters or more.
one-character : (x more : Bool) → ((x && false) && more) ≡ true → ⊥
one-character true more h = cc
one-character false more h = cc

two-characters : (x y more : Bool) → ((x && (y && true)) && more) ≡ true → y ≡ true
two-characters true true more h = refl
two-characters true false more h = cc
two-characters false y more h = cc

heading-rest :
    (line t : String)
    → strip line ≡ t
    → is_heading t ≡ true
    → is_blank (strip (without_marker t)) ≡ false
unfolding starts_with is_space
heading-rest line String.[] e h = cc
heading-rest line (String.◌∷◌ c String.[]) e h = elim (one-character _ _ h) [ ]
heading-rest line (String.◌∷◌ c (String.◌∷◌ d s)) e h =
    strip-rest line c d s e
      (ap is_space (nat_eq-eq 32 (code d) (two-characters _ (nat_eq 32 (code d)) _ h)))

find_heading-name :
    (lines : List String) {name : String} {rest : List String}
    → find_heading lines ≡ some (name, rest)
    → (name == "") ≡ false
unfolding find_heading
find_heading-name [] h = cc
find_heading-name (line ∷ lines) {name} {rest} h = elim (Bool-cases (is_heading (strip line))) [
  | inr no' ↦ find_heading-name lines (rw (no') at h)
  | inl yes' ↦
      let named : strip (without_marker (strip line)) ≡ name = cc (rw (yes') at h) in
      subst (λ (x : String). (x == "") ≡ false) named
        (blank-text (strip (without_marker (strip line)))
          (heading-rest line (strip line) refl yes'))
]

-- What the parser of a text does: its document has a name and a description that are not empty, or it
-- raises one of three errors. The error of an empty heading is never raised, since a line is stripped
-- before it is taken for a heading.
pub data IsParsed : Result Exception SkillDoc → Type 0 where
  parsed :
      (doc : SkillDoc)
      → (doc.name == "") ≡ false
      → (doc.description == "") ≡ false
      → IsParsed (ok doc)
  without_text : IsParsed (raise (value_error skill_md_empty))
  without_heading : IsParsed (raise (value_error skill_md_no_heading))
  without_description : IsParsed (raise (value_error skill_md_no_description))

described-IsParsed :
    (name : String) (paragraph : List String × List String)
    → (name == "") ≡ false
    → IsParsed (
        raise_if (strip (join_with " " paragraph.0) == "") (value_error skill_md_no_description)
        >> ok (record {
          name = name;
          description = strip (join_with " " paragraph.0);
          body = strip (join_with "\n" paragraph.1);
        }))
described-IsParsed name paragraph named =
    elim (Bool-cases (strip (join_with " " paragraph.0) == "")) [
      | inl empty ↦ rw (empty) without_description
      | inr filled ↦ rw (filled) (parsed _ named filled)
    ]

headed-IsParsed :
    (o : Option (String × List String))
    → ((name : String) (rest : List String) → o ≡ some (name, rest) → (name == "") ≡ false)
    → IsParsed (
        heading_of o >>= λ heading.
        raise_if (heading.0 == "") (value_error skill_md_empty_heading)
        >> (let paragraph = find_paragraph heading.1 in
            raise_if (strip (join_with " " paragraph.0) == "") (value_error skill_md_no_description)
            >> ok (record {
              name = heading.0;
              description = strip (join_with " " paragraph.0);
              body = strip (join_with "\n" paragraph.1);
            })))
headed-IsParsed none h = without_heading
headed-IsParsed (some (name, rest)) h =
    rw (h name rest refl) (described-IsParsed name (find_paragraph rest) (h name rest refl))

-- A text of a SKILL.md gives a document whose name and description are not empty, or raises that it is
-- blank, that it has no heading, or that it has no description; never that its heading is empty.
pub parse_text-IsParsed : (content : String) → IsParsed (parse_text content)
unfolding parse_text
parse_text-IsParsed content = elim (Bool-cases (strip content == "")) [
  | inl empty ↦ rw (empty) without_text
  | inr filled ↦ rw (filled) (
      headed-IsParsed (find_heading (splitlines content))
        (λ name rest. find_heading-name (splitlines content)))
]
