-- ===== src/Upload/Guard/Laws.antt =====
-- The scripts that the guard accepts, by the nodes of their tree.
use bi_ble_atlas.Base.{
  ℕ, String, ◌≡◌, refl, ◌∙◌, Bool, true, not, ◌&&◌, none, some, List, [], ◌∷◌, ◌++◌, or_else,
  member, all, is_empty, sym, ap₂, Bool-cases, inl, inr,
}
use bi_ble_atlas.Base.Result.{Result, ok, raise, >>=-eq-ok}
use bi_ble_atlas.Upload.Guard.{
  Node, import_node, import_from, call, other, Nodes, leaf, branch, Violation, forbidden_calls,
  is_forbidden_module, visit_names, visit_module, visit_call, visit, generic_visit, Scripts,
  ParseFailure, syntax_error, failure, parse_tree, accept, validate,
}

-- A node that is no violation in itself.
abbrev pub is_allowed : Node → Bool
is_allowed (import_node names line children) = all (λ name. not (is_forbidden_module name)) names
is_allowed (import_from module_name line children) =
    not (is_forbidden_module (or_else module_name ""))
is_allowed (call none line children) = true
is_allowed (call (some name) line children) = not (member name forbidden_calls)
is_allowed (other children) = true

-- The node and all nodes below it, in the order of the visitor.
unfoldable mutual
  pub subtrees : Node → List Node
  subtrees (import_node names line children) = import_node names line children ∷ below children
  subtrees (import_from module_name line children) =
      import_from module_name line children ∷ below children
  subtrees (call name line children) = call name line children ∷ below children
  subtrees (other children) = other children ∷ below children

  pub below : Nodes → List Node
  below leaf = []
  below (branch node nodes) = subtrees node ++ below nodes

module _ {ℓ} {A : Type ℓ} where
  is_empty-append : (xs ys : List A) → is_empty (xs ++ ys) ≡ (is_empty xs && is_empty ys)
  is_empty-append [] ys = refl
  is_empty-append (x ∷ xs) ys = refl

  all-append : (p : A → Bool) (xs ys : List A) → all p (xs ++ ys) ≡ (all p xs && all p ys)
  all-append p [] ys = refl
  all-append p (x ∷ xs) ys = elim (Bool-cases (p x)) [
    | inl yes' ↦ rw (yes') (all-append p xs ys)
    | inr no' ↦ rw (no') refl
  ]

visit_names-all :
    (names : List String) (line : ℕ)
    → is_empty (visit_names names line) ≡ all (λ name. not (is_forbidden_module name)) names
unfolding visit_names
visit_names-all [] line = refl
visit_names-all (name ∷ names) line = elim (Bool-cases (is_forbidden_module name)) [
  | inl bad ↦ rw (bad) refl
  | inr good ↦ rw (good) (visit_names-all names line)
]

visit_module-all :
    (name : String) (line : ℕ) → is_empty (visit_module name line) ≡ not (is_forbidden_module name)
unfolding visit_module
visit_module-all name line = elim (Bool-cases (is_forbidden_module name)) [
  | inl bad ↦ rw (bad) refl
  | inr good ↦ rw (good) refl
]

visit_call-all :
    (name : String) (line : ℕ)
    → is_empty (visit_call (some name) line) ≡ not (member name forbidden_calls)
unfolding visit_call
visit_call-all name line = elim (Bool-cases (member name forbidden_calls)) [
  | inl bad ↦ rw (bad) refl
  | inr good ↦ rw (good) refl
]

mutual
  unfolding visit subtrees visit_call

  -- The visitor finds no violation exactly if no import in the tree, at any depth, names a forbidden
  -- module or a part of one, no import-from does, and no call names a forbidden function.
  pub visit-all : (t : Node) → is_empty (visit t) ≡ all is_allowed (subtrees t)
  visit-all (import_node names line children) =
      is_empty-append (visit_names names line) (generic_visit children)
      ∙ ap₂ ◌&&◌ (visit_names-all names line) (generic_visit-all children)
  visit-all (import_from module_name line children) =
      is_empty-append (visit_module (or_else module_name "") line) (generic_visit children)
      ∙ ap₂ ◌&&◌ (visit_module-all (or_else module_name "") line) (generic_visit-all children)
  visit-all (call none line children) = generic_visit-all children
  visit-all (call (some name) line children) =
      is_empty-append (visit_call (some name) line) (generic_visit children)
      ∙ ap₂ ◌&&◌ (visit_call-all name line) (generic_visit-all children)
  visit-all (other children) = generic_visit-all children

  generic_visit-all : (ts : Nodes) → is_empty (generic_visit ts) ≡ all is_allowed (below ts)
  generic_visit-all leaf = refl
  generic_visit-all (branch t ts) =
      is_empty-append (visit t) (generic_visit ts)
      ∙ ap₂ ◌&&◌ (visit-all t) (generic_visit-all ts)
      ∙ sym (all-append is_allowed (subtrees t) (below ts))

parse_tree-ok :
    (py : Scripts) (r : Result ParseFailure Node) {tree : Node}
    → parse_tree py r ≡ ok tree
    → r ≡ ok tree
unfolding parse_tree
parse_tree-ok py (ok t) h = cc
parse_tree-ok py (raise (syntax_error text)) h = cc
parse_tree-ok py (raise (failure e)) h = cc

accept-ok :
    (py : Scripts) (vs : List Violation) {u : Unit {0}} → accept py vs ≡ ok u → is_empty vs ≡ true
unfolding accept
accept-ok py [] h = refl
accept-ok py (v ∷ vs) h = cc

-- A script that the guard accepts can be read and parsed, and its tree has none of the forbidden imports
-- and calls at any depth.
pub validate-allowed :
    (py : Scripts) (script_path : String) {u : Unit {0}}
    → validate py script_path ≡ ok u
    → (source : String) × (tree : Node) × (py.read_text script_path ≡ ok source)
      × (py.ast_parse source ≡ ok tree)
      × (all is_allowed (subtrees tree) ≡ true)
unfolding validate
validate-allowed py script_path h =
    let (source, read, h) = >>=-eq-ok (py.read_text script_path) _ h in
    let (tree, parsed, h) = >>=-eq-ok (parse_tree py (py.ast_parse source)) _ h in
    (
      source,
      tree,
      read,
      parse_tree-ok py (py.ast_parse source) parsed,
      sym (visit-all tree) ∙ accept-ok py (visit tree) h,
    )
