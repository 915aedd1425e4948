-- ===== src/Upload/Guard.antt =====
-- parser_runtime/ast_guard.py: the check on a parser script that a user brings. The tree that
-- `ast.parse` returns is given by the nodes that the visitor looks at.
pub mod Laws
use bi_ble_atlas.Base.{
  ℕ, String, Bool, Option, none, some, List, [], ◌∷◌, ◌++◌, map, ◌==◌, ◌&&◌, not, if◌then◌else◌,
  or_else, member, partition, text_append,
}
use bi_ble_atlas.Base.Int.{pos}
use bi_ble_atlas.Base.Value.{Value, int, str, list_of}
use bi_ble_atlas.Base.Result.{Result, ok, raise, ◌>>=◌}
use bi_ble_atlas.Errors.{domain_error, invalid_argument}
use bi_ble_atlas.Upload.{Exception, domain}

mutual
  pub data Node : Type 0 where
    -- `ast.Import`: the names of its aliases and the line
    import_node : List String → ℕ → Nodes → Node
    -- `ast.ImportFrom`: the module
    import_from : Option String → ℕ → Nodes → Node
    -- `ast.Call`: the name of a function that is a name or an attribute
    call : Option String → ℕ → Nodes → Node
    other : Nodes → Node

  pub data Nodes : Type 0 where
    leaf : Nodes
    branch : Node → Nodes → Nodes

pub data Violation : Type 0 where
  forbidden_import forbidden_from_import forbidden_call : String → ℕ → Violation

abbrev pub forbidden_modules : List String
forbidden_modules =
    "os" ∷ "sys" ∷ "subprocess" ∷ "socket" ∷ "shutil" ∷ "importlib" ∷ "ctypes" ∷ "builtins" ∷ []

abbrev pub forbidden_calls : List String
forbidden_calls = "eval" ∷ "exec" ∷ "compile" ∷ "__import__" ∷ "open" ∷ []

-- `name.split(".")[0] in FORBIDDEN_MODULES`
abbrev pub is_forbidden_module : String → Bool
is_forbidden_module name = member (partition 46 name).0 forbidden_modules

unfoldable pub visit_names : List String → ℕ → List Violation
visit_names [] line = []
visit_names (name ∷ names) line =
    let rest = visit_names names line in
    if is_forbidden_module name then forbidden_import name line ∷ rest else rest

unfoldable pub visit_module : String → ℕ → List Violation
visit_module module_name line =
    if is_forbidden_module module_name then forbidden_from_import module_name line ∷ [] else []

unfoldable pub visit_call : Option String → ℕ → List Violation
visit_call none line = []
visit_call (some name) line =
    if member name forbidden_calls then forbidden_call name line ∷ [] else []

-- `visitor.visit(tree)`: the violations in the order that the nodes are met in.
unfoldable mutual
  unfolding visit_names visit_module visit_call

  pub visit : Node → List Violation
  visit (import_node names line children) = visit_names names line ++ generic_visit children
  visit (import_from module_name line children) =
      visit_module (or_else module_name "") line ++ generic_visit children
  visit (call name line children) = visit_call name line ++ generic_visit children
  visit (other children) = generic_visit children

  pub generic_visit : Nodes → List Violation
  generic_visit leaf = []
  generic_visit (branch node nodes) = visit node ++ generic_visit nodes

-- What `ast.parse` raises: a `SyntaxError` by its text, or another exception.
pub data ParseFailure : Type 0 where
  syntax_error : String → ParseFailure
  failure : Exception → ParseFailure

-- The files, the parser of Python and the numbers of a text.
pub record Scripts : Type 0 where
  pub read_text : String → Result Exception String
  pub ast_parse : String → Result ParseFailure Node
  pub str_of : Value → String

module _ (py : Scripts) where
  abbrev pub with_line : String → ℕ → String
  with_line text line =
      text_append text (text_append " (line " (text_append (py.str_of (int (pos line))) ")"))

  unfoldable pub violation_text : Violation → String
  violation_text (forbidden_import name line) =
      with_line (text_append "Forbidden import: " name) line
  violation_text (forbidden_from_import name line) =
      with_line (text_append "Forbidden from-import: " name) line
  violation_text (forbidden_call name line) =
      with_line (text_append "Forbidden call: " (text_append name "()")) line

  -- `"; ".join(texts)`
  abbrev pub join_texts : List String → String
  join_texts [] = ""
  join_texts (t ∷ []) = t
  join_texts (t ∷ u ∷ ts) = text_append t (text_append "; " (join_texts (u ∷ ts)))

  unfoldable pub risk : List Violation → Exception
  unfolding violation_text
  risk violations =
      let texts = map violation_text violations in
      domain (
        domain_error invalid_argument
          (text_append "Parser script contains forbidden patterns: " (join_texts texts))
          (some (
            ("code", str "PARSER_SCRIPT_RISK")
            ∷ ("violations", list_of (map (λ t. str t) texts))
            ∷ []))
          none)

  unfoldable pub parse_tree : Result ParseFailure Node → Result Exception Node
  parse_tree (ok tree) = ok tree
  parse_tree (raise (failure e)) = raise e
  parse_tree (raise (syntax_error text)) = raise (
      domain (
        domain_error invalid_argument (text_append "Parser script has syntax error: " text)
          (some (("code", str "PARSER_SCRIPT_RISK") ∷ [])) none))

  unfoldable pub accept : List Violation → Result Exception (Unit {0})
  accept [] = ok tt
  accept (v ∷ vs) = raise (risk (v ∷ vs))

  -- `ASTGuard.validate`
  unfoldable pub validate : String → Result Exception (Unit {0})
  validate script_path = do
    source ← py.read_text script_path
    tree ← parse_tree (py.ast_parse source)
    accept (visit tree)
