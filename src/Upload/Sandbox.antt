-- ===== src/Upload/Sandbox.antt =====
-- parser_runtime/sandbox_runner.py: what the process of a parser ends with, as a result.
use bi_ble_atlas.Base.{ℕ, String, Option, none, some, [], ◌∷◌, text_append, first_chars}
use bi_ble_atlas.Base.Dict.{Dict}
use bi_ble_atlas.Base.Int.{ℤ, pos}
use bi_ble_atlas.Base.Value.{Value, int, str}
use bi_ble_atlas.Base.Result.{Result, ok, raise}
use bi_ble_atlas.Errors.{domain_error, deadline_exceeded, internal}
use bi_ble_atlas.Upload.{Exception, domain}

pub data Outcome : Type 0 where
  timed_out : Outcome
  -- the return code, the standard output and the standard error
  exited : ℤ → String → String → Outcome

-- The process and `json.loads`, whose error is given by its text.
pub record Processes : Type 0 where
  pub timeout_seconds : Value
  -- `subprocess.run`: the script, the manifest and the context
  pub run : String → String → Option (Dict Value) → Result Exception Outcome
  pub loads : String → Result String Value
  pub str_of : Value → String

-- `if parser_context: cmd += ["--context", ...]`
abbrev pub context_argument : Option (Dict Value) → Option (Dict Value)
context_argument (some []) = none
context_argument o = o

module _ (p : Processes) where
  abbrev pub runtime_error : String → Dict Value → Exception
  runtime_error text details = domain (
      domain_error internal text (some (("code", str "PARSER_SCRIPT_RUNTIME_ERROR") ∷ details))
        none)

  unfoldable pub decoded : String → Result String Value → Result Exception Value
  decoded stdout (ok v) = ok v
  decoded stdout (raise text) = raise (
      runtime_error (text_append "Parser script produced invalid JSON: " text)
        (("stdout", str (first_chars 500 stdout)) ∷ []))

  abbrev pub exit_error : ℤ → String → Exception
  exit_error returncode stderr =
      runtime_error
        (text_append "Parser script exited with code "
          (text_append (p.str_of (int returncode)) (text_append ": " (first_chars 500 stderr))))
        (("stderr", str (first_chars 2000 stderr)) ∷ [])

  unfoldable pub outcome_result : Outcome → Result Exception Value
  unfolding decoded
  outcome_result timed_out = raise (
      domain (
        domain_error deadline_exceeded
          (text_append "Parser script timed out after "
            (text_append (p.str_of p.timeout_seconds) "s"))
          (some (("code", str "PARSER_SCRIPT_TIMEOUT") ∷ [])) none))
  outcome_result (exited (pos ℕ.zero) stdout stderr) = decoded stdout (p.loads stdout)
  outcome_result (exited returncode stdout stderr) = raise (exit_error returncode stderr)
