-- ===== src/Upload.antt =====
-- bible/features/upload: the import of memories and skills. Here: the exceptions of the imports and what
-- their parsers use of Python. The text of a `ValueError` is a constructor with the parts that vary.
mod Tests
pub mod Examples
pub mod Trace
pub mod World
pub mod Plan
pub mod Files
pub mod Memory
pub mod Vector
pub mod Binding
pub mod Store
pub mod Guard
pub mod Sandbox
pub mod Service
pub mod Skill
pub mod Preflight
pub mod Executor
pub mod Sweep
use bi_ble_atlas.Base.{
  ℕ, String, Bool, Option, none, some, List, [], if◌then◌else◌, or_else, strip, ◌==◌,
}
use bi_ble_atlas.Base.Dict.{Dict, get}
use bi_ble_atlas.Base.Value.{Value, obj, str, fields}
use bi_ble_atlas.Base.Result.{Result, ok, raise}
use bi_ble_atlas.Errors.{DomainError}

pub data Problem : Type 0 where
  -- memory_parser
  manifest_without_files no_meta : Problem
  many_metas : ℕ → Problem
  entry_incomplete : (file_ref filename abs_path : String) → Problem
  duplicated_ref missing_field not_iso8601 : String → Problem
  too_long : String → ℕ → Problem
  not_a_list : Problem
  -- skill_parser
  skill_package_missing skill_package_empty no_top_level_dir : Problem
  skill_package_not_zip : String → Problem
  skill_package_multiple root_level_files many_top_level_dirs : List String → Problem
  too_many_entries : ℕ → Problem
  symlink_entry absolute_entry escaping_entry : String → Problem
  large_entry : String → ℕ → Problem
  large_total : ℕ → Problem
  skill_md_not_found skill_md_unreadable skill_md_empty : Problem
  skill_md_no_heading skill_md_empty_heading skill_md_no_description : Problem

pub data Exception : Type 0 where
  value_error : Problem → Exception
  domain : DomainError → Exception
  soft_time_limit_exceeded : Exception
  attribute_error type_error : Exception
  key_error : String → Exception
  -- an exception of the operating system or of a library, by its text
  external : String → Exception

-- What the parsers use of Python's runtime.
pub record Runtime : Type 0 where
  -- `str(v)`
  pub str_of : Value → String
  -- `s.lower()`
  pub lower : String → String
  -- `int(v)`
  pub to_int : Value → Result Exception Value
  -- `datetime.fromisoformat(s.replace("Z", "+00:00"))` returns
  pub is_iso8601 : String → Bool
  -- `json.loads(Path(path).read_text(encoding="utf-8"))`
  pub read_json : String → Result Exception Value

-- `v.get(...)`, an `AttributeError` unless `v` is a dictionary
unfoldable pub as_dict : Value → Result Exception (Dict Value)
as_dict (obj fs) = ok (fields fs)
as_dict v = raise attribute_error

-- `str(d.get(k, "")).strip()`
abbrev pub stripped : Runtime → String → Dict Value → String
stripped rt k d = strip (rt.str_of (or_else (get k d) (str "")))

-- `s or None`
abbrev pub or_none : String → Option String
or_none s = if s == "" then none else some s
