-- ===== src/Task.antt =====
-- bible/features/async_task: asynchronous tasks, their states and the allowed transitions.
pub mod Repository
pub mod Redis
pub mod Service
pub mod Dispatch
use bi_ble_atlas.Base.{ℕ, String, Bool, true, false, Option, none, some, List, [], ◌∷◌, ◌||◌, ◌==◌}
use bi_ble_atlas.Base.Dict.{Dict}
use bi_ble_atlas.Base.Value.{Value}
use bi_ble_atlas.Errors.{DomainError}

-- The texts "queued", "running", "completed", "failed" and "cancelled", and any other text.
pub data Status : Type 0 where
  queued running completed failed cancelled : Status
  other : String → Status

unfoldable pub status_eq : Status → Status → Bool
status_eq queued queued = true
status_eq running running = true
status_eq completed completed = true
status_eq failed failed = true
status_eq cancelled cancelled = true
status_eq (other a) (other b) = a == b
status_eq _ _ = false

-- `_VALID_TRANSITIONS.get(current, frozenset())`
unfoldable pub valid_transitions : Status → List Status
valid_transitions queued = running ∷ cancelled ∷ []
valid_transitions running = completed ∷ failed ∷ []
valid_transitions _ = []

-- `current in _TERMINAL_STATES`
unfoldable pub is_terminal : Status → Bool
is_terminal completed = true
is_terminal failed = true
is_terminal cancelled = true
is_terminal _ = false

-- `status in allowed`
unfoldable pub is_allowed : Status → List Status → Bool
unfolding status_eq
is_allowed s [] = false
is_allowed s (t ∷ ts) = status_eq s t || is_allowed s ts

-- Times are numbers of microseconds.
pub record AsyncTask : Type 0 where
  pub task_id : String
  pub task_type : String
  pub status : Status
  pub payload : Dict Value
  pub result : Option (Dict Value)
  pub error : Option String
  pub created_at : ℕ
  pub updated_at : ℕ

-- The exceptions that leave the functions of this package.
pub data Exception : Type 0 where
  key_error : String → Exception
  value_error : String → Exception
  runtime_error : String → Exception
  domain : DomainError → Exception
  -- what a library raised, by its text
  external : String → Exception
