-- ===== src/TaskQueue/Task.antt =====
-- src/distributed/types.ts and src/distributed/tenant.ts: task records and tenants.
--
-- A record's fields that the queue only carries along (schema, result, error, events, ...) are left
-- out.
use Prim.Native.String.{String}
use browser_profile_studio.Prelude.{
  leb, nat_beq, string_eq, nat_eq, ◌==◌, pair_eq, option_beq, length, all, Text, text_eq, ℕ, Bool,
  true, false, ◌&&◌, ◌||◌, Option, none, some, [], ◌∷◌,
}

pub data TaskPriority : Type 0 where
  low normal high critical : TaskPriority

pub data TaskExecutionMode : Type 0 where
  fetch browser : TaskExecutionMode

pub data TaskState : Type 0 where
  pending running completed failed retrying cancelled : TaskState

pub record TaskRecord : Type 0 where
  pub id : Text
  pub tenant_id : Text
  pub project_id : Option Text
  pub run_id : Option Text
  pub url : Text
  pub mode : TaskExecutionMode
  pub priority : TaskPriority
  pub task_state : TaskState
  pub retries : ℕ
  pub worker_id : Option Text
  pub lease_id : Option String
  pub created_at : ℕ
  pub started_at : Option ℕ
  pub target_worker_id : Option Text

pub record TaskListFilter : Type 0 where
  pub project_id : Option Text
  pub run_id : Option Text
  pub task_state : Option TaskState
  pub mode : Option TaskExecutionMode
  pub priority : Option TaskPriority
  pub created_after : Option ℕ
  pub created_before : Option ℕ

abbrev pub priority_number : TaskPriority → ℕ
priority_number low = 0
priority_number normal = 1
priority_number high = 2
priority_number critical = 3

abbrev pub mode_number : TaskExecutionMode → ℕ
mode_number fetch = 0
mode_number browser = 1

abbrev pub state_number : TaskState → ℕ
state_number pending = 0
state_number running = 1
state_number completed = 2
state_number failed = 3
state_number retrying = 4
state_number cancelled = 5

-- PENDING or RETRYING: the task is to be handed out.
abbrev pub is_waiting : TaskState → Bool
is_waiting pending = true
is_waiting retrying = true
is_waiting _ = false

-- A test of the filter that is not set lets every record pass.
abbrev pub unset_or : {A : Type 0} → Option A → (A → Bool) → Bool
unset_or none test = true
unset_or (some a) test = test a

unfoldable pub matches_task_filter : TaskRecord → TaskListFilter → Bool
matches_task_filter task filter =
    unset_or filter.project_id (λ p. option_beq task.project_id (some p))
    && unset_or filter.run_id (λ r. option_beq task.run_id (some r))
    && unset_or filter.task_state (λ s. state_number task.task_state == state_number s)
    && unset_or filter.mode (λ m. mode_number task.mode == mode_number m)
    && unset_or filter.priority (λ p. priority_number task.priority == priority_number p)
    && unset_or filter.created_after (λ t. leb t task.created_at)
    && unset_or filter.created_before (λ t. leb task.created_at t)

unfoldable pub is_alphanumeric : ℕ → Bool
is_alphanumeric c = (leb 48 c && leb c 57) || (leb 65 c && leb c 90) || (leb 97 c && leb c 122)

-- A letter, a digit or one of `.`, `_` and `-`.
unfoldable pub is_tenant_char : ℕ → Bool
unfolding is_alphanumeric
is_tenant_char c = is_alphanumeric c || nat_beq c 46 || nat_beq c 95 || nat_beq c 45

unfoldable pub is_tenant_id : Text → Bool
is_tenant_id [] = false
is_tenant_id (c ∷ rest) = is_alphanumeric c && all is_tenant_char rest && leb (length rest) 63
