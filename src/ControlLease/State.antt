-- ===== src/ControlLease/State.antt =====
-- The fields of a ControlLeaseManager, what it is given, and the checks of its arguments.
--
-- The clock, the token source and SHA-256 are the fields of a `Host`, which the code is given or
-- imports. `clock n` is the n-th reading (`none` for a value that is not finite), so that two
-- readings in one method may differ. Times are whole milliseconds. Texts that the code inspects
-- are lists of UTF-16 code units. Error messages, the aliases of a status field and the checks that
-- an argument is an object are left out; an error has its code and the field that it names.
use Prim.Native.String.{String}
use browser_profile_studio.Prelude.{
  ltb, leb, if◌then◌else◌, ◌==◌, nat_eq, string_eq, pair_eq, length, any, Text, ℕ, Bool, true,
  false, not, ◌&&◌, ◌||◌, Option, none, some, List,
}
use browser_profile_studio.Prelude.Method.{Method, ◌>>◌, return, throw, throw_if}

pub data Actor : Type 0 where
  agent user system : Actor

pub data Owner : Type 0 where
  agent user nobody : Owner

pub data ControlState : Type 0 where
  agent_controlled user_controlled inactive : ControlState

-- `no_handoff` is the source's NONE.
pub data HandoffState : Type 0 where
  no_handoff pending active released expired user_active : HandoffState

pub data ErrorCode : Type 0 where
  manual_takeover_active human_handoff_expired invalid_state invalid_argument : ErrorCode

pub record LeaseError : Type 0 where
  pub code : ErrorCode
  pub field : Option String

pub record LeaseRecord : Type 0 where
  pub generation : ℕ
  pub digest : List ℕ
  pub issued_at : ℕ
  pub expires_at : ℕ
  pub activated_at : Option ℕ

-- An armed timer: the generation that its handler was made for, and its delay.
pub record Timer : Type 0 where
  pub generation : ℕ
  pub delay : ℕ

pub record Manager : Type 0 where
  pub ttl_ms : ℕ
  pub max_ttl_ms : ℕ
  pub token_bytes : ℕ
  pub control_state : ControlState
  pub handoff_state : HandoffState
  pub owner : Owner
  pub current_lease : Option LeaseRecord
  pub expiry_timer : Option Timer
  pub next_generation : ℕ
  pub released_at : Option ℕ
  pub expired_at : Option ℕ
  pub last_issued_at : Option ℕ
  pub last_activated_at : Option ℕ
  pub last_expires_at : Option ℕ
  -- How often the clock and the token source have been asked.
  pub reads : ℕ
  pub draws : ℕ

pub record Host : Type 0 where
  pub clock : ℕ → Option ℕ
  -- The n-th token of so many bytes, as text; `none` if the source throws or returns another type.
  pub random_token : ℕ → ℕ → Option Text
  pub sha256 : Text → List ℕ

pub record Status : Type 0 where
  pub control_state : ControlState
  pub owner : Owner
  pub handoff_state : HandoffState
  pub hard_stop : Bool
  pub agent_write_allowed : Bool
  pub user_control_active : Bool
  pub lease_active : Bool
  pub issued_at : Option ℕ
  pub activated_at : Option ℕ
  pub expires_at : Option ℕ
  pub released_at : Option ℕ
  pub expired_at : Option ℕ

-- `=== 'AGENT_CONTROLLED'` and the like.
abbrev pub is_agent_controlled : ControlState → Bool
is_agent_controlled agent_controlled = true
is_agent_controlled _ = false

abbrev pub is_user_controlled : ControlState → Bool
is_user_controlled user_controlled = true
is_user_controlled _ = false

abbrev pub is_none : HandoffState → Bool
is_none no_handoff = true
is_none _ = false

abbrev pub is_pending : HandoffState → Bool
is_pending pending = true
is_pending _ = false

abbrev pub is_active : HandoffState → Bool
is_active active = true
is_active _ = false

abbrev pub is_released : HandoffState → Bool
is_released released = true
is_released _ = false

abbrev pub is_expired : HandoffState → Bool
is_expired expired = true
is_expired _ = false

abbrev pub is_agent : Actor → Bool
is_agent Actor.agent = true
is_agent _ = false

abbrev pub is_user : Actor → Bool
is_user Actor.user = true
is_user _ = false

abbrev pub agent_owns : Owner → Bool
agent_owns Owner.agent = true
agent_owns _ = false

abbrev pub user_owns : Owner → Bool
user_owns Owner.user = true
user_owns _ = false

abbrev pub is_defined {ℓ} : {A : Type ℓ} → Option A → Bool
is_defined none = false
is_defined (some a) = true

abbrev pub invalid_arg : String → LeaseError
invalid_arg name = record { code = invalid_argument; field = some name }

abbrev pub bad_state : LeaseError
bad_state = record { code = invalid_state; field = none }

abbrev pub expired_error : LeaseError
expired_error = record { code = human_handoff_expired; field = none }

abbrev pub takeover_error : LeaseError
takeover_error = record { code = manual_takeover_active; field = none }

abbrev pub Call : Type 0 → Type 0
Call = Method LeaseError Manager

-- `!Number.isInteger` cannot hold of a number here.
unfoldable pub validate_duration : ℕ → String → Call ℕ
validate_duration value name = do
  throw_if (value == 0 || ltb 2_147_000_000 value) (invalid_arg name)
  return value

-- [\u0000-\u001f\u007f]
abbrev pub is_control : ℕ → Bool
is_control c = leb c 0x1f || c == 0x7f

-- [\u0000-\u0008\u000b\u000c\u000e-\u001f\u007f]
abbrev pub is_reason_control : ℕ → Bool
is_reason_control c =
    leb c 0x08 || c == 0x0b || c == 0x0c || (leb 0x0e c && leb c 0x1f) || c == 0x7f

unfoldable pub validate_reason : Option Text → Call (Unit {0})
validate_reason none = return tt
validate_reason (some reason) =
    throw_if (ltb 200 (length reason) || any is_reason_control reason) (invalid_arg "reason")

unfoldable pub normalize_actor : Option String → Actor → Call Actor
normalize_actor none fallback = return fallback
normalize_actor (some value) fallback =
    if value == "agent"
    then return Actor.agent
    else if value == "user"
    then return Actor.user
    else if value == "system"
    then return Actor.system
    else throw (invalid_arg "actor")

unfoldable pub matches_token_shape : Text → Bool
matches_token_shape value = ltb 0 (length value) && not (any is_control value)
