-- ===== src/AutomationPolicy.antt =====
-- src/browser/automation-policy.ts: the ceilings on resources that a policy sets.
mod Tests
pub mod Ceilings
use browser_profile_studio.Prelude.{
  if◌then◌else◌, string_eq, nat_eq, ◌==◌, pair_eq, Text, text_eq, trim, ℕ, ◌*◌, Option, none, some,
  [], ◌∷◌,
}

pub data AutomationPolicyName : Type 0 where
  strict standard trusted_local : AutomationPolicyName

pub record AutomationPolicyLimits : Type 0 where
  pub max_tabs : ℕ
  pub max_workflow_steps : ℕ
  pub max_workflow_duration_ms : ℕ
  pub max_workflow_result_bytes : ℕ
  pub max_scroll_amount : ℕ
  pub snapshot_max_snapshots : ℕ
  pub snapshot_ttl_ms : ℕ
  pub snapshot_max_bytes : ℕ
  pub snapshot_max_snapshot_bytes : ℕ
  pub session_ttl_ms : ℕ
  pub workspace_ttl_ms : ℕ

abbrev pub hard_automation_limits : AutomationPolicyLimits
hard_automation_limits = record {
  max_tabs = 32;
  max_workflow_steps = 100;
  max_workflow_duration_ms = 5 * 60_000;
  max_workflow_result_bytes = 1_024 * 1_024;
  max_scroll_amount = 20;
  snapshot_max_snapshots = 256;
  snapshot_ttl_ms = 24 * 60 * 60_000;
  snapshot_max_bytes = 16 * 1_024 * 1_024;
  snapshot_max_snapshot_bytes = 4 * 1_024 * 1_024;
  session_ttl_ms = 24 * 60 * 60_000;
  workspace_ttl_ms = 7 * 24 * 60 * 60_000;
}

-- `POLICY_PROFILES`, by `getAutomationPolicy`.
unfoldable pub get_automation_policy : AutomationPolicyName → AutomationPolicyLimits
get_automation_policy strict = record {
  max_tabs = 5;
  max_workflow_steps = 10;
  max_workflow_duration_ms = 30_000;
  max_workflow_result_bytes = 64_000;
  max_scroll_amount = 3;
  snapshot_max_snapshots = 32;
  snapshot_ttl_ms = 10 * 60_000;
  snapshot_max_bytes = 2 * 1_024 * 1_024;
  snapshot_max_snapshot_bytes = 256 * 1_024;
  session_ttl_ms = 30 * 60_000;
  workspace_ttl_ms = 24 * 60 * 60_000;
}
get_automation_policy standard = record {
  max_tabs = 12;
  max_workflow_steps = 50;
  max_workflow_duration_ms = 2 * 60_000;
  max_workflow_result_bytes = 256 * 1_024;
  max_scroll_amount = 10;
  snapshot_max_snapshots = 64;
  snapshot_ttl_ms = 30 * 60_000;
  snapshot_max_bytes = 4 * 1_024 * 1_024;
  snapshot_max_snapshot_bytes = 512 * 1_024;
  session_ttl_ms = 2 * 60 * 60_000;
  workspace_ttl_ms = 7 * 24 * 60 * 60_000;
}
get_automation_policy trusted_local = record {
  max_tabs = 20;
  max_workflow_steps = 100;
  max_workflow_duration_ms = 5 * 60_000;
  max_workflow_result_bytes = 1_024 * 1_024;
  max_scroll_amount = 20;
  snapshot_max_snapshots = 256;
  snapshot_ttl_ms = 24 * 60 * 60_000;
  snapshot_max_bytes = 16 * 1_024 * 1_024;
  snapshot_max_snapshot_bytes = 1 * 1_024 * 1_024;
  session_ttl_ms = 24 * 60 * 60_000;
  workspace_ttl_ms = 7 * 24 * 60 * 60_000;
}

abbrev pub default_automation_policy : AutomationPolicyName
default_automation_policy = standard

-- The names in UTF-16 code units: `strict`, `standard` and `trusted-local`.
abbrev pub name_of : AutomationPolicyName → Text
name_of strict = 115 ∷ 116 ∷ 114 ∷ 105 ∷ 99 ∷ 116 ∷ []
name_of standard = 115 ∷ 116 ∷ 97 ∷ 110 ∷ 100 ∷ 97 ∷ 114 ∷ 100 ∷ []
name_of trusted_local =
    116 ∷ 114 ∷ 117 ∷ 115 ∷ 116 ∷ 101 ∷ 100 ∷ 45 ∷ 108 ∷ 111 ∷ 99 ∷ 97 ∷ 108 ∷ []

-- `none` where the code throws.
unfoldable pub named : Text → Option AutomationPolicyName
named normalized =
    if normalized == name_of strict
    then some strict
    else if normalized == name_of standard
    then some standard
    else if normalized == name_of trusted_local
    then some trusted_local
    else none

unfoldable pub or_default : Text → Option AutomationPolicyName
or_default [] = some default_automation_policy
or_default (c ∷ rest) = named (c ∷ rest)

unfoldable pub parse_automation_policy : Option Text → Option AutomationPolicyName
parse_automation_policy none = some default_automation_policy
parse_automation_policy (some value) = or_default (trim value)
