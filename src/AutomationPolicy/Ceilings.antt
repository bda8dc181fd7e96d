-- ===== src/AutomationPolicy/Ceilings.antt =====
-- src/browser/automation-policy.ts: the policies' order, and what names them.
use browser_profile_studio.Prelude.{
  string_eq, nat_eq, pair_eq, list_beq_iff, Text, text_eq, trim, ℕ, ◌≤◌, ◌≡◌, ◌↔◌, ◌⊎◌, Option,
  none, some, [], ◌∷◌, arith,
}
use browser_profile_studio.AutomationPolicy.{
  AutomationPolicyName, strict, standard, trusted_local, AutomationPolicyLimits,
  hard_automation_limits, get_automation_policy, default_automation_policy, name_of, named,
  or_default, parse_automation_policy,
}

-- No ceiling of the first is above the second's.
abbrev pub IsWithin : AutomationPolicyLimits → AutomationPolicyLimits → Type 0
IsWithin a b =
    (a.max_tabs ≤ b.max_tabs)
    × (a.max_workflow_steps ≤ b.max_workflow_steps)
    × (a.max_workflow_duration_ms ≤ b.max_workflow_duration_ms)
    × (a.max_workflow_result_bytes ≤ b.max_workflow_result_bytes)
    × (a.max_scroll_amount ≤ b.max_scroll_amount)
    × (a.snapshot_max_snapshots ≤ b.snapshot_max_snapshots)
    × (a.snapshot_ttl_ms ≤ b.snapshot_ttl_ms)
    × (a.snapshot_max_bytes ≤ b.snapshot_max_bytes)
    × (a.snapshot_max_snapshot_bytes ≤ b.snapshot_max_snapshot_bytes)
    × (a.session_ttl_ms ≤ b.session_ttl_ms)
    × (a.workspace_ttl_ms ≤ b.workspace_ttl_ms)

-- How much a policy trusts.
abbrev pub trust : AutomationPolicyName → ℕ
trust strict = 0
trust standard = 1
trust trusted_local = 2

-- One snapshot fits into the history, and the session ends before the workspace.
abbrev pub IsConsistent : AutomationPolicyLimits → Type 0
IsConsistent a =
    (a.snapshot_max_snapshot_bytes ≤ a.snapshot_max_bytes)
    × (a.session_ttl_ms ≤ a.workspace_ttl_ms)
    × (a.snapshot_ttl_ms ≤ a.session_ttl_ms)

get_automation_policy-IsWithin :
    (p q : AutomationPolicyName)
    → trust p ≤ trust q
    → IsWithin (get_automation_policy p) (get_automation_policy q)
unfolding get_automation_policy
get_automation_policy-IsWithin strict q h = ground arith
get_automation_policy-IsWithin standard q h = ground arith
get_automation_policy-IsWithin trusted_local q h = ground arith

get_automation_policy-hard :
    (p : AutomationPolicyName) → IsWithin (get_automation_policy p) hard_automation_limits
unfolding get_automation_policy
get_automation_policy-hard strict = ground arith
get_automation_policy-hard standard = ground arith
get_automation_policy-hard trusted_local = ground arith

get_automation_policy-IsConsistent :
    (p : AutomationPolicyName) → IsConsistent (get_automation_policy p)
unfolding get_automation_policy
get_automation_policy-IsConsistent strict = ground arith
get_automation_policy-IsConsistent standard = ground arith
get_automation_policy-IsConsistent trusted_local = ground arith

-- A policy that trusts no more than another has no ceiling above the other's; each policy's ceilings are
-- within the hard limits; and in each a snapshot fits into the history's bytes, snapshots do not
-- outlive the session and sessions do not outlive the workspace.
pub policies-IsWithin :
    (p q : AutomationPolicyName)
    → trust p ≤ trust q
    → IsWithin (get_automation_policy p) (get_automation_policy q)
      × IsWithin (get_automation_policy q) hard_automation_limits
      × IsConsistent (get_automation_policy p)
policies-IsWithin p q h = (
  get_automation_policy-IsWithin p q h,
  get_automation_policy-hard q,
  get_automation_policy-IsConsistent p,
)

-- The text that is parsed, without white space around it, and what names a policy in it: its name, or for
-- the default policy also nothing.
abbrev pub Names : Option Text → AutomationPolicyName → Type 0
Names none p = p ≡ default_automation_policy
Names (some value) p =
    (trim value ≡ name_of p) ⊎ (trim value ≡ []) × (p ≡ default_automation_policy)

named_iff : (value : Text) (p : AutomationPolicyName) → (named value ≡ some p) ↔ (value ≡ name_of p)
unfolding named
named_iff value strict = ground (
  arith,
  list_beq_iff value (name_of strict),
  list_beq_iff value (name_of standard),
  list_beq_iff value (name_of trusted_local),
)
named_iff value standard = ground (
  arith,
  list_beq_iff value (name_of strict),
  list_beq_iff value (name_of standard),
  list_beq_iff value (name_of trusted_local),
)
named_iff value trusted_local = ground (
  arith,
  list_beq_iff value (name_of strict),
  list_beq_iff value (name_of standard),
  list_beq_iff value (name_of trusted_local),
)

or_default_iff :
    (value : Text) (p : AutomationPolicyName)
    → (or_default value ≡ some p)
      ↔ ((value ≡ name_of p) ⊎ (value ≡ []) × (p ≡ default_automation_policy))
unfolding or_default
or_default_iff [] strict = ground arith
or_default_iff [] standard = ground arith
or_default_iff [] trusted_local = ground arith
or_default_iff (c ∷ rest) p = ground (arith, named_iff (c ∷ rest) p)

-- The parser returns a policy exactly for the texts that name it: for its name with any white space around
-- it, and for the default policy also for no text or one of white space alone. For every other text it
-- throws.
pub parse_automation_policy_iff :
    (value : Option Text) (p : AutomationPolicyName)
    → (parse_automation_policy value ≡ some p) ↔ Names value p
unfolding parse_automation_policy
parse_automation_policy_iff none p = ground arith
parse_automation_policy_iff (some value) p = or_default_iff (trim value) p
