-- ===== src/AutomationPolicy/Tests.antt =====
-- Instances of the theorems about the automation policies.
use browser_profile_studio.Prelude.{
  string_eq, nat_eq, pair_eq, Text, text_eq, trim, ◌≡◌, refl, ◌↔◌, some, [], ◌∷◌, arith,
}
use browser_profile_studio.AutomationPolicy.{
  strict, trusted_local, hard_automation_limits, get_automation_policy, named, or_default,
  parse_automation_policy,
}
use browser_profile_studio.AutomationPolicy.Ceilings.{
  IsWithin, IsConsistent, policies-IsWithin, Names, parse_automation_policy_iff,
}

policies-IsWithin_example :
    IsWithin (get_automation_policy strict) (get_automation_policy trusted_local)
    × IsWithin (get_automation_policy trusted_local) hard_automation_limits
    × IsConsistent (get_automation_policy strict)
policies-IsWithin_example = policies-IsWithin strict trusted_local (omega arith)

-- ` strict` and a line end.
abbrev padded : Text
padded = 32 ∷ 115 ∷ 116 ∷ 114 ∷ 105 ∷ 99 ∷ 116 ∷ 10 ∷ []

parse_padded : parse_automation_policy (some padded) ≡ some strict
unfolding parse_automation_policy trim or_default named
parse_padded = refl

parse_automation_policy_iff_example :
    (parse_automation_policy (some padded) ≡ some strict) ↔ Names (some padded) strict
parse_automation_policy_iff_example = parse_automation_policy_iff (some padded) strict
