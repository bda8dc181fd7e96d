-- ===== src/ProxyPool/Health.antt =====
-- src/proxy/pool-store.ts: the health that a check of a proxy leaves.
use mathlib.Core.Option.{get_or}
use browser_profile_studio.Prelude.{
  ltb, leb, if◌then◌else◌, Bool-cases, Option-cases, string_eq, nat_eq, pair_eq, text_eq, ℕ, ◌+◌,
  ◌≤◌, ◌≡◌, refl, sym, ap, subst, inl, inr, Bool, true, false, Option, none, some, arith,
}
use browser_profile_studio.ProxyPool.Store.{
  ProxyCheckResult, ProxyHealth, succeeded, failed, checked_health, found,
}

-- Failures in a row, and successes in a row outside of a quarantine.
abbrev pub failures_of : ProxyHealth → ℕ
failures_of h = get_or h.consecutive_failures 0

abbrev pub successes_of : ProxyHealth → ℕ
successes_of h = get_or h.consecutive_successes 0

-- The last check passed without failures since, or failed and no success is counted.
abbrev pub OutcomeFits : Option ProxyCheckResult → ℕ → ℕ → Type 0
OutcomeFits none failures successes = (failures ≡ 0) × (successes ≡ 0)
OutcomeFits (some result) failures successes =
    if result.success then failures ≡ 0 else (1 ≤ failures) × (successes ≡ 0)

-- No quarantine with three failures in a row, none left by two successes.
abbrev pub QuarantineFits : Option ℕ → ℕ → ℕ → Type 0
QuarantineFits none failures successes = failures ≤ 2
QuarantineFits (some until) failures successes = successes ≤ 1

abbrev pub IsConsistent : ProxyHealth → Type 0
IsConsistent h =
    OutcomeFits h.last_check (failures_of h) (successes_of h)
    × QuarantineFits h.quarantine_until (failures_of h) (successes_of h)

succeeded-IsConsistent :
    (now : ℕ) (result : ProxyCheckResult) (h : ProxyHealth)
    → result.success ≡ true
    → IsConsistent h
    → IsConsistent (succeeded now result h)
unfolding succeeded
succeeded-IsConsistent now result h passed c = elim (Option-cases h.quarantine_until) [
  | inl free ↦ rw (passed, free) (refl, ground arith)
  | inr (until, found) ↦ elim (Bool-cases (ltb now until)) [
    | inl held ↦ rw (passed, found, held) (refl, ground arith)
    | inr over ↦ rw (passed, found, over) (refl, ground arith)
  ]
]

failed-IsConsistent :
    (now : ℕ) (result : ProxyCheckResult) (h : ProxyHealth)
    → result.success ≡ false
    → IsConsistent h
    → IsConsistent (failed now result h)
unfolding failed
failed-IsConsistent now result h bad c = elim (Bool-cases (leb 3 (failures_of h + 1))) [
  | inl third ↦ rw (bad, third) ((omega arith, refl), ground arith)
  | inr early ↦ elim (Option-cases h.quarantine_until) [
    | inl free ↦ rw (bad, early, free) ((omega arith, refl), ground arith)
    | inr (until, found) ↦ rw (bad, early, found) ((omega arith, refl), ground arith)
  ]
]

pub checked_health-IsConsistent :
    (now : ℕ) (result : ProxyCheckResult) (h : ProxyHealth)
    → IsConsistent h
    → IsConsistent (checked_health now result h)
unfolding checked_health
checked_health-IsConsistent now result h c =
    let choose = λ (b : Bool). if b then succeeded now result h else failed now result h in
    elim (Bool-cases result.success) [
      | inl passed ↦
          subst IsConsistent (sym (ap choose passed)) (succeeded-IsConsistent now result h passed c)
      | inr bad ↦ subst IsConsistent (sym (ap choose bad)) (failed-IsConsistent now result h bad c)
    ]
