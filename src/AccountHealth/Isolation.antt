-- ===== src/AccountHealth/Isolation.antt =====
-- A quarantined or disabled account is not used again before it is recovered.
use browser_profile_studio.Prelude.{
  nat_eq, string_eq, pair_eq, ℕ, ◌≡◌, Bool, true, false, none, some, List, [], ◌∷◌, arith,
}
use browser_profile_studio.AccountHealth.{AccountHealth, is_isolated, is_retry_eligible}
use browser_profile_studio.AccountHealth.Invariant.{
  Operation, fails, quarantines, disables, recovers, step, run,
}

abbrev pub is_recovery : Operation → Bool
is_recovery (recovers reason) = true
is_recovery _ = false

abbrev pub NoRecovery : List (Operation × ℕ) → Type 0
NoRecovery [] = Unit
NoRecovery ((o, now) ∷ os) = (is_recovery o ≡ false) × NoRecovery os

step-isolated :
    (o : Operation) (now : ℕ) (s : AccountHealth)
    → is_recovery o ≡ false
    → is_isolated s.state ≡ true
    → is_isolated (step (o, now) s).state ≡ true
unfolding step
step-isolated (fails state none) now s r i = ground arith
step-isolated (fails state (some m)) now s r i = ground arith
step-isolated (quarantines none) now s r i = ground arith
step-isolated (quarantines (some m)) now s r i = ground arith
step-isolated (disables none) now s r i = ground arith
step-isolated (disables (some m)) now s r i = ground arith
step-isolated (recovers m) now s r i = cc

-- Whatever else is called, with any reasons and at any times, the account stays ineligible at
-- every time until `recover`.
pub isolated_until_recovery :
    (os : List (Operation × ℕ)) (s : AccountHealth) (later : ℕ)
    → is_isolated s.state ≡ true
    → NoRecovery os
    → is_retry_eligible (run os s) later ≡ false
unfolding run is_retry_eligible
isolated_until_recovery [] s later i n = ground arith
isolated_until_recovery ((o, now) ∷ os) s later i (n, ns) =
    isolated_until_recovery os (step (o, now) s) later (step-isolated o now s n i) ns
