-- ===== src/ProxyPool/Recovery.antt =====
-- src/proxy/pool-store.ts: how a proxy gets into quarantine and out of it.
use browser_profile_studio.Prelude.{
  if◌then◌else◌, Option-cases, string_eq, nat_eq, pair_eq, text_eq, ℕ, zero, suc, ◌+◌, ◌-◌, ◌^◌,
  ◌≤◌, ◌≡◌, refl, ap, ◌∙◌, Bool, true, false, none, some, List, [], ◌∷◌, arith,
}
use browser_profile_studio.ProxyPool.Store.{
  ProxyCheckResult, ProxyHealth, cooldown, is_before, succeeded, failed, checked_health, check,
  is_successful,
}
use browser_profile_studio.ProxyPool.Health.{failures_of}

-- Checks in their order.
unfoldable pub health_after : List (ℕ × ProxyCheckResult) → ProxyHealth → ProxyHealth
unfolding checked_health
health_after [] h = h
health_after ((now, result) ∷ checks) h = health_after checks (checked_health now result h)

abbrev pub IsFailure : ℕ × ProxyCheckResult → Type 0
IsFailure check = check.1.success ≡ false

-- A success that no quarantine of `h` holds up.
abbrev pub IsFreeSuccess : ProxyHealth → ℕ × ProxyCheckResult → Type 0
IsFreeSuccess h check = (check.1.success ≡ true) × (is_before check.0 h.quarantine_until ≡ false)

checked-failed :
    (now : ℕ) (result : ProxyCheckResult) (h : ProxyHealth)
    → result.success ≡ false
    → checked_health now result h ≡ failed now result h
unfolding checked_health
checked-failed now result h bad =
    ap (λ (b : Bool). if b then succeeded now result h else failed now result h) bad

checked-succeeded :
    (now : ℕ) (result : ProxyCheckResult) (h : ProxyHealth)
    → result.success ≡ true
    → checked_health now result h ≡ succeeded now result h
unfolding checked_health
checked-succeeded now result h passed =
    ap (λ (b : Bool). if b then succeeded now result h else failed now result h) passed

one_le-pow : (n : ℕ) → 1 ≤ 2 ^ n
one_le-pow zero = omega arith
one_le-pow (suc n) = omega (arith, one_le-pow n)

cooldown-bounds : (n : ℕ) → (300_000 ≤ cooldown n) × (cooldown n ≤ 86_400_000)
unfolding cooldown
cooldown-bounds n = let power = one_le-pow (n - 3) in (omega (arith, power), omega (arith, power))

failures-failed :
    (now : ℕ) (result : ProxyCheckResult) (h : ProxyHealth)
    → failures_of (failed now result h) ≡ failures_of h + 1
unfolding failed
failures-failed now result h = refl

quarantine-failed :
    (now : ℕ) (result : ProxyCheckResult) (h : ProxyHealth)
    → 2 ≤ failures_of h
    → (failed now result h).quarantine_until ≡ some (now + cooldown (failures_of h + 1))
unfolding failed
quarantine-failed now result h enough = ground arith

abbrev three :
    ℕ × ProxyCheckResult → ℕ × ProxyCheckResult → ℕ × ProxyCheckResult → List (ℕ × ProxyCheckResult)
three a b c = a ∷ b ∷ c ∷ []

health_after-three :
    (h : ProxyHealth) (a b c : ℕ × ProxyCheckResult)
    → IsFailure a
    → IsFailure b
    → IsFailure c
    → (health_after (three a b c) h).quarantine_until ≡ some (c.0 + cooldown (failures_of h + 3))
unfolding health_after
health_after-three h a b c fa fb fc =
    let first = failed a.0 a.1 h in
    let second = failed b.0 b.1 first in
    let steps =
      ap (λ x. checked_health c.0 c.1 (checked_health b.0 b.1 x)) (checked-failed a.0 a.1 h fa)
      ∙ ap (checked_health c.0 c.1) (checked-failed b.0 b.1 first fb)
      ∙ checked-failed c.0 c.1 second fc in
    let counted : failures_of second ≡ failures_of h + 2 =
      omega (arith, failures-failed b.0 b.1 first, failures-failed a.0 a.1 h) in
    ap (λ (x : ProxyHealth). x.quarantine_until) steps
    ∙ quarantine-failed c.0 c.1 second (omega arith)
    ∙ ap (λ n. some (c.0 + cooldown n)) (omega arith)

-- Whatever came before, three failed checks in a row put a proxy into quarantine, for at least five
-- minutes and at most a day from the third.
pub three_failures-quarantine :
    (h : ProxyHealth) (a b c : ℕ × ProxyCheckResult)
    → IsFailure a
    → IsFailure b
    → IsFailure c
    → (until : ℕ) × ((health_after (a ∷ b ∷ c ∷ []) h).quarantine_until ≡ some until)
      × (c.0 + 300_000 ≤ until)
      × (until ≤ c.0 + 86_400_000)
three_failures-quarantine h a b c fa fb fc =
    let bounds = cooldown-bounds (failures_of h + 3) in
    (
      c.0 + cooldown (failures_of h + 3),
      health_after-three h a b c fa fb fc,
      omega (arith, bounds.0),
      omega (arith, bounds.1),
    )

-- After a success three failed checks set the end to five minutes after the last of them, also where a
-- longer quarantine was running.
pub success-restarts_cooldown :
    (h : ProxyHealth) (passed a b c : ℕ × ProxyCheckResult)
    → passed.1.success ≡ true
    → IsFailure a
    → IsFailure b
    → IsFailure c
    → (health_after (passed ∷ a ∷ b ∷ c ∷ []) h).quarantine_until ≡ some (c.0 + 300_000)
unfolding health_after succeeded cooldown
success-restarts_cooldown h passed a b c good fa fb fc =
    let start = succeeded passed.0 passed.1 h in
    ap (λ x. (health_after (three a b c) x).quarantine_until)
      (checked-succeeded passed.0 passed.1 h good)
    ∙ health_after-three start a b c fa fb fc

succeeded_twice :
    (t u : ℕ) (r s : ProxyCheckResult) (h : ProxyHealth)
    → is_before t h.quarantine_until ≡ false
    → is_before u h.quarantine_until ≡ false
    → (succeeded u s (succeeded t r h)).quarantine_until ≡ none
unfolding succeeded
succeeded_twice t u r s h free later = ground (arith, Option-cases h.quarantine_until)

-- Two successful checks in a row at or after the end of a quarantine lift it, and the proxy has then
-- passed its last check.
pub two_successes-recover :
    (h : ProxyHealth) (a b : ℕ × ProxyCheckResult)
    → IsFreeSuccess h a
    → IsFreeSuccess h b
    → ((health_after (a ∷ b ∷ []) h).quarantine_until ≡ none)
      × (is_successful (health_after (a ∷ b ∷ []) h).last_check ≡ true)
unfolding health_after succeeded
two_successes-recover h a b fa fb =
    let steps =
      ap (checked_health b.0 b.1) (checked-succeeded a.0 a.1 h fa.0)
      ∙ checked-succeeded b.0 b.1 (succeeded a.0 a.1 h) fb.0 in
    (
      ap (λ (x : ProxyHealth). x.quarantine_until) steps
          ∙ succeeded_twice a.0 b.0 a.1 b.1 h fa.1 fb.1,
      ap (λ (x : ProxyHealth). is_successful x.last_check) steps ∙ fb.0,
    )
