-- ===== src/RuntimeGuard/Rate.antt =====
-- src/mcp/runtime-guard.ts: how many calls get through in a stretch of time.
use native.Mathlib.Nat.{mul-le-mul_right}
use browser_profile_studio.Prelude.{
  string_eq, nat_eq, pair_eq, text_eq, ℕ, ◌+◌, ◌-◌, ◌*◌, ◌≤◌, ◌≡◌, refl, ap, ◌∙◌, subst, Option,
  none, some, List, [], ◌∷◌, arith,
}
use browser_profile_studio.Prelude.Method.{Outcome, returns, throws, final}
use browser_profile_studio.RuntimeGuard.{
  CallContext, GuardError, Guard, bounded_number, token, create, refill, take_token, before_call,
}

-- A call's time and context.
abbrev pub Attempt : Type 0
Attempt = ℕ × CallContext

abbrev pub got_through : {A : Type 0} → Outcome GuardError Guard A → ℕ
got_through (returns a g) = 1
got_through (throws e g) = 0

-- The guard after some attempts, and how many of them it let through.
unfoldable pub admitted : List Attempt → Guard → ℕ
admitted [] g = 0
admitted ((now, context) ∷ attempts) g =
    got_through (before_call now context g) + admitted attempts (final (before_call now context g))

-- The clock does not go back, and no attempt is later than `end`.
abbrev pub InTime : ℕ → ℕ → List Attempt → Type 0
InTime last end [] = last ≤ end
InTime last end ((now, context) ∷ attempts) = (last ≤ now) × InTime now end attempts

-- What one attempt spends.
abbrev pub Spends : Guard → ℕ → Outcome GuardError Guard (Unit {0}) → Type 0
Spends g now o =
    (token * got_through o + (final o).tokens + g.last_refill * g.rate
      ≤ g.tokens + (final o).last_refill * g.rate)
    × ((final o).rate ≡ g.rate)
    × ((final o).last_refill ≤ now)
    × (g.last_refill ≤ (final o).last_refill)

elapsed : (rate a b : ℕ) → a ≤ b → (b - a) * rate + a * rate ≡ b * rate
elapsed rate a b h =
    let same : b - a + a ≡ b = omega arith in omega (arith, ap (λ (x : ℕ). x * rate) same)

before_call-Spends :
    (now : ℕ) (context : CallContext) (g : Guard)
    → g.last_refill ≤ now
    → Spends g now (before_call now context g)
unfolding before_call refill take_token
before_call-Spends now context g h = ground (arith, elapsed g.rate g.last_refill now h)

InTime-weaken :
    (a b end : ℕ) (attempts : List Attempt) → a ≤ b → InTime b end attempts → InTime a end attempts
InTime-weaken a b end [] h t = omega arith
InTime-weaken a b end ((now, context) ∷ attempts) h t = (omega (arith, t.0), t.1)

admitted-Spends :
    (attempts : List Attempt) (end rate : ℕ) (g : Guard)
    → g.rate ≡ rate
    → InTime g.last_refill end attempts
    → token * admitted attempts g + g.last_refill * rate ≤ g.tokens + end * rate
unfolding admitted
admitted-Spends [] end rate g same t = omega (arith, mul-le-mul_right rate t)
admitted-Spends ((now, context) ∷ attempts) end rate g same t =
    let o = before_call now context g in
    let spent = before_call-Spends now context g t.0 in
    let next = final o in
    let kept : next.rate ≡ rate = spent.1 ∙ same in
    let rest =
      admitted-Spends attempts end rate next kept
        (InTime-weaken next.last_refill now end attempts spent.2 t.1) in
    let first =
      subst
        (λ r.
          token * got_through o + next.tokens + g.last_refill * r ≤ g.tokens + next.last_refill * r)
        same spent.0 in
    omega (arith, rest, first)

create-bounds :
    (rate_per_second burst : Option ℕ) (start : ℕ)
    → ((create rate_per_second burst start).rate ≤ 10_000)
      × ((create rate_per_second burst start).capacity ≤ 10_000 * token)
unfolding create bounded_number
create-bounds none none start = (omega arith, omega arith)
create-bounds none (some b) start = (omega arith, omega arith)
create-bounds (some r) none start = (omega arith, omega arith)
create-bounds (some r) (some b) start = (omega arith, omega arith)

-- From a new guard on, with a clock that does not go back, the calls that get through until a time `end`
-- are no more than the burst and the rate for the time since its creation allow; and whatever options
-- the guard was made with, the rate is at most 1000 calls a second and the burst at most 10000 calls.
pub admitted-create-bound :
    (rate_per_second burst : Option ℕ) (start end : ℕ) (attempts : List Attempt)
    → InTime start end attempts
    → (token * admitted attempts (create rate_per_second burst start)
          + start * (create rate_per_second burst start).rate
        ≤ (create rate_per_second burst start).capacity
          + end * (create rate_per_second burst start).rate)
      × ((create rate_per_second burst start).rate ≤ 10_000)
      × ((create rate_per_second burst start).capacity ≤ 10_000 * token)
unfolding create
admitted-create-bound rate_per_second burst start end attempts t =
    let g = create rate_per_second burst start in
    let bounds = create-bounds rate_per_second burst start in
    (admitted-Spends attempts end g.rate g refl t, bounds.0, bounds.1)
