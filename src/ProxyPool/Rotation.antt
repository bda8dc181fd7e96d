-- ===== src/ProxyPool/Rotation.antt =====
-- src/proxy/pool-store.ts: whom `next` gives, and that each proxy has its turn.
use mathlib.Core.Option.{some-injective}
use native.Mathlib.Nat.{mod-eq_of_lt, add-mul-mod_self_right, div-add-mod', mod-lt}
use browser_profile_studio.Prelude.{
  leb, Bool-cases, string_eq, nat_eq, bool_eq, ◌==◌, pair_eq, list_beq_iff, length, get_elem?, any,
  In, In-select, all_iff-In, get_elem?-In, In-place, get_elem?-some, Text, text_eq, ℕ, zero, suc,
  ◌+◌, ◌-◌, ◌*◌, ◌/◌, ◌%◌, ◌≤◌, ◌<◌, ◌≡◌, refl, sym, ap, ◌∙◌, subst, ◌↔◌, ◌⊎◌, inl, inr, true,
  Option, none, some, List, [], ◌∷◌, arith,
}
use browser_profile_studio.Prelude.Method.{Outcome, returns, throws, final}
use browser_profile_studio.ProxyPool.Normalize.{ProxyError}
use browser_profile_studio.ProxyPool.Store.{
  ProxyCheckResult, ProxyPoolRecord, Pool, max_safe_integer, insert_newest, newest_first,
  list_proxies, is_successful, is_none, is_servable, servable, next_of, next,
}
use browser_profile_studio.Prelude.Map.{values}

-- The pool after some calls of `next`.
unfoldable pub after_nexts : ℕ → List Text → Pool → Pool
after_nexts zero tags pool = pool
after_nexts (suc k) tags pool = after_nexts k tags (final (next tags pool))

abbrev pub answer : {A : Type 0} → Outcome ProxyError Pool (Option A) → Option A
answer (returns a pool) = a
answer (throws e pool) = none

next_of-moves :
    (rs : List ProxyPoolRecord) (pool : Pool)
    → 0 < length rs
    → pool.cursor + 1 < max_safe_integer
    → final (next_of rs pool) ≡ record pool { cursor = pool.cursor + 1 }
unfolding next_of
next_of-moves [] pool h fits = absurd (omega arith)
next_of-moves (r ∷ rs) pool h fits = ap (λ c. record pool { cursor = c }) (mod-eq_of_lt fits)

next_of-answer :
    (rs : List ProxyPoolRecord) (pool : Pool)
    → 0 < length rs
    → answer (next_of rs pool) ≡ get_elem? rs (pool.cursor % length rs)
unfolding next_of
next_of-answer [] pool h = absurd (omega arith)
next_of-answer (r ∷ rs) pool h = refl

after_nexts-cursor :
    (k : ℕ) (tags : List Text) (pool : Pool)
    → 0 < length (servable tags pool)
    → pool.cursor + k < max_safe_integer
    → after_nexts k tags pool ≡ record pool { cursor = pool.cursor + k }
unfolding after_nexts next servable list_proxies
after_nexts-cursor zero tags pool some_left fits =
    ap (λ c. record pool { cursor = c }) (omega arith)
after_nexts-cursor (suc k) tags pool some_left fits =
    let moved = next_of-moves (servable tags pool) pool some_left (omega arith) in
    let rest =
      after_nexts-cursor k tags (record pool { cursor = pool.cursor + 1 }) some_left
        (omega arith) in
    ap (after_nexts k tags) moved ∙ rest ∙ ap (λ c. record pool { cursor = c }) (omega arith)

-- From any number on, each remainder comes up within one round.
turn : (c n i : ℕ) → i < n → (k : ℕ) × (k < n) × ((c + k) % n ≡ i)
turn c n i h =
    let below : c % n < n = mod-lt c (omega arith) in
    let parts : c / n * n + c % n ≡ c = div-add-mod' c n in
    elim (Bool-cases (leb (c % n) i)) [
      | inl reached ↦ (
        i - c % n,
        omega arith,
        ap (λ (x : ℕ). x % n) (ground arith) ∙ add-mul-mod_self_right i (c / n) n ∙ mod-eq_of_lt h,
      )
      | inr passed ↦ (
        i + n - c % n,
        ground arith,
        ap (λ (x : ℕ). x % n) (ground arith)
            ∙ add-mul-mod_self_right i (c / n + 1) n
            ∙ mod-eq_of_lt h,
      )
    ]

In-insert_newest :
    (x r : ProxyPoolRecord) (rs : List ProxyPoolRecord) → In x (insert_newest r rs) ↔ In x (r ∷ rs)
unfolding insert_newest
In-insert_newest x r [] = ground arith
In-insert_newest x r (s ∷ rs) = ground (arith, In-insert_newest x r rs)

In-newest_first :
    (x : ProxyPoolRecord) (rs : List ProxyPoolRecord) → In x (newest_first rs) ↔ In x rs
unfolding newest_first
In-newest_first x [] = ground arith
In-newest_first x (r ∷ rs) =
    ground (arith, In-newest_first x rs, In-insert_newest x r (newest_first rs))

pub In-servable :
    (x : ProxyPoolRecord) (tags : List Text) (pool : Pool)
    → In x (servable tags pool) ↔ (In x (values pool.records) × (is_servable tags x ≡ true))
unfolding servable list_proxies
In-servable x tags pool = ground (
  arith,
  In-select (is_servable tags) x (newest_first (values pool.records)),
  In-newest_first x (values pool.records),
)

-- A record that `next` may give: it is enabled, its last check succeeded, it is not in quarantine, and
-- each of the tags is one of its own.
pub record IsEligible (tags : List Text) (r : ProxyPoolRecord) : Type 0 where
  pub enabled : r.enabled ≡ true
  pub checked : (c : ProxyCheckResult) × (r.health.last_check ≡ some c) × (c.success ≡ true)
  pub free : r.health.quarantine_until ≡ none
  pub tagged : (tag : Text) → In tag tags → In tag r.tags

In-own : (tag : Text) (own : List Text) → (any (λ (o : Text). o == tag) own ≡ true) ↔ In tag own
In-own tag [] = ground arith
In-own tag (o ∷ own) = ground (arith, list_beq_iff o tag, In-own tag own)

succeeded :
    (o : Option ProxyCheckResult)
    → (is_successful o ≡ true) ↔ ((c : ProxyCheckResult) × (o ≡ some c) × (c.success ≡ true))
succeeded none = (λ h. absurd (ground arith), λ (c, same, h). ground (arith, same))
succeeded (some c) = (
  λ h. (c, refl, h),
  λ (d, same, h).
      subst (λ (e : ProxyCheckResult). e.success ≡ true) (sym (some-injective c d same)) h,
)

is_none_iff : (o : Option ℕ) → (is_none o ≡ true) ↔ (o ≡ none)
is_none_iff none = ground arith
is_none_iff (some n) = ground arith

is_servable-IsEligible :
    (tags : List Text) (r : ProxyPoolRecord) → (is_servable tags r ≡ true) ↔ IsEligible tags r
unfolding is_servable
is_servable-IsEligible tags r =
    let has = λ (tag : Text). any (λ (own : Text). own == tag) r.tags in
    (
      λ h. record {
        enabled = ground arith;
        checked = (succeeded r.health.last_check).0 (ground arith);
        free = (is_none_iff r.health.quarantine_until).0 (ground arith);
        tagged =
            λ tag there. (In-own tag r.tags).0 ((all_iff-In has tags).0 (ground arith) tag there);
      },
      λ e. ground (
        arith,
        e.enabled,
        (succeeded r.health.last_check).1 e.checked,
        (is_none_iff r.health.quarantine_until).1 e.free,
        (all_iff-In has tags).1 (λ tag there. (In-own tag r.tags).1 (e.tagged tag there)),
      ),
    )

-- What an answer of `next` says.
unfoldable pub IsServed : List Text → Pool → Option ProxyPoolRecord → Type 0
IsServed tags pool none = (x : ProxyPoolRecord) → In x (values pool.records) → ¬ IsEligible tags x
IsServed tags pool (some r) = In r (values pool.records) × IsEligible tags r

next_of-IsPlaced :
    (rs : List ProxyPoolRecord) (pool : Pool)
    → ((rs ≡ []) × (answer (next_of rs pool) ≡ none))
      ⊎ ((r : ProxyPoolRecord) × In r rs × (answer (next_of rs pool) ≡ some r))
unfolding next_of
next_of-IsPlaced [] pool = inl (refl, refl)
next_of-IsPlaced (r ∷ rs) pool =
    let i = pool.cursor % length (r ∷ rs) in
    let found = get_elem?-some i (r ∷ rs) (mod-lt pool.cursor (omega arith)) in
    inr (found.0, get_elem?-In i (r ∷ rs) found.1, found.1)

-- `next` gives a record of the pool that is enabled, passed its last check, is not in quarantine and
-- has all the tags; and it gives nothing only where no record of the pool is such a one.
pub next-IsServed : (tags : List Text) (pool : Pool) → IsServed tags pool (answer (next tags pool))
unfolding next IsServed
next-IsServed tags pool = elim (next_of-IsPlaced (servable tags pool) pool) [
  | inl (nobody, same) ↦ subst (IsServed tags pool) (sym same) (λ x there eligible.
      subst (λ rs. ¬ In x rs) (sym nobody) (λ h. h)
        ((In-servable x tags pool).1 (there, (is_servable-IsEligible tags x).1 eligible)))
  | inr (r, served, same) ↦ subst (IsServed tags pool) (sym same) (
    ((In-servable r tags pool).0 served).0,
    (is_servable-IsEligible tags r).0 ((In-servable r tags pool).0 served).1,
  )
]

-- As long as the cursor does not wrap around at 2^53 - 1, each record that may be given is given within
-- as many calls of `next` as there are such records.
pub next_serves_each :
    (tags : List Text) (pool : Pool) (r : ProxyPoolRecord)
    → In r (values pool.records)
    → is_servable tags r ≡ true
    → pool.cursor + length (servable tags pool) ≤ max_safe_integer
    → (k : ℕ) × (k < length (servable tags pool))
      × (answer (next tags (after_nexts k tags pool)) ≡ some r)
unfolding next servable list_proxies
next_serves_each tags pool r there fit fits =
    let rs = servable tags pool in
    let place = In-place r rs ((In-servable r tags pool).1 (there, fit)) in
    let round = turn pool.cursor (length rs) place.0 place.1 in
    let k = round.0 in
    let later : Pool = record pool { cursor = pool.cursor + k } in
    (
      k,
      round.1,
      ap (λ p. answer (next tags p))
            (after_nexts-cursor k tags pool (omega (arith, place.1)) (omega (arith, round.1, fits)))
          ∙ next_of-answer rs later (omega (arith, place.1))
          ∙ ap (get_elem? rs) round.2
          ∙ place.2,
    )
