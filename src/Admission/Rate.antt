-- ===== src/Admission/Rate.antt =====
-- How many admissions a tenant can get in a stretch of time.
use mathlib.Core.Option.{get_or}
use browser_profile_studio.Prelude.{
  leb, if◌then◌else◌, Bool-cases, nat_eq, string_eq, pair_eq, beq_refl, list_beq, list_beq_iff,
  length, Text, text_eq, ℕ, ◌+◌, ◌-◌, ◌*◌, ◌≤◌, ◌≡◌, refl, sym, ap, ◌∙◌, subst, inl, inr, Bool,
  true, false, not, ◌&&◌, Option, none, some, List, [], ◌∷◌, arith,
}
use browser_profile_studio.Prelude.Map.{get, has, get-set, get-set_self, get-set_ne}
use browser_profile_studio.Admission.{
  Limits, Request, Admission, allowed, thrown, Bucket, Controller, validate_request, make_room,
  refill, acquire_with, bucket_tokens, acquire_bucketed, acquire, release,
}
use browser_profile_studio.Admission.Counters.{one_if}
use browser_profile_studio.Admission.Concurrency.{Event, acquires, releases, step, run}

abbrev pub is_allowed : Admission → Bool
is_allowed (allowed token) = true
is_allowed _ = false

-- The tenant's tokens, with a thousand for each admission, grow no faster than the rate.
abbrev Spends : ℕ → ℕ → Bucket → ℕ → Option Bucket → Type 0
Spends rate admissions b now none = ⊥
Spends rate admissions b now (some c) =
    (1_000 * admissions + c.tokens + b.last_refill * rate ≤ b.tokens + c.last_refill * rate)
    × (c.last_refill ≤ now)

-- No bucket has to make room for this event's tenant.
abbrev pub IsRoomy : Limits → Event → Controller → Type 0
IsRoomy l (acquires r clock token) s =
    not (has r.tenant_id s.tenant_buckets) && leb l.max_buckets (length s.tenant_buckets) ≡ false
IsRoomy l (releases token) s = Unit

abbrev pub AllRoomy : Limits → List Event → Controller → Type 0
AllRoomy l [] s = Unit
AllRoomy l (e ∷ es) s = IsRoomy l e s × AllRoomy l es (step l e s)

-- The clock does not go back.
abbrev pub InOrder : ℕ → List Event → Type 0
InOrder t [] = Unit
InOrder t (acquires r none token ∷ es) = InOrder t es
InOrder t (acquires r (some now) token ∷ es) = (t ≤ now) × InOrder now es
InOrder t (releases token ∷ es) = InOrder t es

sub_add : (a b : ℕ) → a ≤ b → b - a + a ≡ b
sub_add a b h = omega arith

elapsed : (rate a b : ℕ) → a ≤ b → (b - a) * rate + a * rate ≡ b * rate
elapsed rate a b h = omega (arith, ap (λ (x : ℕ). x * rate) (sub_add a b h))

refill-Spends :
    (l : Limits) (now : ℕ) (b : Bucket)
    → b.last_refill ≤ now
    → refill l now b + b.last_refill * l.rate_per_second ≤ b.tokens + now * l.rate_per_second
unfolding refill
refill-Spends l now b h = omega (arith, elapsed l.rate_per_second b.last_refill now h)

acquire_with-Spends :
    (l : Limits) (r : Request) (now : ℕ) (token : Text) (b : Bucket) (s : Controller)
    → b.last_refill ≤ now
    → get r.tenant_id s.tenant_buckets
      ≡ some (record { tokens = refill l now b; last_refill = now })
    → let (a, t) = acquire_with l r (refill l now b) now token s in
      Spends l.rate_per_second (one_if (is_allowed a)) b now (get r.tenant_id t.tenant_buckets)
unfolding acquire_with
acquire_with-Spends l r now token b s h e = ground (
  arith,
  refill-Spends l now b h,
  get-set r.tenant_id r.tenant_id (record { tokens = refill l now b - 1_000; last_refill = now })
      s.tenant_buckets,
  beq_refl r.tenant_id,
)

no_room_made :
    (l : Limits) (r : Request) (clock : Option ℕ) (token : Text) (s : Controller)
    → IsRoomy l (acquires r clock token) s
    → make_room l r.tenant_id s ≡ s.tenant_buckets
unfolding make_room
no_room_made l r clock token s roomy = rw roomy

acquire_roomy :
    (l : Limits) (r : Request) (now : ℕ) (token : Text) (s : Controller)
    → IsRoomy l (acquires r (some now) token) s
    → acquire l r (some now) token s ≡ (
        if not (validate_request r)
        then (thrown, s)
        else acquire_bucketed l r now token s.tenant_buckets s)
unfolding acquire
acquire_roomy l r now token s roomy = rw (no_room_made l r (some now) token s roomy) (rw roomy refl)

-- The bucket of a tenant after an acquisition of its own.
own-Spends :
    (l : Limits) (r : Request) (now : ℕ) (token : Text) (b : Bucket) (s : Controller)
    → b.last_refill ≤ now
    → IsRoomy l (acquires r (some now) token) s
    → get r.tenant_id s.tenant_buckets ≡ some b
    → let (a, t) = acquire l r (some now) token s in
      Spends l.rate_per_second (one_if (is_allowed a)) b now (get r.tenant_id t.tenant_buckets)
unfolding acquire_bucketed bucket_tokens
own-Spends l r now token b s h roomy e =
    rw (acquire_roomy l r now token s roomy) (elim (Bool-cases (not (validate_request r))) [
      | inl y ↦ rw (y, e) (omega arith, h)
      | inr n ↦
          rw (n, acquire_bucketed, bucket_tokens, e)
            (acquire_with-Spends l r now token b _ h (get-set_self r.tenant_id _ s.tenant_buckets))
    ])

-- Another tenant's acquisition leaves the bucket alone.
other_bucket_with :
    (l : Limits) (r : Request) (tokens now : ℕ) (token k : Text) (s : Controller)
    → list_beq r.tenant_id k ≡ false
    → get k (acquire_with l r tokens now token s).1.tenant_buckets ≡ get k s.tenant_buckets
unfolding acquire_with
other_bucket_with l r tokens now token k s d = ground (
  arith,
  get-set k r.tenant_id (record { tokens = tokens - 1_000; last_refill = now }) s.tenant_buckets,
)

other_bucket :
    (l : Limits) (r : Request) (clock : Option ℕ) (token k : Text) (s : Controller)
    → list_beq r.tenant_id k ≡ false
    → IsRoomy l (acquires r clock token) s
    → get k (acquire l r clock token s).1.tenant_buckets ≡ get k s.tenant_buckets
unfolding acquire acquire_bucketed
other_bucket l r none token k s d roomy = refl
other_bucket l r (some now) token k s d roomy =
    rw (acquire_roomy l r now token s roomy) (elim (Bool-cases (not (validate_request r))) [
      | inl y ↦ rw y
      | inr n ↦
          rw (n, acquire_bucketed)
            (other_bucket_with l r _ now token k _ d
              ∙ get-set_ne k r.tenant_id _ s.tenant_buckets d)
    ])

release_buckets :
    (token : Text) (s : Controller) → (release token s).tenant_buckets ≡ s.tenant_buckets
unfolding release
release_buckets token s = ground arith

-- The admissions of one tenant in a run.
unfoldable pub admissions : Limits → Text → List Event → Controller → ℕ
unfolding step
admissions l k [] s = 0
admissions l k (releases token ∷ es) s = admissions l k es (release token s)
admissions l k (acquires r clock token ∷ es) s =
    one_if (list_beq r.tenant_id k && is_allowed (acquire l r clock token s).0)
    + admissions l k es (acquire l r clock token s).1

-- What `Spends` says at the end of a run.
abbrev pub SpentIn : ℕ → ℕ → Bucket → Option Bucket → Type 0
SpentIn rate n b none = ⊥
SpentIn rate n b (some c) =
    1_000 * n + c.tokens + b.last_refill * rate ≤ b.tokens + c.last_refill * rate

acquire-none :
    (l : Limits) (r : Request) (token : Text) (s : Controller)
    → acquire l r none token s ≡ (thrown, s)
unfolding acquire
acquire-none l r token s = refl

and_false : (x : Bool) → x && false ≡ false
and_false true = refl
and_false false = refl

later_event :
    (l : Limits) (k : Text) (t : ℕ) (r : Request) (clock : Option ℕ) (token : Text) (b : Bucket)
    (s : Controller)
    → b.last_refill ≤ t
    → InOrder t (acquires r clock token ∷ [])
    → IsRoomy l (acquires r clock token) s
    → get k s.tenant_buckets ≡ some b
    → let (a, s') = acquire l r clock token s in
      Spends l.rate_per_second
        (one_if (list_beq r.tenant_id k && is_allowed a))
        b
        (get_or clock t)
        (get k s'.tenant_buckets)
later_event l k t r none token b s h o roomy e =
    rw (acquire-none l r token s) (rw (e, and_false (list_beq r.tenant_id k)) (omega arith, h))
later_event l k t r (some now) token b s h o roomy e = elim (Bool-cases (list_beq r.tenant_id k)) [
  | inl y ↦
      let same = (list_beq_iff r.tenant_id k).0 y in
      let (a, s') = acquire l r (some now) token s in
      let own =
        own-Spends l r now token b s (omega arith) roomy
          (subst (λ j. get j s.tenant_buckets ≡ some b) (sym same) e) in
      rw y (
        subst
          (λ j. Spends l.rate_per_second (one_if (is_allowed a)) b now (get j s'.tenant_buckets))
          same own)
  | inr n ↦ rw n (rw (other_bucket l r (some now) token k s n roomy, e) (omega arith, omega arith))
]

later_run :
    (rate a n t : ℕ) (b c : Bucket) (o : Option Bucket)
    → Spends rate a b t (some c)
    → SpentIn rate n c o
    → SpentIn rate (a + n) b o
later_run rate a n t b c none s later = later
later_run rate a n t b c (some d) s later = omega arith

later_events :
    (rate a n t : ℕ) (b : Bucket) (o p : Option Bucket)
    → Spends rate a b t o
    → ((c : Bucket) → c.last_refill ≤ t → o ≡ some c → SpentIn rate n c p)
    → SpentIn rate (a + n) b p
later_events rate a n t b none p s later = absurd s
later_events rate a n t b (some c) p s later = later_run rate a n t b c p s (later c s.1 refl)

run-SpentIn :
    (l : Limits) (k : Text) (es : List Event) (t : ℕ) (b : Bucket) (s : Controller)
    → b.last_refill ≤ t
    → InOrder t es
    → AllRoomy l es s
    → get k s.tenant_buckets ≡ some b
    → SpentIn l.rate_per_second (admissions l k es s) b (get k (run l es s).tenant_buckets)
unfolding run admissions
run-SpentIn l k [] t b s h o roomy e = rw e (omega arith)
run-SpentIn l k (releases token ∷ es) t b s h o roomy e =
    run-SpentIn l k es t b (release token s) h o roomy.1 (rw (release_buckets token s) e)
run-SpentIn l k (acquires r none token ∷ es) t b s h o roomy e =
    later_events l.rate_per_second _ _ t b _ _ (later_event l k t r none token b s h tt roomy.0 e)
      (λ c h' e'. run-SpentIn l k es t c (acquire l r none token s).1 h' o roomy.1 e')
run-SpentIn l k (acquires r (some now) token ∷ es) t b s h o roomy e =
    later_events l.rate_per_second _ _ now b _ _
      (later_event l k t r (some now) token b s h (o.0, tt) roomy.0 e)
      (λ c h' e'. run-SpentIn l k es now c (acquire l r (some now) token s).1 h' o.1 roomy.1 e')

-- Let a tenant have a bucket, let the clock not go back, and let no new tenant need room in the
-- full table of buckets. Then in any run, also with other tenants' calls between, a thousand times
-- the tenant's admissions, with the thousandths of tokens left, is at most the thousandths that it
-- began with and the rate times the milliseconds between the bucket's refills.
pub run_rate_bound :
    (l : Limits) (k : Text) (es : List Event) (b : Bucket) (s : Controller)
    → get k s.tenant_buckets ≡ some b
    → InOrder b.last_refill es
    → AllRoomy l es s
    → SpentIn l.rate_per_second (admissions l k es s) b (get k (run l es s).tenant_buckets)
run_rate_bound l k es b s e o roomy = run-SpentIn l k es b.last_refill b s (omega arith) o roomy e
