-- ===== src/Admission/Tests.antt =====
-- Runs and instances of the theorems about admission.
use browser_profile_studio.Prelude.{
  nat_eq, string_eq, pair_eq, text_eq, ◌≡◌, refl, some, List, [], ◌∷◌, arith,
}
use browser_profile_studio.Prelude.Map.{get, has, set}
use browser_profile_studio.Admission.{
  Limits, Request, concurrency_limit_account, denied, Controller, empty, create, validate_request,
  count_of, increment, make_room, refill, full, concurrency_denial, acquire_with, bucket_tokens,
  acquire_bucketed, acquire, release,
}
use browser_profile_studio.Admission.Concurrency.{
  IsBalanced, Event, acquires, releases, step, run, run-create-IsBalanced, release_idempotent,
}
use browser_profile_studio.Admission.Rate.{admissions, SpentIn, run_rate_bound}

abbrev narrow : Limits
narrow = record {
  tenant = 2;
  account = 1;
  domain = 2;
  proxy = 2;
  burst = 5;
  rate_per_second = 10;
  max_buckets = 4;
}

abbrev ask : Request
ask = record {
  tenant_id = 116 ∷ [];
  account_id = 97 ∷ [];
  domain_key = 100 ∷ [];
  proxy_id = 112 ∷ [];
}

abbrev other : Request
other = record ask { account_id = 98 ∷ [] }

abbrev calls : List Event
calls =
    acquires ask (some 0) (1 ∷ [])
    ∷ acquires ask (some 1) (2 ∷ [])
    ∷ acquires other (some 2) (3 ∷ [])
    ∷ releases (1 ∷ [])
    ∷ []

second_is_denied :
    (acquire narrow ask (some 1) (2 ∷ []) (step narrow (acquires ask (some 0) (1 ∷ [])) empty)).0
    ≡ denied concurrency_limit_account 1_000
unfolding step acquire acquire_bucketed acquire_with bucket_tokens refill validate_request make_room
    has get set increment count_of concurrency_denial
second_is_denied = refl

run-create-IsBalanced_example : IsBalanced narrow (run narrow calls empty)
unfolding create step acquire acquire_bucketed acquire_with bucket_tokens refill validate_request
    make_room has get set increment count_of concurrency_denial
run-create-IsBalanced_example =
    run-create-IsBalanced narrow empty calls refl (refl, (refl, (refl, (tt, tt))))

release_idempotent_example :
    release (1 ∷ []) (release (1 ∷ []) (run narrow calls empty))
    ≡ release (1 ∷ []) (run narrow calls empty)
release_idempotent_example = release_idempotent (1 ∷ []) (run narrow calls empty)

abbrev started : Controller
started = record empty {
  tenant_buckets = (116 ∷ [], record { tokens = 5_000; last_refill = 0 }) ∷ [];
}

run_rate_bound_example :
    SpentIn 10
      (admissions narrow (116 ∷ []) calls started)
      (full narrow 0)
      (get (116 ∷ []) (run narrow calls started).tenant_buckets)
unfolding get has step acquire acquire_bucketed acquire_with bucket_tokens refill validate_request
    make_room set increment count_of concurrency_denial release
run_rate_bound_example =
    run_rate_bound narrow (116 ∷ []) calls (full narrow 0) started refl
      (omega arith, (omega arith, (omega arith, tt))) (refl, (refl, (refl, (tt, tt))))
