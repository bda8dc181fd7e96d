-- ===== src/ProxyPool/Run.antt =====
-- src/proxy/pool-store.ts: any sequence of calls, with checks that wait for their answers.
use mathlib.Core.Option.{some-injective}
use browser_profile_studio.Prelude.{
  Bool-cases, Option-cases, string_eq, nat_eq, pair_eq, get_elem?, All, Text, text_eq, ℕ, zero, suc,
  ◌≡◌, refl, sym, subst, inl, inr, Option, none, some, List, [], ◌∷◌, ◌++◌, arith,
}
use browser_profile_studio.Prelude.Map.{get, All-set, All-delete, All-get}
use browser_profile_studio.Prelude.Method.{Outcome, returns, throws, final}
use browser_profile_studio.Prelude.Result.{Result-cases}
use browser_profile_studio.ProxyPool.Normalize.{
  object, NormalizedProxy, ParsedUrl, ProxyError, normalize_proxy_config,
}
use browser_profile_studio.ProxyPool.Store.{
  ProxyCheckResult, ProxyPoolRecord, ProxyPoolInput, ProxyPoolUpdate, Pool, checked, found,
  begin_check, store, finish_check, delete_proxy, servable, next_of, next,
}
use browser_profile_studio.ProxyPool.Edit.{
  connection_changed, update_config, updated, created, create, update,
}
use browser_profile_studio.ProxyPool.Health.{IsConsistent, checked_health-IsConsistent}

-- An entry of the map: under its own identifier, with a consistent health.
abbrev pub IsSound : Text × ProxyPoolRecord → Type 0
IsSound entry = (entry.1.proxy_id ≡ entry.0) × IsConsistent entry.1.health

abbrev pub IsSoundRecord : ProxyPoolRecord → Type 0
IsSoundRecord r = IsConsistent r.health

pub data Event : Type 0 where
  creates : Text → ℕ → ProxyPoolInput → Event
  updates : Text → ProxyPoolUpdate → ℕ → Event
  deletes : Text → Event
  nexts : List Text → Event
  begins : Text → Event
  finishes : ℕ → ProxyCheckResult → ℕ → Event

-- The pool, and the records whose checks have begun.
pub record System : Type 0 where
  pub pool : Pool
  pub begun : List ProxyPoolRecord

abbrev pub after_begin : Outcome ProxyError Pool ProxyPoolRecord → System → System
after_begin (returns r pool) s = record { pool = pool; begun = s.begun ++ r ∷ [] }
after_begin (throws e pool) s = record s { pool = pool }

-- The answer of the checker for the n-th check that has begun.
abbrev pub after_finish : Option ProxyPoolRecord → ProxyCheckResult → ℕ → System → System
after_finish none result now s = s
after_finish (some r) result now s = record s { pool = final (finish_check r result now s.pool) }

abbrev pub IsSoundSystem : System → Type 0
IsSoundSystem s = All IsSound s.pool.records × All IsSoundRecord s.begun

module _ (parse_url : Text → Option ParsedUrl) (decode_uri_component : Text → Option Text) where
  unfoldable pub step : Event → System → System
  unfolding create update delete_proxy next begin_check finish_check
  step (creates proxy_id now input) s = record s {
    pool = final (create parse_url decode_uri_component proxy_id now input s.pool);
  }
  step (updates proxy_id input now) s = record s {
    pool = final (update parse_url decode_uri_component proxy_id input now s.pool);
  }
  step (deletes proxy_id) s = record s { pool = final (delete_proxy proxy_id s.pool) }
  step (nexts tags) s = record s { pool = final (next tags s.pool) }
  step (begins proxy_id) s = after_begin (begin_check proxy_id s.pool) s
  step (finishes n result now) s = after_finish (get_elem? s.begun n) result now s

  unfoldable pub run : List Event → System → System
  unfolding step
  run [] s = s
  run (e ∷ es) s = run es (step e s)

store-IsSound :
    (r : ProxyPoolRecord) (pool : Pool)
    → IsConsistent r.health
    → All IsSound pool.records
    → All IsSound (final (store r pool)).records
store-IsSound r pool c h = All-set IsSound r.proxy_id r pool.records (λ j same. (sym same, c)) h

updated-IsConsistent :
    (input : ProxyPoolUpdate) (candidate : NormalizedProxy) (now : ℕ) (r : ProxyPoolRecord)
    → IsConsistent r.health
    → IsConsistent (updated input candidate now r).health
unfolding updated
updated-IsConsistent input candidate now r c = elim (Bool-cases (connection_changed candidate r)) [
  | inl changed ↦ rw changed ((refl, refl), omega arith)
  | inr same ↦ rw same c
]

next_of-records :
    (rs : List ProxyPoolRecord) (pool : Pool) → (final (next_of rs pool)).records ≡ pool.records
unfolding next_of
next_of-records [] pool = refl
next_of-records (r ∷ rs) pool = refl

All-get_elem? :
    (n : ℕ) (rs : List ProxyPoolRecord) {r : ProxyPoolRecord}
    → get_elem? rs n ≡ some r
    → All IsSoundRecord rs
    → IsSoundRecord r
All-get_elem? n [] found h = ground arith
All-get_elem? zero (s ∷ rs) found h = subst IsSoundRecord (some-injective _ _ found) h.0
All-get_elem? (suc n) (s ∷ rs) found h = All-get_elem? n rs found h.1

All-snoc :
    (r : ProxyPoolRecord) (rs : List ProxyPoolRecord)
    → IsSoundRecord r
    → All IsSoundRecord rs
    → All IsSoundRecord (rs ++ r ∷ [])
All-snoc r [] c h = (c, tt)
All-snoc r (s ∷ rs) c h = (h.0, All-snoc r rs c h.1)

module _ (parse_url : Text → Option ParsedUrl) (decode_uri_component : Text → Option Text) where
  create-IsSound :
      (proxy_id : Text) (now : ℕ) (input : ProxyPoolInput) (pool : Pool)
      → All IsSound pool.records
      → All IsSound (final (create parse_url decode_uri_component proxy_id now input pool)).records
  unfolding create created
  create-IsSound proxy_id now input pool h =
      elim (Result-cases
        (normalize_proxy_config parse_url decode_uri_component (object input.config))) [
          | inl (n, same) ↦
              rw same
                (store-IsSound (created proxy_id now input n) pool ((refl, refl), omega arith) h)
          | inr (e, same) ↦ rw same h
        ]

  update-IsSound :
      (proxy_id : Text) (input : ProxyPoolUpdate) (now : ℕ) (pool : Pool)
      → All IsSound pool.records
      → All IsSound (final (update parse_url decode_uri_component proxy_id input now pool)).records
  unfolding update
  update-IsSound proxy_id input now pool h = elim (Option-cases (get proxy_id pool.records)) [
    | inl absent ↦ rw (absent, final, update) h
    | inr (r, there) ↦
        elim (Result-cases (
          normalize_proxy_config parse_url decode_uri_component (object (update_config input r)))) [
            | inl (n, same) ↦
                let sound = All-get IsSound proxy_id r pool.records there h in
                rw (there, same, final, update)
                  (store-IsSound (updated input n now r) pool
                    (updated-IsConsistent input n now r sound.2.1) h)
            | inr (e, same) ↦ rw (there, same, final, update) h
          ]
  ]

  step-IsSound :
      (e : Event) (s : System)
      → IsSoundSystem s
      → IsSoundSystem (step parse_url decode_uri_component e s)
  unfolding step next begin_check finish_check checked delete_proxy
  step-IsSound (creates proxy_id now input) s h =
      (create-IsSound proxy_id now input s.pool h.0, h.1)
  step-IsSound (updates proxy_id input now) s h =
      (update-IsSound proxy_id input now s.pool h.0, h.1)
  step-IsSound (deletes proxy_id) s h = (All-delete IsSound proxy_id s.pool.records h.0, h.1)
  step-IsSound (nexts tags) s h =
      (subst (All IsSound) (sym (next_of-records (servable tags s.pool) s.pool)) h.0, h.1)
  step-IsSound (begins proxy_id) s h = elim (Option-cases (get proxy_id s.pool.records)) [
    | inl absent ↦ rw (absent, after_begin, begin_check) h
    | inr (r, there) ↦
        let sound = All-get IsSound proxy_id r s.pool.records there h.0 in
        rw (there, after_begin, begin_check) (h.0, All-snoc r s.begun sound.2.1 h.1)
  ]
  step-IsSound (finishes n result now) s h = elim (Option-cases (get_elem? s.begun n)) [
    | inl absent ↦ rw absent h
    | inr (r, there) ↦
        let c = All-get_elem? n s.begun there h.1 in
        rw there (
          store-IsSound (checked now result r) s.pool
              (checked_health-IsConsistent now result r.health c) h.0,
          h.1,
        )
  ]

  -- In every run from a sound state, such as the empty one, each record stands under its own identifier, and its health is
  -- consistent: the last check passed and no failure is counted, or it failed and no success is; no
  -- record is free with three failures in a row, and none is in quarantine with two successes.
  pub run-IsSound :
      (es : List Event) (s : System)
      → IsSoundSystem s
      → IsSoundSystem (run parse_url decode_uri_component es s)
  unfolding run
  run-IsSound [] s h = h
  run-IsSound (e ∷ es) s h =
      run-IsSound es (step parse_url decode_uri_component e s) (step-IsSound e s h)
