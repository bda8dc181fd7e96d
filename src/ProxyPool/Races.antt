-- ===== src/ProxyPool/Races.antt =====
-- src/proxy/pool-store.ts: calls while a check waits, and credentials in `update`.
use browser_profile_studio.Prelude.{
  Option-cases, string_eq, nat_eq, pair_eq, length, get_elem?, Text, text_eq, ℕ, zero, suc, ◌≡◌,
  refl, inl, inr, false, Option, none, some, List, [], ◌∷◌, ◌++◌, arith,
}
use browser_profile_studio.Prelude.Map.{get, get-set_self}
use browser_profile_studio.Prelude.Result.{Result-cases}
use browser_profile_studio.ProxyPool.Normalize.{
  object, ParsedUrl, ProxyError, or_else, normalize_proxy_config,
}
use browser_profile_studio.ProxyPool.Store.{
  ProxyCheckResult, ProxyPoolRecord, ProxyPoolUpdate, Pool, checked, begin_check, finish_check,
  is_none,
}
use browser_profile_studio.ProxyPool.Run.{
  Event, creates, updates, deletes, nexts, begins, finishes, System, after_begin, step, run,
}
use browser_profile_studio.Prelude.Method.{Outcome, returns, throws}
use browser_profile_studio.ProxyPool.Edit.{update_config, updated, update}

get_elem?-append :
    (n : ℕ) (rs others : List ProxyPoolRecord) {r : ProxyPoolRecord}
    → get_elem? rs n ≡ some r
    → get_elem? (rs ++ others) n ≡ some r
get_elem?-append n [] others h = ground arith
get_elem?-append zero (s ∷ rs) others h = h
get_elem?-append (suc n) (s ∷ rs) others h = get_elem?-append n rs others h

get_elem?-last :
    (rs : List ProxyPoolRecord) (r : ProxyPoolRecord)
    → get_elem? (rs ++ r ∷ []) (length rs) ≡ some r
get_elem?-last [] r = refl
get_elem?-last (s ∷ rs) r = get_elem?-last rs r

-- What `update` leaves of an optional text that was there.
abbrev pub IsKept : Option Text → Option Text → Type 0
IsKept none after = Unit
IsKept (some before) after = is_none after ≡ false

or_else-IsKept : (o before : Option Text) → IsKept before (or_else o before)
or_else-IsKept (some a) none = tt
or_else-IsKept (some a) (some b) = refl
or_else-IsKept none none = tt
or_else-IsKept none (some b) = refl

abbrev pub KeepsCredentials : ProxyPoolRecord → Outcome ProxyError Pool ProxyPoolRecord → Type 0
KeepsCredentials r (throws e pool) = Unit
KeepsCredentials r (returns after pool) =
    IsKept r.username after.username
    × IsKept r.password after.password
    × IsKept r.bypass after.bypass

module _ (parse_url : Text → Option ParsedUrl) (decode_uri_component : Text → Option Text) where
  step-begun :
      (e : Event) (n : ℕ) (s : System) {r : ProxyPoolRecord}
      → get_elem? s.begun n ≡ some r
      → get_elem? (step parse_url decode_uri_component e s).begun n ≡ some r
  unfolding step
  step-begun (creates proxy_id now input) n s h = h
  step-begun (updates proxy_id input now) n s h = h
  step-begun (deletes proxy_id) n s h = h
  step-begun (nexts tags) n s h = h
  step-begun (begins proxy_id) n s h = elim (Option-cases (get proxy_id s.pool.records)) [
    | inl absent ↦ rw (absent, after_begin, begin_check) h
    | inr (r, there) ↦ rw (there, after_begin, begin_check) (get_elem?-append n s.begun (r ∷ []) h)
  ]
  step-begun (finishes m result now) n s h = elim (Option-cases (get_elem? s.begun m)) [
    | inl absent ↦ rw absent h
    | inr (r, there) ↦ rw there h
  ]

  run-begun :
      (es : List Event) (n : ℕ) (s : System) {r : ProxyPoolRecord}
      → get_elem? s.begun n ≡ some r
      → get_elem? (run parse_url decode_uri_component es s).begun n ≡ some r
  unfolding run
  run-begun [] n s h = h
  run-begun (e ∷ es) n s h =
      run-begun es n (step parse_url decode_uri_component e s) (step-begun e n s h)

  begin-begun :
      (proxy_id : Text) (s : System) {r : ProxyPoolRecord}
      → get proxy_id s.pool.records ≡ some r
      → get_elem? (step parse_url decode_uri_component (begins proxy_id) s).begun (length s.begun)
        ≡ some r
  unfolding step begin_check
  begin-begun proxy_id s {r = r} there = rw there (get_elem?-last s.begun r)

  -- A check that was begun on a record writes back that record with its new health, whatever calls
  -- come before its answer: an update in between is lost, and a deleted proxy is stored again.
  pub finish-overwrites :
      (proxy_id : Text) (es : List Event) (s : System) (r : ProxyPoolRecord)
      (result : ProxyCheckResult) (now : ℕ)
      → get proxy_id s.pool.records ≡ some r
      → get r.proxy_id
          (step parse_url decode_uri_component
            (finishes (length s.begun) result now)
            (run parse_url decode_uri_component (begins proxy_id ∷ es) s)).pool.records
        ≡ some (checked now result r)
  unfolding step finish_check checked run
  finish-overwrites proxy_id es s r result now there =
      let begun = step parse_url decode_uri_component (begins proxy_id) s in
      let later = run parse_url decode_uri_component es begun in
      rw (run-begun es (length s.begun) begun (begin-begun proxy_id s there))
        (get-set_self r.proxy_id (checked now result r) later.pool.records)

  -- An update takes no user name, password or bypass list away, also where the given text is empty.
  pub update-KeepsCredentials :
      (proxy_id : Text) (input : ProxyPoolUpdate) (now : ℕ) (pool : Pool) (r : ProxyPoolRecord)
      → get proxy_id pool.records ≡ some r
      → KeepsCredentials r (update parse_url decode_uri_component proxy_id input now pool)
  unfolding update updated
  update-KeepsCredentials proxy_id input now pool r there =
      elim (Result-cases
        (normalize_proxy_config parse_url decode_uri_component (object (update_config input r)))) [
          | inl (n, same) ↦
              rw (there, same, KeepsCredentials, update)
                (
                  or_else-IsKept n.username r.username,
                  or_else-IsKept n.password r.password,
                  or_else-IsKept n.bypass r.bypass,
                )
          | inr (e, same) ↦ rw (there, same, KeepsCredentials, update) tt
        ]
