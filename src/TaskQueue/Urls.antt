-- ===== src/TaskQueue/Urls.antt =====
-- src/distributed/queue-adapter.ts: the URLs that are claimed or seen, until they expire.
use browser_profile_studio.Prelude.{
  ltb, leb, if◌then◌else◌, string_eq, nat_eq, pair_eq, length, any, Text, text_eq, ℕ, ◌+◌, ◌*◌,
  Bool, true, false, ◌||◌, Option, none, some, List, [], ◌∷◌,
}
use browser_profile_studio.Prelude.Map.{Map, get, set, delete}
use browser_profile_studio.Prelude.Method.{returns}
use browser_profile_studio.TaskQueue.Queue.{Key, Call, in_tenant}

abbrev pub is_live : ℕ → Option ℕ → Bool
is_live now none = false
is_live now (some expires_at) = ltb now expires_at

unfoldable pub is_url_seen : ℕ → Text → Text → Call Bool
is_url_seen now url tenant s =
    in_tenant tenant
      (λ t. λ q. elim (get (t, url) q.seen_urls) [
        | none ↦ returns false q
        | some expires_at ↦
            if leb expires_at now
            then returns false (record q { seen_urls = delete (t, url) q.seen_urls })
            else returns true q
      ])
      s

unfoldable pub set_all : Text → ℕ → List Text → Map Key ℕ → Map Key ℕ
set_all tenant expires_at [] seen = seen
set_all tenant expires_at (url ∷ urls) seen =
    set_all tenant expires_at urls (set (tenant, url) expires_at seen)

unfoldable pub delete_all : Text → List Text → Map Key ℕ → Map Key ℕ
delete_all tenant [] seen = seen
delete_all tenant (url ∷ urls) seen = delete_all tenant urls (delete (tenant, url) seen)

abbrev pub is_claimed : ℕ → Text → Map Key ℕ → Text → Bool
is_claimed now tenant seen url = is_live now (get (tenant, url) seen)

unfoldable pub claim_urls : ℕ → List Text → ℕ → Text → Call Bool
claim_urls now urls ttl_seconds tenant s =
    if leb (length urls) 0 || leb ttl_seconds 0
    then returns false s
    else in_tenant tenant
        (λ t. λ q.
          if any (is_claimed now t q.seen_urls) urls
          then returns false q
          else returns true
              (record q { seen_urls = set_all t (now + ttl_seconds * 1_000) urls q.seen_urls }))
        s

unfoldable pub claim_url : ℕ → Text → ℕ → Text → Call Bool
claim_url now url ttl_seconds tenant = claim_urls now (url ∷ []) ttl_seconds tenant

unfoldable pub release_urls : List Text → Text → Call (Unit {0})
release_urls [] tenant s = returns tt s
release_urls (url ∷ urls) tenant s =
    in_tenant tenant
      (λ t. λ q. returns tt (record q { seen_urls = delete_all t (url ∷ urls) q.seen_urls })) s

unfoldable pub mark_url_seen : ℕ → Text → ℕ → Text → Call (Unit {0})
mark_url_seen now url ttl_seconds tenant s =
    if leb ttl_seconds 0
    then returns tt s
    else in_tenant tenant
        (λ t. λ q.
          returns tt
            (record q { seen_urls = set (t, url) (now + ttl_seconds * 1_000) q.seen_urls }))
        s
