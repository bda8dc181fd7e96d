-- ===== src/UrlPolicy/Approved.antt =====
-- src/policy/url-policy.ts: every address that is given away has been approved.
use browser_profile_studio.Prelude.{
  nat_beq, if◌then◌else◌, Bool-cases, string_eq, nat_eq, bool_eq, pair_eq, length, All, Text,
  text_eq, ◌≤◌, ◌≡◌, refl, subst, ◌≢◌, ◌⊎◌, inl, inr, Bool, true, false, not, ◌&&◌, ◌||◌, Option,
  none, some, List, [], ◌∷◌, arith,
}
use browser_profile_studio.Prelude.Hoare.{Leaves, Ensures, bind-Ensures, guard-Ensures}
use browser_profile_studio.UrlPolicy.Address.{
  Reason, loopback, private, link_local, multicast, reserved, metadata, dns_invalid_address,
  AddressClassification, Platform, unbracket,
}
use browser_profile_studio.UrlPolicy.Classify.{classify_address}
use browser_profile_studio.UrlPolicy.Policy.{
  Exceptions, UrlPolicy, Call, is_metadata, is_reserved, is_synthetic_tunnel_address,
  is_private_exception, is_approved, canonical_address, or_unexpected, permit, check_address,
  approve, approve_all,
}
use browser_profile_studio.UrlPolicy.Resolve.{max_cached}
use browser_profile_studio.Prelude.Method.{◌>>=◌, return}

-- The address is, or is the canonical form of, a text that the platform takes for an IP literal, whose
-- class is public or excepted and no metadata service's.
pub record IsApproved (p : Platform) (x : Exceptions) (address : Text) : Type 0 where
  pub source : Text
  pub literal : p.is_ip source ≢ 0
  pub class : AddressClassification
  pub form : (address ≡ source) ⊎ (canonical_address p source ≡ some address)
  pub classified : classify_address p source ≡ some class
  pub approved : is_approved p class x ≡ true
  pub not_metadata : is_metadata class.reason ≡ false

-- What holds of a policy's fields.
pub record IsSafe (p : Platform) (x : Exceptions) (u : UrlPolicy) : Type 0 where
  pub same : u.exceptions ≡ x
  pub size : length u.safe_dns_cache ≤ max_cached
  pub cached : All (λ entry. All (IsApproved p x) entry.1.addresses) u.safe_dns_cache

metadata_refused :
    (r : Option Reason) (tunnel private_network : Bool)
    → (not (elim r [ none ↦ false | some _ ↦ true ])
        || (if tunnel then is_reserved r else private_network && not (is_metadata r)))
      ≡ true
    → is_metadata r ≡ false
metadata_refused none tunnel private_network h = refl
metadata_refused (some loopback) tunnel private_network h = refl
metadata_refused (some private) tunnel private_network h = refl
metadata_refused (some link_local) tunnel private_network h = refl
metadata_refused (some multicast) tunnel private_network h = refl
metadata_refused (some reserved) tunnel private_network h = refl
metadata_refused (some metadata) tunnel private_network h = ground arith

approved-not_metadata :
    (p : Platform) (c : AddressClassification) (x : Exceptions)
    → is_approved p c x ≡ true
    → is_metadata c.reason ≡ false
unfolding is_private_exception
approved-not_metadata p c x h =
    metadata_refused c.reason (x.allow_synthetic_tunnel && is_synthetic_tunnel_address p c.address)
      x.allow_private_network h

module _ (p : Platform) (x : Exceptions) where
  abbrev pub Safe : {A : Type 0} → Call A → (A → Type 0) → Type 0
  Safe = Ensures (IsSafe p x)

  abbrev pub IsPermitted : Text → AddressClassification → Type 0
  IsPermitted address c =
      (classify_address p address ≡ some c)
      × (is_approved p c x ≡ true)
      × (is_metadata c.reason ≡ false)

  pub or_unexpected-Safe : {A : Type 0} (o : Option A) → Safe (or_unexpected p o) (λ a. o ≡ some a)
  or_unexpected-Safe (some a) u s = (s, refl)
  or_unexpected-Safe none u s = s

  permit-Safe :
      (address : Text) (c : AddressClassification)
      → classify_address p address ≡ some c
      → Safe (permit p c) (IsPermitted address)
  unfolding permit
  permit-Safe address c found u s = elim (Bool-cases (is_approved p c u.exceptions)) [
    | inl allowed ↦
        let good = subst (λ y. is_approved p c y ≡ true) s.same allowed in
        rw (allowed, permit, Leaves) (s, (found, good, approved-not_metadata p c x good))
    | inr denied ↦ rw (denied, permit, Leaves) s
  ]

  pub check_address-Safe : (address : Text) → Safe (check_address p address) (IsPermitted address)
  unfolding check_address
  check_address-Safe address =
      bind-Ensures (IsSafe p x) (or_unexpected p (classify_address p address)) (permit p)
        (λ c. classify_address p address ≡ some c) (IsPermitted address)
        (or_unexpected-Safe (classify_address p address)) (λ c found. permit-Safe address c found)

  approve-Safe : (answer : Text) → Safe (approve p answer) (IsApproved p x)
  unfolding approve
  approve-Safe answer =
      let address = unbracket answer in
      let canonical = canonical_address p address in
      guard-Ensures (IsSafe p x) (nat_beq (p.is_ip address) 0) dns_invalid_address
        (check_address p address >>= (λ _. or_unexpected p canonical)) (IsApproved p x)
        (λ literal.
          bind-Ensures (IsSafe p x) (check_address p address) (λ _. or_unexpected p canonical)
            (IsPermitted address) (IsApproved p x) (check_address-Safe address)
            (λ c permitted u s.
              canonical-Safe address c (ground (arith, literal)) permitted canonical refl u s))
    where
      canonical-Safe :
          (address : Text) (c : AddressClassification)
          → p.is_ip address ≢ 0
          → IsPermitted address c
          → (o : Option Text) → canonical_address p address ≡ o
          → Safe (or_unexpected p o) (IsApproved p x)
      canonical-Safe address c literal permitted none same u s = s
      canonical-Safe address c literal permitted (some a) same u s = (
        s,
        record {
          source = address;
          literal = literal;
          class = c;
          form = inr same;
          classified = permitted.0;
          approved = permitted.1;
          not_metadata = permitted.2;
        },
      )

  pub approve_all-Safe : (answers : List Text) → Safe (approve_all p answers) (All (IsApproved p x))
  unfolding approve_all
  approve_all-Safe [] u s = (s, tt)
  approve_all-Safe (answer ∷ answers) u s =
      bind-Ensures (IsSafe p x) (approve p answer)
        (λ a. approve_all p answers >>= (λ others. return (a ∷ others))) (IsApproved p x)
        (All (IsApproved p x)) (approve-Safe answer)
        (λ a good.
          bind-Ensures (IsSafe p x) (approve_all p answers) (λ others. return (a ∷ others))
            (All (IsApproved p x)) (All (IsApproved p x)) (approve_all-Safe answers)
            (λ others rest v t. (t, (good, rest))))
        u s
