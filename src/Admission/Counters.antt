-- ===== src/Admission/Counters.antt =====
-- One dimension: a counter for each key, and the permits that it counts.
use browser_profile_studio.Prelude.{
  leb, Eq, nat_eq, string_eq, pair_eq, list_beq_iff, Text, text_eq, ℕ, ◌+◌, ◌-◌, ◌≤◌, ◌≡◌, Bool,
  true, false, some, [], ◌∷◌, arith,
}
use browser_profile_studio.Prelude.Map.{
  Map, get, has, set, delete, Distinct, get-set, get-delete, delete_absent,
}
use browser_profile_studio.Admission.{Request, count_of, increment, decrement}

abbrev pub one_if : Bool → ℕ
one_if true = 1
one_if false = 0

module _ {ℓ} {K : Type ℓ} ⦃e : Eq K⦄ (key : Request → K) where
  -- How many permits have that key.
  unfoldable pub tally : K → Map Text Request → ℕ
  tally k [] = 0
  tally k ((t, r) ∷ ps) = one_if (e.equal (key r) k) + tally k ps

  -- The counters agree with the permits.
  abbrev pub Tracks : Map K ℕ → Map Text Request → Type ℓ
  Tracks m ps = (k : K) → count_of k m ≡ tally k ps

  tally-set :
      (k : K) (t : Text) (r : Request) (ps : Map Text Request)
      → has t ps ≡ false
      → tally k (set t r ps) ≡ tally k ps + one_if (e.equal (key r) k)
  unfolding tally set has
  tally-set k t r [] h = omega arith
  tally-set k t r ((u, q) ∷ ps) h = ground (arith, tally-set k t r ps)

  tally-delete :
      (k : K) (t : Text) (r : Request) (ps : Map Text Request)
      → Distinct ps
      → get t ps ≡ some r
      → tally k ps ≡ tally k (delete t ps) + one_if (e.equal (key r) k)
  unfolding tally delete get
  tally-delete k t r [] d h = cc
  tally-delete k t r ((u, q) ∷ ps) d h =
      ground (arith, list_beq_iff u t, delete_absent t ps, tally-delete k t r ps d.1)

  count_of-increment :
      (k j : K) (m : Map K ℕ) → count_of k (increment j m) ≡ count_of k m + one_if (e.equal j k)
  unfolding count_of increment
  count_of-increment k j m = ground (arith, get-set k j (count_of j m + 1) m, e.equal_iff j k)

  count_of-decrement :
      (k j : K) (m : Map K ℕ) → count_of k (decrement j m) ≡ count_of k m - one_if (e.equal j k)
  unfolding count_of decrement
  count_of-decrement k j m =
      ground (arith, get-set k j (count_of j m - 1) m, get-delete k j m, e.equal_iff j k)

  pub Tracks-increment :
      (t : Text) (r : Request) (m : Map K ℕ) (ps : Map Text Request)
      → has t ps ≡ false
      → Tracks m ps
      → Tracks (increment (key r) m) (set t r ps)
  Tracks-increment t r m ps h tracks k =
      omega (arith, count_of-increment k (key r) m, tally-set k t r ps h, tracks k)

  pub Tracks-decrement :
      (t : Text) (r : Request) (m : Map K ℕ) (ps : Map Text Request)
      → Distinct ps
      → get t ps ≡ some r
      → Tracks m ps
      → Tracks (decrement (key r) m) (delete t ps)
  Tracks-decrement t r m ps d h tracks k =
      omega (arith, count_of-decrement k (key r) m, tally-delete k t r ps d h, tracks k)

  -- No key has more permits than its limit.
  abbrev pub Within : ℕ → Map Text Request → Type ℓ
  Within limit ps = (k : K) → tally k ps ≤ limit

  pub Within-set :
      (limit : ℕ) (t : Text) (r : Request) (m : Map K ℕ) (ps : Map Text Request)
      → has t ps ≡ false
      → Tracks m ps
      → leb limit (count_of (key r) m) ≡ false
      → Within limit ps
      → Within limit (set t r ps)
  Within-set limit t r m ps h tracks free within k =
      ground (arith, tally-set k t r ps h, tracks (key r), within k, e.equal_iff (key r) k)

  pub Within-delete :
      (limit : ℕ) (t : Text) (r : Request) (ps : Map Text Request)
      → Distinct ps
      → get t ps ≡ some r
      → Within limit ps
      → Within limit (delete t ps)
  Within-delete limit t r ps d h within k = omega (arith, tally-delete k t r ps d h, within k)
