-- ===== src/UrlPolicy/Blocks.antt =====
-- src/policy/url-policy.ts: `classifyIpv4` against the table of reserved blocks.
use browser_profile_studio.Prelude.{
  leb, nat_beq, if◌then◌else◌, Bool-cases, string_eq, nat_eq, bool_eq, pair_eq, text_eq, ℕ, ◌+◌,
  ◌-◌, ◌*◌, ◌/◌, ◌%◌, ◌^◌, ◌<◌, ◌≡◌, refl, sym, ap, ◌∙◌, inl, inr, Bool, true, false, ◌&&◌, ◌||◌,
  Option, none, some, List, [], ◌∷◌, arith,
}
use browser_profile_studio.UrlPolicy.Address.{
  Reason, loopback, private, link_local, multicast, reserved, between, octets_reserved,
  octets_reason,
}
use browser_profile_studio.Prelude.Ascii.{lower}

-- A block in CIDR notation: its four octets and the length of the prefix.
abbrev pub IpBlock : Type 0
IpBlock = ℕ × ℕ × ℕ × ℕ × ℕ

abbrev pub ip_value : ℕ → ℕ → ℕ → ℕ → ℕ
ip_value a b c d = ((a * 256 + b) * 256 + c) * 256 + d

-- Whether the first bits of an address are those of the block.
abbrev pub in_block : IpBlock → ℕ → Bool
in_block block value =
    nat_beq (value / 2 ^ (32 - block.4))
      (ip_value block.0 block.1 block.2 block.3 / 2 ^ (32 - block.4))

-- The blocks with their classes, in the order of their precedence.
abbrev pub lower_blocks : List (IpBlock × Reason)
lower_blocks =
    ((0, 0, 0, 0, 8), reserved)
    ∷ ((100, 64, 0, 0, 10), reserved)
    ∷ ((192, 0, 0, 0, 24), reserved)
    ∷ ((192, 0, 2, 0, 24), reserved)
    ∷ ((192, 88, 99, 0, 24), reserved)
    ∷ ((198, 18, 0, 0, 15), reserved)
    ∷ ((198, 51, 100, 0, 24), reserved)
    ∷ ((203, 0, 113, 0, 24), reserved)
    ∷ []

abbrev pub special_blocks : List (IpBlock × Reason)
special_blocks =
    ((127, 0, 0, 0, 8), loopback)
    ∷ ((10, 0, 0, 0, 8), private)
    ∷ ((172, 16, 0, 0, 12), private)
    ∷ ((192, 168, 0, 0, 16), private)
    ∷ ((169, 254, 0, 0, 16), link_local)
    ∷ ((240, 0, 0, 0, 4), reserved)
    ∷ ((224, 0, 0, 0, 4), multicast)
    ∷ lower_blocks

abbrev pub block_reason : List (IpBlock × Reason) → ℕ → Option Reason
block_reason [] value = none
block_reason ((block, reason) ∷ blocks) value =
    if in_block block value then some reason else block_reason blocks value

-- Two tests that agree, with the same result, and what comes after them.
pick :
    {A : Type 0} (s t : Bool) (r x y : A)
    → s ≡ t
    → (s ≡ false → x ≡ y)
    → (if s then r else x) ≡ (if t then r else y)
pick s t r x y same rest = elim (Bool-cases s) [
  | inl on ↦ rw (on, (sym same ∙ on)) refl
  | inr off ↦ rw (off, (sym same ∙ off)) (rest off)
]

either_of :
    {A : Type 0} (s t : Bool) (r x : A)
    → (if s || t then r else x) ≡ (if s then r else (if t then r else x))
either_of true t r x = refl
either_of false t r x = refl

nested :
    {A : Type 0} (s t : Bool) (q r x : A)
    → (t ≡ true → s ≡ true)
    → (if s then (if t then q else r) else x) ≡ (if t then q else (if s then r else x))
nested true t q r x h = refl
nested false true q r x h = absurd (ground (arith, h refl))
nested false false q r x h = refl

module _ (a b c d : ℕ) (ha : a < 256) (hb : b < 256) (hc : c < 256) (hd : d < 256) where
  abbrev value : ℕ
  value = ip_value a b c d

  test_8 : (n : ℕ) → n < 256 → nat_beq a n ≡ in_block (n, 0, 0, 0, 8) value
  test_8 n h = ground arith

  test_16 :
      (n m : ℕ) → n < 256 → m < 256 → (nat_beq a n && nat_beq b m) ≡ in_block (n, m, 0, 0, 16) value
  test_16 n m h k = ground arith

  test_24 :
      (n m k : ℕ)
      → n < 256
      → m < 256
      → k < 256
      → (nat_beq a n && nat_beq b m && nat_beq c k) ≡ in_block (n, m, k, 0, 24) value
  test_24 n m k hn hm hk = ground arith

  test_private_12 : (nat_beq a 172 && between 16 31 b) ≡ in_block (172, 16, 0, 0, 12) value
  test_private_12 = ground arith

  test_shared_10 : (nat_beq a 100 && between 64 127 b) ≡ in_block (100, 64, 0, 0, 10) value
  test_shared_10 = ground arith

  test_benchmark_15 : (nat_beq a 198 && between 18 19 b) ≡ in_block (198, 18, 0, 0, 15) value
  test_benchmark_15 = ground arith

  test_reserved_4 : leb 240 a ≡ in_block (240, 0, 0, 0, 4) value
  test_reserved_4 = ground arith

  test_multicast_4 : leb 240 a ≡ false → leb 224 a ≡ in_block (224, 0, 0, 0, 4) value
  test_multicast_4 h = ground arith

  last_test : leb 224 a ≡ false → nat_beq (value % 2 ^ 32) 4_294_967_295 ≡ false
  last_test h = ground arith

  abbrev inside : IpBlock → Bool
  inside block = in_block block value

  tail :
      leb 224 a ≡ false → octets_reserved a b c (value % 2 ^ 32) ≡ block_reason lower_blocks value
  unfolding octets_reserved
  tail lower =
      pick (nat_beq a 0) (inside (0, 0, 0, 0, 8)) (some reserved) _ _ (test_8 0 (omega arith)) (λ _.
        pick (nat_beq a 100 && between 64 127 b) (inside (100, 64, 0, 0, 10)) (some reserved) _ _
          (test_shared_10)
          (λ _.
            pick (nat_beq a 192 && nat_beq b 0 && nat_beq c 0) (inside (192, 0, 0, 0, 24))
              (some reserved) _ _ (test_24 192 0 0 (omega arith) (omega arith) (omega arith))
              (λ _.
                pick (nat_beq a 192 && nat_beq b 0 && nat_beq c 2) (inside (192, 0, 2, 0, 24))
                  (some reserved) _ _ (test_24 192 0 2 (omega arith) (omega arith) (omega arith))
                  (λ _.
                    pick (nat_beq a 192 && nat_beq b 88 && nat_beq c 99)
                      (inside (192, 88, 99, 0, 24)) (some reserved) _ _
                      (test_24 192 88 99 (omega arith) (omega arith) (omega arith))
                      (λ _.
                        pick (nat_beq a 198 && between 18 19 b) (inside (198, 18, 0, 0, 15))
                          (some reserved) _ _ (test_benchmark_15)
                          (λ _.
                            pick (nat_beq a 198 && nat_beq b 51 && nat_beq c 100)
                              (inside (198, 51, 100, 0, 24)) (some reserved) _ _
                              (test_24 198 51 100 (omega arith) (omega arith) (omega arith))
                              (λ _.
                                pick (nat_beq a 203 && nat_beq b 0 && nat_beq c 113)
                                  (inside (203, 0, 113, 0, 24)) (some reserved) _ _
                                  (test_24 203 0 113 (omega arith) (omega arith) (omega arith))
                                  (λ _.
                                    ap (λ (top : Bool). if top then some reserved else none)
                                      (last_test lower)))))))))

  -- The tests on the octets give the class of the first block of the table that the address is in.
  pub octets_reason-blocks : octets_reason a b c d ≡ block_reason special_blocks value
  unfolding octets_reason
  octets_reason-blocks =
      let in_10 = nat_beq a 10 in
      let in_172 = nat_beq a 172 && between 16 31 b in
      let in_192 = nat_beq a 192 && nat_beq b 168 in
      pick (nat_beq a 127) (inside (127, 0, 0, 0, 8)) (some loopback) _ _ (test_8 127 (omega arith))
        (λ _.
          either_of (in_10 || in_172) in_192 (some private) _
          ∙ either_of in_10 in_172 (some private) _
          ∙ pick in_10 (inside (10, 0, 0, 0, 8)) (some private) _ _ (test_8 10 (omega arith)) (λ _.
            pick in_172 (inside (172, 16, 0, 0, 12)) (some private) _ _ test_private_12 (λ _.
              pick in_192 (inside (192, 168, 0, 0, 16)) (some private) _ _
                (test_16 192 168 (omega arith) (omega arith))
                (λ _.
                  pick (nat_beq a 169 && nat_beq b 254) (inside (169, 254, 0, 0, 16))
                    (some link_local) _ _ (test_16 169 254 (omega arith) (omega arith))
                    (λ _.
                      nested (leb 224 a) (leb 240 a) (some reserved) (some multicast) _
                        (λ h. ground arith)
                      ∙ pick (leb 240 a) (inside (240, 0, 0, 0, 4)) (some reserved) _ _
                          test_reserved_4
                          (λ low.
                            pick (leb 224 a) (inside (224, 0, 0, 0, 4)) (some multicast) _ _
                              (test_multicast_4 low) (λ lower. tail lower)))))))
