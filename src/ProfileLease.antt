-- ===== src/ProfileLease.antt =====
-- src/distributed/profile-lease.ts: the exclusive leases of profiles, as `MemoryLeaseManager`
-- keeps them for all managers of a process.
--
-- The module's `memoryLeases` and the timers are shared by the managers, which a number tells
-- apart; their `ownedLeases` are one map from manager and key. The clock's reading and the random
-- token are arguments. A timer is a handle that stands for its callback until it is cleared or runs; it
-- goes by the same clock, and its delay is taken to be less than 2^31 ms, as the program's 30 seconds
-- are: of a longer one Node makes 1 ms.
mod Tests
pub mod Held
pub mod Exclusion
pub mod Fencing
pub mod Ownership
use Prim.Native.String.{String}
use browser_profile_studio.Prelude.{
  ltb, leb, if◌then◌else◌, string_eq, nat_eq, ◌==◌, pair_eq, select, Text, text_eq, ℕ, suc, ◌+◌,
  Bool, not, none, some, [], ◌∷◌, ◌++◌,
}
use browser_profile_studio.Prelude.Map.{Map, get, set, delete}
use browser_profile_studio.Prelude.Method.{returns, throws, Method}

pub data LeaseError : Type 0 where
  lease_already_acquired lease_lost : LeaseError

pub record ProfileLease : Type 0 where
  pub profile_id : Text
  pub lease_token : String
  pub expires_at : ℕ

pub record LeaseRecord : Type 0 where
  pub token : String
  pub expires_at : ℕ
  pub timeout : ℕ

-- A pending timer: what its callback has closed over, and when it is due.
pub record Timeout : Type 0 where
  pub manager : ℕ
  pub key : Text
  pub token : String
  pub due : ℕ

pub record Leases : Type 0 where
  pub memory_leases : Map Text LeaseRecord
  pub owned_leases : Map (ℕ × Text) String
  pub timers : Map ℕ Timeout
  pub next_timer : ℕ

abbrev pub no_leases : Leases
no_leases = record { memory_leases = []; owned_leases = []; timers = []; next_timer = 0 }

-- `tenantId:profileId`.
unfoldable pub lease_key : Text → Text → Text
lease_key tenant_id profile_id = tenant_id ++ 58 ∷ profile_id

abbrev pub clear_timeout : ℕ → Leases → Leases
clear_timeout timeout s = record s { timers = delete timeout s.timers }

abbrev pub delete_lease : Text → Leases → Leases
delete_lease key s = record s { memory_leases = delete key s.memory_leases }

abbrev pub disown : ℕ → Text → Leases → Leases
disown me key s = record s { owned_leases = delete (me, key) s.owned_leases }

-- The record and the timer that `acquire` and `renew` set.
abbrev pub set_lease : ℕ → ℕ → ℕ → Text → String → Leases → Leases
set_lease ttl_ms me now key token s = record s {
  memory_leases =
      set key (record { token = token; expires_at = now + ttl_ms; timeout = s.next_timer })
        s.memory_leases;
  timers =
      set s.next_timer (record { manager = me; key = key; token = token; due = now + ttl_ms })
        s.timers;
  next_timer = suc s.next_timer;
}

abbrev pub own : ℕ → Text → String → Leases → Leases
own me key token s = record s { owned_leases = set (me, key) token s.owned_leases }

abbrev pub lease_of : ℕ → ℕ → Text → String → ProfileLease
lease_of ttl_ms now profile_id token = record {
  profile_id = profile_id;
  lease_token = token;
  expires_at = now + ttl_ms;
}

unfoldable pub acquire : ℕ → ℕ → ℕ → String → Text → Text → Method LeaseError Leases ProfileLease
acquire ttl_ms me now token tenant_id profile_id s =
    let key = lease_key tenant_id profile_id in
    let lease = lease_of ttl_ms now profile_id token in
    elim (get key s.memory_leases) [
      | none ↦ returns lease (own me key token (set_lease ttl_ms me now key token s))
      | some existing ↦
          if ltb now existing.expires_at
          then throws lease_already_acquired s
          else returns lease (
              own me key token
                (set_lease ttl_ms me now key token (clear_timeout existing.timeout s)))
    ]

unfoldable pub renew : ℕ → ℕ → ℕ → String → Text → Text → Method LeaseError Leases ProfileLease
renew ttl_ms me now token tenant_id profile_id s =
    let key = lease_key tenant_id profile_id in
    elim (get key s.memory_leases) [
      | none ↦ throws lease_lost (disown me key s)
      | some existing ↦
          if leb existing.expires_at now
          then throws lease_lost
              (disown me key (delete_lease key (clear_timeout existing.timeout s)))
          else if not (existing.token == token)
          then throws lease_lost s
          else returns (lease_of ttl_ms now profile_id token)
              (set_lease ttl_ms me now key token (clear_timeout existing.timeout s))
    ]

unfoldable pub release : ℕ → String → Text → Text → Leases → Leases
release me token tenant_id profile_id s =
    let key = lease_key tenant_id profile_id in
    elim (get key s.memory_leases) [
      | none ↦ disown me key s
      | some existing ↦
          if existing.token == token
          then delete_lease key (clear_timeout existing.timeout (disown me key s))
          else disown me key s
    ]

-- One round of the loop of `shutdown`.
unfoldable pub give_up : Text → String → Leases → Leases
give_up key token s = elim (get key s.memory_leases) [
  | none ↦ s
  | some existing ↦
      if existing.token == token then delete_lease key (clear_timeout existing.timeout s) else s
]

unfoldable pub give_up_all : ℕ → Map (ℕ × Text) String → Leases → Leases
give_up_all me [] s = s
give_up_all me (((m, key), token) ∷ owned) s =
    let skipped = give_up_all me owned s in
    let done = give_up_all me owned (give_up key token s) in if m == me then done else skipped

abbrev pub is_other : ℕ → (ℕ × Text) × String → Bool
is_other me entry = not (entry.0.0 == me)

unfoldable pub shutdown : ℕ → Leases → Leases
shutdown me s =
    let t = give_up_all me s.owned_leases s in
    record t { owned_leases = select (is_other me) t.owned_leases }

-- The callback of `setTimeout`.
unfoldable pub expire : Timeout → Leases → Leases
expire timer s = record s {
  memory_leases = elim (get timer.key s.memory_leases) [
    | none ↦ s.memory_leases
    | some existing ↦
        if existing.token == timer.token then delete timer.key s.memory_leases else s.memory_leases
  ];
  owned_leases = elim (get (timer.manager, timer.key) s.owned_leases) [
    | none ↦ s.owned_leases
    | some token ↦
        if token == timer.token
        then delete (timer.manager, timer.key) s.owned_leases
        else s.owned_leases
  ];
}

-- The event loop runs a pending timer, not before it is due.
unfoldable pub run_timer : ℕ → ℕ → Leases → Leases
run_timer timeout now s = elim (get timeout s.timers) [
  | none ↦ s
  | some timer ↦ if ltb now timer.due then s else expire timer (clear_timeout timeout s)
]
