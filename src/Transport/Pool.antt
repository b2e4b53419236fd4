-- ===== src/Transport/Pool.antt =====
-- The endpoint pool: `ManagedEndpoint`, `ProbePermit` and `EndpointPool` of src/transport/provider.rs.
-- Calls are taken one at a time, each under the locks that the source takes. A permit is true where it
-- holds a probe slot of the endpoint whose index stands beside it.
pub mod Laws
mod Tests
pub mod Slots
pub mod Loop
pub mod Latency
use perpcity_rust_sdk.Base.{
  ℕ, zero, suc, ◌+◌, ◌-◌, ◌*◌, ◌/◌, ◌%◌, ◌≡◌, refl, Option, some, none, List, [], ◌∷◌, Bool, true,
  false, ltb, leb, ◌==◌, if◌then◌else◌, length, get_elem?, modify, set, not, ◌&&◌,
}
use perpcity_rust_sdk.Base.Float.{Float}
use perpcity_rust_sdk.Base.Word.{u64_mod}
use perpcity_rust_sdk.Transport.Health.{
  CircuitBreakerConfig, CircuitState, closed, open_since, half_open, Reserved, freely, probe,
  EndpointHealth,
}
use perpcity_rust_sdk.Transport.Health
use mathlib.Core.Option

-- 2^62
abbrev pub tag_open : ℕ
tag_open = 4611686018427387904

-- `TAG_OPEN | (since_ms & !TAG_MASK)`: the parts of each word share no bit, so that `|` adds them.
unfoldable pub pack_state : CircuitState → ℕ
pack_state closed = 0
pack_state (open_since since_ms) = tag_open + since_ms % tag_open
pack_state (half_open probes) = 2 * tag_open + probes

-- `word & TAG_MASK == TAG_CLOSED`, of a 64-bit word.
unfoldable pub is_closed : ℕ → Bool
is_closed word = word / tag_open == 0

pub record ManagedEndpoint (F : Type 0) : Type 0 where
  pub health : EndpointHealth F
  pub atomic_latency_ns : ℕ
  pub atomic_state : ℕ

pub record EndpointPool (F : Type 0) : Type 0 where
  pub endpoints : List (ManagedEndpoint F)
  pub round_robin : ℕ

module _ (fl : Float) where
  open fl use {F}

  unfoldable pub new_endpoint : CircuitBreakerConfig → ManagedEndpoint F
  new_endpoint config = record {
    health = Health.new fl config;
    atomic_latency_ns = 0;
    atomic_state = 0;
  }

  -- What follows each mutation of the health but a reservation or a success: the state's mirror.
  abbrev pub mirror_state : EndpointHealth F → ManagedEndpoint F → ManagedEndpoint F
  mirror_state h e = record e { health = h; atomic_state = pack_state h.state }

  abbrev pub mirror_both : EndpointHealth F → ManagedEndpoint F → ManagedEndpoint F
  mirror_both h e = record {
    health = h;
    atomic_latency_ns = h.avg_latency_ns;
    atomic_state = pack_state h.state;
  }

  unfoldable pub record_success : ℕ → ManagedEndpoint F → ManagedEndpoint F
  record_success latency_ns e = mirror_both (Health.record_success fl latency_ns e.health) e

  unfoldable pub release_probe : ManagedEndpoint F → ManagedEndpoint F
  release_probe e = mirror_state (Health.release_probe fl e.health) e

  unfoldable pub record_answered : ManagedEndpoint F → ManagedEndpoint F
  record_answered e = mirror_state (Health.record_answered fl e.health) e

  unfoldable pub record_failure : ℕ → ManagedEndpoint F → ManagedEndpoint F
  record_failure now_ms e = mirror_state (Health.record_failure fl now_ms e.health) e

  -- `EndpointPool::reserve` at its endpoint: whether a permit was given, and whether it holds a slot.
  unfoldable pub reserve : ℕ → ManagedEndpoint F → Option Bool × ManagedEndpoint F
  reserve now_ms e =
      let (r, h) = Health.reserve fl now_ms e.health in
      (Option.map (λ x. elim x [ freely ↦ false | probe ↦ true ]) r, mirror_both h e)

  -- `Drop for ProbePermit`
  unfoldable pub drop_permit : Bool → ManagedEndpoint F → ManagedEndpoint F
  drop_permit true e = release_probe e
  drop_permit false e = e

  unfoldable pub reserve_at :
      ℕ → ℕ → List (ManagedEndpoint F) → Option Bool × List (ManagedEndpoint F)
  reserve_at idx now_ms eps = elim (get_elem? eps idx) [
    | none ↦ (none, eps)
    | some e ↦ ((reserve now_ms e).0, modify idx (λ x. (reserve now_ms x).1) eps)
  ]

  abbrev pub closed_at : ℕ → List (ManagedEndpoint F) → Bool
  closed_at idx eps = elim (get_elem? eps idx) [ none ↦ false | some e ↦ is_closed e.atomic_state ]

  -- The first loop of `select_round_robin`, with `k` rounds left.
  unfoldable pub first_closed : ℕ → ℕ → ℕ → List (ManagedEndpoint F) → Option ℕ
  first_closed start zero i eps = none
  first_closed start (suc k) i eps =
      let idx = (start + i) % u64_mod % length eps in
      let rest = first_closed start k (i + 1) eps in if closed_at idx eps then some idx else rest

  -- Its `find_map`.
  unfoldable pub first_reserved :
      ℕ → ℕ → ℕ → ℕ → List (ManagedEndpoint F) → Option (ℕ × Bool) × List (ManagedEndpoint F)
  first_reserved now_ms start zero i eps = (none, eps)
  first_reserved now_ms start (suc k) i eps =
      let idx = (start + i) % u64_mod % length eps in
      let (r, eps') = reserve_at idx now_ms eps in
      elim r [
        | none ↦ first_reserved now_ms start k (i + 1) eps'
        | some held ↦ (some (idx, held), eps')
      ]

  unfoldable pub select_round_robin : ℕ → EndpointPool F → Option (ℕ × Bool) × EndpointPool F
  unfolding first_closed first_reserved
  select_round_robin now_ms p =
      let start = p.round_robin in
      let n = length p.endpoints in
      let next = (start + 1) % u64_mod in
      elim (first_closed start n 0 p.endpoints) [
        | some idx ↦ (some (idx, false), record p { round_robin = next })
        | none ↦
            let (r, eps) = first_reserved now_ms start n 0 p.endpoints in
            (r, record { endpoints = eps; round_robin = next })
      ]

  -- The first loop of `select_latency_based`, from index `i` on.
  unfoldable pub best_closed :
      ℕ → List (ManagedEndpoint F) → Option (ℕ × ℕ) → Bool → Option (ℕ × ℕ) × Bool
  best_closed i [] best any = (best, any)
  best_closed i (e ∷ es) best any =
      let better : Bool = elim best [ none ↦ true | some b ↦ ltb e.atomic_latency_ns b.1 ] in
      let c = is_closed e.atomic_state in
      best_closed (i + 1) es (if c && better then some (i, e.atomic_latency_ns) else best)
        (if c then any else true)

  -- The second: `k` endpoints left, from `idx` on; what the loop passes over is dropped.
  unfoldable pub best_reserved :
      ℕ
      → ℕ
      → ℕ
      → List (ManagedEndpoint F)
      → Option (ℕ × ℕ × Bool)
      → Option (ℕ × ℕ × Bool) × List (ManagedEndpoint F)
  best_reserved now_ms zero idx eps best = (best, eps)
  best_reserved now_ms (suc k) idx eps best =
      let (r, eps') = reserve_at idx now_ms eps in
      let latency : ℕ = elim (get_elem? eps' idx) [ none ↦ 0 | some e ↦ e.atomic_latency_ns ] in
      elim r [
        | none ↦ best_reserved now_ms k (idx + 1) eps' best
        | some permit ↦ elim best [
          | none ↦ best_reserved now_ms k (idx + 1) eps' (some (idx, latency, permit))
          | some (b, best_latency, held) ↦ elim (leb best_latency latency) [
            | true ↦
                best_reserved now_ms k (idx + 1) (modify idx (drop_permit permit) eps')
                  (some (b, best_latency, held))
            | false ↦
                best_reserved now_ms k (idx + 1) (modify b (drop_permit held) eps')
                  (some (idx, latency, permit))
          ]
        ]
      ]

  unfoldable pub select_latency_based : ℕ → EndpointPool F → Option (ℕ × Bool) × EndpointPool F
  unfolding best_closed best_reserved
  select_latency_based now_ms p =
      let (best, any) = best_closed 0 p.endpoints none false in
      elim best [
        | some (idx, l) ↦ (some (idx, false), p)
        | none ↦ elim any [
          | false ↦ (none, p)
          | true ↦
              let (b, eps) = best_reserved now_ms (length p.endpoints) 0 p.endpoints none in
              (Option.map (λ (x : ℕ × ℕ × Bool). (x.0, x.2)) b, record p { endpoints = eps })
        ]
      ]

  abbrev pub count_closed : List (ManagedEndpoint F) → ℕ
  count_closed [] = 0
  count_closed (e ∷ es) = (if is_closed e.atomic_state then 1 else 0) + count_closed es

  unfoldable pub healthy_count : EndpointPool F → ℕ
  healthy_count p = count_closed p.endpoints
