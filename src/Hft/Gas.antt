-- ===== src/Hft/Gas.antt =====
-- Gas-limit floors and the fee cache: src/hft/gas.rs.
pub mod Laws
use perpcity_rust_sdk.Base.{ℕ, ◌-◌, Option, some, none, Bool, ltb, if◌then◌else◌, false}
use perpcity_rust_sdk.Base.Word.{sat_add64, sat_mul64}
use mathlib.Core.Option

-- `GasLimits`
abbrev pub open_taker_limit : ℕ
open_taker_limit = 700000

abbrev pub open_maker_limit : ℕ
open_maker_limit = 800000

abbrev pub adjust_notional_limit : ℕ
adjust_notional_limit = 500000

abbrev pub liquidate_limit : ℕ
liquidate_limit = 3000000

-- The contract calls whose selectors `estimate_floor` names; any other four bytes are `other`.
pub data Selector : Type 0 where
  open_taker open_maker adjust_taker adjust_maker liquidate_taker liquidate_maker : Selector
  liquidate_taker_v022 liquidate_maker_v022 : Selector
  other : ℕ → Selector

unfoldable pub estimate_floor : Selector → Option ℕ
estimate_floor open_taker = some open_taker_limit
estimate_floor open_maker = some open_maker_limit
estimate_floor adjust_taker = some adjust_notional_limit
estimate_floor adjust_maker = some adjust_notional_limit
estimate_floor liquidate_taker = some liquidate_limit
estimate_floor liquidate_maker = some liquidate_limit
estimate_floor liquidate_taker_v022 = some liquidate_limit
estimate_floor liquidate_maker_v022 = some liquidate_limit
estimate_floor (other n) = none

pub data Urgency : Type 0 where
  low normal high critical : Urgency

pub record GasFees : Type 0 where
  pub base_fee : ℕ
  pub max_priority_fee_per_gas : ℕ
  pub max_fee_per_gas : ℕ
  pub updated_at_ms : ℕ

pub record FeeCache : Type 0 where
  pub current : Option GasFees
  pub ttl_ms : ℕ
  pub default_priority_fee : ℕ

unfoldable pub new : ℕ → ℕ → FeeCache
new ttl_ms default_priority_fee = record {
  current = none;
  ttl_ms = ttl_ms;
  default_priority_fee = default_priority_fee;
}

unfoldable pub update : ℕ → ℕ → FeeCache → FeeCache
update base_fee now_ms c =
    let f : GasFees = record {
      base_fee = base_fee;
      max_priority_fee_per_gas = c.default_priority_fee;
      max_fee_per_gas = sat_add64 (sat_mul64 2 base_fee) c.default_priority_fee;
      updated_at_ms = now_ms;
    } in
    record c { current = some f }

-- `now_ms.saturating_sub(updated_at_ms) < ttl_ms`
abbrev pub is_fresh : ℕ → ℕ → ℕ → Bool
is_fresh ttl_ms updated_at_ms now_ms = ltb (now_ms - updated_at_ms) ttl_ms

unfoldable pub is_valid : ℕ → FeeCache → Bool
is_valid now_ms c = elim c.current [
  | none ↦ false
  | some f ↦ is_fresh c.ttl_ms f.updated_at_ms now_ms
]

unfoldable pub get : ℕ → FeeCache → Option GasFees
get now_ms c = elim c.current [
  | none ↦ none
  | some f ↦ if is_fresh c.ttl_ms f.updated_at_ms now_ms then some f else none
]

unfoldable pub set_ttl : ℕ → FeeCache → FeeCache
set_ttl ttl_ms c = record c { ttl_ms = ttl_ms }

unfoldable pub base_fee : FeeCache → Option ℕ
base_fee c = Option.map (λ (f : GasFees). f.base_fee) c.current

-- The `match urgency` of `fees_for`: (maximum fee, priority fee).
unfoldable pub scale : Urgency → ℕ → ℕ → ℕ × ℕ
scale low bf pf = (sat_add64 bf pf, pf)
scale normal bf pf = (sat_add64 (sat_mul64 2 bf) pf, pf)
scale high bf pf = (sat_add64 (sat_mul64 3 bf) (sat_mul64 2 pf), sat_mul64 2 pf)
scale critical bf pf = (sat_add64 (sat_mul64 4 bf) (sat_mul64 5 pf), sat_mul64 5 pf)

unfoldable pub fees_for : Urgency → ℕ → FeeCache → Option GasFees
unfolding get scale
fees_for urgency now_ms c = elim (get now_ms c) [
  | none ↦ none
  | some base ↦
      let (max_fee, priority) = scale urgency base.base_fee c.default_priority_fee in
      some (record {
        base_fee = base.base_fee;
        max_priority_fee_per_gas = priority;
        max_fee_per_gas = max_fee;
        updated_at_ms = base.updated_at_ms;
      })
]
