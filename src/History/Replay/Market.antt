-- ===== src/History/Replay/Market.antt =====
-- Totals that the market emits, each a latest-wins value: `Rates` and `Modules` of
-- src/history/replay/market.rs.
pub mod Split
use perpcity_rust_sdk.Base.{ℕ, ◌+◌, List, [], ◌∷◌, Option, some, none, set, replicate}
use perpcity_rust_sdk.Base.Int.{ℤ}
use perpcity_rust_sdk.Math.Side.{PerSide}
use perpcity_rust_sdk.History.Fold.{combine_latest, Fold}
use perpcity_rust_sdk.History.Tape.{
  CumulativesInfo, ModuleKind, beacon, fees, funding_module, margin_ratios, price_impact, pricing,
  MarketEvent, cumulatives_accrued, rates_and_emas_refreshed, module_set, TapeEvent,
}

pub record Rates : Type 0 where
  pub funding_per_day : Option ℤ
  pub util_fee_per_day : Option (PerSide ℕ)
  pub cumulatives : Option CumulativesInfo

unfoldable pub apply_rates : MarketEvent → Rates → Rates
apply_rates (rates_and_emas_refreshed funding fee last_touch pool_price_ema index_ema) r =
    record r { funding_per_day = some funding; util_fee_per_day = some fee }
apply_rates (cumulatives_accrued cumulatives) r = record r { cumulatives = some cumulatives }
apply_rates _ r = r

unfoldable pub combine_rates : Rates → Rates → Rates
combine_rates r later = record {
  funding_per_day = combine_latest r.funding_per_day later.funding_per_day;
  util_fee_per_day = combine_latest r.util_fee_per_day later.util_fee_per_day;
  cumulatives = combine_latest r.cumulatives later.cumulatives;
}

unfoldable pub rates : Fold TapeEvent Rates
unfolding apply_rates combine_rates
rates = record {
  default = record { funding_per_day = none; util_fee_per_day = none; cumulatives = none };
  apply = λ e r. apply_rates e.event r;
  combine = combine_rates;
}

-- `Modules::index`
unfoldable pub index : ModuleKind → ℕ
index beacon = 0
index fees = 1
index funding_module = 2
index margin_ratios = 3
index price_impact = 4
index pricing = 5

unfoldable pub apply_modules : MarketEvent → List (Option ℕ) → List (Option ℕ)
unfolding index
apply_modules (module_set kind address) in_force = set in_force (index kind) (some address)
apply_modules _ in_force = in_force

-- `iter_mut().zip(later)`
unfoldable pub combine_modules : List (Option ℕ) → List (Option ℕ) → List (Option ℕ)
combine_modules [] later = []
combine_modules (mine ∷ rest) [] = mine ∷ rest
combine_modules (mine ∷ rest) (theirs ∷ later) =
    combine_latest mine theirs ∷ combine_modules rest later

-- The modules in force, one slot for each of six kinds.
unfoldable pub modules : Fold TapeEvent (List (Option ℕ))
unfolding apply_modules combine_modules
modules = record {
  default = replicate 6 none;
  apply = λ e in_force. apply_modules e.event in_force;
  combine = combine_modules;
}
