-- ===== src/History/Tape.antt =====
-- The events of a market, and an event with its chain position: src/events.rs and
-- src/history/tape/mod.rs. Counts, prices, addresses and hashes are numbers, signed amounts integers.
use perpcity_rust_sdk.Base.{ℕ, Bool}
use perpcity_rust_sdk.Base.Int.{ℤ}
use perpcity_rust_sdk.Math.Side.{PerSide}
use perpcity_rust_sdk.History.Fold.{ChainPoint}

pub record SwapInfo : Type 0 where
  pub perp_delta : ℤ
  pub usd_delta : ℤ
  pub pool_price : ℕ
  pub total_fee : ℤ
  pub lp_fee : ℕ
  pub protocol_fee : ℕ
  pub creator_fee : ℕ
  pub insurance_fee : ℕ

pub record MakerSettle : Type 0 where
  pub funding : ℤ
  pub util_fees : PerSide ℕ
  pub lp_fees : ℕ

pub record CumulativesInfo : Type 0 where
  pub funding : ℤ
  pub funding_div_sqrt_p : ℤ
  pub util_payments : PerSide ℕ
  pub util_earnings : PerSide ℕ

pub data ModuleKind : Type 0 where
  beacon fees funding_module margin_ratios price_impact pricing : ModuleKind

pub data MarketEvent : Type 0 where
  maker_opened : (pos_id : ℕ) → MarketEvent
  maker_adjusted : (pos_id : ℕ) (settle : MakerSettle) → MarketEvent
  maker_converted maker_closed :
      (pos_id : ℕ) (settle : MakerSettle) (liquidation_fee : ℕ) (is_liquidation : Bool)
      → MarketEvent
  maker_liquidated : (pos_id liquidity_amount liquidation_fee : ℕ) → MarketEvent
  maker_backstopped : (pos_id margin_in pos_recipient : ℕ) (settle : MakerSettle) → MarketEvent
  taker_opened : (pos_id : ℕ) (swap : SwapInfo) → MarketEvent
  taker_adjusted : (pos_id : ℕ) (swap : SwapInfo) (funding : ℤ) (util_fees : ℕ) → MarketEvent
  taker_closed :
      (pos_id : ℕ) (swap : SwapInfo) (funding : ℤ) (util_fees liquidation_fee : ℕ)
      (is_liquidation : Bool)
      → MarketEvent
  taker_liquidated : (pos_id perp_amount liquidation_fee : ℕ) → MarketEvent
  taker_backstopped :
      (pos_id margin_in pos_recipient : ℕ) (funding : ℤ) (util_fees : ℕ) → MarketEvent
  capacity_updated : (capacity : PerSide ℕ) → MarketEvent
  open_interest_updated : (open_interest : PerSide ℕ) → MarketEvent
  cumulatives_accrued : (cumulatives : CumulativesInfo) → MarketEvent
  rates_and_emas_refreshed :
      (funding_per_day : ℤ) (util_fee_per_day : PerSide ℕ) (last_touch pool_price_ema index_ema : ℕ)
      → MarketEvent
  ticks_crossed : (starting_tick ending_tick : ℤ) (zero_for_one : Bool) → MarketEvent
  tick_initialized : (tick cuml_funding_opp cuml_funding_div_sqrt_p_opp : ℤ) → MarketEvent
  tick_deleted : (tick : ℤ) → MarketEvent
  donated : (donor amount bad_debt insurance : ℕ) → MarketEvent
  bad_debt_accounted : (bad_debt insurance_after bad_debt_after : ℕ) → MarketEvent
  loss_socialized : (original_amount fee_charged bad_debt_after : ℕ) → MarketEvent
  margin_transferred : (margin_delta : ℤ) (total_margin : ℕ) → MarketEvent
  index_updated : (index : ℕ) → MarketEvent
  pool_initialized : (pool_id sqrt_price : ℕ) (tick : ℤ) → MarketEvent
  pool_swapped : (pool_id sender sqrt_price liquidity : ℕ) (tick : ℤ) → MarketEvent
  modify_liquidity :
      (pool_id sender : ℕ) (tick_lower tick_upper liquidity_delta : ℤ) (salt : ℕ) → MarketEvent
  position_transferred : (from to pos_id : ℕ) → MarketEvent
  module_set : (kind : ModuleKind) (address : ℕ) → MarketEvent

pub record TapeEvent : Type 0 where
  pub block_number : ℕ
  pub block_hash : ℕ
  pub log_index : ℕ
  pub timestamp : ℕ
  pub tx_hash : ℕ
  pub event : MarketEvent

unfoldable pub point : TapeEvent → ChainPoint
point e = record { block = e.block_number; log_index = e.log_index }
