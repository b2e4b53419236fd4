-- ===== src/Math/Taker.antt =====
-- The health of a taker: src/math/taker.rs, and `is_healthy` of src/math/mod.rs.
pub mod Search
pub mod Turn
pub mod Ends
pub mod First
pub mod Health
pub mod Prices
pub mod Liquidation
pub mod Agreement
mod Tests
use perpcity_rust_sdk.Base.{
  ℕ, ◌+◌, ◌-◌, ◌*◌, ◌%◌, Option, some, none, Bool, true, false, not, ltb, leb, ◌==◌, ◌&&◌,
  if◌then◌else◌,
}
use perpcity_rust_sdk.Base.Int.{
  ℤ, pos, negsuc, ◌+ℤ◌, ◌-ℤ◌, abs, pos_part, neg_part, is_neg, ltb_ℤ, leb_ℤ,
}
use perpcity_rust_sdk.Base.Word.{u128_mod}
use perpcity_rust_sdk.Base.Result.{Result, ok, err, ValidationError, overflow, ◌>>=◌}
use perpcity_rust_sdk.Math.FixedPoint.{
  Rounding, up, toward_zero, mul_div, s_full_mul_div, to_i256, add_i, sub_i, sub_u, u256_mod,
}
use perpcity_rust_sdk.Math.Amounts.{q96, i128_half}
use perpcity_rust_sdk.Math.Liquidity.{narrow}
use perpcity_rust_sdk.Math.Side.{Side, longs, shorts, PerSide, on}
use perpcity_rust_sdk.Math.Taker.Search.{first_failing}

abbrev pub one_e6 : ℕ
one_e6 = 1000000

-- The operators of a signed amount wrap in a release build.
unfoldable pub wrap_i128 : ℤ → ℤ
wrap_i128 z =
    let r = (pos_part z + (u128_mod - neg_part z % u128_mod)) % u128_mod in
    if ltb r i128_half then pos r else negsuc (u128_mod - r - 1)

-- Prices and cumulatives are Q96 words, amounts counts of atoms.
pub record TakerMarketSnapshot : Type 0 where
  pub funding : ℤ
  pub util_payments : PerSide ℕ
  pub mark : ℕ

pub record TakerState : Type 0 where
  pub delta_perp : ℤ
  pub delta_usd : ℤ
  pub margin : ℕ
  pub liquidation_margin_ratio : ℕ
  pub last_cuml_funding : ℤ
  pub last_util_payments : PerSide ℕ

pub record TakerHealth : Type 0 where
  pub mark : ℕ
  pub delta_perp : ℤ
  pub delta_usd : ℤ
  pub margin : ℕ
  pub funding_owed : ℤ
  pub util_owed : ℕ
  pub position_value : ℕ
  pub unrealized_pnl : ℤ
  pub liquidation_margin_ratio : ℕ

abbrev pub fits_i128 : ℤ → Bool
fits_i128 a = ltb (pos_part a) i128_half && leb (neg_part a) i128_half

unfoldable pub usdc_delta : ℤ → Result ℤ
usdc_delta value = if fits_i128 value then ok value else err overflow

-- The `expect` on a product that fits: an error would be a panic.
abbrev pub expected : Result ℕ → ℕ
expected (ok n) = n
expected (err e) = 0

unfoldable pub is_healthy : ℤ → ℕ → ℕ → Bool
unfolding mul_div
is_healthy equity value ratio = leb ratio (
    if ltb_ℤ (pos 0) equity
    then expected (mul_div (abs equity) one_e6 (value + 1) toward_zero)
    else 0)

-- What a position owes in utilization since its checkpoint.
unfoldable pub util_owed_of : TakerMarketSnapshot → TakerState → Result ℕ
unfolding mul_div narrow sub_u
util_owed_of m taker =
    if abs taker.delta_perp == 0
    then ok 0
    else (let side = if is_neg taker.delta_perp then shorts else longs in
        sub_u (on side m.util_payments) (on side taker.last_util_payments) >>= λ growth.
        mul_div (abs taker.delta_perp) growth q96 up >>= narrow)

unfoldable pub taker_health : TakerMarketSnapshot → TakerState → Result TakerHealth
unfolding to_i256 s_full_mul_div narrow add_i usdc_delta sub_i util_owed_of
taker_health m taker = to_i256 m.mark >>= λ mark.
    s_full_mul_div taker.delta_perp mark q96 toward_zero >>= λ perp_val.
    narrow (abs perp_val) >>= λ position_value.
    add_i perp_val taker.delta_usd >>= usdc_delta >>= λ unrealized_pnl.
    sub_i m.funding taker.last_cuml_funding >>= λ since.
    s_full_mul_div taker.delta_perp since q96 up >>= usdc_delta >>= λ funding_owed.
    util_owed_of m taker >>= λ util_owed. ok (record {
      mark = m.mark;
      delta_perp = taker.delta_perp;
      delta_usd = taker.delta_usd;
      margin = taker.margin;
      funding_owed = funding_owed;
      util_owed = util_owed;
      position_value = position_value;
      unrealized_pnl = unrealized_pnl;
      liquidation_margin_ratio = taker.liquidation_margin_ratio;
    })

-- The casts of a count to a signed count wrap as the operators do.
unfoldable pub settled_margin : TakerHealth → ℤ
unfolding wrap_i128
settled_margin h =
    wrap_i128
      (wrap_i128 (wrap_i128 (pos h.margin) -ℤ h.funding_owed) -ℤ wrap_i128 (pos h.util_owed))

unfoldable pub equity : TakerHealth → ℤ
unfolding settled_margin wrap_i128
equity h = wrap_i128 (settled_margin h +ℤ h.unrealized_pnl)

unfoldable pub is_liquidatable : TakerHealth → Bool
unfolding is_healthy equity
is_liquidatable h = not (is_healthy (equity h) h.position_value h.liquidation_margin_ratio)

-- The part of equity that does not move with the mark.
unfoldable pub fixed_part : TakerHealth → ℤ
unfolding settled_margin wrap_i128
fixed_part h = wrap_i128 (settled_margin h +ℤ h.delta_usd)

-- An error is `None`: the question mark after `ok()`.
abbrev pub ok_or_none {ℓ} : {A : Type ℓ} → Result A → Option A
ok_or_none (ok a) = some a
ok_or_none (err e) = none

unfoldable pub liquidation_mark : TakerHealth → Option ℕ
unfolding fixed_part mul_div
liquidation_mark h =
    let fixed = fixed_part h in
    let size = abs h.delta_perp in
    let ratio = h.liquidation_margin_ratio in
    let closed =
      λ (scale : ℕ). ok_or_none (mul_div (abs fixed * one_e6) q96 (size * scale) toward_zero) in
    if size == 0
    then none
    else if not (is_neg h.delta_perp)
    then if leb_ℤ (pos 0) fixed
      then none
      else if leb ratio one_e6
      then closed (one_e6 - ratio)
      else none
    else if leb_ℤ fixed (pos 0)
    then some 0
    else closed (one_e6 + ratio)

unfoldable pub liquidatable_at : TakerHealth → ℕ → Result Bool
unfolding to_i256 s_full_mul_div narrow add_i usdc_delta fixed_part is_healthy
liquidatable_at h mark = to_i256 mark >>= λ m.
    s_full_mul_div h.delta_perp m q96 toward_zero >>= λ perp_val.
    add_i (fixed_part h) perp_val >>= usdc_delta >>= λ equity.
    narrow (abs perp_val) >>= λ value. ok (not (is_healthy equity value h.liquidation_margin_ratio))

unfoldable pub is_liquidatable_at : TakerHealth → ℕ → Option Bool
unfolding liquidatable_at
is_liquidatable_at h mark = ok_or_none (liquidatable_at h mark)

-- The marks below and above; `none` where the search runs out of fuel.
unfoldable pub turn_prices : Bool → Option (Option ℕ) → Option (Option ℕ × Option ℕ)
turn_prices rising none = none
turn_prices rising (some none) = some (none, none)
turn_prices true (some (some turn)) = some (none, some turn)
turn_prices false (some (some turn)) = some (some turn, none)

unfoldable pub liquidation_prices : TakerHealth → Option (Option ℕ × Option ℕ)
unfolding is_liquidatable liquidation_mark first_failing is_liquidatable_at turn_prices
liquidation_prices h =
    let rising = is_neg h.delta_perp in
    if is_liquidatable h then some (some h.mark, some h.mark) else elim (liquidation_mark h) [
      | none ↦ some (none, none)
      | some turn ↦ turn_prices rising (first_failing (is_liquidatable_at h) rising h.mark turn)
    ]
