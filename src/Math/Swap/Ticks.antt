-- ===== src/Math/Swap/Ticks.antt =====
-- The initialized ticks of a pool, and liquidity changes on them.
use perpcity_rust_sdk.Base.{
  ℕ, ◌+◌, ◌-◌, Option, some, none, List, [], ◌∷◌, Bool, true, false, ltb, leb, ◌==◌, ◌&&◌,
  if◌then◌else◌,
}
use perpcity_rust_sdk.Base.Int.{ℤ, pos, negsuc, ◌+ℤ◌, neg, ltb_ℤ, leb_ℤ, eq_ℤ, pos_part, neg_part}
use perpcity_rust_sdk.Base.Result.{Result, ok, err, overflow, ◌>>=◌}
use perpcity_rust_sdk.Base.Word.{u128_mod}
use perpcity_rust_sdk.Math.Amounts.{i128_half}

pub record TickLiquidity : Type 0 where
  pub gross : ℕ
  pub net : ℤ

abbrev pub Ticks : Type 0
Ticks = List (ℤ × TickLiquidity)

-- `LUnits::checked_add_signed`
unfoldable pub checked_add_signed : ℕ → ℤ → Result ℕ
checked_add_signed units (pos d) = if ltb (units + d) u128_mod then ok (units + d) else err overflow
checked_add_signed units (negsuc d) =
    if leb (d + 1) units then ok (units - (d + 1)) else err overflow

-- Whether an integer is an i128.
abbrev pub fits_i128 : ℤ → Bool
fits_i128 a = ltb (pos_part a) i128_half && leb (neg_part a) i128_half

-- `LDelta::negated` and `LDelta::checked_add`
unfoldable pub negated : ℤ → Result ℤ
negated d = if fits_i128 (neg d) then ok (neg d) else err overflow

unfoldable pub checked_add : ℤ → ℤ → Result ℤ
checked_add a b = if fits_i128 (a +ℤ b) then ok (a +ℤ b) else err overflow

unfoldable pub get_tick : ℤ → Ticks → Option TickLiquidity
get_tick t [] = none
get_tick t ((k, info) ∷ ts) = if eq_ℤ t k then some info else get_tick t ts

-- `range(..=tick).next_back()`: the last key that is at most the tick.
unfoldable pub last_at_most : ℤ → Ticks → Option ℤ
last_at_most tick [] = none
last_at_most tick ((k, info) ∷ ts) =
    if leb_ℤ k tick then elim (last_at_most tick ts) [ none ↦ some k | some j ↦ some j ] else none

-- `range(tick+1..).next()`: the first key above the tick.
unfoldable pub first_above : ℤ → Ticks → Option ℤ
first_above tick [] = none
first_above tick ((k, info) ∷ ts) = if ltb_ℤ tick k then some k else first_above tick ts

-- `BTreeMap::insert` at the place that the order gives.
unfoldable pub put_tick : ℤ → TickLiquidity → Ticks → Ticks
put_tick t info [] = (t, info) ∷ []
put_tick t info ((k, old) ∷ ts) =
    if ltb_ℤ t k
    then (t, info) ∷ (k, old) ∷ ts
    else (if eq_ℤ t k then (t, info) ∷ ts else (k, old) ∷ put_tick t info ts)

unfoldable pub remove_tick : ℤ → Ticks → Ticks
remove_tick t [] = []
remove_tick t ((k, old) ∷ ts) = if eq_ℤ t k then ts else (k, old) ∷ remove_tick t ts

abbrev pub empty_tick : TickLiquidity
empty_tick = record { gross = 0; net = pos 0 }

-- On an error the caller drops the map that it was changing.
unfoldable pub apply_tick_delta : Ticks → ℤ → ℤ → ℤ → Result Ticks
unfolding checked_add checked_add_signed
apply_tick_delta ticks tick net_delta gross_delta =
    let entry : TickLiquidity = elim (get_tick tick ticks) [
      | none ↦ empty_tick
      | some info ↦ info
    ] in
    checked_add entry.net net_delta >>= λ net.
    checked_add_signed entry.gross gross_delta >>= λ gross.
    let info : TickLiquidity = record { gross = gross; net = net } in
    ok (if gross == 0 then remove_tick tick ticks else put_tick tick info ticks)

-- The fold of `active_liquidity` over the ticks at most `tick`.
unfoldable pub active_from : ℕ → ℤ → Ticks → Result ℕ
active_from active tick [] = ok active
active_from active tick ((k, info) ∷ ts) = elim (leb_ℤ k tick) [
  | true ↦ checked_add_signed active info.net >>= λ a. active_from a tick ts
  | false ↦ ok active
]

unfoldable pub active_liquidity : Ticks → ℤ → Result ℕ
unfolding active_from
active_liquidity ticks tick = active_from 0 tick ticks
