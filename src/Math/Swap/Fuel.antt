-- ===== src/Math/Swap/Fuel.antt =====
-- Why the loop of `PoolSnapshot::simulate` ends: each round uses the amount up, reaches the limit,
-- crosses one of the ticks ahead, or stands at an end of the range, where the next round breaks.
use perpcity_rust_sdk.Base.{
  ℕ, suc, ◌+◌, ◌≡◌, ◌≤◌, ◌<◌, refl, some, none, [], ◌∷◌, Bool, true, false, if◌then◌else◌, length,
  arith, Bool-cases, Option-cases, inl, inr, All,
}
use perpcity_rust_sdk.Base.Int.{ℤ, ◌≤ℤ◌, ◌<ℤ◌, leb_ℤ, ltb_ℤ}
use perpcity_rust_sdk.Math.Tick.{min_tick, max_tick}
use perpcity_rust_sdk.Math.Swap.Ticks.{TickLiquidity, Ticks, get_tick, last_at_most, first_above}

-- The number of ticks that a swap from `tick` can still cross.
abbrev pub ahead : Bool → ℤ → Ticks → ℕ
ahead true tick [] = 0
ahead true tick ((k, info) ∷ ts) = if leb_ℤ k tick then suc (ahead true tick ts) else 0
ahead false tick [] = 0
ahead false tick ((k, info) ∷ ts) = (if ltb_ℤ tick k then 1 else 0) + ahead false tick ts

pub ahead-le_length : (z : Bool) (tick : ℤ) (ts : Ticks) → ahead z tick ts ≤ length ts
ahead-le_length true tick [] = omega arith
ahead-le_length true tick ((k, info) ∷ ts) = ground (arith, ahead-le_length true tick ts)
ahead-le_length false tick [] = omega arith
ahead-le_length false tick ((k, info) ∷ ts) = ground (arith, ahead-le_length false tick ts)

ahead-sell_mono : (a b : ℤ) (ts : Ticks) → a ≤ℤ b → ahead true a ts ≤ ahead true b ts
ahead-sell_mono a b [] h = omega arith
ahead-sell_mono a b ((k, info) ∷ ts) h = ground (arith, ahead-sell_mono a b ts h)

ahead-buy_mono : (a b : ℤ) (ts : Ticks) → a ≤ℤ b → ahead false b ts ≤ ahead false a ts
ahead-buy_mono a b [] h = omega arith
ahead-buy_mono a b ((k, info) ∷ ts) h = ground (arith, ahead-buy_mono a b ts h)

last_at_most-le : (tick : ℤ) (ts : Ticks) (k : ℤ) → last_at_most tick ts ≡ some k → k ≤ℤ tick
unfolding last_at_most
last_at_most-le tick [] k e = cc
last_at_most-le tick ((j, info) ∷ ts) k e =
    ground (arith, last_at_most-le tick ts k, Option-cases (last_at_most tick ts))

pub last_at_most-ahead :
    (tick : ℤ) (ts : Ticks) (k below : ℤ)
    → last_at_most tick ts ≡ some k
    → below <ℤ k
    → ahead true below ts < ahead true tick ts
unfolding last_at_most
last_at_most-ahead tick [] k below e h = cc
last_at_most-ahead tick ((j, info) ∷ ts) k below e h =
    ground (arith, last_at_most-ahead tick ts k below, Option-cases (last_at_most tick ts))

first_above-lt : (tick : ℤ) (ts : Ticks) (k : ℤ) → first_above tick ts ≡ some k → tick <ℤ k
unfolding first_above
first_above-lt tick [] k e = cc
first_above-lt tick ((j, info) ∷ ts) k e = ground (arith, first_above-lt tick ts k)

pub first_above-ahead :
    (tick : ℤ) (ts : Ticks) (k : ℤ)
    → first_above tick ts ≡ some k
    → ahead false k ts < ahead false tick ts
unfolding first_above
first_above-ahead tick [] k e = cc
first_above-ahead tick ((j, info) ∷ ts) k e = elim (Bool-cases (ltb_ℤ tick j)) [
  | inl c ↦ ground (arith, λ (l : tick ≤ℤ k). ahead-buy_mono tick k ts l)
  | inr c ↦ ground (arith, first_above-ahead tick ts k, first_above-lt tick ts k)
]

-- Every initialized tick is strictly inside the range.
abbrev pub Inside : Ticks → Type 0
Inside ts = All (λ (e : ℤ × TickLiquidity). (min_tick <ℤ e.0) × (e.0 <ℤ max_tick)) ts

pub Inside-get_ends :
    (ts : Ticks) → Inside ts → (get_tick min_tick ts ≡ none) × (get_tick max_tick ts ≡ none)
unfolding get_tick
Inside-get_ends [] h = (refl, refl)
Inside-get_ends ((k, info) ∷ ts) ((a, b), h) = ground (arith, Inside-get_ends ts h)

pub Inside-none_below : (ts : Ticks) (t : ℤ) → Inside ts → t <ℤ min_tick → last_at_most t ts ≡ none
unfolding last_at_most
Inside-none_below [] t h l = refl
Inside-none_below ((k, info) ∷ ts) t ((a, b), h) l = ground arith

pub Inside-none_above : (ts : Ticks) → Inside ts → first_above max_tick ts ≡ none
unfolding first_above
Inside-none_above [] h = refl
Inside-none_above ((k, info) ∷ ts) ((a, b), h) = ground (arith, Inside-none_above ts h)
