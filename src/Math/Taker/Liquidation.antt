-- ===== src/Math/Taker/Liquidation.antt =====
-- What `liquidation_prices` answers.
use perpcity_rust_sdk.Base.{
  ℕ, suc, ◌+◌, ◌-◌, ◌*◌, ◌≤◌, ◌<◌, ◌≡◌, ◌≢◌, refl, sym, ap, subst, ◌∙◌, Option, some, none, Bool,
  true, false, leb, ◌==◌, arith, Bool-cases, Option-cases, inl, inr,
}
use perpcity_rust_sdk.Base.Int.{ℤ, pos, negsuc, ◌+ℤ◌, abs, pos_part, neg_part, is_neg, leb_ℤ}
use perpcity_rust_sdk.Base.Result.{ok, ◌>>=◌}
use perpcity_rust_sdk.Math.FixedPoint.{
  toward_zero, s_full_mul_div, mul_div, to_i256, round_div, u512_to_u256, add_i,
}
use perpcity_rust_sdk.Math.Amounts.{q96}
use perpcity_rust_sdk.Math.Taker.{
  TakerHealth, is_liquidatable, fixed_part, liquidatable_at, is_liquidatable_at, liquidation_mark,
  liquidation_prices, turn_prices, one_e6, ok_or_none, is_healthy, usdc_delta,
}
use perpcity_rust_sdk.Math.Taker.Search.{first_failing}
use perpcity_rust_sdk.Math.Taker.First.{Before, first_failing-ends, first_failing-first}
use perpcity_rust_sdk.Math.Taker.Health.{is_liquidatable_at-IsBounded, value_of, signed_value}
use perpcity_rust_sdk.Math.Taker.Prices.{Turns, fails_iff, is_liquidatable_at-IsMonotone, long_part}

liquidation_mark-Turns : (h : TakerHealth) (turn : ℕ) → liquidation_mark h ≡ some turn → Turns h
unfolding liquidation_mark
liquidation_mark-Turns h turn e = elim (Bool-cases (is_neg h.delta_perp)) [
  | inl c ↦ inl c
  | inr c ↦ elim (Bool-cases (leb h.liquidation_margin_ratio one_e6)) [
    | inl k ↦ inr (ground arith)
    | inr k ↦ absurd (ground arith)
  ]
]

turn_prices-ne_none :
    (b : Bool) (found : Option (Option ℕ)) → found ≢ none → turn_prices b found ≢ none
unfolding turn_prices
turn_prices-ne_none b none ends e = ends refl
turn_prices-ne_none b (some none) ends e = cc
turn_prices-ne_none true (some (some r)) ends e = cc
turn_prices-ne_none false (some (some r)) ends e = cc

-- The answer with one turn, on the side of the position.
abbrev pub one_turn : Bool → ℕ → Option ℕ × Option ℕ
one_turn true r = (none, some r)
one_turn false r = (some r, none)

turn_prices-turn :
    (b : Bool) (found : Option (Option ℕ)) (r : ℕ)
    → turn_prices b found ≡ some (one_turn b r)
    → found ≡ some (some r)
unfolding turn_prices
turn_prices-turn b none r e = cc
turn_prices-turn true (some none) r e = ground arith
turn_prices-turn false (some none) r e = ground arith
turn_prices-turn true (some (some x)) r e = ground arith
turn_prices-turn false (some (some x)) r e = ground arith

one_turn-ne : (b : Bool) (r : ℕ) → one_turn b r ≢ (none, none)
one_turn-ne true r e = ground arith
one_turn-ne false r e = ground arith

-- For a position that passes the test at its mark, the search for its liquidation price ends
-- within the fuel of the model.
pub liquidation_prices-ends :
    (h : TakerHealth) → is_liquidatable_at h h.mark ≡ some false → liquidation_prices h ≢ none
unfolding liquidation_prices
liquidation_prices-ends h healthy = elim (Bool-cases (is_liquidatable h)) [
  | inl c ↦ ground arith
  | inr c ↦ elim (Option-cases (liquidation_mark h)) [
    | inl n ↦ ground arith
    | inr (turn, e) ↦
        let search = first_failing (is_liquidatable_at h) (is_neg h.delta_perp) h.mark turn in
        let ends = turn_prices-ne_none (is_neg h.delta_perp) search (
          first_failing-ends (is_liquidatable_at h) (is_neg h.delta_perp) h.mark turn
            (is_liquidatable_at-IsBounded h) healthy) in
        ground arith
  ]
]

-- A position that is not liquidatable, with a liquidation price above for a short and below for a
-- long: the test fails at that price, and at no price before it on the way out.
pub liquidation_prices-first :
    (h : TakerHealth) (r : ℕ)
    → is_liquidatable h ≡ false
    → liquidation_prices h ≡ some (one_turn (is_neg h.delta_perp) r)
    → (is_liquidatable_at h r ≡ some true)
      × ((x : ℕ) → Before (is_neg h.delta_perp) x r → is_liquidatable_at h x ≢ some true)
unfolding liquidation_prices
liquidation_prices-first h r c e = elim (Option-cases (liquidation_mark h)) [
  | inl n ↦ let no = one_turn-ne (is_neg h.delta_perp) r in absurd (no (ground arith))
  | inr (turn, q) ↦
      let search = first_failing (is_liquidatable_at h) (is_neg h.delta_perp) h.mark turn in
      let found = turn_prices-turn (is_neg h.delta_perp) search r (ground arith) in
      first_failing-first (is_liquidatable_at h) (is_neg h.delta_perp) h.mark turn r
        (is_liquidatable_at-IsMonotone h (liquidation_mark-Turns h turn q)) found
]

covered_passes : (n p r v : ℕ) → n ≡ 0 → 1 ≤ p → r ≤ one_e6 → r * (v + 1) ≤ (p + v - n) * one_e6
covered_passes n p r v hn hp hr =
    let dear : r * (v + 1) ≤ one_e6 * (v + 1) = grind arith in omega arith

-- A long whose settled margin exceeds its USD leg, with a ratio of at most 100%, has no
-- liquidation mark, and no mark at all at which the test fails.
pub covered_long :
    (h : TakerHealth) (f mark : ℕ)
    → is_neg h.delta_perp ≡ false
    → fixed_part h ≡ pos (suc f)
    → h.liquidation_margin_ratio ≤ one_e6
    → (liquidation_mark h ≡ none) × (is_liquidatable_at h mark ≢ some true)
unfolding liquidation_mark
covered_long h f mark long e small = (
  elim (Bool-cases (abs h.delta_perp == 0)) [
    | inl c ↦ ground arith
    | inr c ↦
        let covered : leb_ℤ (pos 0) (fixed_part h) ≡ true =
          subst (λ z. leb_ℤ (pos 0) z ≡ true) (sym e) (ground arith) in
        ground arith
  ],
  λ k.
      let v = value_of h mark in
      let part =
        ap (λ b. pos_part (fixed_part h +ℤ signed_value b v)) long ∙ long_part (fixed_part h) v in
      let p = ap pos_part e in
      let n = ap neg_part e in
      let passes =
        covered_passes (neg_part (fixed_part h)) (pos_part (fixed_part h))
          h.liquidation_margin_ratio v n (omega arith) small in
      let no =
        (fails_iff h mark true k).1
          (subst (λ x. h.liquidation_margin_ratio * (v + 1) ≤ x * one_e6) (sym part) passes) in
      absurd (ground arith),
)

worthless : (p : ℤ) → is_neg p ≡ false → s_full_mul_div p (pos 0) q96 toward_zero ≡ ok (pos 0)
unfolding s_full_mul_div mul_div to_i256 round_div u512_to_u256
worthless (pos n) h = ground arith
worthless (negsuc n) h = absurd (ground arith)

unhealthy : (r : ℕ) → 0 < r → is_healthy (pos 0) 0 r ≡ false
unfolding is_healthy
unhealthy r h = ground arith

liquidatable_at-zero :
    (h : TakerHealth)
    → is_neg h.delta_perp ≡ false
    → fixed_part h ≡ pos 0
    → 0 < h.liquidation_margin_ratio
    → liquidatable_at h 0 ≡ ok true
unfolding liquidatable_at ◌+ℤ◌
liquidatable_at-zero h long e some_ratio =
    let value = worthless h.delta_perp long in
    let equity = subst (λ z. (add_i z (pos 0) >>= usdc_delta) ≡ ok (pos 0)) (sym e) refl in
    let fails = unhealthy h.liquidation_margin_ratio some_ratio in ground arith

-- A long whose settled margin is just its USD leg, with a ratio above 0, has no liquidation mark
-- either, and yet the test fails at the mark 0.
pub just_covered_long :
    (h : TakerHealth)
    → is_neg h.delta_perp ≡ false
    → fixed_part h ≡ pos 0
    → 0 < h.liquidation_margin_ratio
    → (liquidation_mark h ≡ none) × (is_liquidatable_at h 0 ≡ some true)
unfolding liquidation_mark is_liquidatable_at
just_covered_long h long e some_ratio = (
  elim (Bool-cases (abs h.delta_perp == 0)) [
    | inl c ↦ ground arith
    | inr c ↦
        let covered : leb_ℤ (pos 0) (fixed_part h) ≡ true =
          subst (λ z. leb_ℤ (pos 0) z ≡ true) (sym e) refl in
        ground arith
  ],
  ap ok_or_none (liquidatable_at-zero h long e some_ratio),
)
