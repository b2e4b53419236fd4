-- ===== src/Math/Taker/Ends.antt =====
-- The search ends: the widths double, and no test has an answer from 2^255 on.
use perpcity_rust_sdk.Base.{
  ℕ, zero, suc, ◌+◌, ◌*◌, ◌%◌, ◌≤◌, ◌≡◌, ◌≢◌, refl, sym, ap, subst, ◌∙◌, Option, some, none, Bool,
  true, false, ◌==◌, arith, Bool-cases, Option-cases, inl, inr,
}
use perpcity_rust_sdk.Math.FixedPoint.{u256_mod, i256_half}
use perpcity_rust_sdk.Math.Taker.Search.{
  away, toward, gap, gallop_back, gallop_out, bisect, bracket,
}
use perpcity_rust_sdk.Math.Taker.Turn.{power, power_mono, IsBounded, bisect-ne_none}

abbrev top : power 255 ≡ i256_half
top = refl

power_last : (i : ℕ) → i + 0 ≡ 255 → power i ≡ i256_half
power_last i h = let e : i ≡ 255 = omega arith in ap power e ∙ top

double : (i j : ℕ) → i + suc j ≡ 255 → power i * 2 % u256_mod ≡ power (suc i)
double i j h = omega (arith, power_mono (suc i) j 255 (omega arith), top)

module _ (fails : ℕ → Option Bool) (bounded : IsBounded fails) where
  back_last :
      (up : Bool) (mark start failing fuel : ℕ)
      → fails start ≡ some true
      → fails mark ≡ some false
      → gallop_back fails up mark start (suc fuel) i256_half failing ≢ none
  unfolding gallop_back toward
  back_last true mark start failing fuel es em =
      let s = bounded start true es in
      let at : toward true mark start i256_half ≡ mark = omega arith in ground (arith, ap fails at)
  back_last false mark start failing fuel es em =
      let s = bounded mark false em in
      let at : toward false mark start i256_half ≡ mark = omega arith in ground (arith, ap fails at)

  gallop_back-ne_none :
      (up : Bool) (mark start : ℕ)
      → fails start ≡ some true
      → fails mark ≡ some false
      → (j i failing : ℕ) → i + j ≡ 255
      → gallop_back fails up mark start (suc (suc (suc j))) (power i) failing ≢ none
  unfolding gallop_back
  gallop_back-ne_none up mark start es em zero i failing h =
      subst (λ w. gallop_back fails up mark start 3 w failing ≢ none) (sym (power_last i h))
        (back_last up mark start failing 2 es em)
  gallop_back-ne_none up mark start es em (suc j) i failing h =
      let next = toward up mark start (power i) in
      let rest = gallop_back-ne_none up mark start es em j (suc i) next (omega arith) in
      let w = double i j h in
      elim (Option-cases (fails next)) [
        | inl n ↦ ground arith
        | inr (false, q) ↦ ground arith
        | inr (true, q) ↦ ground arith
      ]

  -- The width has wrapped to 0.
  out_wrapped :
      (mark start healthy fuel : ℕ)
      → fails start ≡ some false
      → gallop_out fails false mark start (suc (suc fuel)) 0 healthy ≢ none
  unfolding gallop_out away
  out_wrapped mark start healthy fuel es = elim (Bool-cases (start == healthy)) [
    | inl c ↦ ground arith
    | inr c ↦ ground arith
  ]

  out_last :
      (up : Bool) (mark start healthy fuel : ℕ)
      → fails start ≡ some false
      → gallop_out fails up mark start (suc (suc (suc fuel))) i256_half healthy ≢ none
  unfolding gallop_out away
  out_last true mark start healthy fuel es =
      let next = away true start i256_half in
      let high : i256_half ≤ next = omega arith in
      elim (Bool-cases (next == healthy)) [
        | inl c ↦ ground arith
        | inr c ↦ elim (Option-cases (fails next)) [
          | inl n ↦ ground arith
          | inr (b, q) ↦ let low = bounded next b q in absurd (omega arith)
        ]
      ]
  out_last false mark start healthy fuel es =
      let next = away false start i256_half in
      let wrapped = out_wrapped mark start next fuel es in
      elim (Bool-cases (next == healthy)) [
        | inl c ↦ ground arith
        | inr c ↦ elim (Option-cases (fails next)) [
          | inl n ↦ ground arith
          | inr (true, q) ↦ ground arith
          | inr (false, q) ↦ ground arith
        ]
      ]

  gallop_out-ne_none :
      (up : Bool) (mark start : ℕ)
      → fails start ≡ some false
      → (j i healthy : ℕ) → i + j ≡ 255
      → gallop_out fails up mark start (suc (suc (suc j))) (power i) healthy ≢ none
  unfolding gallop_out
  gallop_out-ne_none up mark start es zero i healthy h =
      subst (λ w. gallop_out fails up mark start 3 w healthy ≢ none) (sym (power_last i h))
        (out_last up mark start healthy zero es)
  gallop_out-ne_none up mark start es (suc j) i healthy h =
      let next = away up start (power i) in
      let rest = gallop_out-ne_none up mark start es j (suc i) next (omega arith) in
      let w = double i j h in
      elim (Bool-cases (next == healthy)) [
        | inl c ↦ ground arith
        | inr c ↦ elim (Option-cases (fails next)) [
          | inl n ↦ ground arith
          | inr (true, q) ↦ ground arith
          | inr (false, q) ↦ ground arith
        ]
      ]

  pub bisect_ends :
      (h f : ℕ) (a b : Bool) → fails h ≡ some a → fails f ≡ some b → bisect fails 257 h f ≢ none
  bisect_ends h f a b eh ef =
      let lh = bounded h a eh in
      let lf = bounded f b ef in
      let near : gap h f ≤ power 255 = grind (arith, top) in
      bisect-ne_none fails 256 h f (omega (arith, near, power_mono 255 1 256 refl))

  pub bracket-ne_none :
      (up : Bool) (mark start : ℕ) → fails mark ≡ some false → bracket fails up mark start ≢ none
  unfolding bracket
  bracket-ne_none up mark start em = elim (Option-cases (fails start)) [
    | inl n ↦ ground arith
    | inr (true, e) ↦
        let back = gallop_back-ne_none up mark start e em 255 0 start refl in ground arith
    | inr (false, e) ↦ let out = gallop_out-ne_none up mark start e 255 0 start refl in ground arith
  ]
