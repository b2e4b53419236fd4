-- ===== src/Math/Taker/Search.antt =====
-- The search of `TakerHealth::first_failing` over any test: a gallop that brackets the turn, then a
-- bisection. A test is `none` where the source's question mark returns; a search is `none` where its
-- fuel runs out, and otherwise what the method returns.
use perpcity_rust_sdk.Base.{
  ℕ, zero, suc, ◌+◌, ◌-◌, ◌*◌, ◌/◌, ◌%◌, min, max, Option, some, none, Bool, true, false, ltb, leb,
  ◌==◌, if◌then◌else◌,
}
use perpcity_rust_sdk.Math.FixedPoint.{u256_mod}

abbrev pub saturating_add : ℕ → ℕ → ℕ
saturating_add a b = min (a + b) (u256_mod - 1)

unfoldable pub away : Bool → ℕ → ℕ → ℕ
away true x width = saturating_add x width
away false x width = x - width

unfoldable pub toward : Bool → ℕ → ℕ → ℕ → ℕ
toward true mark x width = max (x - width) mark
toward false mark x width = min (saturating_add x width) mark

-- `abs_diff`
abbrev pub gap : ℕ → ℕ → ℕ
gap a b = if leb a b then b - a else a - b

-- A pair of a healthy mark and a failing one.
abbrev pub Bracket : Type 0
Bracket = Option (ℕ × ℕ)

module _ (fails : ℕ → Option Bool) (up : Bool) (mark start : ℕ) where
  -- From a start that fails, towards the mark.
  unfoldable pub gallop_back : ℕ → ℕ → ℕ → Option Bracket
  gallop_back zero width failing = none
  gallop_back (suc fuel) width failing =
      let next = toward up mark start width in
      elim (fails next) [
        | none ↦ some none
        | some false ↦ some (some (next, failing))
        | some true ↦ gallop_back fuel (width * 2 % u256_mod) next
      ]

  -- From a healthy start, away from the mark.
  unfoldable pub gallop_out : ℕ → ℕ → ℕ → Option Bracket
  gallop_out zero width healthy = none
  gallop_out (suc fuel) width healthy =
      let next = away up start width in
      elim (next == healthy) [
        | true ↦ some none
        | false ↦ elim (fails next) [
          | none ↦ some none
          | some true ↦ some (some (healthy, next))
          | some false ↦ gallop_out fuel (width * 2 % u256_mod) next
        ]
      ]

module _ (fails : ℕ → Option Bool) where
  unfoldable pub bisect : ℕ → ℕ → ℕ → Option (Option ℕ)
  bisect zero healthy failing = none
  bisect (suc fuel) healthy failing = elim (ltb 1 (gap healthy failing)) [
    | false ↦ some (some failing)
    | true ↦
        let mid = min healthy failing + gap healthy failing / 2 in
        elim (fails mid) [
          | none ↦ some none
          | some true ↦ bisect fuel healthy mid
          | some false ↦ bisect fuel mid failing
        ]
  ]

  unfoldable pub start_of : Bool → ℕ → ℕ → ℕ
  start_of true mark turn = max turn (saturating_add mark 1)
  start_of false mark turn = min turn (mark - 1)

  -- Enough fuel: the widths double, so that 258 rounds pass every mark that has a test.
  unfoldable pub bracket : Bool → ℕ → ℕ → Option Bracket
  unfolding gallop_back gallop_out
  bracket up mark start = elim (fails start) [
    | none ↦ some none
    | some true ↦ gallop_back fails up mark start 258 1 start
    | some false ↦ gallop_out fails up mark start 258 1 start
  ]

  unfoldable pub first_failing : Bool → ℕ → ℕ → Option (Option ℕ)
  unfolding start_of bracket bisect
  first_failing up mark turn = elim (bracket up mark (start_of up mark turn)) [
    | none ↦ none
    | some none ↦ some none
    | some (some (healthy, failing)) ↦ bisect 257 healthy failing
  ]
