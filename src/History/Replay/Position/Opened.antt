-- ===== src/History/Replay/Position/Opened.antt =====
-- A maker's open, seen by the later of two segments.
use perpcity_rust_sdk.Base.{ℕ, ◌≡◌, refl, Bool, true, false, ◌||◌, Option, some, none, arith}
use perpcity_rust_sdk.History.Fold.{ChainPoint, combine_first, is_set}
use perpcity_rust_sdk.History.Replay.Position.{
  PositionKind, unknown, taker, maker, combine_kind, made_kind, opened_kind,
}
use perpcity_rust_sdk.History.Replay.Position.Kinds.{
  IsKind, plus_zero, or_true, first_none, wrap_zero, taker_eq, maker_eq,
}

or_sized : (a : Bool) → a ≡ true → (b : Bool) → (a || true) ≡ (a || b)
or_sized a h b = ground arith

or_self : (a : Bool) → a ≡ true → (a || true) ≡ a
or_self a h = ground arith

-- The earlier segment has the position open.
opened_before :
    (a b : PositionKind) (x : ChainPoint) (price : Option ℕ)
    → IsKind true a
    → combine_kind a (opened_kind none price b) true ≡ made_kind (combine_kind a b true)
unfolding combine_kind opened_kind
opened_before unknown b x price k = absurd cc
opened_before (taker s) unknown x price k =
    taker_eq (plus_zero s.moved) (plus_zero s.usd) (or_self s.sized (k refl))
opened_before (taker s) (taker t) x price k = taker_eq refl refl (or_sized s.sized (k refl) t.sized)
opened_before (taker s) (maker t) x price k = taker_eq refl refl (or_sized s.sized (k refl) t.sized)
opened_before (maker s) unknown x price (k, d, l) =
    maker_eq (first_none s.range) (wrap_zero s.liquidity l) (or_self s.sized (k refl)) refl
      (plus_zero s.moved) (plus_zero s.usd)
opened_before (maker s) (taker t) x price (k, d, l) =
    taker_eq refl refl (or_sized s.sized (k refl) t.sized)
opened_before (maker s) (maker t) x price (k, d, l) =
    maker_eq refl refl (or_sized s.sized (k refl) t.sized) refl refl refl

-- Neither segment had it open.
opened_now :
    (a b : PositionKind) (price : Option ℕ)
    → IsKind false a
    → combine_kind a (opened_kind none price b) false
      ≡ opened_kind none price (combine_kind a b false)
unfolding combine_kind opened_kind
opened_now unknown unknown price k = refl
opened_now unknown (taker t) price k = refl
opened_now unknown (maker t) price k = refl
opened_now (taker s) unknown price k =
    taker_eq (plus_zero s.moved) (plus_zero s.usd) (or_true s.sized)
opened_now (taker s) (taker t) price k = taker_eq refl refl (or_true s.sized)
opened_now (taker s) (maker t) price k = taker_eq refl refl (or_true s.sized)
opened_now (maker s) unknown price (k, d, l) =
    maker_eq (first_none s.range) (wrap_zero s.liquidity l) (or_true s.sized) refl
      (plus_zero s.moved) (plus_zero s.usd)
opened_now (maker s) (taker t) price k = taker_eq refl refl (or_true s.sized)
opened_now (maker s) (maker t) price k = maker_eq refl refl (or_true s.sized) refl refl refl

-- The later segment has it open.
opened_after :
    (a b : PositionKind) (o : Bool)
    → IsKind true b
    → combine_kind a (made_kind b) o ≡ made_kind (combine_kind a b o)
unfolding combine_kind made_kind
opened_after a unknown o k = absurd cc
opened_after unknown (taker t) o k = refl
opened_after unknown (maker t) o k = refl
opened_after (taker s) (taker t) o k = refl
opened_after (taker s) (maker t) o k = refl
opened_after (maker s) (taker t) o k = refl
opened_after (maker s) (maker t) o k = refl

pub combine_kind-opened_kind :
    (a b : PositionKind) (x y : Option ChainPoint) (price : Option ℕ)
    → IsKind (is_set x) a
    → IsKind (is_set y) b
    → combine_kind a (opened_kind y price b) (is_set x)
      ≡ opened_kind (combine_first x y) price (combine_kind a b (is_set x))
unfolding opened_kind
combine_kind-opened_kind a b none none price k l = opened_now a b price k
combine_kind-opened_kind a b none (some y) price k l = opened_after a b false l
combine_kind-opened_kind a b (some x) none price k l = opened_before a b x price k
combine_kind-opened_kind a b (some x) (some y) price k l = opened_after a b true l
