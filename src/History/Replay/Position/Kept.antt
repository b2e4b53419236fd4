-- ===== src/History/Replay/Position/Kept.antt =====
-- What a position keeps through its events.
use perpcity_rust_sdk.Base.{ℕ, ◌<◌, ◌≡◌, refl, Bool, true, false, ◌||◌, Option, some, none, arith}
use perpcity_rust_sdk.Base.Int.{ℤ}
use perpcity_rust_sdk.Base.Word.{u32_mod, u128_mod}
use perpcity_rust_sdk.History.Fold.{ChainPoint, set_first, is_set}
use perpcity_rust_sdk.History.Replay.Position.{
  TickRange, PositionKind, unknown, taker, maker, PositionState, first_seen, touch,
  liquidity_changed, maker_opened, count_liquidation, step, apply, Event, modify_liquidity,
  maker_open, adjusted, maker_convert, maker_close, liquidated, taker_open, taker_adjust,
  taker_close, swapped_kind, changed_kind, moved_kind, converted_kind, opened_kind,
}
use perpcity_rust_sdk.History.Replay.Position.Kinds.{IsKind}

pub record IsPosition (p : PositionState) : Type 0 where
  pub kind_ok : IsKind (is_set p.opened) p.kind
  pub liquidations_fit : p.liquidations < u32_mod
  pub unpriced_fit : p.unpriced < u32_mod

-- A liquidity delta is a word.
abbrev pub IsEvent : Event → Type 0
IsEvent (modify_liquidity range d moves) = d < u128_mod
IsEvent _ = Unit

or_left : (o a b : Bool) → (o ≡ true → a ≡ true) → o ≡ true → (a || b) ≡ true
or_left o a b h e = let s = h e in ground arith

or_right : (a : Bool) → (a || true) ≡ true
or_right a = ground arith

swapped_kind-IsKind :
    (p u : ℤ) (opens : Bool) (o : Bool) (k : PositionKind)
    → IsKind o k
    → IsKind o (swapped_kind p u opens k)
unfolding swapped_kind
swapped_kind-IsKind p u opens o unknown h = λ e. absurd cc
swapped_kind-IsKind p u opens o (taker t) h = λ e. or_left o t.sized opens h e
swapped_kind-IsKind p u opens o (maker t) (h, d, l) = λ e. or_left o t.sized opens h e

taker_open-IsKind : (p u : ℤ) (o : Bool) (k : PositionKind) → IsKind o (swapped_kind p u true k)
unfolding swapped_kind
taker_open-IsKind p u o unknown = λ e. refl
taker_open-IsKind p u o (taker t) = λ e. or_right t.sized
taker_open-IsKind p u o (maker t) = λ e. or_right t.sized

changed_kind-IsKind :
    (range : Option TickRange) (d : ℕ) (o : Bool) (k : PositionKind)
    → d < u128_mod
    → IsKind o k
    → IsKind o (changed_kind range d k)
unfolding changed_kind
changed_kind-IsKind range d o unknown b h = ((λ e. absurd cc), (λ e. refl), b)
changed_kind-IsKind range d o (taker t) b h = h
changed_kind-IsKind range d o (maker t) b (h, e, l) = (h, e, (omega arith))

moved_kind-IsKind :
    (p u : ℤ) (o : Bool) (k : PositionKind) → IsKind o k → IsKind o (moved_kind p u k)
unfolding moved_kind
moved_kind-IsKind p u o unknown h = h
moved_kind-IsKind p u o (taker t) h = h
moved_kind-IsKind p u o (maker t) h = h

converted_kind-IsKind : (o : Bool) (k : PositionKind) → IsKind o k → IsKind o (converted_kind k)
unfolding converted_kind
converted_kind-IsKind o unknown h = λ e. absurd cc
converted_kind-IsKind o (taker t) h = h
converted_kind-IsKind o (maker t) (h, d, l) = h

opened_kind-IsKind :
    (at : ChainPoint) (x : Option ChainPoint) (price : Option ℕ) (k : PositionKind)
    → IsKind (is_set x) k
    → IsKind (is_set (set_first at x)) (opened_kind x price k)
unfolding opened_kind
opened_kind-IsKind at none price unknown h = ((λ e. refl), (λ e. absurd cc), (omega arith))
opened_kind-IsKind at none price (taker t) h = λ e. refl
opened_kind-IsKind at none price (maker m) (h, d, l) = ((λ e. refl), (λ e. absurd cc), l)
opened_kind-IsKind at (some x) price unknown h = absurd cc
opened_kind-IsKind at (some x) price (taker t) h = h
opened_kind-IsKind at (some x) price (maker m) h = h

pub first_seen-IsPosition : (at : ChainPoint) → IsPosition (first_seen at)
unfolding first_seen
first_seen-IsPosition at = record {
  kind_ok = refl;
  liquidations_fit = omega arith;
  unpriced_fit = omega arith;
}

pub apply-IsPosition :
    (at : ChainPoint) (e : Event) (p : PositionState)
    → IsEvent e
    → IsPosition p
    → IsPosition (apply (at, e) p)
unfolding apply step liquidity_changed maker_opened count_liquidation touch
apply-IsPosition at (modify_liquidity range d none) p b i = record {
  kind_ok = changed_kind-IsKind range d (is_set p.opened) p.kind b i.kind_ok;
  liquidations_fit = i.liquidations_fit;
  unpriced_fit = omega arith;
}
apply-IsPosition at (modify_liquidity range d (some (q, u))) p b i = record {
  kind_ok =
      moved_kind-IsKind q u (is_set p.opened) (changed_kind range d p.kind)
        (changed_kind-IsKind range d (is_set p.opened) p.kind b i.kind_ok);
  liquidations_fit = i.liquidations_fit;
  unpriced_fit = i.unpriced_fit;
}
apply-IsPosition at (maker_open price) p b i = record {
  kind_ok = opened_kind-IsKind at p.opened price p.kind i.kind_ok;
  liquidations_fit = i.liquidations_fit;
  unpriced_fit = i.unpriced_fit;
}
apply-IsPosition at adjusted p b i = record {
  kind_ok = i.kind_ok;
  liquidations_fit = i.liquidations_fit;
  unpriced_fit = i.unpriced_fit;
}
apply-IsPosition at (maker_convert l) p b i = record {
  kind_ok = converted_kind-IsKind (is_set p.opened) p.kind i.kind_ok;
  liquidations_fit = omega arith;
  unpriced_fit = i.unpriced_fit;
}
apply-IsPosition at (maker_close l) p b i = record {
  kind_ok = i.kind_ok;
  liquidations_fit = omega arith;
  unpriced_fit = i.unpriced_fit;
}
apply-IsPosition at liquidated p b i = record {
  kind_ok = i.kind_ok;
  liquidations_fit = omega arith;
  unpriced_fit = i.unpriced_fit;
}
apply-IsPosition at (taker_open q u) p b i = record {
  kind_ok = taker_open-IsKind q u (is_set (set_first at p.opened)) p.kind;
  liquidations_fit = i.liquidations_fit;
  unpriced_fit = i.unpriced_fit;
}
apply-IsPosition at (taker_adjust q u) p b i = record {
  kind_ok = swapped_kind-IsKind q u false (is_set p.opened) p.kind i.kind_ok;
  liquidations_fit = i.liquidations_fit;
  unpriced_fit = i.unpriced_fit;
}
apply-IsPosition at (taker_close q u l) p b i = record {
  kind_ok = swapped_kind-IsKind q u false (is_set p.opened) p.kind i.kind_ok;
  liquidations_fit = omega arith;
  unpriced_fit = i.unpriced_fit;
}
