-- ===== src/History/Replay/Position/Split.antt =====
-- The states of a position in two segments combine to its state in both.
use perpcity_rust_sdk.Base.{
  ℕ, ◌+◌, ◌%◌, ◌≡◌, refl, ap, ◌∙◌, sym, true, false, Option, some, none, List, [], ◌∷◌, ◌++◌, All,
  arith,
}
use perpcity_rust_sdk.Base.Word.{u32_mod}
use perpcity_rust_sdk.History.Fold.{ChainPoint, combine_first, set_first, is_set}
use perpcity_rust_sdk.History.Replay.Position.{
  PositionKind, PositionState, combine, combine_kind, replay, replay_first, first_seen, touch,
  liquidity_changed, maker_opened, count_liquidation, step, apply, Event, modify_liquidity,
  maker_open, adjusted, maker_convert, maker_close, liquidated, taker_open, taker_adjust,
  taker_close, one_if, changed_kind, moved_kind,
}
use perpcity_rust_sdk.History.Replay.Position.Kinds.{
  combine_kind-swapped_kind, combine_kind-moved_kind, combine_kind-changed_kind,
  combine_kind-converted_kind, changed_kind-IsKnown,
}
use perpcity_rust_sdk.History.Replay.Position.Kept.{
  IsPosition, IsEvent, apply-IsPosition, first_seen-IsPosition,
}
use perpcity_rust_sdk.History.Replay.Position.Opened.{combine_kind-opened_kind}

state_eq :
    {k k' : PositionKind} {o o' l c c' : Option ChainPoint} {n n' : ℕ} {m : Option ℕ} {u u' : ℕ}
    → k ≡ k'
    → o ≡ o'
    → c ≡ c'
    → n ≡ n'
    → u ≡ u'
    → ◌≡◌ {A = PositionState}
        (record {
          kind = k;
          opened = o;
          last = l;
          closed = c;
          liquidations = n;
          margin = m;
          unpriced = u;
        })
        (record {
          kind = k';
          opened = o';
          last = l;
          closed = c';
          liquidations = n';
          margin = m;
          unpriced = u';
        })
state_eq a b c d e = cc

first-set_first :
    (at : ChainPoint) (a b : Option ChainPoint)
    → combine_first a (set_first at b) ≡ set_first at (combine_first a b)
first-set_first at none b = refl
first-set_first at (some x) b = refl

count_assoc : (a b n : ℕ) → (a + (b + n) % u32_mod) % u32_mod ≡ ((a + b) % u32_mod + n) % u32_mod
count_assoc a b n = omega arith

combine-step :
    (at : ChainPoint) (e : Event) (s t : PositionState)
    → IsPosition s
    → IsPosition t
    → combine s (step at e t) ≡ step at e (combine s t)
unfolding combine step liquidity_changed maker_opened count_liquidation
combine-step at (modify_liquidity range d none) s t i j =
    state_eq (combine_kind-changed_kind s.kind t.kind (is_set s.opened) range d i.kind_ok) refl refl
      refl (count_assoc s.unpriced t.unpriced 1)
combine-step at (modify_liquidity range d (some (p, u))) s t i j =
    let o = is_set s.opened in
    state_eq
      (combine_kind-moved_kind s.kind (changed_kind range d t.kind) o p u
          (changed_kind-IsKnown range d t.kind)
        ∙ ap (moved_kind p u) (combine_kind-changed_kind s.kind t.kind o range d i.kind_ok))
      refl refl refl refl
combine-step at (maker_open price) s t i j =
    state_eq (combine_kind-opened_kind s.kind t.kind s.opened t.opened price i.kind_ok j.kind_ok)
      (first-set_first at s.opened t.opened) refl refl refl
combine-step at adjusted s t i j = refl
combine-step at (maker_convert l) s t i j =
    state_eq (combine_kind-converted_kind s.kind t.kind (is_set s.opened)) refl refl
      (count_assoc s.liquidations t.liquidations (one_if l)) refl
combine-step at (maker_close l) s t i j =
    state_eq refl refl (first-set_first at s.closed t.closed)
      (count_assoc s.liquidations t.liquidations (one_if l)) refl
combine-step at liquidated s t i j =
    state_eq refl refl refl (count_assoc s.liquidations t.liquidations 1) refl
combine-step at (taker_open p u) s t i j =
    state_eq (combine_kind-swapped_kind s.kind t.kind (is_set s.opened) true p u)
      (first-set_first at s.opened t.opened) refl refl refl
combine-step at (taker_adjust p u) s t i j =
    state_eq (combine_kind-swapped_kind s.kind t.kind (is_set s.opened) false p u) refl refl refl
      refl
combine-step at (taker_close p u l) s t i j =
    state_eq (combine_kind-swapped_kind s.kind t.kind (is_set s.opened) false p u) refl
      (first-set_first at s.closed t.closed) (count_assoc s.liquidations t.liquidations (one_if l))
      refl

combine-apply :
    (at : ChainPoint) (e : Event) (s t : PositionState)
    → IsPosition s
    → IsPosition t
    → combine s (apply (at, e) t) ≡ apply (at, e) (combine s t)
unfolding apply touch combine
combine-apply at e s t i j = combine-step at e s (touch at t) i (record {
  kind_ok = j.kind_ok;
  liquidations_fit = j.liquidations_fit;
  unpriced_fit = j.unpriced_fit;
})

combine-replay :
    (s t : PositionState) (es : List (ChainPoint × Event))
    → IsPosition s
    → IsPosition t
    → All (λ e. IsEvent e.1) es
    → combine s (replay es t) ≡ replay es (combine s t)
unfolding replay
combine-replay s t [] i j a = refl
combine-replay s t ((at, e) ∷ es) i j (b, a) =
    combine-replay s (apply (at, e) t) es i (apply-IsPosition at e t b j) a
    ∙ ap (replay es) (combine-apply at e s t i j)

replay-IsPosition :
    (es : List (ChainPoint × Event)) (p : PositionState)
    → All (λ e. IsEvent e.1) es
    → IsPosition p
    → IsPosition (replay es p)
unfolding replay
replay-IsPosition [] p a i = i
replay-IsPosition ((at, e) ∷ es) p (b, a) i =
    replay-IsPosition es (apply (at, e) p) a (apply-IsPosition at e p b i)

replay-append :
    (xs ys : List (ChainPoint × Event)) (p : PositionState)
    → replay (xs ++ ys) p ≡ replay ys (replay xs p)
unfolding replay
replay-append [] ys p = refl
replay-append (x ∷ xs) ys p = replay-append xs ys (apply x p)

no_open : (a : Option ChainPoint) → combine_first a none ≡ a
no_open none = refl
no_open (some x) = refl

-- A later segment's first sight of a position adds nothing but its point.
combine-first_seen :
    (s : PositionState) (at : ChainPoint) → IsPosition s → combine s (first_seen at) ≡ touch at s
unfolding combine first_seen touch combine_kind
combine-first_seen s at i =
    state_eq refl (no_open s.opened) (no_open s.closed) (omega (arith, i.liquidations_fit))
      (omega (arith, i.unpriced_fit))

-- The states of a position in two segments combine to its state in both.
pub replay_split :
    (x y : ChainPoint × Event) (xs ys : List (ChainPoint × Event))
    → All (λ e. IsEvent e.1) (x ∷ xs)
    → All (λ e. IsEvent e.1) (y ∷ ys)
    → replay_first x (xs ++ (y ∷ ys)) ≡ combine (replay_first x xs) (replay_first y ys)
unfolding replay_first
replay_split x y xs ys a b =
    let p = replay (x ∷ xs) (first_seen x.0) in
    let i = replay-IsPosition (x ∷ xs) (first_seen x.0) a (first_seen-IsPosition x.0) in
    replay-append (x ∷ xs) (y ∷ ys) (first_seen x.0)
    ∙ ap (replay (y ∷ ys)) (sym (combine-first_seen p y.0 i))
    ∙ sym (combine-replay p (first_seen y.0) (y ∷ ys) i (first_seen-IsPosition y.0) b)
