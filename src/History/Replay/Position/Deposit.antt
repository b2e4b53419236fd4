-- ===== src/History/Replay/Position/Deposit.antt =====
-- An open that a segment saw before any swap of its own, priced at the cut.
use perpcity_rust_sdk.Base.{
  ℕ, ◌≡◌, refl, ap, ◌∙◌, sym, Bool, true, false, Option, some, none, List, [], ◌∷◌, ◌++◌, map, All,
}
use perpcity_rust_sdk.Base.Int.{ℤ}
use perpcity_rust_sdk.History.Fold.{ChainPoint, combine_first, set_first, is_set}
use perpcity_rust_sdk.History.Replay.Position.{
  TickRange, PositionKind, unknown, taker, maker, PositionState, combine, first_seen, touch,
  liquidity_changed, maker_opened, count_liquidation, step, apply, replay, replay_first, Event,
  modify_liquidity, maker_open, adjusted, maker_convert, maker_close, liquidated, taker_open,
  taker_adjust, taker_close, swapped_kind, changed_kind, moved_kind, converted_kind, opened_kind,
  priced_kind, deposit_priced_at,
}
use perpcity_rust_sdk.History.Replay.Position.Kinds.{IsKind}
use perpcity_rust_sdk.History.Replay.Position.Kept.{
  IsPosition, IsEvent, apply-IsPosition, first_seen-IsPosition,
}
use perpcity_rust_sdk.History.Replay.Position.Split.{replay_split}

-- The event with the price that the tape before the cut gives an open without one.
abbrev pub with_price : Option ℕ → Event → Event
with_price price (maker_open known) = maker_open (combine_first known price)
with_price price e = e

abbrev pub all_with_price : Option ℕ → List (ChainPoint × Event) → List (ChainPoint × Event)
all_with_price price es = map (λ e. (e.0, with_price price e.1)) es

priced-swapped_kind :
    (o : Option ChainPoint) (k : PositionKind) (price : Option ℕ) (p u : ℤ) (opens : Bool)
    → priced_kind o price (swapped_kind p u opens k)
      ≡ swapped_kind p u opens (priced_kind o price k)
unfolding priced_kind swapped_kind
priced-swapped_kind none k price p u opens = refl
priced-swapped_kind (some x) unknown price p u opens = refl
priced-swapped_kind (some x) (taker t) price p u opens = refl
priced-swapped_kind (some x) (maker m) price p u opens = refl

priced-taker_open :
    (at : ChainPoint) (o : Option ChainPoint) (k : PositionKind) (price : Option ℕ) (p u : ℤ)
    → priced_kind (set_first at o) price (swapped_kind p u true k)
      ≡ swapped_kind p u true (priced_kind o price k)
unfolding priced_kind swapped_kind
priced-taker_open at none unknown price p u = refl
priced-taker_open at none (taker t) price p u = refl
priced-taker_open at none (maker m) price p u = refl
priced-taker_open at (some x) k price p u = priced-swapped_kind (some x) k price p u true

priced-changed_kind :
    (o : Option ChainPoint) (k : PositionKind) (price : Option ℕ) (range : Option TickRange) (d : ℕ)
    → IsKind (is_set o) k
    → priced_kind o price (changed_kind range d k) ≡ changed_kind range d (priced_kind o price k)
unfolding priced_kind changed_kind
priced-changed_kind none k price range d i = refl
priced-changed_kind (some x) unknown price range d i = absurd cc
priced-changed_kind (some x) (taker t) price range d i = refl
priced-changed_kind (some x) (maker m) price range d i = refl

priced-moved_kind :
    (o : Option ChainPoint) (k : PositionKind) (price : Option ℕ) (p u : ℤ)
    → priced_kind o price (moved_kind p u k) ≡ moved_kind p u (priced_kind o price k)
unfolding priced_kind moved_kind
priced-moved_kind none k price p u = refl
priced-moved_kind (some x) unknown price p u = refl
priced-moved_kind (some x) (taker t) price p u = refl
priced-moved_kind (some x) (maker m) price p u = refl

priced-converted_kind :
    (o : Option ChainPoint) (k : PositionKind) (price : Option ℕ)
    → priced_kind o price (converted_kind k) ≡ converted_kind (priced_kind o price k)
unfolding priced_kind converted_kind
priced-converted_kind none k price = refl
priced-converted_kind (some x) unknown price = refl
priced-converted_kind (some x) (taker t) price = refl
priced-converted_kind (some x) (maker m) price = refl

priced-opened_kind :
    (at : ChainPoint) (o : Option ChainPoint) (k : PositionKind) (price known : Option ℕ)
    → IsKind (is_set o) k
    → priced_kind (set_first at o) price (opened_kind o known k)
      ≡ opened_kind o (combine_first known price) (priced_kind o price k)
unfolding priced_kind opened_kind
priced-opened_kind at none unknown price known i = refl
priced-opened_kind at none (taker t) price known i = refl
priced-opened_kind at none (maker m) price known i = refl
priced-opened_kind at (some x) unknown price known i = absurd cc
priced-opened_kind at (some x) (taker t) price known i = refl
priced-opened_kind at (some x) (maker m) price known i = refl

priced-apply :
    (at : ChainPoint) (e : Event) (p : PositionState) (price : Option ℕ)
    → IsPosition p
    → deposit_priced_at price (apply (at, e) p)
      ≡ apply (at, with_price price e) (deposit_priced_at price p)
unfolding apply touch step deposit_priced_at liquidity_changed maker_opened count_liquidation
priced-apply at (modify_liquidity range d none) p price i =
    ap (λ k. record (apply (at, modify_liquidity range d none) p) { kind = k })
      (priced-changed_kind p.opened p.kind price range d i.kind_ok)
priced-apply at (modify_liquidity range d (some (q, u))) p price i =
    ap (λ k. record (apply (at, modify_liquidity range d (some (q, u))) p) { kind = k })
      (priced-moved_kind p.opened (changed_kind range d p.kind) price q u
        ∙ ap (moved_kind q u) (priced-changed_kind p.opened p.kind price range d i.kind_ok))
priced-apply at (maker_open known) p price i =
    ap (λ k. record (apply (at, maker_open known) p) { kind = k })
      (priced-opened_kind at p.opened p.kind price known i.kind_ok)
priced-apply at adjusted p price i = refl
priced-apply at (maker_convert l) p price i =
    ap (λ k. record (apply (at, maker_convert l) p) { kind = k })
      (priced-converted_kind p.opened p.kind price)
priced-apply at (maker_close l) p price i = refl
priced-apply at liquidated p price i = refl
priced-apply at (taker_open q u) p price i =
    ap (λ k. record (apply (at, taker_open q u) p) { kind = k })
      (priced-taker_open at p.opened p.kind price q u)
priced-apply at (taker_adjust q u) p price i =
    ap (λ k. record (apply (at, taker_adjust q u) p) { kind = k })
      (priced-swapped_kind p.opened p.kind price q u false)
priced-apply at (taker_close q u l) p price i =
    ap (λ k. record (apply (at, taker_close q u l) p) { kind = k })
      (priced-swapped_kind p.opened p.kind price q u false)

priced-replay :
    (es : List (ChainPoint × Event)) (p : PositionState) (price : Option ℕ)
    → All (λ e. IsEvent e.1) es
    → IsPosition p
    → deposit_priced_at price (replay es p)
      ≡ replay (all_with_price price es) (deposit_priced_at price p)
unfolding replay
priced-replay [] p price a i = refl
priced-replay ((at, e) ∷ es) p price (b, a) i =
    priced-replay es (apply (at, e) p) price a (apply-IsPosition at e p b i)
    ∙ ap (replay (all_with_price price es)) (priced-apply at e p price i)

with_price-IsEvent : (price : Option ℕ) (e : Event) → IsEvent e → IsEvent (with_price price e)
with_price-IsEvent price (modify_liquidity range d moves) h = h
with_price-IsEvent price (maker_open known) h = h
with_price-IsEvent price adjusted h = h
with_price-IsEvent price (maker_convert l) h = h
with_price-IsEvent price (maker_close l) h = h
with_price-IsEvent price liquidated h = h
with_price-IsEvent price (taker_open p u) h = h
with_price-IsEvent price (taker_adjust p u) h = h
with_price-IsEvent price (taker_close p u l) h = h

all_with_price-IsEvent :
    (price : Option ℕ) (es : List (ChainPoint × Event))
    → All (λ e. IsEvent e.1) es
    → All (λ e. IsEvent e.1) (all_with_price price es)
all_with_price-IsEvent price [] a = tt
all_with_price-IsEvent price (e ∷ es) (b, a) =
    (with_price-IsEvent price e.1 b, all_with_price-IsEvent price es a)

-- The states of a position in two segments that each name it combine to its state in both: the
-- later is first priced at the cut, which gives each open that it saw without a price the price
-- that the whole tape gives it. The liquidity deltas are words, and the changes come with what
-- they moved.
pub segments_split :
    (x y : ChainPoint × Event) (xs ys : List (ChainPoint × Event)) (price : Option ℕ)
    → All (λ e. IsEvent e.1) (x ∷ xs)
    → All (λ e. IsEvent e.1) (y ∷ ys)
    → replay_first x (xs ++ all_with_price price (y ∷ ys))
      ≡ combine (replay_first x xs) (deposit_priced_at price (replay_first y ys))
unfolding replay_first deposit_priced_at first_seen priced_kind
segments_split x y xs ys price a b =
    let y' : ChainPoint × Event = (y.0, with_price price y.1) in
    let later = priced-replay (y ∷ ys) (first_seen y.0) price b (first_seen-IsPosition y.0) in
    replay_split x y' xs (all_with_price price ys) a (all_with_price-IsEvent price (y ∷ ys) b)
    ∙ ap (combine (replay_first x xs)) (sym later)
