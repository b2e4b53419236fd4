-- ===== src/History/Replay/Position.antt =====
-- One position as the tape shows it: `PositionKind` and `PositionState` of
-- src/history/replay/positions.rs. A signed liquidity is its 128-bit word, as its additions wrap; the
-- token and dollar deltas are integers, bounded by the supply.
pub mod Kinds
pub mod Opened
pub mod Kept
pub mod Split
pub mod Deposit
use perpcity_rust_sdk.Base.{
  ℕ, ◌+◌, ◌-◌, ◌%◌, Bool, true, false, ◌||◌, if◌then◌else◌, Option, some, none, List, [], ◌∷◌,
}
use perpcity_rust_sdk.Base.Int.{ℤ, pos, ◌+ℤ◌}
use perpcity_rust_sdk.Base.Word.{u32_mod, u128_mod}
use perpcity_rust_sdk.History.Fold.{ChainPoint, is_set, set_first, combine_first, combine_latest}

-- A tick range, lower and upper.
abbrev pub TickRange : Type 0
TickRange = ℤ × ℤ

pub record MakerKind : Type 0 where
  pub range : Option TickRange
  pub liquidity : ℕ
  pub sized : Bool
  pub deposit_pool_price : Option ℕ
  pub moved : ℤ
  pub usd : ℤ

pub record TakerKind : Type 0 where
  pub moved : ℤ
  pub usd : ℤ
  pub sized : Bool

pub data PositionKind : Type 0 where
  unknown : PositionKind
  taker : TakerKind → PositionKind
  maker : MakerKind → PositionKind

-- `i128::wrapping_add` on words.
abbrev pub wrapping_add : ℕ → ℕ → ℕ
wrapping_add a b = (a + b) % u128_mod

unfoldable pub combine_kind : PositionKind → PositionKind → Bool → PositionKind
unfolding ◌+ℤ◌
combine_kind kind unknown opened_here = kind
combine_kind unknown (taker t) opened_here = taker t
combine_kind unknown (maker m) opened_here = maker m
combine_kind (taker a) (taker b) opened_here =
    taker (record { moved = a.moved +ℤ b.moved; usd = a.usd +ℤ b.usd; sized = a.sized || b.sized })
combine_kind (maker a) (maker b) opened_here = maker (record {
  range = combine_first a.range b.range;
  liquidity = wrapping_add a.liquidity b.liquidity;
  sized = a.sized || b.sized;
  deposit_pool_price = if opened_here then a.deposit_pool_price else b.deposit_pool_price;
  moved = a.moved +ℤ b.moved;
  usd = a.usd +ℤ b.usd;
})
combine_kind (maker a) (taker b) opened_here =
    taker (record { moved = a.moved +ℤ b.moved; usd = a.usd +ℤ b.usd; sized = a.sized || b.sized })
combine_kind (taker a) (maker b) opened_here =
    taker (record { moved = a.moved +ℤ b.moved; usd = a.usd +ℤ b.usd; sized = a.sized || b.sized })

pub record PositionState : Type 0 where
  pub kind : PositionKind
  pub opened : Option ChainPoint
  pub last : Option ChainPoint
  pub closed : Option ChainPoint
  pub liquidations : ℕ
  pub margin : Option ℕ
  pub unpriced : ℕ

-- `PositionState::first`
unfoldable pub first_seen : ChainPoint → PositionState
first_seen at = record {
  kind = unknown;
  opened = none;
  last = some at;
  closed = none;
  liquidations = 0;
  margin = none;
  unpriced = 0;
}

unfoldable pub swapped_kind : ℤ → ℤ → Bool → PositionKind → PositionKind
unfolding ◌+ℤ◌
swapped_kind perp usd opens (taker t) =
    taker (record { moved = t.moved +ℤ perp; usd = t.usd +ℤ usd; sized = t.sized || opens })
swapped_kind perp usd opens (maker m) =
    taker (record { moved = m.moved +ℤ perp; usd = m.usd +ℤ usd; sized = m.sized || opens })
swapped_kind perp usd opens unknown = taker (record { moved = perp; usd = usd; sized = opens })

unfoldable pub moved_kind : ℤ → ℤ → PositionKind → PositionKind
unfolding ◌+ℤ◌
moved_kind perp usd (taker t) = taker (record t { moved = t.moved +ℤ perp; usd = t.usd +ℤ usd })
moved_kind perp usd (maker m) = maker (record m { moved = m.moved +ℤ perp; usd = m.usd +ℤ usd })
moved_kind perp usd unknown = unknown

abbrev pub empty_maker : MakerKind
empty_maker = record {
  range = none;
  liquidity = 0;
  sized = false;
  deposit_pool_price = none;
  moved = pos 0;
  usd = pos 0;
}

-- The `match` of `liquidity_changed` on the kind.
unfoldable pub changed_kind : Option TickRange → ℕ → PositionKind → PositionKind
changed_kind range delta (maker m) =
    maker
      (record m { range = combine_first m.range range; liquidity = wrapping_add m.liquidity delta })
changed_kind range delta unknown = maker (record empty_maker { range = range; liquidity = delta })
changed_kind range delta (taker t) = taker t

unfoldable pub liquidity_changed :
    Option TickRange → ℕ → Option (ℤ × ℤ) → PositionState → PositionState
unfolding changed_kind moved_kind
liquidity_changed range delta none p = record p {
  kind = changed_kind range delta p.kind;
  unpriced = (p.unpriced + 1) % u32_mod;
}
liquidity_changed range delta (some (perp, usd)) p = record p {
  kind = moved_kind perp usd (changed_kind range delta p.kind);
}

-- `maker_opened` gives a kind to a position that has none, and sizes one that was not open.
unfoldable pub made_kind : PositionKind → PositionKind
made_kind unknown = maker empty_maker
made_kind (maker m) = maker m
made_kind (taker t) = taker t

unfoldable pub sized_kind : Option ℕ → PositionKind → PositionKind
sized_kind pool_price (maker m) = maker (record m { sized = true; deposit_pool_price = pool_price })
sized_kind pool_price (taker t) = taker (record t { sized = true })
sized_kind pool_price unknown = unknown

unfoldable pub opened_kind : Option ChainPoint → Option ℕ → PositionKind → PositionKind
unfolding made_kind sized_kind
opened_kind (some before) pool_price kind = made_kind kind
opened_kind none pool_price kind = sized_kind pool_price (made_kind kind)

unfoldable pub maker_opened : ChainPoint → Option ℕ → PositionState → PositionState
unfolding opened_kind
maker_opened at pool_price p = record p {
  kind = opened_kind p.opened pool_price p.kind;
  opened = set_first at p.opened;
}

-- `deposit_priced_at` gives an open maker without a deposit price the price at the cut.
unfoldable pub priced_kind : Option ChainPoint → Option ℕ → PositionKind → PositionKind
priced_kind (some at) price (maker m) =
    maker (record m { deposit_pool_price = combine_first m.deposit_pool_price price })
priced_kind (some at) price (taker t) = taker t
priced_kind (some at) price unknown = unknown
priced_kind none price kind = kind

unfoldable pub deposit_priced_at : Option ℕ → PositionState → PositionState
unfolding priced_kind
deposit_priced_at price p = record p { kind = priced_kind p.opened price p.kind }

unfoldable pub converted_kind : PositionKind → PositionKind
converted_kind (maker m) = taker (record { moved = m.moved; usd = m.usd; sized = m.sized })
converted_kind unknown = taker (record { moved = pos 0; usd = pos 0; sized = false })
converted_kind (taker t) = taker t

-- `PositionState::combine`
unfoldable pub combine : PositionState → PositionState → PositionState
unfolding combine_kind
combine p later = record {
  kind = combine_kind p.kind later.kind (is_set p.opened);
  opened = combine_first p.opened later.opened;
  last = combine_latest p.last later.last;
  closed = combine_first p.closed later.closed;
  liquidations = (p.liquidations + later.liquidations) % u32_mod;
  margin = later.margin;
  unpriced = (p.unpriced + later.unpriced) % u32_mod;
}

-- `Positions::touch` on the state that it finds.
unfoldable pub touch : ChainPoint → PositionState → PositionState
touch at p = record p { last = some at; margin = none }

-- The events that name a position, with what `Positions::apply` passes on.
pub data Event : Type 0 where
  modify_liquidity : Option TickRange → ℕ → Option (ℤ × ℤ) → Event
  maker_open : Option ℕ → Event
  adjusted : Event
  maker_convert : Bool → Event
  maker_close : Bool → Event
  liquidated : Event
  taker_open taker_adjust : ℤ → ℤ → Event
  taker_close : ℤ → ℤ → Bool → Event

abbrev pub one_if : Bool → ℕ
one_if true = 1
one_if false = 0

unfoldable pub count_liquidation : ℕ → PositionState → PositionState
count_liquidation n p = record p { liquidations = (p.liquidations + n) % u32_mod }

unfoldable pub step : ChainPoint → Event → PositionState → PositionState
unfolding liquidity_changed maker_opened converted_kind swapped_kind count_liquidation
step at (modify_liquidity range delta moves) p = liquidity_changed range delta moves p
step at (maker_open price) p = maker_opened at price p
step at adjusted p = p
step at (maker_convert liquidation) p =
    count_liquidation (one_if liquidation) (record p { kind = converted_kind p.kind })
step at (maker_close liquidation) p =
    count_liquidation (one_if liquidation) (record p { closed = set_first at p.closed })
step at liquidated p = count_liquidation 1 p
step at (taker_open perp usd) p = record p {
  kind = swapped_kind perp usd true p.kind;
  opened = set_first at p.opened;
}
step at (taker_adjust perp usd) p = record p { kind = swapped_kind perp usd false p.kind }
step at (taker_close perp usd liquidation) p =
    count_liquidation (one_if liquidation)
      (record p { kind = swapped_kind perp usd false p.kind; closed = set_first at p.closed })

unfoldable pub apply : ChainPoint × Event → PositionState → PositionState
unfolding step touch
apply (at, event) p = step at event (touch at p)

-- The events of a position in a segment, in order, from the first that names it.
unfoldable pub replay : List (ChainPoint × Event) → PositionState → PositionState
unfolding apply
replay [] p = p
replay (e ∷ es) p = replay es (apply e p)

unfoldable pub replay_first : ChainPoint × Event → List (ChainPoint × Event) → PositionState
unfolding replay first_seen
replay_first e es = replay (e ∷ es) (first_seen e.0)
