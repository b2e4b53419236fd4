-- ===== src/History/Replay/Position/Kinds.antt =====
-- Kinds of two segments combine: an event seen by the later is an event seen by both.
use perpcity_rust_sdk.Base.{
  ℕ, ◌<◌, ◌≡◌, refl, sym, Bool, true, false, ◌||◌, if◌then◌else◌, Option, some, none, arith,
}
use perpcity_rust_sdk.Base.Int.{ℤ, pos, ◌+ℤ◌, int_laws}
use perpcity_rust_sdk.Base.Word.{u128_mod}
use perpcity_rust_sdk.History.Fold.{combine_first}
use perpcity_rust_sdk.History.Replay.Position.{
  TickRange, PositionKind, unknown, taker, maker, wrapping_add, combine_kind, swapped_kind,
  moved_kind, changed_kind, converted_kind,
}

-- What a kind owes: an open one is known and sized, and a maker that is not open has no deposit price.
abbrev pub IsKind : Bool → PositionKind → Type 0
IsKind opened unknown = opened ≡ false
IsKind opened (taker t) = opened ≡ true → t.sized ≡ true
IsKind opened (maker m) =
    (opened ≡ true → m.sized ≡ true)
    × (opened ≡ false → m.deposit_pool_price ≡ none)
    × (m.liquidity < u128_mod)

plus_assoc : (a b c : ℤ) → a +ℤ (b +ℤ c) ≡ a +ℤ b +ℤ c
plus_assoc a b c = grind int_laws

pub plus_zero : (a : ℤ) → a +ℤ pos 0 ≡ a
plus_zero a = grind int_laws

or_assoc : (a b c : Bool) → (a || (b || c)) ≡ ((a || b) || c)
or_assoc a b c = ground arith

or_false : (a : Bool) → (a || false) ≡ a
or_false a = ground arith

pub or_true : (a : Bool) → (a || true) ≡ true
or_true a = ground arith

first_assoc :
    (a b c : Option TickRange)
    → combine_first a (combine_first b c) ≡ combine_first (combine_first a b) c
first_assoc none b c = refl
first_assoc (some r) b c = refl

pub first_none : (a : Option TickRange) → combine_first a none ≡ a
first_none none = refl
first_none (some r) = refl

wrap_assoc : (a b c : ℕ) → wrapping_add a (wrapping_add b c) ≡ wrapping_add (wrapping_add a b) c
wrap_assoc a b c = omega arith

pub wrap_zero : (a : ℕ) → a < u128_mod → wrapping_add a 0 ≡ a
wrap_zero a h = omega arith

pub taker_eq :
    {m m' u u' : ℤ} {s s' : Bool}
    → m ≡ m'
    → u ≡ u'
    → s ≡ s'
    → taker (record { moved = m; usd = u; sized = s })
      ≡ taker (record { moved = m'; usd = u'; sized = s' })
taker_eq a b c = cc

pub maker_eq :
    {r r' : Option TickRange} {l l' : ℕ} {s s' : Bool} {d d' : Option ℕ} {m m' u u' : ℤ}
    → r ≡ r'
    → l ≡ l'
    → s ≡ s'
    → d ≡ d'
    → m ≡ m'
    → u ≡ u'
    → maker
        (record { range = r; liquidity = l; sized = s; deposit_pool_price = d; moved = m; usd = u })
      ≡ maker (record {
        range = r';
        liquidity = l';
        sized = s';
        deposit_pool_price = d';
        moved = m';
        usd = u';
      })
maker_eq a b c d e f = cc

pub combine_kind-swapped_kind :
    (a b : PositionKind) (o opens : Bool) (p u : ℤ)
    → combine_kind a (swapped_kind p u opens b) o ≡ swapped_kind p u opens (combine_kind a b o)
unfolding combine_kind swapped_kind
combine_kind-swapped_kind unknown unknown o opens p u = refl
combine_kind-swapped_kind unknown (taker t) o opens p u = refl
combine_kind-swapped_kind unknown (maker m) o opens p u = refl
combine_kind-swapped_kind (taker s) unknown o opens p u = refl
combine_kind-swapped_kind (maker s) unknown o opens p u = refl
combine_kind-swapped_kind (taker s) (taker t) o opens p u =
    taker_eq (plus_assoc s.moved t.moved p) (plus_assoc s.usd t.usd u)
      (or_assoc s.sized t.sized opens)
combine_kind-swapped_kind (taker s) (maker t) o opens p u =
    taker_eq (plus_assoc s.moved t.moved p) (plus_assoc s.usd t.usd u)
      (or_assoc s.sized t.sized opens)
combine_kind-swapped_kind (maker s) (taker t) o opens p u =
    taker_eq (plus_assoc s.moved t.moved p) (plus_assoc s.usd t.usd u)
      (or_assoc s.sized t.sized opens)
combine_kind-swapped_kind (maker s) (maker t) o opens p u =
    taker_eq (plus_assoc s.moved t.moved p) (plus_assoc s.usd t.usd u)
      (or_assoc s.sized t.sized opens)

abbrev pub IsKnown : PositionKind → Type 0
IsKnown unknown = ⊥
IsKnown (taker t) = Unit
IsKnown (maker m) = Unit

pub changed_kind-IsKnown :
    (range : Option TickRange) (d : ℕ) (b : PositionKind) → IsKnown (changed_kind range d b)
unfolding changed_kind
changed_kind-IsKnown range d unknown = tt
changed_kind-IsKnown range d (taker t) = tt
changed_kind-IsKnown range d (maker m) = tt

pub combine_kind-moved_kind :
    (a b : PositionKind) (o : Bool) (p u : ℤ)
    → IsKnown b
    → combine_kind a (moved_kind p u b) o ≡ moved_kind p u (combine_kind a b o)
unfolding combine_kind moved_kind
combine_kind-moved_kind a unknown o p u h = absurd h
combine_kind-moved_kind unknown (taker t) o p u h = refl
combine_kind-moved_kind unknown (maker t) o p u h = refl
combine_kind-moved_kind (taker s) (taker t) o p u h =
    taker_eq (plus_assoc s.moved t.moved p) (plus_assoc s.usd t.usd u) refl
combine_kind-moved_kind (taker s) (maker t) o p u h =
    taker_eq (plus_assoc s.moved t.moved p) (plus_assoc s.usd t.usd u) refl
combine_kind-moved_kind (maker s) (taker t) o p u h =
    taker_eq (plus_assoc s.moved t.moved p) (plus_assoc s.usd t.usd u) refl
combine_kind-moved_kind (maker s) (maker t) o p u h =
    maker_eq refl refl refl refl (plus_assoc s.moved t.moved p) (plus_assoc s.usd t.usd u)

if_same : (o : Bool) (d : Option ℕ) → (o ≡ false → d ≡ none) → (if o then d else none) ≡ d
if_same true d h = refl
if_same false d h = sym (h refl)

pub combine_kind-changed_kind :
    (a b : PositionKind) (o : Bool) (range : Option TickRange) (d : ℕ)
    → IsKind o a
    → combine_kind a (changed_kind range d b) o ≡ changed_kind range d (combine_kind a b o)
unfolding combine_kind changed_kind
combine_kind-changed_kind unknown unknown o range d k = refl
combine_kind-changed_kind unknown (taker t) o range d k = refl
combine_kind-changed_kind unknown (maker t) o range d k = refl
combine_kind-changed_kind (taker s) unknown o range d k =
    taker_eq (plus_zero s.moved) (plus_zero s.usd) (or_false s.sized)
combine_kind-changed_kind (taker s) (taker t) o range d k = refl
combine_kind-changed_kind (taker s) (maker t) o range d k = refl
combine_kind-changed_kind (maker s) unknown o range d (k, i, j) =
    maker_eq refl refl (or_false s.sized) (if_same o s.deposit_pool_price i) (plus_zero s.moved)
      (plus_zero s.usd)
combine_kind-changed_kind (maker s) (taker t) o range d k = refl
combine_kind-changed_kind (maker s) (maker t) o range d k =
    maker_eq (first_assoc s.range t.range range) (wrap_assoc s.liquidity t.liquidity d) refl refl
      refl refl

pub combine_kind-converted_kind :
    (a b : PositionKind) (o : Bool)
    → combine_kind a (converted_kind b) o ≡ converted_kind (combine_kind a b o)
unfolding combine_kind converted_kind
combine_kind-converted_kind unknown unknown o = refl
combine_kind-converted_kind unknown (taker t) o = refl
combine_kind-converted_kind unknown (maker t) o = refl
combine_kind-converted_kind (taker s) unknown o =
    taker_eq (plus_zero s.moved) (plus_zero s.usd) (or_false s.sized)
combine_kind-converted_kind (taker s) (taker t) o = refl
combine_kind-converted_kind (taker s) (maker t) o = refl
combine_kind-converted_kind (maker s) unknown o =
    taker_eq (plus_zero s.moved) (plus_zero s.usd) (or_false s.sized)
combine_kind-converted_kind (maker s) (taker t) o = refl
combine_kind-converted_kind (maker s) (maker t) o = refl
