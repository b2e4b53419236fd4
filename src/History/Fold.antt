-- ===== src/History/Fold.antt =====
-- The folds of a tape and their shapes: src/history/fold/mod.rs and shapes.rs.
pub mod Law
use perpcity_rust_sdk.Base.{
  ℕ, ◌+◌, ◌%◌, Bool, true, false, ltb, leb, ◌==◌, ◌||◌, ◌&&◌, if◌then◌else◌, Option, some, none,
  List, [], ◌∷◌,
}
use perpcity_rust_sdk.Base.Word.{u32_mod}

pub record ChainPoint : Type 0 where
  pub block : ℕ
  pub log_index : ℕ

-- The derived order compares the block, then the log index.
unfoldable pub at_or_before : ChainPoint → ChainPoint → Bool
at_or_before a b = ltb a.block b.block || ((a.block == b.block) && leb a.log_index b.log_index)

-- `Latest` and `First` hold an option.
module _ {A : Type 0} where
  abbrev pub is_set : Option A → Bool
  is_set none = false
  is_set (some a) = true

  abbrev pub combine_latest : Option A → Option A → Option A
  combine_latest mine none = mine
  combine_latest mine (some a) = some a

  abbrev pub set_first : A → Option A → Option A
  set_first a none = some a
  set_first a (some before) = some before

  abbrev pub combine_first : Option A → Option A → Option A
  combine_first none later = later
  combine_first (some a) later = some a

-- The operations of a fold over events `E`.
pub record Fold (E S : Type 0) : Type 0 where
  pub default : S
  pub apply : E → S → S
  pub combine : S → S → S

module _ {E S : Type 0} where
  -- `apply` over events, in order.
  abbrev pub run : Fold E S → S → List E → S
  run f s [] = s
  run f s (e ∷ es) = run f (f.apply e s) es

  abbrev pub fold : Fold E S → List E → S
  fold f es = run f f.default es

-- A fold behind the chain-order guard.
pub record Sequenced (S : Type 0) : Type 0 where
  pub inner : S
  pub last : Option ChainPoint
  pub refused : ℕ

module _ {E S : Type 0} (point : E → ChainPoint) (f : Fold E S) where
  -- Whether an event comes at or before the fold's point.
  abbrev pub is_refused : E → Option ChainPoint → Bool
  is_refused e none = false
  is_refused e (some last) = at_or_before (point e) last

  unfoldable pub accept : E → Sequenced S → Sequenced S
  unfolding at_or_before
  accept e s =
      if is_refused e s.last
      then record s { refused = (s.refused + 1) % u32_mod }
      else record { inner = f.apply e s.inner; last = some (point e); refused = s.refused }

  -- `Sequenced<F>` is a fold.
  abbrev pub sequenced : Fold E (Sequenced S)
  sequenced = record {
    default = record { inner = f.default; last = none; refused = 0 };
    apply = accept;
    combine = λ s later. record {
      inner = f.combine s.inner later.inner;
      last = combine_latest s.last later.last;
      refused = (s.refused + later.refused) % u32_mod;
    };
  }
