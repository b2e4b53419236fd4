-- ===== src/Hft/Positions.antt =====
-- Triggers of managed positions: src/hft/position_manager.rs. The map of positions is a dictionary,
-- whose order stands for the iteration order; prices are a dictionary by perp.
pub mod Laws
pub mod Trailing
mod Tests
use perpcity_rust_sdk.Base.{
  ℕ, ◌+◌, ◌≡◌, Option, some, none, List, [], ◌∷◌, ◌++◌, Bool, true, false, if◌then◌else◌, length,
}
use perpcity_rust_sdk.Base.Dict.{Dict, lookup, insert, erase}
use perpcity_rust_sdk.Base.Float.{Float}

pub data TriggerType : Type 0 where
  stop_loss take_profit trailing_stop : TriggerType

pub record TriggerAction (F : Type 0) : Type 0 where
  pub trigger_type : TriggerType
  pub position_id : ℕ
  pub perp_id : ℕ
  pub trigger_price : F

pub record ManagedPosition (F : Type 0) : Type 0 where
  pub perp_id : ℕ
  pub position_id : ℕ
  pub is_long : Bool
  pub entry_price : F
  pub margin : F
  pub stop_loss : Option F
  pub take_profit : Option F
  pub trailing_stop_pct : Option F
  pub trailing_stop_anchor : Option F

pub record PositionManager (F : Type 0) : Type 0 where
  pub positions : Dict (ManagedPosition F)

module _ (fl : Float) where
  open fl use {F, lt, le, add, sub, mul, lit}

  unfoldable pub update_anchor : F → ManagedPosition F → ManagedPosition F
  update_anchor current_price p = elim p.trailing_stop_pct [
    | none ↦ p
    | some pct ↦ elim p.trailing_stop_anchor [
      | none ↦ record p { trailing_stop_anchor = some current_price }
      | some anchor ↦
          let should_update =
            if p.is_long then lt anchor current_price else lt current_price anchor in
          if should_update then record p { trailing_stop_anchor = some current_price } else p
    ]
  ]

  unfoldable pub trailing_stop_price : ManagedPosition F → Option F
  trailing_stop_price p = elim p.trailing_stop_pct [
    | none ↦ none
    | some pct ↦ elim p.trailing_stop_anchor [
      | none ↦ none
      | some anchor ↦
          if p.is_long
          then some (mul anchor (sub (lit 1 0) pct))
          else some (mul anchor (add (lit 1 0) pct))
    ]
  ]

  -- A stop below a long's price or above a short's, and a target the other way round.
  abbrev pub stop_hit : Bool → F → F → Bool
  stop_hit is_long price level = if is_long then le price level else le level price

  abbrev pub target_hit : Bool → F → F → Bool
  target_hit is_long price level = if is_long then le level price else le price level

  abbrev action : ManagedPosition F → TriggerType → F → TriggerAction F
  action p t price = record {
    trigger_type = t;
    position_id = p.position_id;
    perp_id = p.perp_id;
    trigger_price = price;
  }

  -- The three stages of `check`, the last first.
  unfoldable pub check_trailing : F → ManagedPosition F → Option (TriggerAction F)
  unfolding trailing_stop_price
  check_trailing price p = elim (trailing_stop_price p) [
    | none ↦ none
    | some ts ↦ if stop_hit p.is_long price ts then some (action p trailing_stop ts) else none
  ]

  unfoldable pub check_target : F → ManagedPosition F → Option (TriggerAction F)
  unfolding check_trailing
  check_target price p = elim p.take_profit [
    | none ↦ check_trailing price p
    | some tp ↦
        if target_hit p.is_long price tp
        then some (action p take_profit tp)
        else check_trailing price p
  ]

  unfoldable pub check : F → ManagedPosition F → Option (TriggerAction F)
  unfolding check_target
  check price p = elim p.stop_loss [
    | none ↦ check_target price p
    | some sl ↦
        if stop_hit p.is_long price sl then some (action p stop_loss sl) else check_target price p
  ]

  unfoldable pub new : PositionManager F
  new = record { positions = [] }

  unfoldable pub track : ManagedPosition F → PositionManager F → PositionManager F
  track p m = record { positions = insert p.position_id p m.positions }

  unfoldable pub untrack : ℕ → PositionManager F → Bool × PositionManager F
  untrack id m = (
    elim (lookup id m.positions) [ none ↦ false | some p ↦ true ],
    record { positions = erase id m.positions },
  )

  unfoldable pub get : ℕ → PositionManager F → Option (ManagedPosition F)
  get id m = lookup id m.positions

  -- The loop of `check_triggers_into` over the values of the map.
  unfoldable pub check_all :
      Dict F
      → Dict (ManagedPosition F)
      → List (TriggerAction F)
      → List (TriggerAction F) × Dict (ManagedPosition F)
  unfolding update_anchor check
  check_all prices [] out = (out, [])
  check_all prices ((id, p) ∷ ps) out = elim (lookup p.perp_id prices) [
    | none ↦ let (o, qs) = check_all prices ps out in (o, (id, p) ∷ qs)
    | some current_price ↦
        let p' = update_anchor current_price p in
        let out' : List (TriggerAction F) = elim (check current_price p') [
          | none ↦ out
          | some a ↦ out ++ a ∷ []
        ] in
        let (o, qs) = check_all prices ps out' in (o, (id, p') ∷ qs)
  ]

  unfoldable pub check_triggers_into :
      Dict F
      → PositionManager F
      → List (TriggerAction F)
      → List (TriggerAction F) × PositionManager F
  unfolding check_all
  check_triggers_into prices m out =
      let (o, ps) = check_all prices m.positions out in (o, record { positions = ps })

  unfoldable pub check_triggers :
      Dict F → PositionManager F → List (TriggerAction F) × PositionManager F
  unfolding check_triggers_into
  check_triggers prices m = check_triggers_into prices m []

  unfoldable pub count : PositionManager F → ℕ
  count m = length m.positions
