-- ===== src/Hft/Positions/Laws.antt =====
-- When a trigger fires, and what one pass over the positions does.
use perpcity_rust_sdk.Base.{
  ◌≡◌, ◌↔◌, refl, sym, ap, ◌∙◌, some, none, List, [], ◌∷◌, ◌++◌, Bool, true, false, if◌then◌else◌,
  arith, Option-cases, inl, inr,
}
use mathlib.Core.List.{append-nil, append_assoc}
use perpcity_rust_sdk.Base.Dict.{Dict, lookup}
use perpcity_rust_sdk.Base.Float.{Float}
use perpcity_rust_sdk.Hft.Positions.{
  TriggerType, stop_loss, take_profit, trailing_stop, TriggerAction, ManagedPosition,
  PositionManager, update_anchor, trailing_stop_price, check, stop_hit, target_hit, check_all,
  check_triggers_into,
}

module _ (fl : Float) where
  open fl use {F, lt, le, add, sub, mul, lit}

  -- The price is at or past a level, on the losing and on the winning side of a position.
  abbrev pub Loses : F → Bool → F → Type 0
  Loses price true level = le price level ≡ true
  Loses price false level = le level price ≡ true

  abbrev pub Wins : F → Bool → F → Type 0
  Wins price true level = le level price ≡ true
  Wins price false level = le price level ≡ true

  -- A long's stop trails its anchor from below, a short's from above, by a share of the anchor.
  abbrev pub trails : Bool → F → F → F
  trails true anchor pct = mul anchor (sub (lit 1 0) pct)
  trails false anchor pct = mul anchor (add (lit 1 0) pct)

  -- The trigger of a type is set at a level and the price has reached it.
  abbrev pub Fires : F → ManagedPosition F → TriggerType → F → Type 0
  Fires price p stop_loss level = (p.stop_loss ≡ some level) × Loses price p.is_long level
  Fires price p take_profit level = (p.take_profit ≡ some level) × Wins price p.is_long level
  Fires price p trailing_stop level =
      (pct anchor : F) × (p.trailing_stop_pct ≡ some pct)
      × (p.trailing_stop_anchor ≡ some anchor)
      × (level ≡ trails p.is_long anchor pct)
      × Loses price p.is_long level

  -- The types that are looked at before a type.
  abbrev pub Quiet : F → ManagedPosition F → TriggerType → Type 0
  Quiet price p stop_loss = Unit
  Quiet price p take_profit = (level : F) → ¬ (Fires price p stop_loss level)
  Quiet price p trailing_stop =
      ((level : F) → ¬ (Fires price p stop_loss level))
      × ((level : F) → ¬ (Fires price p take_profit level))

  -- What the code tests for a trigger of a type.
  abbrev Tested : F → ManagedPosition F → TriggerType → F → Type 0
  Tested price p stop_loss level =
      (p.stop_loss ≡ some level) × (stop_hit fl p.is_long price level ≡ true)
  Tested price p take_profit level =
      (p.take_profit ≡ some level) × (target_hit fl p.is_long price level ≡ true)
  Tested price p trailing_stop level =
      (trailing_stop_price fl p ≡ some level) × (stop_hit fl p.is_long price level ≡ true)

  Loses-iff :
      (side : Bool) (price level : F)
      → Loses price side level ↔ (stop_hit fl side price level ≡ true)
  Loses-iff true price level = (λ h. h, λ h. h)
  Loses-iff false price level = (λ h. h, λ h. h)

  Wins-iff :
      (side : Bool) (price level : F)
      → Wins price side level ↔ (target_hit fl side price level ≡ true)
  Wins-iff true price level = (λ h. h, λ h. h)
  Wins-iff false price level = (λ h. h, λ h. h)

  level-trails :
      (side : Bool) (pct anchor : F)
      → (if side then mul anchor (sub (lit 1 0) pct) else mul anchor (add (lit 1 0) pct))
        ≡ trails side anchor pct
  level-trails true pct anchor = refl
  level-trails false pct anchor = refl

  trailing_stop_price-eq :
      (p : ManagedPosition F) (pct anchor : F)
      → p.trailing_stop_pct ≡ some pct
      → p.trailing_stop_anchor ≡ some anchor
      → trailing_stop_price fl p ≡ some (trails p.is_long anchor pct)
  unfolding trailing_stop_price
  trailing_stop_price-eq p pct anchor h k =
      let e = level-trails p.is_long pct anchor in ground arith

  trailing_stop_price-inv :
      (p : ManagedPosition F) (level : F)
      → trailing_stop_price fl p ≡ some level
      → (pct anchor : F) × (p.trailing_stop_pct ≡ some pct)
        × (p.trailing_stop_anchor ≡ some anchor)
        × (level ≡ trails p.is_long anchor pct)
  unfolding trailing_stop_price
  trailing_stop_price-inv p level e = elim (Option-cases p.trailing_stop_pct) [
    | inl h ↦ ground arith
    | inr (pct, h) ↦ elim (Option-cases p.trailing_stop_anchor) [
      | inl k ↦ ground arith
      | inr (anchor, k) ↦
          let l = level-trails p.is_long pct anchor in (pct, anchor, h, k, ground arith)
    ]
  ]

  Fires-Tested :
      (price : F) (p : ManagedPosition F) (t : TriggerType) (level : F)
      → Fires price p t level ↔ Tested price p t level
  Fires-Tested price p stop_loss level =
      let (to, from) = Loses-iff p.is_long price level in
      (λ (e, h). (e, to h), λ (e, h). (e, from h))
  Fires-Tested price p take_profit level =
      let (to, from) = Wins-iff p.is_long price level in
      (λ (e, h). (e, to h), λ (e, h). (e, from h))
  Fires-Tested price p trailing_stop level =
      let (to, from) = Loses-iff p.is_long price level in
      (
        λ (pct, anchor, h, k, e, l).
            (trailing_stop_price-eq p pct anchor h k ∙ ap some (sym e), to l),
        λ (e, h).
            let (pct, anchor, q, k, l) = trailing_stop_price-inv p level e in
            (pct, anchor, q, k, l, from h),
      )

  -- No trigger of a type fires, at whatever level.
  refutes :
      (price : F) (p : ManagedPosition F) (t : TriggerType)
      → ((level : F) → ¬ (Tested price p t level))
      → (level : F) → ¬ (Fires price p t level)
  refutes price p t h level f = h level ((Fires-Tested price p t level).0 f)

  -- An action that `check` returns is for this position, its trigger fires at the action's price, and
  -- no trigger of a higher priority fires; where it returns nothing, no trigger fires at all.
  pub check-Fires :
      (price : F) (p : ManagedPosition F)
      → ((a : TriggerAction F)
          → check fl price p ≡ some a
          → (a.position_id ≡ p.position_id)
            × (a.perp_id ≡ p.perp_id)
            × Fires price p a.trigger_type a.trigger_price
            × Quiet price p a.trigger_type)
        × (check fl price p ≡ none → (t : TriggerType) (level : F) → ¬ (Fires price p t level))
  unfolding check
  check-Fires price p = (fired, quiet)
    where
      cause :
          (a : TriggerAction F) (t : TriggerType)
          → check fl price p ≡ some a
          → a.trigger_type ≡ t
          → Fires price p t a.trigger_price × Quiet price p t
      cause a stop_loss h e =
          ((Fires-Tested price p stop_loss a.trigger_price).1 (ground arith, ground arith), tt)
      cause a take_profit h e = (
        (Fires-Tested price p take_profit a.trigger_price).1 (ground arith, ground arith),
        refutes price p stop_loss (λ level f. ground arith),
      )
      cause a trailing_stop h e = (
        (Fires-Tested price p trailing_stop a.trigger_price).1 (ground arith, ground arith),
        (
          refutes price p stop_loss (λ level f. ground arith),
          refutes price p take_profit (λ level f. ground arith),
        ),
      )

      fired :
          (a : TriggerAction F)
          → check fl price p ≡ some a
          → (a.position_id ≡ p.position_id)
            × (a.perp_id ≡ p.perp_id)
            × Fires price p a.trigger_type a.trigger_price
            × Quiet price p a.trigger_type
      fired a h = let (f, q) = cause a a.trigger_type h refl in (ground arith, ground arith, f, q)

      quiet : check fl price p ≡ none → (t : TriggerType) (level : F) → ¬ (Fires price p t level)
      quiet h stop_loss level f = refutes price p stop_loss (λ l g. ground arith) level f
      quiet h take_profit level f = refutes price p take_profit (λ l g. ground arith) level f
      quiet h trailing_stop level f = refutes price p trailing_stop (λ l g. ground arith) level f

  -- A pass over the positions, without the accumulator.
  abbrev pub actions : Dict F → Dict (ManagedPosition F) → List (TriggerAction F)
  actions prices [] = []
  actions prices ((id, p) ∷ ps) = elim (lookup p.perp_id prices) [
    | none ↦ actions prices ps
    | some q ↦ elim (check fl q (update_anchor fl q p)) [
      | none ↦ actions prices ps
      | some a ↦ a ∷ actions prices ps
    ]
  ]

  abbrev pub anchored : Dict F → Dict (ManagedPosition F) → Dict (ManagedPosition F)
  anchored prices [] = []
  anchored prices ((id, p) ∷ ps) = elim (lookup p.perp_id prices) [
    | none ↦ (id, p) ∷ anchored prices ps
    | some q ↦ (id, update_anchor fl q p) ∷ anchored prices ps
  ]

  check_all-eq :
      (prices : Dict F) (ps : Dict (ManagedPosition F)) (out : List (TriggerAction F))
      → check_all fl prices ps out ≡ (out ++ actions prices ps, anchored prices ps)
  unfolding check_all
  check_all-eq prices [] out = ap (λ o. (o, [])) (sym (append-nil out))
  check_all-eq prices ((id, p) ∷ ps) out = elim (Option-cases (lookup p.perp_id prices)) [
    | inl e ↦ rw (e, check_all, actions, anchored) (rw (check_all-eq prices ps out))
    | inr (q, e) ↦ elim (Option-cases (check fl q (update_anchor fl q p))) [
      | inl c ↦ rw (e, check_all, actions, anchored) (rw c (rw (check_all-eq prices ps out)))
      | inr (a, c) ↦
          rw (e, check_all, actions, anchored)
            (rw c (rw (check_all-eq prices ps (out ++ a ∷ [])) (rw append_assoc)))
    ]
  ]

  -- One pass appends, to what the caller's buffer held, the action of each position whose perp has a
  -- price, in the map's order; it moves the anchors of those positions and changes no other.
  pub check_triggers_into-eq :
      (prices : Dict F) (m : PositionManager F) (out : List (TriggerAction F))
      → check_triggers_into fl prices m out
        ≡ (out ++ actions prices m.positions, record { positions = anchored prices m.positions })
  unfolding check_triggers_into
  check_triggers_into-eq prices m out = rw (check_all-eq prices m.positions out)
