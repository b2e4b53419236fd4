-- ===== src/Hft/Positions/Trailing.antt =====
-- Where the anchor of a trailing stop stands after a run of prices, and the level it stops at.
use perpcity_rust_sdk.Base.{
  ◌≡◌, ◌⊎◌, inl, inr, refl, ap, ◌∙◌, subst, some, List, [], ◌∷◌, Bool, false, if◌then◌else◌, arith,
  All, Bool-cases,
}
use perpcity_rust_sdk.Base.Float.{Float, IsOrdered}
use perpcity_rust_sdk.Hft.Positions.{
  trailing_stop, TriggerAction, ManagedPosition, update_anchor, check,
}
use perpcity_rust_sdk.Hft.Positions.Laws.{Fires, Loses, trails, check-Fires}

module _ (fl : Float) where
  open fl use {F, lt, le}

  -- The updates at each price in turn.
  unfoldable pub follow : List F → ManagedPosition F → ManagedPosition F
  follow [] p = p
  follow (q ∷ qs) p = follow qs (update_anchor fl q p)

  -- Whether a price is better than the anchor for the side of the position.
  abbrev pub beats : Bool → F → F → Bool
  beats is_long q anchor = if is_long then lt anchor q else lt q anchor

  abbrev pub Occurs : F → List F → Type 0
  Occurs a [] = ⊥
  Occurs a (q ∷ qs) = (a ≡ q) ⊎ Occurs a qs

  -- A position that trails before and after some prices: the anchor is now the old one or one of the
  -- prices, no price beats it, nor does any price that did not beat the old one.
  record Followed (side : Bool) (qs : List F) (anchor : F) (p r : ManagedPosition F) : Type 0 where
    pub now : F
    pub holds : r.trailing_stop_anchor ≡ some now
    pub pct_same : r.trailing_stop_pct ≡ p.trailing_stop_pct
    pub side_same : r.is_long ≡ p.is_long
    pub kept : (x : F) → beats side x anchor ≡ false → beats side x now ≡ false
    pub seen : (now ≡ anchor) ⊎ Occurs now qs
    pub unbeaten : All (λ q. beats side q now ≡ false) qs

  update_anchor-Followed :
      (o : IsOrdered fl) (side : Bool) (q : F) (p : ManagedPosition F) (pct anchor : F)
      → p.is_long ≡ side
      → p.trailing_stop_pct ≡ some pct
      → p.trailing_stop_anchor ≡ some anchor
      → Followed side (q ∷ []) anchor p (update_anchor fl q p)
  unfolding update_anchor
  update_anchor-Followed o side q p pct anchor hs hp ha = elim (Bool-cases (beats side q anchor)) [
    | inl b ↦ record {
      now = q;
      holds = ground arith;
      pct_same = ground arith;
      side_same = ground arith;
      kept = λ x h. ground (arith, o.lt_trans anchor q x, o.lt_trans x q anchor);
      seen = inr (inl refl);
      unbeaten = (ground (arith, o.lt_irrefl q), tt);
    }
    | inr b ↦ record {
      now = anchor;
      holds = ground arith;
      pct_same = ground arith;
      side_same = ground arith;
      kept = λ x h. h;
      seen = inl refl;
      unbeaten = (b, tt);
    }
  ]

  seen_later :
      (q a m n : F) (qs : List F)
      → (m ≡ a) ⊎ Occurs m (q ∷ [])
      → (n ≡ m) ⊎ Occurs n qs
      → (n ≡ a) ⊎ Occurs n (q ∷ qs)
  seen_later q a m n qs h (inr k) = inr (inr k)
  seen_later q a m n qs (inl h) (inl k) = inl (k ∙ h)
  seen_later q a m n qs (inr (inl h)) (inl k) = inr (inl (k ∙ h))
  seen_later q a m n qs (inr (inr none_left)) (inl k) = elim none_left [ ]

  follow-Followed :
      (o : IsOrdered fl) (side : Bool) (qs : List F) (p : ManagedPosition F) (pct anchor : F)
      → p.is_long ≡ side
      → p.trailing_stop_pct ≡ some pct
      → p.trailing_stop_anchor ≡ some anchor
      → Followed side qs anchor p (follow qs p)
  unfolding follow
  follow-Followed o side [] p pct anchor hs hp ha = record {
    now = anchor;
    holds = ha;
    pct_same = refl;
    side_same = refl;
    kept = λ x h. h;
    seen = inl refl;
    unbeaten = tt;
  }
  follow-Followed o side (q ∷ qs) p pct anchor hs hp ha =
      let m = update_anchor-Followed o side q p pct anchor hs hp ha in
      let n =
        follow-Followed o side qs (update_anchor fl q p) pct m.now (m.side_same ∙ hs)
          (m.pct_same ∙ hp) m.holds in
      record {
        now = n.now;
        holds = n.holds;
        pct_same = n.pct_same ∙ m.pct_same;
        side_same = n.side_same ∙ m.side_same;
        kept = λ x h. n.kept x (m.kept x h);
        seen = seen_later q anchor m.now n.now qs m.seen n.seen;
        unbeaten = (n.kept q m.unbeaten.0, n.unbeaten);
      }

  not_above : (o : IsOrdered fl) (side : Bool) (a : F) → beats side a a ≡ false
  not_above o side a = ground (arith, o.lt_irrefl a)

  -- A position that trails by a share from an anchor follows a run of prices, and then a trailing stop
  -- fires. Its level is that share below, or above for a short, the best price: that is the first
  -- anchor or one of the prices of the run, and neither the first anchor nor a price of the run is
  -- above it for a long or below it for a short. The price it fires at is at the level or past it.
  pub trailing_stop_level :
      (o : IsOrdered fl) (qs : List F) (p : ManagedPosition F) (pct anchor price : F)
      (a : TriggerAction F)
      → p.trailing_stop_pct ≡ some pct
      → p.trailing_stop_anchor ≡ some anchor
      → check fl price (follow qs p) ≡ some a
      → a.trigger_type ≡ trailing_stop
      → (best : F) × (a.trigger_price ≡ trails fl p.is_long best pct)
        × Loses fl price p.is_long a.trigger_price
        × ((best ≡ anchor) ⊎ Occurs best qs)
        × (beats p.is_long anchor best ≡ false)
        × All (λ q. beats p.is_long q best ≡ false) qs
  trailing_stop_level o qs p pct anchor price a hp ha e t =
      let f = follow-Followed o p.is_long qs p pct anchor refl hp ha in
      let fired : Fires fl price (follow qs p) trailing_stop a.trigger_price =
        subst (λ k. Fires fl price (follow qs p) k a.trigger_price) t
          ((check-Fires fl price (follow qs p)).0 a e).2 in
      let (pct', best, ep, eb, level, loses) = fired in
      let same_pct : pct' ≡ pct = cc in
      let same : best ≡ f.now = cc in
      (
        f.now,
        level
            ∙ ap (λ s. trails fl s best pct') f.side_same
            ∙ ap (λ b. trails fl p.is_long b pct') same
            ∙ ap (trails fl p.is_long f.now) same_pct,
        subst (λ s. Loses fl price s a.trigger_price) f.side_same loses,
        f.seen,
        f.kept anchor (not_above o p.is_long anchor),
        f.unbeaten,
      )
