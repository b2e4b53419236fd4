-- ===== src/Hft/Positions/Tests.antt =====
-- Triggers at prices in thousandths.
use perpcity_rust_sdk.Base.{ℕ, ◌≡◌, ◌⊎◌, refl, some, List, [], ◌∷◌, All, true, false}
use perpcity_rust_sdk.Base.Float.{thousandths, thousandths-IsOrdered}
use perpcity_rust_sdk.Hft.Positions.{
  stop_loss, trailing_stop, TriggerAction, ManagedPosition, check, update_anchor,
}
use perpcity_rust_sdk.Hft.Positions.Laws.{Fires, Quiet, Loses, trails, check-Fires}
use perpcity_rust_sdk.Hft.Positions.Trailing.{follow, beats, Occurs, trailing_stop_level}

abbrev position : ManagedPosition ℕ
position = record {
  perp_id = 4;
  position_id = 11;
  is_long = true;
  entry_price = 50000;
  margin = 1000;
  stop_loss = some 45000;
  take_profit = some 60000;
  trailing_stop_pct = some 50;
  trailing_stop_anchor = some 50000;
}

abbrev stop : TriggerAction ℕ
stop = record { trigger_type = stop_loss; position_id = 11; perp_id = 4; trigger_price = 45000 }

stopped : check thousandths 44000 position ≡ some stop
unfolding check
stopped = refl

check-Fires_example :
    (stop.position_id ≡ 11)
    × (stop.perp_id ≡ 4)
    × Fires thousandths 44000 position stop_loss 45000
    × Quiet thousandths 44000 position stop_loss
check-Fires_example = (check-Fires thousandths 44000 position).0 stop stopped

abbrev prices : List ℕ
prices = 52000 ∷ 51000 ∷ 53000 ∷ []

-- A twentieth below 53, the best of the prices.
abbrev trailed : TriggerAction ℕ
trailed = record {
  trigger_type = trailing_stop;
  position_id = 11;
  perp_id = 4;
  trigger_price = 50350;
}

trailed_run : check thousandths 50000 (follow thousandths prices position) ≡ some trailed
unfolding check follow update_anchor
trailed_run = refl

trailing_stop_level_example :
    (best : ℕ) × (50350 ≡ trails thousandths true best 50)
    × Loses thousandths 50000 true 50350
    × ((best ≡ 50000) ⊎ Occurs thousandths best prices)
    × (beats thousandths true 50000 best ≡ false)
    × All (λ q. beats thousandths true q best ≡ false) prices
trailing_stop_level_example =
    trailing_stop_level thousandths thousandths-IsOrdered prices position 50 50000 50000 trailed
      refl refl trailed_run refl

-- A short's stop trails above its anchor.
abbrev short_position : ManagedPosition ℕ
short_position = record position {
  is_long = false;
  stop_loss = some 55000;
  take_profit = some 40000;
  trailing_stop_anchor = some 48000;
}

short_trailed :
    check thousandths 50500 short_position
    ≡ some (record {
      trigger_type = trailing_stop;
      position_id = 11;
      perp_id = 4;
      trigger_price = 50400;
    })
unfolding check
short_trailed = refl
