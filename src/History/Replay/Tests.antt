-- ===== src/History/Replay/Tests.antt =====
-- A maker opened in one segment and converted in the next, and the market's rates across a cut.
use perpcity_rust_sdk.Base.{ℕ, ◌*◌, ◌≡◌, refl, true, some, none, List, [], ◌∷◌, ◌++◌, arith}
use perpcity_rust_sdk.Base.Int.{pos, negsuc, ◌+ℤ◌}
use perpcity_rust_sdk.History.Fold.{ChainPoint, fold, accept, sequenced}
use perpcity_rust_sdk.History.Fold.Law.{sequenced-fold-append}
use perpcity_rust_sdk.History.Tape.{
  TapeEvent, MarketEvent, rates_and_emas_refreshed, module_set, fees, point,
}
use perpcity_rust_sdk.History.Replay.Market.{rates, modules}
use perpcity_rust_sdk.History.Replay.Market.Split.{rates_split, rates-IsFold}
use perpcity_rust_sdk.History.Replay.Position.{
  Event, modify_liquidity, maker_open, maker_convert, taker_adjust, combine, replay_first, taker,
  maker, deposit_priced_at,
}
use perpcity_rust_sdk.History.Replay.Position.Deposit.{segments_split}

abbrev at : ℕ → ChainPoint
at block = record { block = block; log_index = 3 }

abbrev deposit : ChainPoint × Event
deposit = (at 10, modify_liquidity (some (negsuc 59, pos 60)) 500 (some (negsuc 6, pos 0)))

abbrev opening : List (ChainPoint × Event)
opening = (at 10, maker_open (some 7)) ∷ []

abbrev conversion : ChainPoint × Event
conversion = (at 20, maker_convert true)

abbrev rest : List (ChainPoint × Event)
rest = (at 21, taker_adjust (pos 9) (pos 4)) ∷ []

ends_a_taker :
    (replay_first deposit (opening ++ (conversion ∷ rest))).kind
    ≡ taker (record { moved = pos 2; usd = pos 4; sized = true })
unfolding replay_first ◌+ℤ◌
ends_a_taker = refl

-- An open that its segment saw before any swap, priced at 7 at the cut.
abbrev unpriced_open : ChainPoint × Event
unpriced_open = (at 20, maker_open none)

priced_at_cut :
    (combine
      (replay_first deposit [])
      (deposit_priced_at (some 7) (replay_first unpriced_open []))).kind
    ≡ maker (record {
      range = some (negsuc 59, pos 60);
      liquidity = 500;
      sized = true;
      deposit_pool_price = some 7;
      moved = negsuc 6;
      usd = pos 0;
    })
unfolding replay_first combine deposit_priced_at ◌+ℤ◌
priced_at_cut = refl

abbrev unpriced_open_priced : ChainPoint × Event
unpriced_open_priced = (at 20, maker_open (some 7))

segments_split_example :
    replay_first deposit (opening ++ (unpriced_open_priced ∷ conversion ∷ rest))
    ≡ combine
        (replay_first deposit opening)
        (deposit_priced_at (some 7) (replay_first unpriced_open (conversion ∷ rest)))
segments_split_example =
    segments_split deposit unpriced_open opening (conversion ∷ rest) (some 7)
      (omega arith, (tt, tt)) (tt, (tt, (tt, tt)))

abbrev stamped : ℕ → MarketEvent → TapeEvent
stamped block e = record {
  block_number = block;
  block_hash = 1;
  log_index = 0;
  timestamp = block * 2;
  tx_hash = block;
  event = e;
}

abbrev refresh : ℕ → TapeEvent
refresh block =
    stamped block (rates_and_emas_refreshed (pos block) (record { long = 1; short = 2 }) 5 6 7)

abbrev first_rows : List TapeEvent
first_rows = refresh 10 ∷ stamped 11 (module_set fees 77) ∷ refresh 9 ∷ []

abbrev later_rows : List TapeEvent
later_rows = refresh 12 ∷ refresh 12 ∷ []

counted : (fold (sequenced point rates) (first_rows ++ later_rows)).refused ≡ 2
unfolding rates point accept
counted = refl

rates_split_example :
    (fold (sequenced point rates) (first_rows ++ later_rows)
      ≡ (sequenced point rates).combine
          (fold (sequenced point rates) first_rows)
          (fold (sequenced point rates) later_rows))
    × (fold (sequenced point modules) (first_rows ++ later_rows)
        ≡ (sequenced point modules).combine
            (fold (sequenced point modules) first_rows)
            (fold (sequenced point modules) later_rows))
unfolding accept point
rates_split_example = rates_split first_rows later_rows refl refl

sequenced-fold-append_example :
    fold (sequenced point rates) (first_rows ++ later_rows)
    ≡ (sequenced point rates).combine
        (fold (sequenced point rates) first_rows)
        (fold (sequenced point rates) later_rows)
unfolding accept point
sequenced-fold-append_example =
    sequenced-fold-append point rates rates-IsFold first_rows later_rows refl
