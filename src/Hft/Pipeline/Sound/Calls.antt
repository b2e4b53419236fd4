-- ===== src/Hft/Pipeline/Sound/Calls.antt =====
-- Every call of the pipeline keeps soundness.
use perpcity_rust_sdk.Base.{ℕ, ◌+◌, ◌<◌, ◌≡◌, refl, some, none, List, [], ◌∷◌, true, arith, length}
use perpcity_rust_sdk.Base.Dict.{Dict, lookup, insert-IsMap, erase-IsMap}
use perpcity_rust_sdk.Base.Word.{u64_mod}
use perpcity_rust_sdk.Hft.Gas.{FeeCache}
use perpcity_rust_sdk.Hft.Pipeline.{
  TxRequest, PreparedTx, InFlightTx, ok, prepare, record_submission, resolve, fail,
  abandon_prepared, mark_desynced_prepared, mark_desynced, can_resync, resync_nonce,
}
use perpcity_rust_sdk.Hft.Pipeline.World.{World, times, without, flying, next_nonce}
use perpcity_rust_sdk.Hft.Pipeline.Counting.{
  times-without, length-without, flying-insert, flying-erase,
}
use perpcity_rust_sdk.Hft.Pipeline.Sound.State.{IsSound, holds-insert, holds-erase}

pub prepares-IsSound :
    (w : World) (req : TxRequest) (fees : FeeCache) (now : ℕ) (tx : PreparedTx)
    → (prepare req fees now w.pipe).0 ≡ ok tx
    → next_nonce w + 1 < u64_mod
    → length w.prepared + 1 < u64_mod
    → IsSound w
    → IsSound
        (record w { pipe = (prepare req fees now w.pipe).1; prepared = tx.nonce ∷ w.prepared })
unfolding prepare
prepares-IsSound w req fees now tx e a b s = record {
  in_range = ground arith;
  few = ground arith;
  counted = ground (arith, s.counted);
  pending_map = ground (arith, s.pending_map);
  flight_map = ground (arith, s.flight_map);
  unique = λ n. ground (arith, s.unique n, s.below n);
  below = λ n h. ground (arith, s.below n);
  tracked = λ n. ground (arith, s.tracked n);
}

pub submits-IsSound :
    (w : World) (hash : ℕ) (tx : PreparedTx) (now : ℕ)
    → 0 < times tx.nonce w.prepared
    → lookup hash w.pipe.in_flight ≡ none
    → IsSound w
    → IsSound (record w {
      pipe = record_submission hash tx now w.pipe;
      prepared = without tx.nonce w.prepared;
    })
unfolding record_submission
submits-IsSound w hash tx now p e s = record {
  in_range = s.in_range;
  few = omega (arith, length-without tx.nonce w.prepared p, s.few);
  counted = omega (arith, length-without tx.nonce w.prepared p, s.few, s.counted);
  pending_map = insert-IsMap _ _ _ s.pending_map;
  flight_map = insert-IsMap _ _ _ s.flight_map;
  unique = λ n.
      rw (flying-insert n hash _ w.pipe.in_flight e)
        (omega (arith, s.unique n, times-without n tx.nonce w.prepared p));
  below = λ n h.
      rw (flying-insert n hash _ w.pipe.in_flight e)
        (omega (arith, s.below n h, times-without n tx.nonce w.prepared p));
  tracked = λ n.
      rw (flying-insert n hash _ w.pipe.in_flight e, holds-insert)
        (ground (arith, s.tracked n, s.unique n, times-without n tx.nonce w.prepared p));
}

-- The transactions in flight hold nonces below the counter.
pub flying_self :
    (hash : ℕ) {tx : InFlightTx} (d : Dict InFlightTx)
    → lookup hash d ≡ some tx
    → 0 < flying tx.nonce d
flying_self hash [] e = cc
flying_self hash {tx} (x ∷ d) e = ground (arith, flying_self hash {tx = tx} d)

pub resolves-IsSound :
    (w : World) (hash : ℕ) (tx : InFlightTx)
    → lookup hash w.pipe.in_flight ≡ some tx
    → IsSound w
    → IsSound (record w { pipe = resolve hash w.pipe; used = tx.nonce ∷ w.used })
unfolding resolve
resolves-IsSound w hash tx e s =
    rw (e, resolve)
      (record {
        in_range = s.in_range;
        few = s.few;
        counted = s.counted;
        pending_map = erase-IsMap _ _ s.pending_map;
        flight_map = erase-IsMap _ _ s.flight_map;
        unique = λ n. omega (arith, s.unique n, flying-erase n hash w.pipe.in_flight e);
        below = λ n h. omega (arith, s.below n h, flying-erase n hash w.pipe.in_flight e);
        tracked = λ n.
            rw (holds-erase n tx.nonce _ s.pending_map)
              (ground (arith, s.tracked n, s.unique n, flying-erase n hash w.pipe.in_flight e));
      })

pub fails-IsSound :
    (w : World) (hash : ℕ) (tx : InFlightTx)
    → lookup hash w.pipe.in_flight ≡ some tx
    → IsSound w
    → IsSound (record w { pipe = fail hash w.pipe })
unfolding fail
fails-IsSound w hash tx e s =
    rw (e, fail)
      (record {
        in_range =
            ground (arith, s.in_range, s.below tx.nonce, flying_self hash w.pipe.in_flight e);
        few = s.few;
        counted = ground (arith, s.counted);
        pending_map = ground (arith, erase-IsMap tx.nonce _ s.pending_map);
        flight_map = erase-IsMap _ _ s.flight_map;
        unique = λ n. omega (arith, s.unique n, flying-erase n hash w.pipe.in_flight e);
        below = λ n h. ground (
          arith,
          s.in_range,
          s.unique n,
          s.below n,
          s.below tx.nonce,
          flying_self hash w.pipe.in_flight e,
          flying-erase n hash w.pipe.in_flight e,
        );
        tracked = λ n. ground (
          arith,
          holds-erase n tx.nonce _ s.pending_map,
          s.tracked n,
          s.unique n,
          flying-erase n hash w.pipe.in_flight e,
        );
      })

pub abandons-IsSound :
    (w : World) (nonce : ℕ)
    → 0 < times nonce w.prepared
    → IsSound w
    → IsSound
        (record w { pipe = abandon_prepared nonce w.pipe; prepared = without nonce w.prepared })
unfolding abandon_prepared
abandons-IsSound w nonce p s = record {
  in_range = ground (arith, s.in_range, s.below nonce);
  few = omega (arith, length-without nonce w.prepared p, s.few);
  counted = ground (arith, length-without nonce w.prepared p, s.few, s.counted);
  pending_map = ground (arith, erase-IsMap nonce _ s.pending_map);
  flight_map = ground (arith, s.flight_map);
  unique = λ n. ground (arith, s.unique n, times-without n nonce w.prepared p);
  below = λ n h.
      ground (
        arith,
        s.in_range,
        s.unique n,
        s.below n,
        s.below nonce,
        times-without n nonce w.prepared p,
      );
  tracked = λ n. ground (
    arith,
    holds-erase n nonce _ s.pending_map,
    s.tracked n,
    s.unique n,
    times-without n nonce w.prepared p,
  );
}

pub loses-IsSound :
    (w : World) (nonce : ℕ)
    → 0 < times nonce w.prepared
    → IsSound w
    → IsSound
        (record w { pipe = mark_desynced_prepared w.pipe; prepared = without nonce w.prepared })
unfolding mark_desynced_prepared
loses-IsSound w nonce p s = record {
  in_range = s.in_range;
  few = omega (arith, length-without nonce w.prepared p, s.few);
  counted = omega (arith, length-without nonce w.prepared p, s.few, s.counted);
  pending_map = s.pending_map;
  flight_map = s.flight_map;
  unique = λ n. omega (arith, s.unique n, times-without n nonce w.prepared p);
  below = λ n h. omega (arith, s.below n h, times-without n nonce w.prepared p);
  tracked = s.tracked;
}

pub flags-IsSound : (w : World) → IsSound w → IsSound (record w { pipe = mark_desynced w.pipe })
unfolding mark_desynced
flags-IsSound w s = record {
  in_range = s.in_range;
  few = s.few;
  counted = s.counted;
  pending_map = s.pending_map;
  flight_map = s.flight_map;
  unique = s.unique;
  below = s.below;
  tracked = s.tracked;
}

-- A pipeline that may resync has no transaction in flight and none prepared.
pub can_resync-idle :
    (w : World) → IsSound w → can_resync w.pipe ≡ true → (w.pipe.in_flight ≡ []) × (w.prepared ≡ [])
unfolding can_resync
can_resync-idle w s e =
    (empty w.pipe.in_flight (ground arith), empty w.prepared (ground (arith, s.counted)))
  where
    empty : {A : Type 0} (xs : List A) → length xs ≡ 0 → xs ≡ []
    empty [] h = refl
    empty (x ∷ xs) h = absurd (omega arith)

pub resyncs-IsSound :
    (w : World) (on_chain : ℕ)
    → can_resync w.pipe ≡ true
    → on_chain < u64_mod
    → IsSound w
    → IsSound (record w { pipe = resync_nonce on_chain w.pipe; used = []; base = on_chain })
unfolding resync_nonce
resyncs-IsSound w on_chain e h s =
    let (f, p) = can_resync-idle w s e in
    record {
      in_range = h;
      few = s.few;
      counted = s.counted;
      pending_map = tt;
      flight_map = s.flight_map;
      unique = s.unique;
      below = λ n _. rw (f, p) (omega arith);
      tracked = λ n. rw f;
    }
