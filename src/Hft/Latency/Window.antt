-- ===== src/Hft/Latency/Window.antt =====
-- The ring buffer holds the last 1024 samples, and what the statistics say of them.
use perpcity_rust_sdk.Base.{
  ℕ, zero, suc, ◌+◌, ◌%◌, ◌≤◌, ◌<◌, ◌≡◌, ◌≢◌, ◌⊎◌, refl, sym, ap, subst, ◌∙◌, min, some, List, [],
  ◌∷◌, ◌++◌, arith, length, get_elem?, set, length-set, length-append, length-replicate, inl, inr,
}
use mathlib.Core.List.{append-nil, append_assoc}
use perpcity_rust_sdk.Base.Word.{u64_mod}
use perpcity_rust_sdk.Hft.Latency.{LatencyTracker, max_samples, new, record_latency}

-- The tracker after a list of samples, the oldest first.
unfoldable pub record_all : List ℕ → LatencyTracker → LatencyTracker
record_all [] t = t
record_all (x ∷ xs) t = record_all xs (record_latency x t)

-- A tracker that has seen the samples `xs`: sample number k of the last 1024 stands at k modulo 1024.
pub record HasSeen (xs : List ℕ) (t : LatencyTracker) : Type 0 where
  pub sized : length t.samples ≡ max_samples
  pub filled : t.sample_count ≡ min (length xs) max_samples
  pub next : t.write_index % max_samples ≡ length xs % max_samples
  pub counted : t.total_count ≡ length xs % u64_mod
  pub held :
      (k x : ℕ)
      → length xs ≤ k + max_samples
      → get_elem? xs k ≡ some x
      → get_elem? t.samples (k % max_samples) ≡ some x

pub get_elem?-set_self : (xs : List ℕ) (i v : ℕ) → i < length xs → get_elem? (set xs i v) i ≡ some v
get_elem?-set_self [] i v h = absurd (omega arith)
get_elem?-set_self (x ∷ xs) zero v h = refl
get_elem?-set_self (x ∷ xs) (suc i) v h = get_elem?-set_self xs i v (omega arith)

pub get_elem?-set_ne : (xs : List ℕ) (i j v : ℕ) → i ≢ j → get_elem? (set xs i v) j ≡ get_elem? xs j
get_elem?-set_ne [] i j v h = refl
get_elem?-set_ne (x ∷ xs) zero zero v h = absurd (h refl)
get_elem?-set_ne (x ∷ xs) zero (suc j) v h = refl
get_elem?-set_ne (x ∷ xs) (suc i) zero v h = refl
get_elem?-set_ne (x ∷ xs) (suc i) (suc j) v h = get_elem?-set_ne xs i j v (λ e. h (ap suc e))

-- An element of a list with one more at its end is the new one or an old one.
get_elem?-snoc :
    (xs : List ℕ) (y k x : ℕ)
    → get_elem? (xs ++ y ∷ []) k ≡ some x
    → ((k ≡ length xs) × (x ≡ y)) ⊎ ((k < length xs) × (get_elem? xs k ≡ some x))
get_elem?-snoc [] y zero x e = inl (refl, cc)
get_elem?-snoc [] y (suc k) x e = cc
get_elem?-snoc (z ∷ zs) y zero x e = inr (omega arith, e)
get_elem?-snoc (z ∷ zs) y (suc k) x e = elim (get_elem?-snoc zs y k x e) [
  | inl (p, q) ↦ inl (omega arith, q)
  | inr (p, q) ↦ inr (omega arith, q)
]

record_latency-HasSeen :
    (xs : List ℕ) (t : LatencyTracker) (y : ℕ)
    → HasSeen xs t
    → HasSeen (xs ++ y ∷ []) (record_latency y t)
unfolding record_latency
record_latency-HasSeen xs t y s =
    let n = length-append xs (y ∷ []) in
    let idx = t.write_index % max_samples in
    let inside : idx < length t.samples = omega (arith, s.sized) in
    record {
      sized = length-set t.samples idx y ∙ s.sized;
      filled = ground (arith, n, s.filled);
      next = omega (arith, n, s.next);
      counted = omega (arith, n, s.counted);
      held = λ k x h e. elim (get_elem?-snoc xs y k x e) [
        | inl (p, q) ↦
            let at : idx ≡ k % max_samples = omega (arith, s.next) in
            subst (λ i. get_elem? (set t.samples idx y) i ≡ some x) at
              (get_elem?-set_self t.samples idx y inside ∙ ap some (sym q))
        | inr (p, q) ↦
            let apart : idx ≢ k % max_samples = λ a. omega (arith, s.next, n) in
            get_elem?-set_ne t.samples idx (k % max_samples) y apart
            ∙ s.held k x (omega (arith, n)) q
      ];
    }

new-HasSeen : HasSeen [] new
unfolding new
new-HasSeen = record {
  sized = length-replicate {A = ℕ} max_samples 0;
  filled = refl;
  next = refl;
  counted = refl;
  held = λ k x h e. cc;
}

append-snoc : (xs ys : List ℕ) (y : ℕ) → (xs ++ y ∷ []) ++ ys ≡ xs ++ y ∷ ys
append-snoc xs ys y = append_assoc xs (y ∷ []) ys

record_all-HasSeen :
    (xs ys : List ℕ) (t : LatencyTracker) → HasSeen xs t → HasSeen (xs ++ ys) (record_all ys t)
unfolding record_all
record_all-HasSeen xs [] t s = rw append-nil s
record_all-HasSeen xs (y ∷ ys) t s =
    subst (λ zs. HasSeen zs (record_all ys (record_latency y t))) (append-snoc xs ys y)
      (record_all-HasSeen (xs ++ y ∷ []) ys (record_latency y t) (record_latency-HasSeen xs t y s))

-- After any samples recorded on a new tracker, the buffer holds the last 1024 of them, each at its
-- number modulo 1024, and the counts and the next index are those of that many samples.
pub window_holds_latest : (xs : List ℕ) → HasSeen xs (record_all xs new)
window_holds_latest xs = record_all-HasSeen [] xs new new-HasSeen
