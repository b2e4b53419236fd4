-- ===== src/Units/Amount/Printed.antt =====
-- What the parser reads of digits, a point and more digits.
use mathlib.Core.List.{append-nil}
use perpcity_rust_sdk.Base.{
  ℕ, ◌+◌, ◌*◌, ◌≤◌, ◌<◌, ◌≡◌, refl, ap, ◌∙◌, subst, sym, Bool, true, false, ltb, ◌==◌,
  if◌then◌else◌, [], ◌∷◌, ◌++◌, Option, some, none, length, arith,
}
use perpcity_rust_sdk.Base.Word.{u128_mod}
use perpcity_rust_sdk.Base.Result.{ok}
use perpcity_rust_sdk.Units.Amount.{
  Text, dot, minus, places, atoms_per_unit, is_empty, all_digits, digits, pad_right, join_fraction,
  strip_minus, split_dot, parse_u128, parse_fraction, magnitude_of, parse_atoms,
}
use perpcity_rust_sdk.Units.Amount.Decimal.{IsDecimal, value, parse_u128-eq}

-- The digits after a point that stand for `atoms`.
pub record IsFraction (atoms : ℕ) (text : Text) : Type 0 where
  pub spells : value 0 (pad_right text) ≡ atoms
  pub ascii : all_digits text ≡ true
  pub short : length text ≤ places

split_dot-digits :
    (w rest : Text) → all_digits w ≡ true → split_dot (w ++ (dot ∷ rest)) ≡ (w, some rest)
unfolding split_dot
split_dot-digits [] rest h = refl
split_dot-digits (b ∷ w) rest h =
    let other : (b == dot) ≡ false = ground arith in
    let tail = split_dot-digits w rest (ground arith) in rw other (ap (λ r. (b ∷ r.0, r.1)) tail)

split_dot-whole : (w : Text) → all_digits w ≡ true → split_dot w ≡ (w, none)
unfolding split_dot
split_dot-whole [] h = refl
split_dot-whole (b ∷ w) h =
    let other : (b == dot) ≡ false = ground arith in
    let tail = split_dot-whole w (ground arith) in rw other (ap (λ r. (b ∷ r.0, r.1)) tail)

strip_minus-digits :
    (w rest : Text)
    → is_empty w ≡ false
    → all_digits w ≡ true
    → strip_minus (w ++ rest) ≡ (false, w ++ rest)
unfolding strip_minus
strip_minus-digits [] rest e h = absurd cc
strip_minus-digits (b ∷ w) rest e h =
    let other : (b == minus) ≡ false = ground arith in rw other refl

magnitude_of-eq :
    (whole fraction : ℕ)
    → whole * atoms_per_unit + fraction < u128_mod
    → magnitude_of (some whole) fraction ≡ some (whole * atoms_per_unit + fraction)
unfolding magnitude_of
magnitude_of-eq whole fraction h =
    let a : ltb (whole * atoms_per_unit) u128_mod ≡ true = ground arith in
    let b : ltb (whole * atoms_per_unit + fraction) u128_mod ≡ true = ground arith in rw (a, b) refl

parse_fraction-eq :
    (f : Text) (atoms : ℕ)
    → is_empty f ≡ false
    → IsFraction atoms f
    → atoms < u128_mod
    → parse_fraction (some f) ≡ ok atoms
unfolding parse_fraction
parse_fraction-eq f atoms e i h =
    let v = i.spells in
    let s = i.short in
    let a : digits f ≡ true = rw (e, i.ascii) refl in
    let b : ltb places (length f) ≡ false = ground arith in
    let c : parse_u128 0 (pad_right f) ≡ some atoms =
      parse_u128-eq 0 (pad_right f) (subst (λ n. n < u128_mod) (sym v) h) ∙ ap some v in
    rw (a, b, c) refl

-- An unsigned text, stripped of nothing.
parts_lem :
    (text w : Text) (fraction : Option Text) (negative : Bool) (whole atoms : ℕ)
    → IsDecimal whole w
    → strip_minus text ≡ (negative, (strip_minus text).1)
    → split_dot (strip_minus text).1 ≡ (w, fraction)
    → parse_fraction fraction ≡ ok atoms
    → whole * atoms_per_unit + atoms < u128_mod
    → parse_atoms text ≡ ok (negative, whole * atoms_per_unit + atoms)
unfolding parse_atoms
parts_lem text w fraction negative whole atoms i strip split read h =
    let v = i.spells in
    let a : digits w ≡ true = rw (i.inhabited, i.ascii) refl in
    let b : parse_u128 0 w ≡ some whole = parse_u128-eq 0 w (omega (arith, v)) ∙ ap some v in
    let first : (split_dot (strip_minus text).1).0 ≡ w = ap (λ r. r.0) split in
    let second : (split_dot (strip_minus text).1).1 ≡ fraction = ap (λ r. r.1) split in
    let sign : (strip_minus text).0 ≡ negative = ap (λ r. r.0) strip in
    rw (first, second, sign, a, read, b, magnitude_of-eq whole atoms h) refl

unsigned_lem :
    (w f : Text) (whole atoms : ℕ)
    → IsDecimal whole w
    → IsFraction atoms f
    → whole * atoms_per_unit + atoms < u128_mod
    → (strip_minus (join_fraction w f) ≡ (false, join_fraction w f))
      × (fraction : Option Text) × (split_dot (join_fraction w f) ≡ (w, fraction))
      × (parse_fraction fraction ≡ ok atoms)
unfolding join_fraction parse_fraction pad_right
unsigned_lem w [] whole atoms i j h =
    let v = j.spells in
    (
      subst (λ x. strip_minus x ≡ (false, x)) (append-nil w)
          (strip_minus-digits w [] i.inhabited i.ascii),
      none,
      split_dot-whole w i.ascii,
      ap (λ n. ok n) v,
    )
unsigned_lem w (b ∷ f) whole atoms i j h = (
  strip_minus-digits w (dot ∷ b ∷ f) i.inhabited i.ascii,
  some (b ∷ f),
  split_dot-digits w (b ∷ f) i.ascii,
  parse_fraction-eq (b ∷ f) atoms refl j (omega arith),
)

-- Digits, a point and more digits, after a sign, are read as the number of atoms they spell.
pub parse_atoms-join_fraction :
    (negative : Bool) (w f : Text) (whole atoms : ℕ)
    → IsDecimal whole w
    → IsFraction atoms f
    → whole * atoms_per_unit + atoms < u128_mod
    → parse_atoms (if negative then minus ∷ join_fraction w f else join_fraction w f)
      ≡ ok (negative, whole * atoms_per_unit + atoms)
unfolding strip_minus
parse_atoms-join_fraction true w f whole atoms i j h =
    let (strip, fraction, split, read) = unsigned_lem w f whole atoms i j h in
    parts_lem (minus ∷ join_fraction w f) w fraction true whole atoms i refl split read h
parse_atoms-join_fraction false w f whole atoms i j h =
    let (strip, fraction, split, read) = unsigned_lem w f whole atoms i j h in
    let same : (strip_minus (join_fraction w f)).1 ≡ join_fraction w f = ap (λ r. r.1) strip in
    parts_lem (join_fraction w f) w fraction false whole atoms i
      (ap (λ r. (r.0, (strip_minus (join_fraction w f)).1)) strip) (ap split_dot same ∙ split) read
      h
