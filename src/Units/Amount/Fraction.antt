-- ===== src/Units/Amount/Fraction.antt =====
-- The digits of a fraction, padded, trimmed, or cut at a precision.
use native.Mathlib.Nat.{div-eq_of_lt-le, div-mul-le_self}
use perpcity_rust_sdk.Base.{
  ℕ, zero, suc, ◌+◌, ◌-◌, ◌*◌, ◌/◌, ◌^◌, ◌≤◌, ◌<◌, ◌≡◌, min, refl, ap, ◌∙◌, subst, sym, true, [],
  ◌∷◌, ◌++◌, Option, some, none, length, take, replicate, arith,
}
use perpcity_rust_sdk.Base.Word.{u128_mod}
use perpcity_rust_sdk.Units.Amount.{
  Text, zero_digit, places, atoms_per_unit, all_digits, to_string, pad_left, pad_right, trim_zeros,
  fraction_text,
}
use perpcity_rust_sdk.Units.Amount.Decimal.{
  IsDecimal, value, decimal-IsDecimal, length-decimal, pad_left-value, pad_left-ascii,
  length-pad_left, trim_zeros-pad, length-trim_zeros, all_digits_prefix,
}
use perpcity_rust_sdk.Units.Amount.Printed.{IsFraction}

-- The six digits of a fraction.
record IsPadded (rest : ℕ) (text : Text) : Type 0 where
  spells : value 0 text ≡ rest
  ascii : all_digits text ≡ true
  six : length text ≡ places

pub to_string-IsDecimal : (n : ℕ) → n < u128_mod → IsDecimal n (to_string n)
unfolding to_string
to_string-IsDecimal n h = decimal-IsDecimal 38 n (omega arith)

padded : (rest : ℕ) → rest < atoms_per_unit → IsPadded rest (pad_left (to_string rest))
unfolding to_string
padded rest h =
    let i = to_string-IsDecimal rest (omega arith) in
    record {
      spells = pad_left-value (to_string rest) ∙ i.spells;
      ascii = pad_left-ascii (to_string rest) i.ascii;
      six = length-pad_left (to_string rest) (length-decimal 39 5 rest (omega arith));
    }

trimmed : (rest : ℕ) (text : Text) → IsPadded rest text → IsFraction rest (trim_zeros text)
unfolding pad_right
trimmed rest text i =
    let whole = trim_zeros-pad text in
    let s = i.six in
    let same : pad_right (trim_zeros text) ≡ text =
      ap (λ k. trim_zeros text ++ replicate (k - length (trim_zeros text)) zero_digit) (sym s)
      ∙ whole in
    record {
      spells = ap (value 0) same ∙ i.spells;
      ascii =
          all_digits_prefix (trim_zeros text)
            (replicate (length text - length (trim_zeros text)) zero_digit)
            (subst (λ t. all_digits t ≡ true) (sym whole) i.ascii);
      short = omega (arith, length-trim_zeros text, s);
    }

-- The atoms that a precision keeps.
abbrev pub kept : Option ℕ → ℕ → ℕ
kept none atoms = atoms
kept (some precision) atoms = let unit = 10 ^ (places - min precision places) in atoms / unit * unit

-- Digits that follow `a` keep it as the leading part.
leading :
    (a : ℕ) (xs : Text)
    → all_digits xs ≡ true
    → (a * 10 ^ length xs ≤ value a xs) × (value a xs < (a + 1) * 10 ^ length xs)
leading a [] h = (grind arith, grind arith)
leading a (x ∷ xs) h =
    let small : x - zero_digit < 10 = ground arith in
    let (low, high) = leading (a * 10 + (x - zero_digit)) xs (ground arith) in
    let p = 10 ^ length xs in
    let next = a * 10 + (x - zero_digit) in
    let step : 10 ^ suc (length xs) ≡ 10 * p = grind arith in
    let a1 : a * (10 * p) ≤ next * p = grind arith in
    let a2 : (next + 1) * p ≤ (a + 1) * (10 * p) = grind arith in
    (
      subst (λ w. a * w ≤ value next xs) (sym step) (omega (arith, a1, low)),
      subst (λ w. value next xs < (a + 1) * w) (sym step) (omega (arith, a2, high)),
    )

zeros_after : (a n : ℕ) → value a (replicate n zero_digit) ≡ a * 10 ^ n
zeros_after a zero = grind arith
zeros_after a (suc n) =
    let step : 10 ^ suc n ≡ 10 * 10 ^ n = grind arith in
    let moved : (p : ℕ) → (a * 10 + 0) * p ≡ a * (10 * p) = λ p. grind arith in
    zeros_after (a * 10 + 0) n ∙ moved (10 ^ n) ∙ ap (λ p. a * p) (sym step)

take_zeros :
    (a k : ℕ) (xs : Text)
    → all_digits xs ≡ true
    → k ≤ length xs
    → value a (take k xs ++ replicate (length xs - k) zero_digit)
      ≡ value a xs / 10 ^ (length xs - k) * 10 ^ (length xs - k)
take_zeros a zero xs h le =
    let (low, high) = leading a xs h in
    let all : length xs - 0 ≡ length xs = omega arith in
    ap (λ n. value a (replicate n zero_digit)) all
    ∙ zeros_after a (length xs)
    ∙ ap (λ q. q * 10 ^ length xs) (sym (div-eq_of_lt-le (10 ^ length xs) low high))
    ∙ ap (λ n. value a xs / 10 ^ n * 10 ^ n) (sym all)
take_zeros a (suc k) [] h le = absurd (omega arith)
take_zeros a (suc k) (x ∷ xs) h le =
    let same : length xs - k ≡ suc (length xs) - suc k = omega arith in
    let next = a * 10 + (x - zero_digit) in
    let rest = take_zeros next k xs (ground arith) (omega arith) in
    subst (λ n. value next (take k xs ++ replicate n zero_digit) ≡ value next xs / 10 ^ n * 10 ^ n)
      same rest

all_digits-take : (k : ℕ) (xs : Text) → all_digits xs ≡ true → all_digits (take k xs) ≡ true
all_digits-take zero xs h = refl
all_digits-take (suc k) [] h = refl
all_digits-take (suc k) (x ∷ xs) h = ground (arith, all_digits-take k xs)

length-take : (k : ℕ) (xs : Text) → k ≤ length xs → length (take k xs) ≡ k
length-take zero xs h = refl
length-take (suc k) [] h = absurd (omega arith)
length-take (suc k) (x ∷ xs) h = ap suc (length-take k xs (omega arith))

cut :
    (rest k : ℕ) (text : Text)
    → IsPadded rest text
    → k ≤ places
    → IsFraction (rest / 10 ^ (places - k) * 10 ^ (places - k)) (take k text)
unfolding pad_right
cut rest k text i le =
    let s = i.six in
    let taken : length (take k text) ≡ k = length-take k text (omega (arith, s)) in
    let pad : places - length (take k text) ≡ length text - k = omega (arith, taken, s) in
    record {
      spells =
          ap (λ n. value 0 (take k text ++ replicate n zero_digit)) pad
          ∙ take_zeros 0 k text i.ascii (omega (arith, s))
          ∙ ap (λ n. value 0 text / 10 ^ (n - k) * 10 ^ (n - k)) s
          ∙ ap (λ v. v / 10 ^ (places - k) * 10 ^ (places - k)) i.spells;
      ascii = all_digits-take k text i.ascii;
      short = omega (arith, taken);
    }

pub fraction_text-IsFraction :
    (precision : Option ℕ) (rest : ℕ)
    → rest < atoms_per_unit
    → IsFraction (kept precision rest) (fraction_text precision rest)
unfolding fraction_text
fraction_text-IsFraction none rest h = trimmed rest (pad_left (to_string rest)) (padded rest h)
fraction_text-IsFraction (some precision) rest h =
    cut rest (min precision places) (pad_left (to_string rest)) (padded rest h) (omega arith)

pub kept_le : (precision : Option ℕ) (n : ℕ) → kept precision n ≤ n
kept_le none n = omega arith
kept_le (some precision) n = div-mul-le_self n (10 ^ (places - min precision places))
