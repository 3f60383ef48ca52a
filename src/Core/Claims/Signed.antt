-- ===== src/Core/Claims/Signed.antt =====
-- The signed decimal texts that claims.ts accepts: lines 20 and 53 to 62.
use xcs.Common.{
  ℕ, ◌^◌, ◌≤◌, ◌<◌, ◌≡◌, ◌↔◌, Text, Bool, true, false, [], ◌∷◌, ◌==◌, text_eq, length, arith,
  Bool-cases, inl, inr,
}
use xcs.Core.Claims.{
  is_positive_decimal, is_unsigned_integer, decimal, is_int256, int256_max, int256_min_size,
}
use xcs.Core.Claims.Numerals.{
  Positive, Numeral, is_unsigned_sound, positive_sound, Numeral-is_unsigned, Numeral-decimal,
  Numeral-length, Positive-is_positive, Positive-decimal, Positive-length-le,
}

-- A text, whether it has a minus sign, and the size of the number that it writes.
pub data SignedNumeral : Text → Bool → ℕ → Type 0 where
  plus : {s : Text} {n : ℕ} → Numeral s n → SignedNumeral s false n
  minus : {s t : Text} {n : ℕ} → Positive s n → t ≡ b'-' ∷ s → SignedNumeral t true n

-- from -2 ^ 255 up to 2 ^ 255 - 1
abbrev pub IsInt256 : Bool → ℕ → Type 0
IsInt256 true n = n ≤ 2 ^ 255
IsInt256 false n = n < 2 ^ 255

minus_tests :
    (c : ℕ) (s : Text)
    → (c == b'-') ≡ true
    → is_int256 (c ∷ s) ≡ true
    → (c ≡ b'-') × (is_positive_decimal s ≡ true) × (decimal s ≤ int256_min_size)
unfolding is_int256 text_eq
minus_tests c s e h = ground arith

plus_tests :
    (c : ℕ) (s : Text)
    → (c == b'-') ≡ false
    → is_int256 (c ∷ s) ≡ true
    → (is_unsigned_integer (c ∷ s) ≡ true) × (decimal (c ∷ s) ≤ int256_max)
unfolding is_int256 is_unsigned_integer
plus_tests c s e h = ground arith

int_sound :
    (s : Text)
    → is_int256 s ≡ true
    → (negative : Bool) × (n : ℕ) × SignedNumeral s negative n × IsInt256 negative n
int_sound [] h = absurd (no_digits h)
  where
    no_digits : is_int256 [] ≡ true → ⊥
    no_digits e = unfold is_int256 in cc e
int_sound (c ∷ s) h = elim (Bool-cases (c == b'-')) [
  | inl e ↦
      let (same, digits, small) = minus_tests c s e h in
      (true, decimal s, minus (positive_sound s digits) (rw same), omega arith)
  | inr e ↦
      let (digits, small) = plus_tests c s e h in
      (false, decimal (c ∷ s), plus (is_unsigned_sound (c ∷ s) digits), omega arith)
]

minus_passes :
    (s : Text)
    → is_positive_decimal s ≡ true
    → length s ≤ 78
    → decimal s ≤ int256_min_size
    → is_int256 (b'-' ∷ s) ≡ true
unfolding is_int256
minus_passes s h k l = ground arith

plus_passes :
    (c : ℕ) (s : Text)
    → (c == b'-') ≡ false
    → is_unsigned_integer (c ∷ s) ≡ true
    → length (c ∷ s) ≤ 78
    → decimal (c ∷ s) ≤ int256_max
    → is_int256 (c ∷ s) ≡ true
unfolding is_int256 is_unsigned_integer
plus_passes c s e h k l = ground arith

no_sign : (c : ℕ) (s : Text) → is_unsigned_integer (c ∷ s) ≡ true → (c == b'-') ≡ false
unfolding is_unsigned_integer
no_sign c s h = ground arith

empty_unsigned : is_unsigned_integer [] ≡ true → ⊥
unfolding is_unsigned_integer
empty_unsigned e = cc e

plus_complete : (s : Text) (n : ℕ) → Numeral s n → n < 2 ^ 255 → is_int256 s ≡ true
plus_complete [] n numeral m = absurd (empty_unsigned (Numeral-is_unsigned numeral))
plus_complete (c ∷ s) n numeral m =
    let digits = Numeral-is_unsigned numeral in
    plus_passes c s (no_sign c s digits) digits (Numeral-length numeral (omega arith))
      (rw (Numeral-decimal numeral) (omega arith))

int_complete :
    {s : Text} {negative : Bool} {n : ℕ}
    → SignedNumeral s negative n
    → IsInt256 negative n
    → is_int256 s ≡ true
int_complete (plus {s} {n} numeral) m = plus_complete s n numeral m
int_complete (minus {s} p e) m = rw e (
    minus_passes s (Positive-is_positive p) (Positive-length-le p (omega arith))
      (rw (Positive-decimal p) (omega arith)))

-- `int` accepts exactly the canonical decimals, with a minus sign before a number below zero, of
-- the integers from -2 ^ 255 to 2 ^ 255 - 1; the test on the length of the text never decides.
pub is_int256_iff :
    (s : Text)
    → (is_int256 s ≡ true)
      ↔ ((negative : Bool) × (n : ℕ) × SignedNumeral s negative n × IsInt256 negative n)
is_int256_iff s = (int_sound s, λ (negative, n, numeral, m). int_complete numeral m)
