-- ===== src/Core/Claims/Numerals.antt =====
-- The decimal texts that claims.ts accepts (lines 8 to 62), against a relation between a text and
-- the number that it writes.
use native.Mathlib.Nat.{pow-suc, zero-add, pow-le-pow_right}
use native.Mathlib.Numerals.{add-one}
use native.Mathlib.Decide.{dec_le}
use mathlib.Core.List.{append_assoc, append-nil}
use mathlib.Core.Path.{subst}
use xcs.Common.{
  ℕ, ◌+◌, ◌-◌, ◌*◌, ◌^◌, ◌≤◌, ◌<◌, ◌≡◌, refl, sym, ◌↔◌, Text, codes, true, [], ◌∷◌, ◌++◌, text_eq,
  text_eq_sound, length, length-append, all, all-append, arith, is_digit, Bool-cases, inl, inr,
}
use xcs.Core.Claims.{
  is_positive_decimal, is_unsigned_integer, decimal_from, decimal, is_uint256, uint256_max,
}

-- A decimal without leading zeros, digit by digit from the left.
pub data Positive : Text → ℕ → Type 0 where
  first : (d : ℕ) → 1 ≤ d → d ≤ 9 → Positive ((b'0' + d) ∷ []) d
  more :
      (d : ℕ) {s t : Text} {n : ℕ}
      → Positive s n
      → d ≤ 9
      → t ≡ s ++ (b'0' + d) ∷ []
      → Positive t (n * 10 + d)

pub data Numeral : Text → ℕ → Type 0 where
  nought : Numeral (codes "0") 0
  positive : {s : Text} {n : ℕ} → Positive s n → Numeral s n

digit_range :
    (c : ℕ) (rest : Text)
    → all is_digit (c ∷ rest) ≡ true
    → (b'0' + (c - b'0') ≡ c) × (c - b'0' ≤ 9) × (all is_digit rest ≡ true)
unfolding is_digit
digit_range c rest h = ground arith

-- the digits of a run, one by one
digits_from :
    (s : Text) (n : ℕ) (rest : Text)
    → Positive s n
    → all is_digit rest ≡ true
    → Positive (s ++ rest) (decimal_from n rest)
unfolding decimal_from
digits_from s n [] p h = rw append-nil p
digits_from s n (c ∷ rest) p h =
    let (same, small, later) = digit_range c rest h in
    subst (λ t. Positive t (decimal_from n (c ∷ rest))) (append_assoc s (c ∷ []) rest)
      (digits_from (s ++ c ∷ []) (n * 10 + (c - b'0')) rest (more (c - b'0') p small (rw same))
        later)

leading_range :
    (c : ℕ) (rest : Text)
    → is_positive_decimal (c ∷ rest) ≡ true
    → (b'0' + (c - b'0') ≡ c) × (1 ≤ c - b'0') × (c - b'0' ≤ 9) × (all is_digit rest ≡ true)
unfolding is_positive_decimal
leading_range c rest h = ground arith

pub positive_sound : (s : Text) → is_positive_decimal s ≡ true → Positive s (decimal s)
positive_sound [] h = absurd (no_digits h)
  where
    no_digits : is_positive_decimal [] ≡ true → ⊥
    no_digits e = unfold is_positive_decimal in cc e
positive_sound (c ∷ rest) h =
    let (same, least, small, later) = leading_range c rest h in
    unfold decimal_from in
    rw zero-add (
      digits_from (c ∷ []) (c - b'0') rest
        (subst (λ x. Positive (x ∷ []) (c - b'0')) same (first (c - b'0') least small)) later)

-- The other way: what the relation writes has these digits and this value.
decimal_from-snoc :
    (acc : ℕ) (s : Text) (c : ℕ)
    → decimal_from acc (s ++ c ∷ []) ≡ decimal_from acc s * 10 + (c - b'0')
unfolding decimal_from
decimal_from-snoc acc [] c = refl
decimal_from-snoc acc (x ∷ s) c = decimal_from-snoc (acc * 10 + (x - b'0')) s c

is_positive-snoc :
    (s : Text) (d : ℕ)
    → is_positive_decimal s ≡ true
    → d ≤ 9
    → is_positive_decimal (s ++ (b'0' + d) ∷ []) ≡ true
unfolding is_positive_decimal
is_positive-snoc [] d h k = ground arith
is_positive-snoc (c ∷ s) d h k = ground (arith, all-append is_digit s ((b'0' + d) ∷ []))

pub Positive-is_positive : {s : Text} {n : ℕ} → Positive s n → is_positive_decimal s ≡ true
unfolding is_positive_decimal
Positive-is_positive (first d h k) = ground arith
Positive-is_positive (more d {s} p k e) = rw e (is_positive-snoc s d (Positive-is_positive p) k)

pub Positive-decimal : {s : Text} {n : ℕ} → Positive s n → decimal s ≡ n
unfolding decimal_from
Positive-decimal (first d h k) = omega arith
Positive-decimal (more d {s} p k e) =
    rw e (rw (decimal_from-snoc 0 s (b'0' + d)) (omega (arith, Positive-decimal p)))

pow_step : (l n d : ℕ) → 10 ^ l ≤ 10 * n → 10 ^ (l + 1) ≤ 10 * (n * 10 + d)
pow_step l n d h =
    let e : 10 ^ (l + 1) ≡ 10 ^ l * 10 = rw add-one (pow-suc 10 l) in rw e (omega arith)

short : (l n : ℕ) → 10 ^ l ≤ 10 * n → n ≤ uint256_max → l ≤ 78
short l n h k = elim (dec_le l 78) [
  | yes p ↦ p
  | no p ↦
      let grown : 10 ^ 79 ≤ 10 ^ l =
        pow-le-pow_right {n = 10} (omega arith) {i = 79} {j = l} (omega arith) in
      absurd (omega arith)
]

-- A number of k digits is at least 10 ^ (k - 1).
Positive-length : {s : Text} {n : ℕ} → Positive s n → 10 ^ length s ≤ 10 * n
Positive-length (first d h k) = omega arith
Positive-length (more d {s} {n} p k e) =
    rw e (rw (length-append s ((b'0' + d) ∷ [])) (pow_step (length s) n d (Positive-length p)))

pub Positive-length-le : {s : Text} {n : ℕ} → Positive s n → n ≤ uint256_max → length s ≤ 78
Positive-length-le {s} {n} p h = short (length s) n (Positive-length p) h

-- The tests of the source, on the numbers that the relation gives.
pub is_unsigned_sound : (s : Text) → is_unsigned_integer s ≡ true → Numeral s (decimal s)
unfolding is_unsigned_integer
is_unsigned_sound s h = elim (Bool-cases (text_eq s (codes "0"))) [
  | inl e ↦
      subst (λ t. Numeral t (decimal t)) (sym (text_eq_sound s (codes "0") e))
        (unfold decimal_from in nought)
  | inr e ↦ positive (positive_sound s (ground arith))
]

pub Numeral-is_unsigned : {s : Text} {n : ℕ} → Numeral s n → is_unsigned_integer s ≡ true
unfolding is_unsigned_integer
Numeral-is_unsigned nought = refl
Numeral-is_unsigned (positive {s} p) = ground (arith, Positive-is_positive p)

pub Numeral-decimal : {s : Text} {n : ℕ} → Numeral s n → decimal s ≡ n
unfolding decimal_from
Numeral-decimal nought = refl
Numeral-decimal (positive p) = Positive-decimal p

pub Numeral-length : {s : Text} {n : ℕ} → Numeral s n → n ≤ uint256_max → length s ≤ 78
Numeral-length nought h = omega arith
Numeral-length (positive p) h = Positive-length-le p h

uint_tests :
    (s : Text) → is_uint256 s ≡ true → (is_unsigned_integer s ≡ true) × (decimal s ≤ uint256_max)
unfolding is_uint256
uint_tests s h = ground arith

uint_passes :
    (s : Text)
    → is_unsigned_integer s ≡ true
    → length s ≤ 78
    → decimal s ≤ uint256_max
    → is_uint256 s ≡ true
unfolding is_uint256
uint_passes s h k l = ground arith

-- `uint` accepts exactly the canonical decimals of the numbers below 2 ^ 256; the test on the
-- length of the text never decides.
pub is_uint256_iff : (s : Text) → (is_uint256 s ≡ true) ↔ ((n : ℕ) × Numeral s n × (n < 2 ^ 256))
is_uint256_iff s = (
  λ h. let (u, m) = uint_tests s h in (decimal s, is_unsigned_sound s u, omega arith),
  λ (n, numeral, m).
      uint_passes s (Numeral-is_unsigned numeral) (Numeral-length numeral (omega arith))
        (rw (Numeral-decimal numeral) (omega arith)),
)
