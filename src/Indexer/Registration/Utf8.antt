-- ===== src/Indexer/Registration/Utf8.antt =====
-- The decoder of memos reads what `TextEncoder` writes: apps/indexer/src/registration.ts, lines 43
-- to 62.
use mathlib.Core.Option
use mathlib.Core.Path.{subst}
use xcs.Common.{
  ℕ, ◌+◌, ◌-◌, ◌*◌, ◌/◌, ◌%◌, ◌≤◌, ◌<◌, ◌≡◌, ◌∙◌, refl, Text, true, false, List, [], ◌∷◌, ◌++◌,
  Option, none, some, ltb, ◌==◌, if◌then◌else◌, arith, ◌⊎◌, inl, inr,
}
use native.Mathlib.Decide.{dec_lt}
use mathlib.Core.List.{append-nil}
use xcs.Core.Json.{encode_point, encode_unit, encode_utf8, is_high, is_low, join}
use xcs.Core.Json.WellFormed.{WellFormed, empty, unit, pair}
use xcs.Indexer.Registration.{
  Utf8State, at_boundary, needs, lead_byte, next_byte, utf8_byte, units, decode_from,
}

lead_one : (b : ℕ) → b < 0x80 → lead_byte b ≡ some (b ∷ [], at_boundary)
unfolding lead_byte
lead_one b h = ground arith

lead_two : (q : ℕ) → 2 ≤ q → q ≤ 31 → lead_byte (0xc0 + q) ≡ some ([], needs 1 0x80 0xbf q)
unfolding lead_byte
lead_two q h k = ground arith

lead_three :
    (q : ℕ)
    → q ≤ 15
    → lead_byte (0xe0 + q)
      ≡ some ([], needs 2 (if q == 0 then 0xa0 else 0x80) (if q == 13 then 0x9f else 0xbf) q)
unfolding lead_byte
lead_three q k = ground arith

lead_four :
    (q : ℕ)
    → q ≤ 4
    → lead_byte (0xf0 + q)
      ≡ some ([], needs 3 (if q == 0 then 0x90 else 0x80) (if q == 4 then 0x8f else 0xbf) q)
unfolding lead_byte
lead_four q k = ground arith

last_byte :
    (low high x r : ℕ)
    → low ≤ 0x80 + r
    → 0x80 + r ≤ high
    → next_byte (needs 1 low high x) (0x80 + r) ≡ some (units (x * 64 + r), at_boundary)
unfolding next_byte
last_byte low high x r h k = ground arith

mid_byte :
    (n low high x r : ℕ)
    → 2 ≤ n
    → low ≤ 0x80 + r
    → 0x80 + r ≤ high
    → next_byte (needs n low high x) (0x80 + r) ≡ some ([], needs (n - 1) 0x80 0xbf (x * 64 + r))
unfolding next_byte
mid_byte n low high x r m h k = ground arith

decode_step :
    (s after : Utf8State) (b : ℕ) (out : Text) (bytes : List ℕ)
    → utf8_byte s b ≡ some (out, after)
    → decode_from s (b ∷ bytes) ≡ Option.map (λ rest. out ++ rest) (decode_from after bytes)
unfolding decode_from
decode_step s after b out bytes h = rw (decode_from, h) refl

map_nothing : (o : Option Text) → Option.map (λ rest. [] ++ rest) o ≡ o
map_nothing none = refl
map_nothing (some t) = refl

quiet_step :
    (s after : Utf8State) (b : ℕ) (bytes : List ℕ)
    → utf8_byte s b ≡ some ([], after)
    → decode_from s (b ∷ bytes) ≡ decode_from after bytes
quiet_step s after b bytes h =
    decode_step s after b [] bytes h ∙ map_nothing (decode_from after bytes)

-- what decoding the bytes of a code point gives
abbrev Reads : ℕ → List ℕ → List ℕ → Type 0
Reads p bytes rest =
    decode_from at_boundary bytes
    ≡ Option.map (λ text. units p ++ text) (decode_from at_boundary rest)

Reads-one : (p : ℕ) (rest : List ℕ) → p < 0x80 → Reads p (p ∷ rest) rest
unfolding utf8_byte units
Reads-one p rest h =
    rw (small p h) (decode_step at_boundary at_boundary p (p ∷ []) rest (lead_one p h))
  where
    small : (p : ℕ) → p < 0x80 → ltb p 0x10000 ≡ true
    small p h = ground arith

Reads-two :
    (p : ℕ) (rest : List ℕ)
    → 0x80 ≤ p
    → p < 0x800
    → Reads p ((0xc0 + p / 64) ∷ (0x80 + p % 64) ∷ rest) rest
unfolding utf8_byte
Reads-two p rest h k =
    let whole : p / 64 * 64 + p % 64 ≡ p = omega arith in
    quiet_step at_boundary (needs 1 0x80 0xbf (p / 64)) (0xc0 + p / 64) ((0x80 + p % 64) ∷ rest)
      (lead_two (p / 64) (omega arith) (omega arith))
    ∙ decode_step (needs 1 0x80 0xbf (p / 64)) at_boundary (0x80 + p % 64) (units p) rest (
        subst
          (λ w.
            next_byte (needs 1 0x80 0xbf (p / 64)) (0x80 + p % 64) ≡ some (units w, at_boundary))
          whole (last_byte 0x80 0xbf (p / 64) (p % 64) (omega arith) (omega arith)))

-- the bounds of the second byte of three
three_low : (p : ℕ) → 0x800 ≤ p → (if p / 4096 == 0 then 0xa0 else 0x80) ≤ 0x80 + p / 64 % 64
three_low p h = ground arith

three_high :
    (p : ℕ)
    → (p < 0xd800) ⊎ (0xe000 ≤ p)
    → p < 0x10000
    → 0x80 + p / 64 % 64 ≤ (if p / 4096 == 13 then 0x9f else 0xbf)
three_high p (inl h) k = ground arith
three_high p (inr h) k = ground arith

Reads-three :
    (p : ℕ) (rest : List ℕ)
    → 0x800 ≤ p
    → (p < 0xd800) ⊎ (0xe000 ≤ p)
    → p < 0x10000
    → Reads p ((0xe0 + p / 4096) ∷ (0x80 + p / 64 % 64) ∷ (0x80 + p % 64) ∷ rest) rest
unfolding utf8_byte
Reads-three p rest h s k =
    let low : ℕ = if p / 4096 == 0 then 0xa0 else 0x80 in
    let high : ℕ = if p / 4096 == 13 then 0x9f else 0xbf in
    let x : ℕ = p / 4096 * 64 + p / 64 % 64 in
    let whole : x * 64 + p % 64 ≡ p = omega arith in
    quiet_step at_boundary (needs 2 low high (p / 4096)) (0xe0 + p / 4096)
      ((0x80 + p / 64 % 64) ∷ (0x80 + p % 64) ∷ rest) (lead_three (p / 4096) (omega arith))
    ∙ (quiet_step (needs 2 low high (p / 4096)) (needs 1 0x80 0xbf x) (0x80 + p / 64 % 64)
          ((0x80 + p % 64) ∷ rest)
          (mid_byte 2 low high (p / 4096) (p / 64 % 64) (omega arith) (three_low p h)
            (three_high p s k))
        ∙ decode_step (needs 1 0x80 0xbf x) at_boundary (0x80 + p % 64) (units p) rest (
            subst
              (λ w. next_byte (needs 1 0x80 0xbf x) (0x80 + p % 64) ≡ some (units w, at_boundary))
              whole (last_byte 0x80 0xbf x (p % 64) (omega arith) (omega arith))))

four_low : (p : ℕ) → 0x10000 ≤ p → (if p / 262144 == 0 then 0x90 else 0x80) ≤ 0x80 + p / 4096 % 64
four_low p h = ground arith

four_high : (p : ℕ) → p < 0x110000 → 0x80 + p / 4096 % 64 ≤ (if p / 262144 == 4 then 0x8f else 0xbf)
four_high p h = ground arith

Reads-four :
    (p : ℕ) (rest : List ℕ)
    → 0x10000 ≤ p
    → p < 0x110000
    → Reads p
        ((0xf0 + p / 262144)
          ∷ (0x80 + p / 4096 % 64)
          ∷ (0x80 + p / 64 % 64)
          ∷ (0x80 + p % 64)
          ∷ rest)
        rest
unfolding utf8_byte
Reads-four p rest h k =
    let low : ℕ = if p / 262144 == 0 then 0x90 else 0x80 in
    let high : ℕ = if p / 262144 == 4 then 0x8f else 0xbf in
    let x : ℕ = p / 262144 * 64 + p / 4096 % 64 in
    let y : ℕ = x * 64 + p / 64 % 64 in
    let whole : y * 64 + p % 64 ≡ p = omega arith in
    quiet_step at_boundary (needs 3 low high (p / 262144)) (0xf0 + p / 262144)
      ((0x80 + p / 4096 % 64) ∷ (0x80 + p / 64 % 64) ∷ (0x80 + p % 64) ∷ rest)
      (lead_four (p / 262144) (omega arith))
    ∙ (quiet_step (needs 3 low high (p / 262144)) (needs 2 0x80 0xbf x) (0x80 + p / 4096 % 64)
          ((0x80 + p / 64 % 64) ∷ (0x80 + p % 64) ∷ rest)
          (mid_byte 3 low high (p / 262144) (p / 4096 % 64) (omega arith) (four_low p h)
            (four_high p k))
        ∙ (quiet_step (needs 2 0x80 0xbf x) (needs 1 0x80 0xbf y) (0x80 + p / 64 % 64)
              ((0x80 + p % 64) ∷ rest)
              (mid_byte 2 0x80 0xbf x (p / 64 % 64) (omega arith) (omega arith) (omega arith))
            ∙ decode_step (needs 1 0x80 0xbf y) at_boundary (0x80 + p % 64) (units p) rest (
                subst
                  (λ w.
                    next_byte (needs 1 0x80 0xbf y) (0x80 + p % 64) ≡ some (units w, at_boundary))
                  whole (last_byte 0x80 0xbf y (p % 64) (omega arith) (omega arith)))))

lt_ltb : (a b : ℕ) → a < b → ltb a b ≡ true
lt_ltb a b h = ground arith

not_ltb : (a b : ℕ) → ¬ (a < b) → ltb a b ≡ false
not_ltb a b h = ground arith

-- a code point that is no surrogate
Reads-point :
    (p : ℕ) (rest : List ℕ)
    → (p < 0xd800) ⊎ (0xe000 ≤ p)
    → p < 0x110000
    → Reads p (encode_point p ++ rest) rest
unfolding encode_point
Reads-point p rest s k = elim (dec_lt p 0x80) [
  | yes a ↦ rw (lt_ltb p 0x80 a) (Reads-one p rest a)
  | no a ↦ elim (dec_lt p 0x800) [
    | yes b ↦ rw (not_ltb p 0x80 a, lt_ltb p 0x800 b) (Reads-two p rest (omega (arith, a)) b)
    | no b ↦ elim (dec_lt p 0x10000) [
      | yes c ↦
          rw (not_ltb p 0x80 a, not_ltb p 0x800 b, lt_ltb p 0x10000 c)
            (Reads-three p rest (omega (arith, b)) s c)
      | no c ↦
          rw (not_ltb p 0x80 a, not_ltb p 0x800 b, not_ltb p 0x10000 c)
            (Reads-four p rest (omega (arith, c)) k)
    ]
  ]
]

-- the code units of a text
abbrev pub AreUnits : Text → Type 0
AreUnits [] = Unit
AreUnits (c ∷ s) = (c ≤ 0xffff) × AreUnits s

encode_utf8-unit :
    (c : ℕ) (s : Text)
    → is_high c ≡ false
    → is_low c ≡ false
    → encode_utf8 (c ∷ s) ≡ encode_point c ++ encode_utf8 s
unfolding encode_utf8 encode_unit
encode_utf8-unit c [] h l = rw (h, l, append-nil) refl
encode_utf8-unit c (d ∷ s) h l = rw (h, l) refl

encode_utf8-pair :
    (c d : ℕ) (s : Text)
    → is_high c ≡ true
    → is_low d ≡ true
    → encode_utf8 (c ∷ d ∷ s) ≡ encode_point (join c d) ++ encode_utf8 s
unfolding encode_utf8
encode_utf8-pair c d s h l = rw (h, l) refl

units-unit : (c : ℕ) → c ≤ 0xffff → units c ≡ c ∷ []
unfolding units
units-unit c h = ground arith

units-join : (c d : ℕ) → is_high c ≡ true → is_low d ≡ true → units (join c d) ≡ c ∷ d ∷ []
unfolding units join is_high is_low
units-join c d h l = ground arith

join_range :
    (c d : ℕ) → is_high c ≡ true → is_low d ≡ true → (0xe000 ≤ join c d) × (join c d < 0x110000)
unfolding join is_high is_low
join_range c d h l = ground arith

unit_range : (c : ℕ) → is_high c ≡ false → is_low c ≡ false → (c < 0xd800) ⊎ (0xe000 ≤ c)
unfolding is_high is_low
unit_range c h l = elim (dec_lt c 0xd800) [ yes a ↦ inl a | no a ↦ inr (ground arith) ]

empty_text : decode_from at_boundary (encode_utf8 []) ≡ some []
unfolding decode_from encode_utf8
empty_text = refl

-- The decoder gives back every Unicode text from the bytes that `TextEncoder` makes of it.
pub decode_from-encode_utf8 :
    (t : Text) → WellFormed t → AreUnits t → decode_from at_boundary (encode_utf8 t) ≡ some t
decode_from-encode_utf8 [] empty a = empty_text
decode_from-encode_utf8 (c ∷ s) (unit h l w) (a, b) =
    rw
      (
        encode_utf8-unit c s h l,
        Reads-point c (encode_utf8 s) (unit_range c h l) (omega (arith, a)),
        decode_from-encode_utf8 s w b,
        units-unit c a,
      )
      refl
decode_from-encode_utf8 (c ∷ d ∷ s) (pair h l w) (a, (b, k)) =
    let (low, high) = join_range c d h l in
    rw
      (
        encode_utf8-pair c d s h l,
        Reads-point (join c d) (encode_utf8 s) (inr low) high,
        decode_from-encode_utf8 s w k,
        units-join c d h l,
      )
      refl
