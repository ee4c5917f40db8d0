-- ===== src/Middleware/UdsSvcTransfer/Fields/RoundTrip.antt =====
-- A field that is written reads back.
use nx_c_util.Base.{
  ℕ, ◌+◌, ◌*◌, ◌/◌, ◌^◌, ◌≤◌, ◌<◌, ◌≡◌, refl, ap, ◌∙◌, arith, Bool-cases, inl, inr, some, List, [],
  ◌∷◌, leb, u8, u32, ◌<<◌, bit_or, length, take, drop, get_or, tests,
}
use nx_c_util.Base.Bits.{or_fields}
use nx_c_util.Middleware.UdsSvcTransfer.Fields.{
  read_value, read_be, write_from, write_be, width_for,
}

-- Appending a byte to a value of at most 24 bits.
or_byte : (v b : ℕ) → v < 2 ^ 24 → b < 256 → bit_or (u32 (v << 8)) b ≡ v * 256 + b
or_byte v b hv hb = ap (λ n. bit_or n b) {y = v * 2 ^ 8} (omega arith) ∙ or_fields 8 v b hb

read_value1 : (a : ℕ) → a < 256 → read_value 0 (a ∷ []) ≡ a
unfolding read_value
read_value1 a ha = or_byte 0 a (omega arith) ha ∙ omega arith

read_value2 : (a b : ℕ) → a < 256 → b < 256 → read_value 0 (a ∷ b ∷ []) ≡ a * 256 + b
unfolding read_value
read_value2 a b ha hb =
    ap (λ v. bit_or (u32 (v << 8)) b) (or_byte 0 a (omega arith) ha ∙ omega arith)
    ∙ or_byte a b (omega arith) hb

read_value4 :
    (a b c d : ℕ)
    → a < 256
    → b < 256
    → c < 256
    → d < 256
    → read_value 0 (a ∷ b ∷ c ∷ d ∷ []) ≡ ((a * 256 + b) * 256 + c) * 256 + d
unfolding read_value
read_value4 a b c d ha hb hc hd =
    ap (λ v. bit_or (u32 (bit_or (u32 (v << 8)) c << 8)) d) (read_value2 a b ha hb)
    ∙ ap (λ v. bit_or (u32 (v << 8)) d) (or_byte (a * 256 + b) c (omega arith) hc)
    ∙ or_byte ((a * 256 + b) * 256 + c) d (omega arith) hd

-- A field of `width` bytes behind the first two of a buffer reads back, and the byte before it is kept.
Reads : List ℕ → (v width : ℕ) → Type 0
Reads out v width =
    (read_be (take width (drop 2 (write_be out 2 width v))) ≡ some v)
    × (get_or (write_be out 2 width v) 1 0 ≡ get_or out 1 0)

one_byte : (out : List ℕ) (v : ℕ) → 3 ≤ length out → v < 256 → Reads out v 1
unfolding Reads read_be write_be write_from
one_byte (p ∷ q ∷ a ∷ out) v room h =
    (ap some (read_value1 (u8 (v / 2 ^ 0)) (omega arith) ∙ omega arith), refl)
one_byte _ v room h = absurd (omega arith)

two_bytes : (out : List ℕ) (v : ℕ) → 4 ≤ length out → v < 2 ^ 16 → Reads out v 2
unfolding Reads read_be write_be write_from
two_bytes (p ∷ q ∷ a ∷ b ∷ out) v room h = (
  ap some (read_value2 (u8 (v / 2 ^ 8)) (u8 (v / 2 ^ 0)) (omega arith) (omega arith) ∙ omega arith),
  refl,
)
two_bytes _ v room h = absurd (omega arith)

four_bytes : (out : List ℕ) (v : ℕ) → 6 ≤ length out → v < 2 ^ 32 → Reads out v 4
unfolding Reads read_be write_be write_from
four_bytes (p ∷ q ∷ a ∷ b ∷ c ∷ d ∷ out) v room h = (
  ap some (
      read_value4 (u8 (v / 2 ^ 24)) (u8 (v / 2 ^ 16)) (u8 (v / 2 ^ 8)) (u8 (v / 2 ^ 0))
        (omega arith) (omega arith) (omega arith) (omega arith)
      ∙ omega arith),
  refl,
)
four_bytes _ v room h = absurd (omega arith)

-- A 32-bit value that is written behind the first two bytes, in the narrowest width, reads back; the byte
-- before it is kept.
pub read_be-write_be :
    (out : List ℕ) (v : ℕ)
    → 2 + width_for v ≤ length out
    → v < 2 ^ 32
    → let width = width_for v in
      (read_be (take width (drop 2 (write_be out 2 width v))) ≡ some v)
      × (get_or (write_be out 2 width v) 1 0 ≡ get_or out 1 0)
unfolding width_for Reads
read_be-write_be out v room h = elim (Bool-cases (leb v 0xFF)) [
  | inl one ↦ rw one (one_byte out v (ground (arith, one)) (omega (tests, one)))
  | inr more ↦ elim (Bool-cases (leb v 0xFFFF)) [
    | inl two ↦ rw (more, two) (two_bytes out v (ground (arith, more, two)) (omega (tests, two)))
    | inr four ↦ rw (more, four) (four_bytes out v (ground (arith, more, four)) h)
  ]
]

pub width_for-le : (v : ℕ) → width_for v ≤ 4
unfolding width_for
width_for-le v = ground arith
