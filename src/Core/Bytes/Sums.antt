-- ===== src/Core/Bytes/Sums.antt =====
-- The words that nx_bytes.h reads and swaps, as sums of their bytes.
use nx_c_util.Base.{ℕ, ◌+◌, ◌*◌, ◌/◌, ◌%◌, ◌^◌, ◌<◌, ◌≡◌, arith, List, bit_and}
use nx_c_util.Base.Bits.{or_sum, or_sum_low, and_field}
use nx_c_util.Core.Bytes.{
  byte, get_be16, get_le16, get_be32, get_le32, get_be64, get_le64, swap16, swap32, swap64,
}

-- The first 2 bytes are bytes.
abbrev pub AreBytes16 : List ℕ → Type 0
AreBytes16 p = (byte p 0 < 256) × (byte p 1 < 256)

pub get_be16_sum : (p : List ℕ) → AreBytes16 p → get_be16 p ≡ byte p 0 * 2 ^ 8 + byte p 1
unfolding get_be16
get_be16_sum p h =
    rw (or_sum 8 (byte p 0 * 2 ^ 8) (byte p 1) (omega arith) (omega arith)) (omega arith)

pub get_le16_sum : (p : List ℕ) → AreBytes16 p → get_le16 p ≡ byte p 1 * 2 ^ 8 + byte p 0
unfolding get_le16
get_le16_sum p h =
    rw (or_sum 8 (byte p 1 * 2 ^ 8) (byte p 0) (omega arith) (omega arith)) (omega arith)

pub swap16_sum : (v : ℕ) → v < 2 ^ 16 → swap16 v ≡ v / 2 ^ 8 % 256 * 2 ^ 0 + v / 2 ^ 0 % 256 * 2 ^ 8
unfolding swap16
swap16_sum v h =
    let m0 : bit_and (v / 2 ^ 8) (255 * 2 ^ 0) ≡ v / 2 ^ 8 % 256 * 2 ^ 0 =
      omega (arith, and_field 0 8 (v / 2 ^ 8)) in
    let m1 : bit_and (v * 2 ^ 8) (255 * 2 ^ 8) ≡ v / 2 ^ 0 % 256 * 2 ^ 8 =
      omega (arith, and_field 8 8 (v * 2 ^ 8)) in
    rw
      (
        m0,
        m1,
        or_sum_low 8 (v / 2 ^ 8 % 256 * 2 ^ 0) (v / 2 ^ 0 % 256 * 2 ^ 8) (omega arith)
            (omega arith),
      )
      (omega arith)

-- The first 4 bytes are bytes.
abbrev pub AreBytes32 : List ℕ → Type 0
AreBytes32 p = (byte p 0 < 256) × (byte p 1 < 256) × (byte p 2 < 256) × (byte p 3 < 256)

pub get_be32_sum :
    (p : List ℕ)
    → AreBytes32 p
    → get_be32 p ≡ byte p 0 * 2 ^ 24 + byte p 1 * 2 ^ 16 + byte p 2 * 2 ^ 8 + byte p 3
unfolding get_be32
get_be32_sum p h =
    rw
      (
        or_sum 24 (byte p 0 * 2 ^ 24) (byte p 1 * 2 ^ 16) (omega arith) (omega arith),
        or_sum 16 (byte p 0 * 2 ^ 24 + byte p 1 * 2 ^ 16) (byte p 2 * 2 ^ 8) (omega arith)
            (omega arith),
        or_sum 8 (byte p 0 * 2 ^ 24 + byte p 1 * 2 ^ 16 + byte p 2 * 2 ^ 8) (byte p 3) (omega arith)
            (omega arith),
      )
      (omega arith)

pub get_le32_sum :
    (p : List ℕ)
    → AreBytes32 p
    → get_le32 p ≡ byte p 3 * 2 ^ 24 + byte p 2 * 2 ^ 16 + byte p 1 * 2 ^ 8 + byte p 0
unfolding get_le32
get_le32_sum p h =
    rw
      (
        or_sum 24 (byte p 3 * 2 ^ 24) (byte p 2 * 2 ^ 16) (omega arith) (omega arith),
        or_sum 16 (byte p 3 * 2 ^ 24 + byte p 2 * 2 ^ 16) (byte p 1 * 2 ^ 8) (omega arith)
            (omega arith),
        or_sum 8 (byte p 3 * 2 ^ 24 + byte p 2 * 2 ^ 16 + byte p 1 * 2 ^ 8) (byte p 0) (omega arith)
            (omega arith),
      )
      (omega arith)

pub swap32_sum :
    (v : ℕ)
    → v < 2 ^ 32
    → swap32 v
      ≡ v / 2 ^ 24 % 256 * 2 ^ 0
        + v / 2 ^ 16 % 256 * 2 ^ 8
        + v / 2 ^ 8 % 256 * 2 ^ 16
        + v / 2 ^ 0 % 256 * 2 ^ 24
unfolding swap32
swap32_sum v h =
    let m0 : bit_and (v / 2 ^ 24) (255 * 2 ^ 0) ≡ v / 2 ^ 24 % 256 * 2 ^ 0 =
      omega (arith, and_field 0 8 (v / 2 ^ 24)) in
    let m1 : bit_and (v / 2 ^ 8) (255 * 2 ^ 8) ≡ v / 2 ^ 16 % 256 * 2 ^ 8 =
      omega (arith, and_field 8 8 (v / 2 ^ 8)) in
    let m2 : bit_and (v * 2 ^ 8 % 2 ^ 32) (255 * 2 ^ 16) ≡ v / 2 ^ 8 % 256 * 2 ^ 16 =
      omega (arith, and_field 16 8 (v * 2 ^ 8 % 2 ^ 32)) in
    let m3 : bit_and (v * 2 ^ 24 % 2 ^ 32) (255 * 2 ^ 24) ≡ v / 2 ^ 0 % 256 * 2 ^ 24 =
      omega (arith, and_field 24 8 (v * 2 ^ 24 % 2 ^ 32)) in
    rw
      (
        m0,
        m1,
        m2,
        m3,
        or_sum_low 8 (v / 2 ^ 24 % 256 * 2 ^ 0) (v / 2 ^ 16 % 256 * 2 ^ 8) (omega arith)
            (omega arith),
        or_sum_low 16 (v / 2 ^ 24 % 256 * 2 ^ 0 + v / 2 ^ 16 % 256 * 2 ^ 8)
            (v / 2 ^ 8 % 256 * 2 ^ 16) (omega arith) (omega arith),
        or_sum_low 24
            (v / 2 ^ 24 % 256 * 2 ^ 0 + v / 2 ^ 16 % 256 * 2 ^ 8 + v / 2 ^ 8 % 256 * 2 ^ 16)
            (v / 2 ^ 0 % 256 * 2 ^ 24) (omega arith) (omega arith),
      )
      (omega arith)

-- The first 8 bytes are bytes.
abbrev pub AreBytes64 : List ℕ → Type 0
AreBytes64 p =
    (byte p 0 < 256)
    × (byte p 1 < 256)
    × (byte p 2 < 256)
    × (byte p 3 < 256)
    × (byte p 4 < 256)
    × (byte p 5 < 256)
    × (byte p 6 < 256)
    × (byte p 7 < 256)

pub get_be64_sum :
    (p : List ℕ)
    → AreBytes64 p
    → get_be64 p
      ≡ byte p 0 * 2 ^ 56
        + byte p 1 * 2 ^ 48
        + byte p 2 * 2 ^ 40
        + byte p 3 * 2 ^ 32
        + byte p 4 * 2 ^ 24
        + byte p 5 * 2 ^ 16
        + byte p 6 * 2 ^ 8
        + byte p 7
unfolding get_be64
get_be64_sum p h =
    rw
      (
        or_sum 56 (byte p 0 * 2 ^ 56) (byte p 1 * 2 ^ 48) (omega arith) (omega arith),
        or_sum 48 (byte p 0 * 2 ^ 56 + byte p 1 * 2 ^ 48) (byte p 2 * 2 ^ 40) (omega arith)
            (omega arith),
        or_sum 40 (byte p 0 * 2 ^ 56 + byte p 1 * 2 ^ 48 + byte p 2 * 2 ^ 40) (byte p 3 * 2 ^ 32)
            (omega arith) (omega arith),
        or_sum 32 (byte p 0 * 2 ^ 56 + byte p 1 * 2 ^ 48 + byte p 2 * 2 ^ 40 + byte p 3 * 2 ^ 32)
            (byte p 4 * 2 ^ 24) (omega arith) (omega arith),
        or_sum 24
            (byte p 0 * 2 ^ 56
              + byte p 1 * 2 ^ 48
              + byte p 2 * 2 ^ 40
              + byte p 3 * 2 ^ 32
              + byte p 4 * 2 ^ 24)
            (byte p 5 * 2 ^ 16) (omega arith) (omega arith),
        or_sum 16
            (byte p 0 * 2 ^ 56
              + byte p 1 * 2 ^ 48
              + byte p 2 * 2 ^ 40
              + byte p 3 * 2 ^ 32
              + byte p 4 * 2 ^ 24
              + byte p 5 * 2 ^ 16)
            (byte p 6 * 2 ^ 8) (omega arith) (omega arith),
        or_sum 8
            (byte p 0 * 2 ^ 56
              + byte p 1 * 2 ^ 48
              + byte p 2 * 2 ^ 40
              + byte p 3 * 2 ^ 32
              + byte p 4 * 2 ^ 24
              + byte p 5 * 2 ^ 16
              + byte p 6 * 2 ^ 8)
            (byte p 7) (omega arith) (omega arith),
      )
      (omega arith)

pub get_le64_sum :
    (p : List ℕ)
    → AreBytes64 p
    → get_le64 p
      ≡ byte p 7 * 2 ^ 56
        + byte p 6 * 2 ^ 48
        + byte p 5 * 2 ^ 40
        + byte p 4 * 2 ^ 32
        + byte p 3 * 2 ^ 24
        + byte p 2 * 2 ^ 16
        + byte p 1 * 2 ^ 8
        + byte p 0
unfolding get_le64
get_le64_sum p h =
    rw
      (
        or_sum 56 (byte p 7 * 2 ^ 56) (byte p 6 * 2 ^ 48) (omega arith) (omega arith),
        or_sum 48 (byte p 7 * 2 ^ 56 + byte p 6 * 2 ^ 48) (byte p 5 * 2 ^ 40) (omega arith)
            (omega arith),
        or_sum 40 (byte p 7 * 2 ^ 56 + byte p 6 * 2 ^ 48 + byte p 5 * 2 ^ 40) (byte p 4 * 2 ^ 32)
            (omega arith) (omega arith),
        or_sum 32 (byte p 7 * 2 ^ 56 + byte p 6 * 2 ^ 48 + byte p 5 * 2 ^ 40 + byte p 4 * 2 ^ 32)
            (byte p 3 * 2 ^ 24) (omega arith) (omega arith),
        or_sum 24
            (byte p 7 * 2 ^ 56
              + byte p 6 * 2 ^ 48
              + byte p 5 * 2 ^ 40
              + byte p 4 * 2 ^ 32
              + byte p 3 * 2 ^ 24)
            (byte p 2 * 2 ^ 16) (omega arith) (omega arith),
        or_sum 16
            (byte p 7 * 2 ^ 56
              + byte p 6 * 2 ^ 48
              + byte p 5 * 2 ^ 40
              + byte p 4 * 2 ^ 32
              + byte p 3 * 2 ^ 24
              + byte p 2 * 2 ^ 16)
            (byte p 1 * 2 ^ 8) (omega arith) (omega arith),
        or_sum 8
            (byte p 7 * 2 ^ 56
              + byte p 6 * 2 ^ 48
              + byte p 5 * 2 ^ 40
              + byte p 4 * 2 ^ 32
              + byte p 3 * 2 ^ 24
              + byte p 2 * 2 ^ 16
              + byte p 1 * 2 ^ 8)
            (byte p 0) (omega arith) (omega arith),
      )
      (omega arith)

pub swap64_sum :
    (v : ℕ)
    → v < 2 ^ 64
    → swap64 v
      ≡ v / 2 ^ 56 % 256 * 2 ^ 0
        + v / 2 ^ 48 % 256 * 2 ^ 8
        + v / 2 ^ 40 % 256 * 2 ^ 16
        + v / 2 ^ 32 % 256 * 2 ^ 24
        + v / 2 ^ 24 % 256 * 2 ^ 32
        + v / 2 ^ 16 % 256 * 2 ^ 40
        + v / 2 ^ 8 % 256 * 2 ^ 48
        + v / 2 ^ 0 % 256 * 2 ^ 56
unfolding swap64
swap64_sum v h =
    let m0 : bit_and (v / 2 ^ 56) (255 * 2 ^ 0) ≡ v / 2 ^ 56 % 256 * 2 ^ 0 =
      omega (arith, and_field 0 8 (v / 2 ^ 56)) in
    let m1 : bit_and (v / 2 ^ 40) (255 * 2 ^ 8) ≡ v / 2 ^ 48 % 256 * 2 ^ 8 =
      omega (arith, and_field 8 8 (v / 2 ^ 40)) in
    let m2 : bit_and (v / 2 ^ 24) (255 * 2 ^ 16) ≡ v / 2 ^ 40 % 256 * 2 ^ 16 =
      omega (arith, and_field 16 8 (v / 2 ^ 24)) in
    let m3 : bit_and (v / 2 ^ 8) (255 * 2 ^ 24) ≡ v / 2 ^ 32 % 256 * 2 ^ 24 =
      omega (arith, and_field 24 8 (v / 2 ^ 8)) in
    let m4 : bit_and (v * 2 ^ 8 % 2 ^ 64) (255 * 2 ^ 32) ≡ v / 2 ^ 24 % 256 * 2 ^ 32 =
      omega (arith, and_field 32 8 (v * 2 ^ 8 % 2 ^ 64)) in
    let m5 : bit_and (v * 2 ^ 24 % 2 ^ 64) (255 * 2 ^ 40) ≡ v / 2 ^ 16 % 256 * 2 ^ 40 =
      omega (arith, and_field 40 8 (v * 2 ^ 24 % 2 ^ 64)) in
    let m6 : bit_and (v * 2 ^ 40 % 2 ^ 64) (255 * 2 ^ 48) ≡ v / 2 ^ 8 % 256 * 2 ^ 48 =
      omega (arith, and_field 48 8 (v * 2 ^ 40 % 2 ^ 64)) in
    let m7 : bit_and (v * 2 ^ 56 % 2 ^ 64) (255 * 2 ^ 56) ≡ v / 2 ^ 0 % 256 * 2 ^ 56 =
      omega (arith, and_field 56 8 (v * 2 ^ 56 % 2 ^ 64)) in
    rw
      (
        m0,
        m1,
        m2,
        m3,
        m4,
        m5,
        m6,
        m7,
        or_sum_low 8 (v / 2 ^ 56 % 256 * 2 ^ 0) (v / 2 ^ 48 % 256 * 2 ^ 8) (omega arith)
            (omega arith),
        or_sum_low 16 (v / 2 ^ 56 % 256 * 2 ^ 0 + v / 2 ^ 48 % 256 * 2 ^ 8)
            (v / 2 ^ 40 % 256 * 2 ^ 16) (omega arith) (omega arith),
        or_sum_low 24
            (v / 2 ^ 56 % 256 * 2 ^ 0 + v / 2 ^ 48 % 256 * 2 ^ 8 + v / 2 ^ 40 % 256 * 2 ^ 16)
            (v / 2 ^ 32 % 256 * 2 ^ 24) (omega arith) (omega arith),
        or_sum_low 32
            (v / 2 ^ 56 % 256 * 2 ^ 0
              + v / 2 ^ 48 % 256 * 2 ^ 8
              + v / 2 ^ 40 % 256 * 2 ^ 16
              + v / 2 ^ 32 % 256 * 2 ^ 24)
            (v / 2 ^ 24 % 256 * 2 ^ 32) (omega arith) (omega arith),
        or_sum_low 40
            (v / 2 ^ 56 % 256 * 2 ^ 0
              + v / 2 ^ 48 % 256 * 2 ^ 8
              + v / 2 ^ 40 % 256 * 2 ^ 16
              + v / 2 ^ 32 % 256 * 2 ^ 24
              + v / 2 ^ 24 % 256 * 2 ^ 32)
            (v / 2 ^ 16 % 256 * 2 ^ 40) (omega arith) (omega arith),
        or_sum_low 48
            (v / 2 ^ 56 % 256 * 2 ^ 0
              + v / 2 ^ 48 % 256 * 2 ^ 8
              + v / 2 ^ 40 % 256 * 2 ^ 16
              + v / 2 ^ 32 % 256 * 2 ^ 24
              + v / 2 ^ 24 % 256 * 2 ^ 32
              + v / 2 ^ 16 % 256 * 2 ^ 40)
            (v / 2 ^ 8 % 256 * 2 ^ 48) (omega arith) (omega arith),
        or_sum_low 56
            (v / 2 ^ 56 % 256 * 2 ^ 0
              + v / 2 ^ 48 % 256 * 2 ^ 8
              + v / 2 ^ 40 % 256 * 2 ^ 16
              + v / 2 ^ 32 % 256 * 2 ^ 24
              + v / 2 ^ 24 % 256 * 2 ^ 32
              + v / 2 ^ 16 % 256 * 2 ^ 40
              + v / 2 ^ 8 % 256 * 2 ^ 48)
            (v / 2 ^ 0 % 256 * 2 ^ 56) (omega arith) (omega arith),
      )
      (omega arith)
