-- ===== src/Core/Bytes.antt =====
-- src/core/nx_bytes.h: reading and writing words in both byte orders, and byte swaps. A pointer is
-- the list of the bytes behind it; a writer returns the bytes afterwards.
pub mod Sums
pub mod RoundTrip
mod Tests
use nx_c_util.Base.{ℕ, List, ◌<<◌, ◌>>◌, u8, u16, u32, u64, bit_and, bit_or, get_or, set}

-- `ptr[i]`
abbrev pub byte : List ℕ → ℕ → ℕ
byte ptr i = get_or ptr i 0

-- `nx_bytes_get_be16`
pub get_be16 : List ℕ → ℕ
get_be16 ptr = u16 (bit_or (byte ptr 0 << 8) (byte ptr 1))

-- `nx_bytes_set_be16`
pub set_be16 : List ℕ → ℕ → List ℕ
set_be16 ptr val = set (set ptr 0 (u8 (val >> 8))) 1 (u8 val)

-- `nx_bytes_get_le16`
pub get_le16 : List ℕ → ℕ
get_le16 ptr = u16 (bit_or (byte ptr 1 << 8) (byte ptr 0))

-- `nx_bytes_set_le16`
pub set_le16 : List ℕ → ℕ → List ℕ
set_le16 ptr val = set (set ptr 0 (u8 val)) 1 (u8 (val >> 8))

-- `nx_bytes_get_be32`
pub get_be32 : List ℕ → ℕ
get_be32 ptr =
    u32 (
      bit_or (bit_or (bit_or (byte ptr 0 << 24) (byte ptr 1 << 16)) (byte ptr 2 << 8)) (byte ptr 3))

-- `nx_bytes_set_be32`
pub set_be32 : List ℕ → ℕ → List ℕ
set_be32 ptr val =
    set (set (set (set ptr 0 (u8 (val >> 24))) 1 (u8 (val >> 16))) 2 (u8 (val >> 8))) 3 (u8 val)

-- `nx_bytes_get_le32`
pub get_le32 : List ℕ → ℕ
get_le32 ptr =
    u32 (
      bit_or (bit_or (bit_or (byte ptr 3 << 24) (byte ptr 2 << 16)) (byte ptr 1 << 8)) (byte ptr 0))

-- `nx_bytes_set_le32`
pub set_le32 : List ℕ → ℕ → List ℕ
set_le32 ptr val =
    set (set (set (set ptr 0 (u8 val)) 1 (u8 (val >> 8))) 2 (u8 (val >> 16))) 3 (u8 (val >> 24))

-- `nx_bytes_get_be64`
pub get_be64 : List ℕ → ℕ
get_be64 ptr = u64 (
    bit_or
      (bit_or
        (bit_or
          (bit_or
            (bit_or (bit_or (bit_or (byte ptr 0 << 56) (byte ptr 1 << 48)) (byte ptr 2 << 40))
              (byte ptr 3 << 32))
            (byte ptr 4 << 24))
          (byte ptr 5 << 16))
        (byte ptr 6 << 8))
      (byte ptr 7))

-- `nx_bytes_set_be64`
pub set_be64 : List ℕ → ℕ → List ℕ
set_be64 ptr val =
    set
      (set
        (set
          (set
            (set (set (set (set ptr 0 (u8 (val >> 56))) 1 (u8 (val >> 48))) 2 (u8 (val >> 40))) 3
              (u8 (val >> 32)))
            4 (u8 (val >> 24)))
          5 (u8 (val >> 16)))
        6 (u8 (val >> 8)))
      7 (u8 val)

-- `nx_bytes_get_le64`
pub get_le64 : List ℕ → ℕ
get_le64 ptr = u64 (
    bit_or
      (bit_or
        (bit_or
          (bit_or
            (bit_or (bit_or (bit_or (byte ptr 7 << 56) (byte ptr 6 << 48)) (byte ptr 5 << 40))
              (byte ptr 4 << 32))
            (byte ptr 3 << 24))
          (byte ptr 2 << 16))
        (byte ptr 1 << 8))
      (byte ptr 0))

-- `nx_bytes_set_le64`
pub set_le64 : List ℕ → ℕ → List ℕ
set_le64 ptr val =
    set
      (set
        (set
          (set
            (set (set (set (set ptr 0 (u8 val)) 1 (u8 (val >> 8))) 2 (u8 (val >> 16))) 3
              (u8 (val >> 24)))
            4 (u8 (val >> 32)))
          5 (u8 (val >> 40)))
        6 (u8 (val >> 48)))
      7 (u8 (val >> 56))

-- `nx_bytes_swap16`
pub swap16 : ℕ → ℕ
swap16 val = u16 (bit_or (bit_and (val >> 8) 0xFF) (bit_and (val << 8) 0xFF00))

-- `nx_bytes_swap32`
pub swap32 : ℕ → ℕ
swap32 val =
    bit_or
      (bit_or (bit_or (bit_and (val >> 24) 0xFF) (bit_and (val >> 8) 0xFF00))
        (bit_and (u32 (val << 8)) 0xFF0000))
      (bit_and (u32 (val << 24)) 0xFF000000)

-- `nx_bytes_swap64`
pub swap64 : ℕ → ℕ
swap64 val =
    bit_or
      (bit_or
        (bit_or
          (bit_or
            (bit_or
              (bit_or (bit_or (bit_and (val >> 56) 0xFF) (bit_and (val >> 40) 0xFF00))
                (bit_and (val >> 24) 0xFF0000))
              (bit_and (val >> 8) 0xFF000000))
            (bit_and (u64 (val << 8)) 0xFF00000000))
          (bit_and (u64 (val << 24)) 0xFF0000000000))
        (bit_and (u64 (val << 40)) 0xFF000000000000))
      (bit_and (u64 (val << 56)) 0xFF00000000000000)
