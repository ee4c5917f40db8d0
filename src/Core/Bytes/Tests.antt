-- ===== src/Core/Bytes/Tests.antt =====
-- Runs of nx_bytes.h at concrete inputs, and the theorems about it at such inputs.
use nx_c_util.Base.{ℕ, ◌≡◌, refl, arith, List, [], ◌∷◌, u16, u32}
use nx_c_util.Core.Bytes.{
  get_be16, set_be16, get_le16, set_le16, get_be32, set_be32, get_le32, set_le32, get_be64,
  set_be64, get_le64, set_le64, swap16, swap32, swap64,
}
use nx_c_util.Core.Bytes.RoundTrip.{get-set, swap-get}

abbrev octets : List ℕ
octets = 0x12 ∷ 0x34 ∷ 0x56 ∷ 0x78 ∷ 0x9a ∷ 0xbc ∷ 0xde ∷ 0xf0 ∷ []

orders :
    (get_be32 octets ≡ 0x12345678)
    × (get_le32 octets ≡ 0x78563412)
    × (swap16 0x1234 ≡ 0x3412)
    × (swap64 0x0102030405060708 ≡ 0x0807060504030201)
unfolding get_be32 get_le32 swap16 swap64
orders = (refl, refl, refl, refl)

get-set_example :
    let v : ℕ = 0xfedcba9876543210 in
    (get_be16 (set_be16 octets (u16 v)) ≡ u16 v)
    × (get_le16 (set_le16 octets (u16 v)) ≡ u16 v)
    × (get_be32 (set_be32 octets (u32 v)) ≡ u32 v)
    × (get_le32 (set_le32 octets (u32 v)) ≡ u32 v)
    × (get_be64 (set_be64 octets v) ≡ v)
    × (get_le64 (set_le64 octets v) ≡ v)
get-set_example = get-set octets 0xfedcba9876543210 (omega arith) (omega arith)

swap-get_example :
    (swap16 (get_be16 octets) ≡ get_le16 octets)
    × (swap16 (get_le16 octets) ≡ get_be16 octets)
    × (swap32 (get_be32 octets) ≡ get_le32 octets)
    × (swap32 (get_le32 octets) ≡ get_be32 octets)
    × (swap64 (get_be64 octets) ≡ get_le64 octets)
    × (swap64 (get_le64 octets) ≡ get_be64 octets)
swap-get_example = swap-get octets (omega arith)
