-- ===== src/Core/Bytes/RoundTrip.antt =====
-- Reading gives back what was written, in both byte orders, and a swap turns one order into the other.
use nx_c_util.Base.{ℕ, ◌≤◌, ◌^◌, ◌<◌, ◌≡◌, arith, List, ◌∷◌, length, u16, u32}
use nx_c_util.Core.Bytes.{
  get_be16, set_be16, get_le16, set_le16, get_be32, set_be32, get_le32, set_le32, get_be64,
  set_be64, get_le64, set_le64, swap16, swap32, swap64,
}
use nx_c_util.Core.Bytes.Sums.{
  AreBytes16, AreBytes32, AreBytes64, get_be16_sum, get_le16_sum, get_be32_sum, get_le32_sum,
  get_be64_sum, get_le64_sum, swap16_sum, swap32_sum, swap64_sum,
}

get-set16 :
    (a b v : ℕ) (rest : List ℕ)
    → v < 2 ^ 16
    → (get_be16 (set_be16 (a ∷ b ∷ rest) v) ≡ v) × (get_le16 (set_le16 (a ∷ b ∷ rest) v) ≡ v)
unfolding set_be16 set_le16
get-set16 a b v rest lt = (
  omega (arith, get_be16_sum (set_be16 (a ∷ b ∷ rest) v) (omega arith, omega arith)),
  omega (arith, get_le16_sum (set_le16 (a ∷ b ∷ rest) v) (omega arith, omega arith)),
)

get-set32 :
    (a b c d v : ℕ) (rest : List ℕ)
    → v < 2 ^ 32
    → (get_be32 (set_be32 (a ∷ b ∷ c ∷ d ∷ rest) v) ≡ v)
      × (get_le32 (set_le32 (a ∷ b ∷ c ∷ d ∷ rest) v) ≡ v)
unfolding set_be32 set_le32
get-set32 a b c d v rest lt = (
  omega (
    arith,
    get_be32_sum (set_be32 (a ∷ b ∷ c ∷ d ∷ rest) v)
        (omega arith, omega arith, omega arith, omega arith),
  ),
  omega (
    arith,
    get_le32_sum (set_le32 (a ∷ b ∷ c ∷ d ∷ rest) v)
        (omega arith, omega arith, omega arith, omega arith),
  ),
)

get-set64 :
    (a b c d e f g h v : ℕ) (rest : List ℕ)
    → v < 2 ^ 64
    → (get_be64 (set_be64 (a ∷ b ∷ c ∷ d ∷ e ∷ f ∷ g ∷ h ∷ rest) v) ≡ v)
      × (get_le64 (set_le64 (a ∷ b ∷ c ∷ d ∷ e ∷ f ∷ g ∷ h ∷ rest) v) ≡ v)
unfolding set_be64 set_le64
get-set64 a b c d e f g h v rest lt = (
  omega (
    arith,
    get_be64_sum (set_be64 (a ∷ b ∷ c ∷ d ∷ e ∷ f ∷ g ∷ h ∷ rest) v) (
      omega arith,
      omega arith,
      omega arith,
      omega arith,
      omega arith,
      omega arith,
      omega arith,
      omega arith,
    ),
  ),
  omega (
    arith,
    get_le64_sum (set_le64 (a ∷ b ∷ c ∷ d ∷ e ∷ f ∷ g ∷ h ∷ rest) v) (
      omega arith,
      omega arith,
      omega arith,
      omega arith,
      omega arith,
      omega arith,
      omega arith,
      omega arith,
    ),
  ),
)

-- In an array of eight bytes or more, each reader gives back the word that the writer of its width
-- and order stored: the low 16 or 32 bits of `v`, or `v`.
pub get-set :
    (p : List ℕ) (v : ℕ)
    → 8 ≤ length p
    → v < 2 ^ 64
    → (get_be16 (set_be16 p (u16 v)) ≡ u16 v)
      × (get_le16 (set_le16 p (u16 v)) ≡ u16 v)
      × (get_be32 (set_be32 p (u32 v)) ≡ u32 v)
      × (get_le32 (set_le32 p (u32 v)) ≡ u32 v)
      × (get_be64 (set_be64 p v) ≡ v)
      × (get_le64 (set_le64 p v) ≡ v)
get-set (a ∷ b ∷ c ∷ d ∷ e ∷ f ∷ g ∷ h ∷ rest) v size hv =
    let x = get-set16 a b (u16 v) (c ∷ d ∷ e ∷ f ∷ g ∷ h ∷ rest) (omega arith) in
    let y = get-set32 a b c d (u32 v) (e ∷ f ∷ g ∷ h ∷ rest) (omega arith) in
    let z = get-set64 a b c d e f g h v rest hv in (x.0, x.1, y.0, y.1, z.0, z.1)
get-set _ v size hv = absurd (omega arith)

get_swap16 :
    (p : List ℕ)
    → AreBytes16 p
    → (swap16 (get_be16 p) ≡ get_le16 p) × (swap16 (get_le16 p) ≡ get_be16 p)
get_swap16 p h =
    let x = get_be16_sum p h in
    let y = get_le16_sum p h in
    (
      omega (arith, swap16_sum (get_be16 p) (omega arith)),
      omega (arith, swap16_sum (get_le16 p) (omega arith)),
    )

get_swap32 :
    (p : List ℕ)
    → AreBytes32 p
    → (swap32 (get_be32 p) ≡ get_le32 p) × (swap32 (get_le32 p) ≡ get_be32 p)
get_swap32 p h =
    let x = get_be32_sum p h in
    let y = get_le32_sum p h in
    (
      omega (arith, swap32_sum (get_be32 p) (omega arith)),
      omega (arith, swap32_sum (get_le32 p) (omega arith)),
    )

get_swap64 :
    (p : List ℕ)
    → AreBytes64 p
    → (swap64 (get_be64 p) ≡ get_le64 p) × (swap64 (get_le64 p) ≡ get_be64 p)
get_swap64 p h =
    let x = get_be64_sum p h in
    let y = get_le64_sum p h in
    (
      omega (arith, swap64_sum (get_be64 p) (omega arith)),
      omega (arith, swap64_sum (get_le64 p) (omega arith)),
    )

-- Swapping a word read in one byte order gives the word that the other order reads, at every width.
pub swap-get :
    (p : List ℕ)
    → AreBytes64 p
    → (swap16 (get_be16 p) ≡ get_le16 p)
      × (swap16 (get_le16 p) ≡ get_be16 p)
      × (swap32 (get_be32 p) ≡ get_le32 p)
      × (swap32 (get_le32 p) ≡ get_be32 p)
      × (swap64 (get_be64 p) ≡ get_le64 p)
      × (swap64 (get_le64 p) ≡ get_be64 p)
swap-get p h =
    let x = get_swap16 p (h.0, h.1) in
    let y = get_swap32 p (h.0, h.1, h.2, h.3) in
    let z = get_swap64 p h in (x.0, x.1, y.0, y.1, z.0, z.1)
