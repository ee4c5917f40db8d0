-- ===== src/Middleware/ModbusRtu/Frame.antt =====
-- Setting and checking the CRC of a frame.
use nx_c_util.Base.{
  ℕ, zero, suc, ◌-◌, ◌*◌, ◌/◌, ◌%◌, ◌^◌, ◌≤◌, ◌<◌, ◌≡◌, ◌≢◌, refl, ap, ◌∙◌, arith, true, false,
  some, List, [], ◌∷◌, ==_iff, ltb, bit_and, bit_or, get_or, set, take, length, length-set, u8, u16,
  ◌<<◌, ◌>>◌,
}
use mathlib.Core.Option
use nx_c_util.Base.Bits.{or_sum_low, and_mask}
use nx_c_util.Middleware.ModbusRtu.{crc_byte, crc_bytes, crc16, set_crc, check_crc}

module _ {A : Type 0} where
  get_or-set_self : (xs : List A) (i : ℕ) (v d : A) → i < length xs → get_or (set xs i v) i d ≡ v
  get_or-set_self [] i v d h = absurd (omega arith)
  get_or-set_self (x ∷ xs) zero v d h = refl
  get_or-set_self (x ∷ xs) (suc i) v d h = get_or-set_self xs i v d (omega arith)

  get_or-set_ne :
      (xs : List A) (i j : ℕ) (v d : A) → i ≢ j → get_or (set xs i v) j d ≡ get_or xs j d
  get_or-set_ne [] i j v d ne = refl
  get_or-set_ne (x ∷ xs) zero zero v d ne = absurd (ne refl)
  get_or-set_ne (x ∷ xs) zero (suc j) v d ne = refl
  get_or-set_ne (x ∷ xs) (suc i) zero v d ne = refl
  get_or-set_ne (x ∷ xs) (suc i) (suc j) v d ne = get_or-set_ne xs i j v d (omega arith)

  take-set : (n i : ℕ) (xs : List A) (v : A) → n ≤ i → take n (set xs i v) ≡ take n xs
  take-set zero i xs v h = refl
  take-set (suc n) i [] v h = refl
  take-set (suc n) zero (x ∷ xs) v h = absurd (omega arith)
  take-set (suc n) (suc i) (x ∷ xs) v h = ap (λ l. x ∷ l) (take-set n i xs v (omega arith))

crc_byte-lt : (crc b : ℕ) → crc_byte crc b < 2 ^ 16
unfolding crc_byte
crc_byte-lt crc b = omega arith

crc_bytes-lt : (crc : ℕ) (bs : List ℕ) → crc < 2 ^ 16 → crc_bytes crc bs < 2 ^ 16
unfolding crc_bytes
crc_bytes-lt crc [] h = h
crc_bytes-lt crc (b ∷ bs) h = crc_bytes-lt (crc_byte crc b) bs (crc_byte-lt crc b)

crc16-lt : (bs : List ℕ) → crc16 (some bs) < 2 ^ 16
unfolding crc16
crc16-lt bs = crc_bytes-lt 0xFFFF bs (omega arith)

-- Low byte first, then high byte.
stored_word :
    (c : ℕ) → c < 2 ^ 16 → u16 (bit_or (u8 (bit_and c 0xFF)) (u8 (bit_and (c >> 8) 0xFF) << 8)) ≡ c
stored_word c h =
    let l : u8 (bit_and c 0xFF) ≡ c % 256 = omega (arith, and_mask 8 c) in
    let u : u8 (bit_and (c / 2 ^ 8) 0xFF) ≡ c / 256 = omega (arith, and_mask 8 (c / 2 ^ 8)) in
    rw (l, u, or_sum_low 8 (c % 256) (c / 256 * 2 ^ 8) (omega arith) (omega arith)) (omega arith)

module _ (frame : List ℕ) (len : ℕ) (enough : 5 ≤ len) (fits : len ≤ length frame) where
  crc : ℕ
  crc = crc16 (some (take (len - 2) frame))

  low : ℕ
  unfolding crc
  low = u8 (bit_and crc 0xFF)

  high : ℕ
  unfolding crc
  high = u8 (bit_and (crc >> 8) 0xFF)

  once : List ℕ
  once = set frame (len - 2) low

  sealed : List ℕ
  sealed = set once (len - 1) high

  set_crc-sealed : set_crc (some frame) len ≡ (true, some sealed)
  unfolding set_crc sealed once low high
  set_crc-sealed = ground arith

  take-sealed : take (len - 2) sealed ≡ take (len - 2) frame
  unfolding sealed once
  take-sealed =
      take-set (len - 2) (len - 1) (set frame (len - 2) low) high (omega arith)
      ∙ take-set (len - 2) (len - 2) frame low (omega arith)

  low-sealed : get_or sealed (len - 2) 0 ≡ low
  unfolding sealed once
  low-sealed =
      get_or-set_ne (set frame (len - 2) low) (len - 1) (len - 2) high 0 (omega arith)
      ∙ get_or-set_self frame (len - 2) low 0 (omega arith)

  high-sealed : get_or sealed (len - 1) 0 ≡ high
  unfolding sealed once
  high-sealed =
      get_or-set_self (set frame (len - 2) low) (len - 1) high 0
        (omega (arith, length-set frame (len - 2) low))

  check_crc-sealed : check_crc (some sealed) len ≡ true
  unfolding check_crc
  check_crc-sealed =
      let stored : u16 (bit_or (get_or sealed (len - 2) 0) (get_or sealed (len - 1) 0 << 8)) ≡ crc =
        rw (low-sealed, high-sealed)
          (unfold low high crc in stored_word crc (crc16-lt (take (len - 2) frame))) in
      let computed : crc16 (some (take (len - 2) sealed)) ≡ crc =
        ap (λ l. crc16 (some l)) take-sealed ∙ (unfold crc in refl) in
      let long : ltb len 5 ≡ false = ground arith in
      rw (long, stored, computed) ((==_iff crc crc).1 refl)

-- Setting the CRC of a frame of `len` bytes, at least five, succeeds; the result passes the check,
-- and the bytes in front of the CRC are as they were.
pub check_crc-set_crc :
    (frame : List ℕ) (len : ℕ)
    → 5 ≤ len
    → len ≤ length frame
    → let (done, frame') = set_crc (some frame) len in
      (done ≡ true)
      × (check_crc frame' len ≡ true)
      × (Option.map (take (len - 2)) frame' ≡ some (take (len - 2) frame))
check_crc-set_crc frame len enough fits =
    rw (set_crc-sealed frame len enough fits)
      (refl, check_crc-sealed frame len enough fits, ap some (take-sealed frame len enough fits))
