-- ===== src/Middleware/UdsSvcTransfer/Fields.antt =====
-- src/middleware/nx_uds_svc_transfer.c: reading and writing big-endian fields.
pub mod RoundTrip
use nx_c_util.Base.{
  ℕ, zero, suc, ◌+◌, ◌-◌, ◌*◌, ◌%◌, ◌^◌, Option, none, some, List, [], ◌∷◌, ltb, leb, ◌==◌,
  if◌then◌else◌, u8, u32, ◌<<◌, ◌>>◌, bit_or, length, set,
}

-- The second loop of `xfer_read_be`, from the value so far.
unfoldable pub read_value : ℕ → List ℕ → ℕ
read_value v [] = v
read_value v (b ∷ bs) = read_value (bit_or (u32 (v << 8)) b) bs

-- `xfer_read_be` of the bytes of a field: while more than four bytes are left, they have to be zero.
unfoldable pub read_be : List ℕ → Option ℕ
unfolding read_value
read_be [] = some 0
read_be (b ∷ bs) =
    let rest = read_be bs in
    if ltb 4 (length (b ∷ bs))
    then (if b == 0 then rest else none)
    else some (read_value 0 (b ∷ bs))

-- The loop of `xfer_write_be` at `off`, with the rounds left.
unfoldable pub write_from : (rounds i off len v : ℕ) → List ℕ → List ℕ
write_from zero i off len v out = out
write_from (suc n) i off len v out =
    write_from n (i + 1) off len v (set out (off + (len - 1 - i)) (u8 (v >> (8 * i))))

-- `xfer_write_be` at `&out[off]`.
unfoldable pub write_be : List ℕ → (off len v : ℕ) → List ℕ
unfolding write_from
write_be out off len v = write_from len 0 off len v out

-- `xfer_width_for`
unfoldable pub width_for : ℕ → ℕ
width_for v = if leb v 0xFF then 1 else if leb v 0xFFFF then 2 else 4
