-- ===== src/Core/RingBuf/Linear.antt =====
-- The contiguous regions that nx_ringbuf.c hands to a DMA engine.
use nx_c_util.Base.{
  slot, ◌==◌, if◌then◌else◌, ℕ, ◌-◌, ◌≤◌, ◌<◌, ◌≡◌, ◌≢◌, sym, ap, ◌∙◌, arith, Option, none, some,
  List, take, drop, length, min, copy_at,
}
use nx_c_util.Core.RingBuf.{
  RingBuf, write, peek_linear, poke_linear, commit, commit_to, poke_linear_to, peek_linear_to, Run,
}
use nx_c_util.Core.RingBuf.Contents.{contents, contents-window}
use nx_c_util.Core.RingBuf.Inv.{IsValid}
use nx_c_util.Core.RingBuf.Fetch.{take-once}
use nx_c_util.Core.RingBuf.Calls.{wrap_pos-slot, free-sub, clamp-min, write-wrote, wrote}
use nx_c_util.Core.RingBuf.Store.{store_at_once}

-- The readable region of a ring starts at the read position and holds the oldest bytes, as many
-- as are stored or as lie up to the end of the buffer; an empty ring has none.
pub peek_linear_lem :
    {rb : RingBuf} (v : IsValid rb)
    → let n = min rb.count (rb.capacity - rb.read_pos) in
      (peek_linear rb ≡ (if rb.count == 0 then none else some (rb.read_pos, n)))
      × (take n (drop rb.read_pos v.buf) ≡ take n (contents rb))
unfolding peek_linear peek_linear_to
peek_linear_lem {rb} v = (ap peek_linear_to_rb v.holds ∙ ground arith, prefix)
  where
    peek_linear_to_rb : Option (List ℕ) → Run
    peek_linear_to_rb = peek_linear_to rb

    n : ℕ
    n = min rb.count (rb.capacity - rb.read_pos)

    prefix : take n (drop rb.read_pos v.buf) ≡ take n (contents rb)
    prefix =
        take-once v.buf rb.capacity rb.read_pos rb.count v.storage v.read_in v.count_in n
          (omega arith) (omega arith)
        ∙ ap (take n) (sym (contents-window rb v.buf v.holds))

poke_linear-slot :
    {rb : RingBuf} (v : IsValid rb) {off room : ℕ}
    → poke_linear rb ≡ some (off, room)
    → (off ≡ slot rb.capacity rb.read_pos rb.count)
      × (room ≡ min (rb.capacity - rb.count) (rb.capacity - off))
      × (rb.count < rb.capacity)
unfolding poke_linear poke_linear_to
poke_linear-slot {rb} v {off} {room} e =
    let e' : poke_linear_to rb (some v.buf) ≡ some (off, room) =
      ap (poke_linear_to rb) (sym v.holds) ∙ e in
    ground (
      arith,
      wrap_pos-slot rb.capacity rb.read_pos rb.count v.small v.read_in v.count_in,
      free-sub v,
    )

-- Filling the free region that `nx_ringbuf_poke_linear` gives with the first `m` bytes of a source
-- and committing them does to the ring what `nx_ringbuf_write` of those bytes does.
pub poke-commit-write :
    {rb : RingBuf} (v : IsValid rb) (src : List ℕ) (m : ℕ) {off room : ℕ}
    → poke_linear rb ≡ some (off, room)
    → m ≤ room
    → m ≢ 0
    → m ≤ length src
    → commit (record rb { buffer = some (copy_at v.buf off (take m src)) }) m
      ≡ write rb (some src) m
unfolding commit commit_to wrote
poke-commit-write {rb} v src m {off} {room} e le ne given =
    let p = poke_linear-slot v e in
    let size : min m (rb.capacity - rb.count) ≡ m = omega arith in
    ground (
      arith,
      size,
      write-wrote v src m,
      free-sub v,
      clamp-min m (rb.capacity - rb.count),
      store_at_once v.buf src rb.capacity off m v.storage v.small (omega arith) (omega arith) given
          (omega arith),
    )
