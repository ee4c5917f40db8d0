-- ===== src/Core/RingBuf/Inv.antt =====
-- The representation invariant of `nx_ringbuf_t`, and that `nx_ringbuf_init` sets it up.
use nx_c_util.Base.{ℕ, ◌^◌, ◌≤◌, ◌<◌, ◌≡◌, arith, some, List, [], length}
use nx_c_util.Core.RingBuf.{RingBuf, init}
use nx_c_util.Core.RingBuf.Contents.{contents, contents-window}

-- A ring over the bytes `buf`. No object is larger than half the address space, so no position
-- wraps around.
pub record IsValid (rb : RingBuf) : Type 0 where
  pub buf : List ℕ
  pub holds : rb.buffer ≡ some buf
  pub storage : length buf ≡ rb.capacity
  pub small : rb.capacity ≤ 2 ^ 31
  pub read_in : rb.read_pos < rb.capacity
  pub count_in : rb.count ≤ rb.capacity

init_fields :
    (buf : List ℕ) (cap : ℕ) {rb : RingBuf}
    → init (some buf) cap ≡ some rb
    → (rb.buffer ≡ some buf) × (rb.capacity ≡ cap) × (rb.read_pos ≡ 0) × (rb.count ≡ 0) × (0 < cap)
unfolding init
init_fields buf cap e = ground arith

-- What `nx_ringbuf_init` accepts over a buffer of `cap` bytes is valid and holds nothing.
pub init-IsValid :
    (buf : List ℕ) (cap : ℕ) {rb : RingBuf}
    → length buf ≡ cap
    → cap ≤ 2 ^ 31
    → init (some buf) cap ≡ some rb
    → IsValid rb × (contents rb ≡ [])
init-IsValid buf cap {rb} size small e =
    let f = init_fields buf cap e in
    (
      record {
        buf = buf;
        holds = f.0;
        storage = omega arith;
        small = omega arith;
        read_in = omega arith;
        count_in = omega arith;
      },
      rw (contents-window rb buf f.0, f.3),
    )
