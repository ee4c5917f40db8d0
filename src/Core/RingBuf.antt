-- ===== src/Core/RingBuf.antt =====
-- src/core/nx_ringbuf.h and src/core/nx_ringbuf.c: a byte ring over a caller's buffer.
-- A pointer argument that may be NULL is an `Option`; a call returns its result and the new ring.
-- What a call writes to `dst` is returned as a list, empty where `dst` is not written.
pub mod Inv
pub mod Contents
mod Store
mod Fetch
pub mod Calls
pub mod Refine
pub mod Linear
mod Tests
use nx_c_util.Base.{
  ℕ, Bool, true, false, not, ◌+32◌, ◌-32◌, Option, none, some, List, [], ◌++◌, ltb, leb, ◌==◌,
  if◌then◌else◌, take, drop, copy_at, ◌&&◌,
}

-- `nx_ringbuf_t`. The buffer is the `capacity` bytes from its start on.
pub record RingBuf : Type 0 where
  pub buffer : Option (List ℕ)
  pub capacity : ℕ
  pub read_pos : ℕ
  pub count : ℕ

-- `if (pos >= capacity) pos -= capacity`, as the code wraps each position.
pub wrap_pos : ℕ → ℕ → ℕ
wrap_pos cap pos = if leb cap pos then pos -32 cap else pos

-- The length clamped to a bound, as in `if (len > bound) len = bound`.
pub clamp : ℕ → ℕ → ℕ
clamp len bound = if ltb bound len then bound else len

-- `nx_ringbuf_init`; `none` is a return of false.
pub init : Option (List ℕ) → ℕ → Option RingBuf
init none cap = none
init (some buf) cap =
    if cap == 0
    then none
    else some (record { buffer = some buf; capacity = cap; read_pos = 0; count = 0 })

-- The copies of `nx_ringbuf_write`: up to the end of the buffer, then the wrapped remainder.
pub store_at : List ℕ → ℕ → ℕ → ℕ → List ℕ → List ℕ
unfolding clamp
store_at buf cap wpos len src =
    let first = clamp (cap -32 wpos) len in
    let once = copy_at buf wpos (take first src) in
    if ltb first len then copy_at once 0 (take (len -32 first) (drop first src)) else once

-- `nx_ringbuf_write` past its guard.
write_body : RingBuf → List ℕ → List ℕ → ℕ → ℕ × RingBuf
unfolding clamp wrap_pos
write_body rb buf src len0 =
    let len = clamp len0 (rb.capacity -32 rb.count) in
    if len == 0 then (0, rb) else (
      len,
      record rb {
        buffer =
            some
              (store_at buf rb.capacity (wrap_pos rb.capacity (rb.read_pos +32 rb.count)) len src);
        count = rb.count +32 len;
      },
    )

-- `src == NULL` passes the guard only with `len == 0`, and then nothing is read from it.
write_to : RingBuf → Option (List ℕ) → Option (List ℕ) → ℕ → ℕ × RingBuf
unfolding write_body
write_to rb none src len = (0, rb)
write_to rb (some buf) none len = if ltb 0 len then (0, rb) else write_body rb buf [] len
write_to rb (some buf) (some src) len = write_body rb buf src len

-- `nx_ringbuf_write`
pub write : RingBuf → Option (List ℕ) → ℕ → ℕ × RingBuf
unfolding write_to
write rb src len = write_to rb rb.buffer src len

-- `nx_ringbuf_copy_out`: the number of bytes copied, and the bytes.
pub copy_out : RingBuf → List ℕ → ℕ → ℕ × List ℕ
unfolding clamp
copy_out rb buf len0 =
    let len = clamp len0 rb.count in
    let first = clamp (rb.capacity -32 rb.read_pos) len in
    if len == 0
    then (0, [])
    else if ltb first len
    then (len, take first (drop rb.read_pos buf) ++ take (len -32 first) buf)
    else (len, take first (drop rb.read_pos buf))

-- `dst` is given by whether it is non-NULL; a NULL one passes the guard only with `len == 0`.
peek_to : RingBuf → Option (List ℕ) → Bool → ℕ → ℕ × List ℕ
peek_to rb none dst len = (0, [])
peek_to rb (some buf) dst len = if not dst && ltb 0 len then (0, []) else copy_out rb buf len

-- `nx_ringbuf_peek`
pub peek : RingBuf → Bool → ℕ → ℕ × List ℕ
unfolding peek_to
peek rb dst len = peek_to rb rb.buffer dst len

discard_to : RingBuf → Option (List ℕ) → ℕ → ℕ × RingBuf
unfolding clamp wrap_pos
discard_to rb none len0 = (0, rb)
discard_to rb (some buf) len0 =
    let len = clamp len0 rb.count in
    (
      len,
      record rb { read_pos = wrap_pos rb.capacity (rb.read_pos +32 len); count = rb.count -32 len },
    )

-- `nx_ringbuf_discard`
pub discard : RingBuf → ℕ → ℕ × RingBuf
unfolding discard_to
discard rb len = discard_to rb rb.buffer len

-- `dst == NULL` discards the bytes.
read_to : RingBuf → Option (List ℕ) → Bool → ℕ → ℕ × List ℕ × RingBuf
read_to rb none dst len = (0, [], rb)
read_to rb (some buf) false len = let (n, rb') = discard rb len in (n, [], rb')
read_to rb (some buf) true len =
    let (n, out) = copy_out rb buf len in let (m, rb') = discard rb n in (m, out, rb')

-- `nx_ringbuf_read`
pub read : RingBuf → Bool → ℕ → ℕ × List ℕ × RingBuf
unfolding read_to
read rb dst len = read_to rb rb.buffer dst len

-- `nx_ringbuf_clear`
pub clear : RingBuf → RingBuf
clear rb = record rb { read_pos = 0; count = 0 }

-- A pointer into the buffer, as its offset, and the length behind it; `none` is NULL with length 0.
abbrev pub Run : Type 0
Run = Option (ℕ × ℕ)

peek_linear_to : RingBuf → Option (List ℕ) → Run
unfolding clamp
peek_linear_to rb none = none
peek_linear_to rb (some buf) =
    if rb.count == 0
    then none
    else (let to_end = rb.capacity -32 rb.read_pos in
        some (rb.read_pos, if ltb rb.count to_end then rb.count else to_end))

-- `nx_ringbuf_peek_linear` with a non-NULL `out_len`
pub peek_linear : RingBuf → Run
unfolding peek_linear_to
peek_linear rb = peek_linear_to rb rb.buffer

poke_linear_to : RingBuf → Option (List ℕ) → Run
unfolding wrap_pos
poke_linear_to rb none = none
poke_linear_to rb (some buf) =
    if rb.count == rb.capacity
    then none
    else (let wpos = wrap_pos rb.capacity (rb.read_pos +32 rb.count) in
        let free_space = rb.capacity -32 rb.count in
        let to_end = rb.capacity -32 wpos in
        some (wpos, if ltb free_space to_end then free_space else to_end))

-- `nx_ringbuf_poke_linear` with a non-NULL `out_len`
pub poke_linear : RingBuf → Run
unfolding poke_linear_to
poke_linear rb = poke_linear_to rb rb.buffer

commit_to : RingBuf → Option (List ℕ) → ℕ → ℕ × RingBuf
unfolding clamp
commit_to rb none len0 = (0, rb)
commit_to rb (some buf) len0 =
    let len = clamp len0 (rb.capacity -32 rb.count) in (len, record rb { count = rb.count +32 len })

-- `nx_ringbuf_commit`
pub commit : RingBuf → ℕ → ℕ × RingBuf
unfolding commit_to
commit rb len = commit_to rb rb.buffer len
