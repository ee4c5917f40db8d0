-- ===== src/Core/RingBuf/Calls.antt =====
-- The public calls of nx_ringbuf.c on a valid ring, against the list of bytes that it holds.
use mathlib.Core.List.{append-nil}
use native.Mathlib.Decide.{ℕ_discrete}
use nx_c_util.Base.{
  slot, slot-lt, ℕ, ◌+◌, ◌-◌, ◌^◌, ◌≤◌, ◌<◌, ◌+32◌, ◌-32◌, ◌≡◌, ◌≢◌, refl, sym, ap, ◌∙◌, arith,
  true, false, Option, none, some, List, [], ◌++◌, take, drop, length, min,
}
use nx_c_util.Core.RingBuf.{
  RingBuf, clamp, wrap_pos, store_at, write_body, write_to, copy_out, write, peek, discard, read,
  clear, discard_to, read_to, peek_to,
}
use nx_c_util.Core.RingBuf.Contents.{contents, contents-window}
use nx_c_util.Core.RingBuf.Inv.{IsValid}
use nx_c_util.Core.RingBuf.Store.{window-store_at, length-store_at}
use nx_c_util.Core.RingBuf.Fetch.{window-slot, take-once, take-twice}

pub clamp-min : (a b : ℕ) → clamp a b ≡ min a b
unfolding clamp
clamp-min a b = ground arith

pub free-sub : {rb : RingBuf} → IsValid rb → rb.capacity -32 rb.count ≡ rb.capacity - rb.count
free-sub v = omega arith

pub wrap_pos-slot :
    (cap pos i : ℕ) → cap ≤ 2 ^ 31 → pos < cap → i ≤ cap → wrap_pos cap (pos +32 i) ≡ slot cap pos i
unfolding wrap_pos
wrap_pos-slot cap pos i small inside within = ground arith

-- A ring after a write of `n` bytes.
unfoldable pub wrote : RingBuf → List ℕ → List ℕ → ℕ → RingBuf
wrote rb buf src n = record rb {
  buffer = some (store_at buf rb.capacity (slot rb.capacity rb.read_pos rb.count) n src);
  count = rb.count + n;
}

pub write-wrote :
    {rb : RingBuf} (v : IsValid rb) (src : List ℕ) (len : ℕ)
    → min len (rb.capacity - rb.count) ≢ 0
    → write rb (some src) len
      ≡ (min len (rb.capacity - rb.count), wrote rb v.buf src (min len (rb.capacity - rb.count)))
unfolding write write_to write_body wrote
write-wrote {rb} v src len ne =
    ap (λ b. write_to rb b (some src) len) v.holds
    ∙ ground (
      arith,
      clamp-min len (rb.capacity - rb.count),
      free-sub v,
      wrap_pos-slot rb.capacity rb.read_pos rb.count v.small v.read_in v.count_in,
    )

write-none :
    {rb : RingBuf} (v : IsValid rb) (src : List ℕ) (len : ℕ)
    → min len (rb.capacity - rb.count) ≡ 0
    → write rb (some src) len ≡ (0, rb)
unfolding write write_to write_body
write-none {rb} v src len e =
    ap (λ b. write_to rb b (some src) len) v.holds
    ∙ ground (arith, clamp-min len (rb.capacity - rb.count), free-sub v)

wrote-IsValid :
    {rb : RingBuf} (v : IsValid rb) (src : List ℕ) (n : ℕ)
    → n ≤ length src
    → rb.count + n ≤ rb.capacity
    → IsValid (wrote rb v.buf src n)
unfolding wrote
wrote-IsValid {rb} v src n given room = record {
  buf = store_at v.buf rb.capacity (slot rb.capacity rb.read_pos rb.count) n src;
  holds = refl;
  storage =
      length-store_at v.buf src rb.capacity (slot rb.capacity rb.read_pos rb.count) n v.storage
        v.small (slot-lt rb.capacity rb.read_pos rb.count v.read_in v.count_in) (omega arith) given;
  small = v.small;
  read_in = v.read_in;
  count_in = room;
}

contents-wrote :
    {rb : RingBuf} (v : IsValid rb) (src : List ℕ) (n : ℕ)
    → n ≤ length src
    → rb.count + n ≤ rb.capacity
    → contents (wrote rb v.buf src n) ≡ contents rb ++ take n src
unfolding wrote
contents-wrote {rb} v src n given room =
    contents-window _ _ refl
    ∙ window-store_at v.buf src rb.capacity rb.read_pos rb.count n v.storage v.small v.read_in room
        given
    ∙ ap (λ l. l ++ take n src) (sym (contents-window rb v.buf v.holds))

-- A write takes as many bytes as fit, appends exactly that prefix of the source behind the bytes
-- stored, in order, and keeps the invariant.
pub write_lem :
    {rb : RingBuf} (src : List ℕ) (len : ℕ)
    → IsValid rb
    → len ≤ length src
    → let n = min len (rb.capacity - rb.count) in
      let (taken, rb') = write rb (some src) len in
      (taken ≡ n) × (contents rb' ≡ contents rb ++ take n src) × IsValid rb'
write_lem {rb} src len v given = elim (ℕ_discrete (min len (rb.capacity - rb.count)) 0) [
  | yes e ↦ rw (write-none v src len e) (sym e, rw e (sym (append-nil (contents rb))), v)
  | no ne ↦ rw (write-wrote v src len ne) (
    refl,
    contents-wrote v src (min len (rb.capacity - rb.count)) (omega arith) (omega arith),
    wrote-IsValid v src (min len (rb.capacity - rb.count)) (omega arith) (omega arith),
  )
]

-- A read or a peek into `dst` gives the oldest bytes, as many as asked for and stored.
copy_out-take :
    {rb : RingBuf} (v : IsValid rb) (len : ℕ)
    → copy_out rb v.buf len ≡ (min len rb.count, take (min len rb.count) (contents rb))
unfolding copy_out
copy_out-take {rb} v len = ground (
  arith,
  clamp-min len rb.count,
  clamp-min (rb.capacity - rb.read_pos) (min len rb.count),
  take-once v.buf rb.capacity rb.read_pos rb.count v.storage v.read_in v.count_in
      (min len rb.count),
  take-twice v.buf rb.capacity rb.read_pos rb.count v.storage v.read_in v.count_in
      (min len rb.count),
  contents-window rb v.buf v.holds,
)

-- A ring after discarding `n` bytes.
pub dropped : RingBuf → ℕ → RingBuf
dropped rb n = record rb { read_pos = slot rb.capacity rb.read_pos n; count = rb.count - n }

pub discard-dropped :
    {rb : RingBuf} (v : IsValid rb) (len : ℕ)
    → discard rb len ≡ (min len rb.count, dropped rb (min len rb.count))
unfolding discard discard_to dropped
discard-dropped {rb} v len =
    ap (λ b. discard_to rb b len) v.holds
    ∙ ground (
      arith,
      clamp-min len rb.count,
      wrap_pos-slot rb.capacity rb.read_pos (min len rb.count) v.small v.read_in,
    )

pub dropped-IsValid : {rb : RingBuf} → IsValid rb → (n : ℕ) → n ≤ rb.count → IsValid (dropped rb n)
unfolding dropped
dropped-IsValid {rb} v n le = record {
  buf = v.buf;
  holds = v.holds;
  storage = v.storage;
  small = v.small;
  read_in = ground arith;
  count_in = omega arith;
}

pub contents-dropped :
    {rb : RingBuf}
    → IsValid rb
    → (n : ℕ) → n ≤ rb.count
    → contents (dropped rb n) ≡ drop n (contents rb)
unfolding dropped
contents-dropped {rb} v n le =
    contents-window _ _ v.holds
    ∙ window-slot v.buf rb.capacity rb.read_pos rb.count v.storage v.read_in v.count_in n le
    ∙ ap (drop n) (sym (contents-window rb v.buf v.holds))

min_idem : (a b : ℕ) → min (min a b) b ≡ min a b
min_idem a b = omega arith

pub read-dropped :
    {rb : RingBuf} (v : IsValid rb) (len : ℕ)
    → read rb true len
      ≡ (min len rb.count, take (min len rb.count) (contents rb), dropped rb (min len rb.count))
unfolding read read_to
read-dropped {rb} v len =
    ap (λ b. read_to rb b true len) v.holds
    ∙ rw (copy_out-take v len, discard-dropped v (min len rb.count), min_idem len rb.count)

read-dropped_null :
    {rb : RingBuf} (v : IsValid rb) (len : ℕ)
    → read rb false len ≡ (min len rb.count, [], dropped rb (min len rb.count))
unfolding read read_to
read-dropped_null {rb} v len = ap (λ b. read_to rb b false len) v.holds ∙ rw (discard-dropped v len)

-- A read into `dst` returns how many bytes it moved, as many as asked for and stored; it copies
-- the oldest bytes and leaves the rest, and it keeps the invariant. A read with `dst == NULL`
-- returns the same number and leaves the same ring.
pub read_lem :
    {rb : RingBuf} (len : ℕ)
    → IsValid rb
    → let n = min len rb.count in
      let (moved, out, rb') = read rb true len in
      (moved ≡ n)
      × (out ≡ take n (contents rb))
      × (contents rb' ≡ drop n (contents rb))
      × IsValid rb'
      × (read rb false len ≡ (n, [], rb'))
read_lem {rb} len v = rw (read-dropped v len) (
  refl,
  refl,
  contents-dropped v (min len rb.count) (omega arith),
  dropped-IsValid v (min len rb.count) (omega arith),
  read-dropped_null v len,
)

pub peek-take :
    {rb : RingBuf} (v : IsValid rb) (len : ℕ)
    → peek rb true len ≡ (min len rb.count, take (min len rb.count) (contents rb))
unfolding peek peek_to
peek-take {rb} v len = ap (λ b. peek_to rb b true len) v.holds ∙ copy_out-take v len

-- On a valid ring, a peek into a buffer returns the smaller of the length asked for and the count, and
-- copies out that many of the oldest bytes; a discard of what a peek returned, behind it, gives the
-- result and the ring of a read, which copies out the same bytes.
pub peek-discard-read :
    {rb : RingBuf} (len : ℕ)
    → IsValid rb
    → let n = min len rb.count in
      let (seen, out) = peek rb true len in
      let (gone, rb') = discard rb seen in
      (seen ≡ n)
      × (out ≡ take n (contents rb))
      × (contents rb' ≡ drop n (contents rb))
      × (read rb true len ≡ (gone, out, rb'))
peek-discard-read {rb} len v =
    rw
      (
        peek-take v len,
        discard-dropped v (min len rb.count),
        min_idem len rb.count,
        read-dropped v len,
      )
      (refl, refl, contents-dropped v (min len rb.count) (omega arith), refl)

capacity-write_to :
    (rb : RingBuf) (b src : Option (List ℕ)) (len : ℕ)
    → (write_to rb b src len).1.capacity ≡ rb.capacity
unfolding write_to write_body
capacity-write_to rb none src len = refl
capacity-write_to rb (some buf) none len = ground arith
capacity-write_to rb (some buf) (some src) len = ground arith

pub capacity-write :
    (rb : RingBuf) (src : Option (List ℕ)) (len : ℕ) → (write rb src len).1.capacity ≡ rb.capacity
unfolding write
capacity-write rb src len = capacity-write_to rb rb.buffer src len

pub capacity-dropped : (rb : RingBuf) (n : ℕ) → (dropped rb n).capacity ≡ rb.capacity
unfolding dropped
capacity-dropped rb n = refl

pub clear-IsValid : {rb : RingBuf} → IsValid rb → IsValid (clear rb)
unfolding clear
clear-IsValid v = record {
  buf = v.buf;
  holds = v.holds;
  storage = v.storage;
  small = v.small;
  read_in = omega arith;
  count_in = omega arith;
}

pub contents-clear :
    {rb : RingBuf} → IsValid rb → (contents (clear rb) ≡ []) × ((clear rb).capacity ≡ rb.capacity)
unfolding clear
contents-clear v = (contents-window _ _ v.holds, refl)
