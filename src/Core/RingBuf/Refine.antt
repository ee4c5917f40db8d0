-- ===== src/Core/RingBuf/Refine.antt =====
-- A valid ring behaves as a bounded list of bytes, under any sequence of calls.
use nx_c_util.Base.{
  ℕ, ◌-◌, ◌≡◌, refl, ap, ap₂, ◌∙◌, arith, true, some, List, [], ◌∷◌, ◌++◌, take, drop, length, min,
  length-tabulate,
}
use nx_c_util.Core.RingBuf.{RingBuf, write, read, peek, discard, clear}
use nx_c_util.Core.RingBuf.Contents.{contents, contents-window}
use nx_c_util.Core.RingBuf.Inv.{IsValid}
use nx_c_util.Core.RingBuf.Calls.{
  write_lem, read-dropped, capacity-write, capacity-dropped, clear-IsValid, contents-clear,
  peek-take, discard-dropped, dropped-IsValid, contents-dropped,
}

-- The calls of a client, with the bytes that a write is given.
pub data Op : Type 0 where
  put : List ℕ → Op
  get : ℕ → Op
  look : ℕ → Op
  skip : ℕ → Op
  reset : Op

-- The number returned, and the bytes copied out.
abbrev pub Reply : Type 0
Reply = ℕ × List ℕ

-- What a client sees of a ring.
unfoldable pub step : Op → RingBuf → Reply × RingBuf
step (put bs) rb = let (n, rb') = write rb (some bs) (length bs) in ((n, []), rb')
step (get len) rb = let (n, out, rb') = read rb true len in ((n, out), rb')
step (look len) rb = (peek rb true len, rb)
step (skip len) rb = let (n, rb') = discard rb len in ((n, []), rb')
step reset rb = ((0, []), clear rb)

unfoldable pub run : List Op → RingBuf → List Reply
run [] rb = []
run (op ∷ ops) rb = let (r, rb') = step op rb in r ∷ run ops rb'

-- The specification: a list of at most `cap` bytes, oldest first.
module _ (cap : ℕ) where
  pub spec_step : Op → List ℕ → Reply × List ℕ
  spec_step (put bs) q = let n = min (length bs) (cap - length q) in ((n, []), q ++ take n bs)
  spec_step (get len) q = let n = min len (length q) in ((n, take n q), drop n q)
  spec_step (look len) q = let n = min len (length q) in ((n, take n q), q)
  spec_step (skip len) q = let n = min len (length q) in ((n, []), drop n q)
  spec_step reset q = ((0, []), [])

  pub spec_run : List Op → List ℕ → List Reply
  spec_run [] q = []
  spec_run (op ∷ ops) q = let (r, q') = spec_step op q in r ∷ spec_run ops q'

length-contents : {rb : RingBuf} → IsValid rb → length (contents rb) ≡ rb.count
length-contents {rb} v = ap length (contents-window rb v.buf v.holds) ∙ length-tabulate rb.count _

record Simulates (cap : ℕ) (op : Op) (rb : RingBuf) : Type 0 where
  reply : (step op rb).0 ≡ (spec_step cap op (contents rb)).0
  state : contents (step op rb).1 ≡ (spec_step cap op (contents rb)).1
  valid : IsValid (step op rb).1
  same_capacity : (step op rb).1.capacity ≡ cap

-- One call does to the ring what the specification does to its bytes.
step-Simulates : (op : Op) {rb : RingBuf} → IsValid rb → Simulates rb.capacity op rb
unfolding step spec_step
step-Simulates (put bs) {rb} v =
    let w = write_lem bs (length bs) v (omega arith) in
    record {
      reply = rw (length-contents v) (ap (λ n. (n, [])) w.0);
      state = rw (length-contents v) w.1;
      valid = w.2;
      same_capacity = capacity-write rb (some bs) (length bs);
    }
step-Simulates (get len) {rb} v = record {
  reply = rw (read-dropped v len, length-contents v) refl;
  state =
      rw (read-dropped v len, length-contents v)
        (contents-dropped v (min len rb.count) (omega arith));
  valid = rw (read-dropped v len) (dropped-IsValid v (min len rb.count) (omega arith));
  same_capacity = rw (read-dropped v len) (capacity-dropped rb (min len rb.count));
}
step-Simulates (look len) {rb} v = record {
  reply = rw (peek-take v len, length-contents v) refl;
  state = refl;
  valid = v;
  same_capacity = refl;
}
step-Simulates (skip len) {rb} v = record {
  reply = rw (discard-dropped v len, length-contents v) refl;
  state =
      rw (discard-dropped v len, length-contents v)
        (contents-dropped v (min len rb.count) (omega arith));
  valid = rw (discard-dropped v len) (dropped-IsValid v (min len rb.count) (omega arith));
  same_capacity = rw (discard-dropped v len) (capacity-dropped rb (min len rb.count));
}
step-Simulates reset {rb} v = record {
  reply = refl;
  state = (contents-clear v).0;
  valid = clear-IsValid v;
  same_capacity = (contents-clear v).1;
}

-- No sequence of calls tells a valid ring from the bounded list of the bytes that it holds.
pub run_refines :
    (ops : List Op) {rb : RingBuf}
    → IsValid rb
    → run ops rb ≡ spec_run rb.capacity ops (contents rb)
unfolding run spec_run
run_refines [] v = refl
run_refines (op ∷ ops) {rb} v =
    let s = step-Simulates op v in
    ap₂ ◌∷◌ s.reply (run_refines ops s.valid ∙ rw (s.same_capacity, s.state))
