-- ===== src/Core/RingBuf/Contents.antt =====
-- What a byte ring holds, oldest first, and what the copies of nx_ringbuf.c do to it.
use nx_c_util.Base.{
  slot, ℕ, ◌≡◌, ap, Option, none, some, List, [], length, get_or, tabulate, length-tabulate,
}
use nx_c_util.Core.RingBuf.{RingBuf}

abbrev pub window : List ℕ → ℕ → ℕ → ℕ → List ℕ
window buf cap pos n = tabulate n (λ i. get_or buf (slot cap pos i) 0)

window_of : Option (List ℕ) → ℕ → ℕ → ℕ → List ℕ
window_of none cap pos n = []
window_of (some buf) cap pos n = window buf cap pos n

-- The bytes that the ring stores, oldest first.
unfoldable pub contents : RingBuf → List ℕ
unfolding window_of
contents rb = window_of rb.buffer rb.capacity rb.read_pos rb.count

pub length-window : (buf : List ℕ) (cap pos n : ℕ) → length (window buf cap pos n) ≡ n
length-window buf cap pos n = length-tabulate n _

pub contents-window :
    (rb : RingBuf) (buf : List ℕ)
    → rb.buffer ≡ some buf
    → contents rb ≡ window buf rb.capacity rb.read_pos rb.count
unfolding contents window_of
contents-window rb buf e = ap (λ b. window_of b rb.capacity rb.read_pos rb.count) e
