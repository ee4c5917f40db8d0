-- ===== src/Core/RingBuf/Fetch.antt =====
-- The copies of nx_ringbuf_copy_out, and what discarding does to the window.
use nx_c_util.Base.{
  slot, slot-slot, ℕ, ◌+◌, ◌-◌, ◌≤◌, ◌<◌, ◌≡◌, sym, ap, ◌∙◌, arith, List, ◌++◌, take, drop, length,
  get_or, length-take, length-drop, length-append, get_or-take, get_or-drop, get_or-append,
  get_or-tabulate, get_or_ext,
}
use nx_c_util.Core.RingBuf.Contents.{window, length-window}

module _ (buf : List ℕ) (cap pos count : ℕ) (storage : length buf ≡ cap) (inside : pos < cap)
    (within : count ≤ cap) where
  -- Moving the start forward drops the oldest bytes.
  pub window-slot :
      (m : ℕ)
      → m ≤ count
      → window buf cap (slot cap pos m) (count - m) ≡ drop m (window buf cap pos count)
  window-slot m h = get_or_ext 0 _ _ lengths λ i p.
      let q : i < count - m = omega (arith, length-window buf cap (slot cap pos m) (count - m)) in
      get_or-tabulate (count - m) _ i 0 q
      ∙ ap (λ j. get_or buf j 0) (slot-slot cap pos m i inside (omega arith))
      ∙ sym (
          get_or-drop 0 m (window buf cap pos count) i
          ∙ get_or-tabulate count (λ k. get_or buf (slot cap pos k) 0) (m + i) 0 (omega arith))
    where
      lengths :
          length (window buf cap (slot cap pos m) (count - m))
          ≡ length (drop m (window buf cap pos count))
      lengths = omega (
        arith,
        length-window buf cap (slot cap pos m) (count - m),
        length-drop m (window buf cap pos count),
        length-window buf cap pos count,
      )

  get_or-prefix :
      (m i : ℕ)
      → i < m
      → m ≤ count
      → get_or (take m (window buf cap pos count)) i 0 ≡ get_or buf (slot cap pos i) 0
  get_or-prefix m i h le =
      get_or-take 0 m (window buf cap pos count) i h ∙ get_or-tabulate count _ i 0 (omega arith)

  length-prefix : (m : ℕ) → m ≤ count → length (take m (window buf cap pos count)) ≡ m
  length-prefix m le =
      omega (arith, length-take m (window buf cap pos count), length-window buf cap pos count)

  -- One copy from the read position is enough up to the end of the buffer.
  pub take-once :
      (m : ℕ)
      → m ≤ count
      → m ≤ cap - pos
      → take m (drop pos buf) ≡ take m (window buf cap pos count)
  take-once m le run = get_or_ext 0 _ _ (size ∙ sym (length-prefix m le)) λ i p.
      let q : i < m = omega (arith, size) in
      get_or-take 0 m (drop pos buf) i q
      ∙ get_or-drop 0 pos buf i
      ∙ ap (λ j. get_or buf j 0) (ground arith)
      ∙ sym (get_or-prefix m i q le)
    where
      size : length (take m (drop pos buf)) ≡ m
      size = omega (arith, length-take m (drop pos buf), length-drop pos buf)

  -- The wrapped remainder comes from the front of the buffer.
  pub take-twice :
      (m : ℕ)
      → m ≤ count
      → cap - pos < m
      → take (cap - pos) (drop pos buf) ++ take (m - (cap - pos)) buf
        ≡ take m (window buf cap pos count)
  take-twice m le over = get_or_ext 0 _ _ (size ∙ sym (length-prefix m le)) λ i p.
      let q : i < m = omega (arith, size) in
      (ground (
        arith,
        get_or-append 0 (take (cap - pos) (drop pos buf)) (take (m - (cap - pos)) buf) i,
        first_size,
        get_or-take 0 (cap - pos) (drop pos buf) i,
        get_or-drop 0 pos buf i,
        get_or-take 0 (m - (cap - pos)) buf (i - (cap - pos)),
        get_or-prefix m i q le,
      ))
    where
      first_size : length (take (cap - pos) (drop pos buf)) ≡ cap - pos
      first_size = omega (arith, length-take (cap - pos) (drop pos buf), length-drop pos buf)

      size : length (take (cap - pos) (drop pos buf) ++ take (m - (cap - pos)) buf) ≡ m
      size = omega (
        arith,
        first_size,
        length-append (take (cap - pos) (drop pos buf)) (take (m - (cap - pos)) buf),
        length-take (m - (cap - pos)) buf,
      )
