-- ===== src/Core/RingBuf/Store.antt =====
-- The two copies of nx_ringbuf_write: what they leave at each index, and in the window.
use nx_c_util.Base.{
  slot, slot-lt, slot-slot, ◌&&◌, ℕ, ◌⊎◌, ◌+◌, ◌-◌, ◌^◌, ◌≤◌, ◌<◌, ◌-32◌, ◌≡◌, sym, ap, ◌∙◌, arith,
  List, ◌++◌, ltb, leb, if◌then◌else◌, take, drop, copy_at, length, get_or, length-take,
  length-drop, length-copy_at, length-append, get_or-take, get_or-drop, get_or-append,
  get_or-copy_at, get_or-tabulate, get_or_ext,
}
use native.Mathlib.Decide.{dec_lt}
use nx_c_util.Core.RingBuf.{store_at}
use nx_c_util.Core.RingBuf.Contents.{window, length-window}

module _ (buf src : List ℕ) (cap wpos n : ℕ) (storage : length buf ≡ cap) (small : cap ≤ 2 ^ 31)
    (inside : wpos < cap) (fits : n ≤ cap) (given : n ≤ length src) where
  pub store_at_once : n ≤ cap - wpos → store_at buf cap wpos n src ≡ copy_at buf wpos (take n src)
  unfolding store_at
  store_at_once one_run = ground arith

  first_run : List ℕ
  first_run = copy_at buf wpos (take (cap - wpos) src)

  second_part : List ℕ
  second_part = take (n - (cap - wpos)) (drop (cap - wpos) src)

  store_at_twice : cap - wpos < n → store_at buf cap wpos n src ≡ copy_at first_run 0 second_part
  unfolding store_at first_run second_part
  store_at_twice over =
      let a : cap -32 wpos ≡ cap - wpos = omega arith in
      let b : n -32 (cap - wpos) ≡ n - (cap - wpos) = omega arith in ground arith

  length-first_run : length first_run ≡ cap
  unfolding first_run
  length-first_run = length-copy_at buf wpos (take (cap - wpos) src) ∙ storage

  length-second_part : length second_part ≡ n - (cap - wpos)
  unfolding second_part
  length-second_part =
      omega (
        arith,
        length-take (n - (cap - wpos)) (drop (cap - wpos) src),
        length-drop (cap - wpos) src,
      )

  pub length-store_at : length (store_at buf cap wpos n src) ≡ cap
  length-store_at = elim (dec_lt (cap - wpos) n) [
    | yes over ↦
        rw (store_at_twice over) (length-copy_at first_run 0 second_part ∙ length-first_run)
    | no le ↦ rw (store_at_once (omega arith)) (length-copy_at buf wpos (take n src) ∙ storage)
  ]

  get_or-store_at_once :
      (j : ℕ)
      → n ≤ cap - wpos
      → get_or (store_at buf cap wpos n src) j 0
        ≡ (if leb wpos j && ltb j (wpos + n) then get_or src (j - wpos) 0 else get_or buf j 0)
  get_or-store_at_once j one_run =
      let size : length (take n src) ≡ n = omega (arith, length-take n src) in
      rw (store_at_once one_run) (
        ground (
          arith,
          get_or-copy_at 0 buf wpos (take n src) j (omega arith),
          get_or-take 0 n src (j - wpos),
        ))

  get_or-first_run :
      (j : ℕ)
      → cap - wpos < n
      → j < cap
      → get_or first_run j 0 ≡ (if leb wpos j then get_or src (j - wpos) 0 else get_or buf j 0)
  unfolding first_run
  get_or-first_run j over h =
      let size : length (take (cap - wpos) src) ≡ cap - wpos =
        omega (arith, length-take (cap - wpos) src) in
      ground (
        arith,
        get_or-copy_at 0 buf wpos (take (cap - wpos) src) j (omega arith),
        get_or-take 0 (cap - wpos) src (j - wpos),
      )

  get_or-second_part :
      (i : ℕ) → i < n - (cap - wpos) → get_or second_part i 0 ≡ get_or src (cap - wpos + i) 0
  unfolding second_part
  get_or-second_part i h =
      get_or-take 0 (n - (cap - wpos)) (drop (cap - wpos) src) i h
      ∙ get_or-drop 0 (cap - wpos) src i

  get_or-store_at_twice :
      (j : ℕ)
      → cap - wpos < n
      → j < cap
      → get_or (store_at buf cap wpos n src) j 0 ≡ (
          if ltb j (n - (cap - wpos))
          then get_or src (cap - wpos + j) 0
          else if leb wpos j
          then get_or src (j - wpos) 0
          else get_or buf j 0)
  get_or-store_at_twice j over h = rw (store_at_twice over) (
      ground (
        arith,
        get_or-copy_at 0 first_run 0 second_part j
            (omega (arith, length-first_run, length-second_part)),
        length-second_part,
        get_or-second_part j,
        get_or-first_run j over h,
      ))

  -- The `i`-th byte written.
  pub get_or-store_at_new :
      (i : ℕ) → i < n → get_or (store_at buf cap wpos n src) (slot cap wpos i) 0 ≡ get_or src i 0
  get_or-store_at_new i h = elim (dec_lt (cap - wpos) n) [
    | yes over ↦ ground (arith, get_or-store_at_twice (slot cap wpos i) over)
    | no le ↦ ground (arith, get_or-store_at_once (slot cap wpos i))
  ]

  -- An index outside the bytes written, in front of them or behind.
  pub get_or-store_at_old :
      (j : ℕ)
      → j < cap
      → (wpos + n ≤ j) ⊎ ((j < wpos) × (wpos + n ≤ j + cap))
      → get_or (store_at buf cap wpos n src) j 0 ≡ get_or buf j 0
  get_or-store_at_old j h out = elim (dec_lt (cap - wpos) n) [
    | yes over ↦ ground (arith, get_or-store_at_twice j over)
    | no le ↦ ground (arith, get_or-store_at_once j)
  ]

-- Writing behind a window extends it: the bytes that were stored stay, and the new ones follow.
module _ (buf src : List ℕ) (cap pos count n : ℕ) (storage : length buf ≡ cap)
    (small : cap ≤ 2 ^ 31) (inside : pos < cap) (room : count + n ≤ cap)
    (given : n ≤ length src) where
  after : List ℕ
  after = store_at buf cap (slot cap pos count) n src

  get_or-after_old :
      (i : ℕ) → i < count → get_or after (slot cap pos i) 0 ≡ get_or buf (slot cap pos i) 0
  unfolding after
  get_or-after_old i h =
      get_or-store_at_old buf src cap (slot cap pos count) n storage small
        (slot-lt cap pos count inside (omega arith)) (omega arith) given (slot cap pos i)
        (slot-lt cap pos i inside (omega arith)) (ground arith)

  get_or-after_new : (i : ℕ) → i < n → get_or after (slot cap pos (count + i)) 0 ≡ get_or src i 0
  unfolding after
  get_or-after_new i h =
      ap (λ j. get_or after j 0) (sym (slot-slot cap pos count i inside (omega arith)))
      ∙ get_or-store_at_new buf src cap (slot cap pos count) n storage small
          (slot-lt cap pos count inside (omega arith)) (omega arith) given i h

  length-extended : length (window buf cap pos count ++ take n src) ≡ count + n
  length-extended = omega (
    arith,
    length-append (window buf cap pos count) (take n src),
    length-window buf cap pos count,
    length-take n src,
  )

  get_or-extended :
      (i : ℕ)
      → i < count + n
      → get_or after (slot cap pos i) 0 ≡ get_or (window buf cap pos count ++ take n src) i 0
  get_or-extended i h = ground (
    arith,
    get_or-append 0 (window buf cap pos count) (take n src) i,
    length-window buf cap pos count,
    get_or-tabulate count (λ k. get_or buf (slot cap pos k) 0) i 0,
    get_or-after_old i,
    get_or-after_new (i - count),
    get_or-take 0 n src (i - count),
  )

  pub window-store_at :
      window (store_at buf cap (slot cap pos count) n src) cap pos (count + n)
      ≡ window buf cap pos count ++ take n src
  unfolding after
  window-store_at =
      get_or_ext 0 _ _ (length-window after cap pos (count + n) ∙ sym length-extended) λ i h.
        let h' : i < count + n = omega (arith, length-window after cap pos (count + n)) in
        get_or-tabulate (count + n) _ i 0 h' ∙ get_or-extended i h'
