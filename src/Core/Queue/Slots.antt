-- ===== src/Core/Queue/Slots.antt =====
-- Elements of equal size in an array of bytes: writing one leaves the others alone.
use nx_c_util.Base.{
  ℕ, ◌+◌, ◌*◌, ◌≤◌, ◌<◌, ◌≡◌, ◌≢◌, ◌⊎◌, inl, inr, sym, ◌∙◌, arith, List, take, drop, copy_at,
  length, get_or, length-take, length-drop, length-copy_at, get_or-take, get_or-drop,
  get_or-copy_at, get_or_ext,
}
use native.Mathlib.Decide.{dec_lt}

-- The `k`-th element of `size` bytes.
abbrev pub element : List ℕ → ℕ → ℕ → List ℕ
element buf size k = take size (drop (k * size) buf)

pub mul-room : (k n size : ℕ) → k < n → k * size + size ≤ n * size
mul-room k n size h = grind arith

module _ (buf : List ℕ) (size n : ℕ) (storage : length buf ≡ n * size) where
  pub length-element : (k : ℕ) → k < n → length (element buf size k) ≡ size
  length-element k h = omega (
    arith,
    mul-room k n size h,
    length-take size (drop (k * size) buf),
    length-drop (k * size) buf,
  )

  get_or-element :
      (k i : ℕ) → i < size → get_or (element buf size k) i 0 ≡ get_or buf (k * size + i) 0
  get_or-element k i h =
      get_or-take 0 size (drop (k * size) buf) i h ∙ get_or-drop 0 (k * size) buf i

module _ (buf x : List ℕ) (size n k : ℕ) (storage : length buf ≡ n * size) (fits : length x ≡ size)
    (inside : k < n) where
  after : List ℕ
  after = copy_at buf (k * size) x

  length-after : length after ≡ n * size
  unfolding after
  length-after = length-copy_at buf (k * size) x ∙ storage

  pub element-copy_at_self : element (copy_at buf (k * size) x) size k ≡ x
  unfolding after
  element-copy_at_self =
      get_or_ext 0 _ _ (length-element after size n length-after k inside ∙ sym fits) λ i h.
        let h' : i < size = omega (arith, length-element after size n length-after k inside) in
        get_or-element after size n length-after k i h'
        ∙ ground (arith, mul-room k n size inside, get_or-copy_at 0 buf (k * size) x (k * size + i))

  apart :
      (j i : ℕ) → j ≢ k → i < size → (j * size + i < k * size) ⊎ (k * size + size ≤ j * size + i)
  apart j i ne h = elim (dec_lt j k) [
    | yes p ↦ inl (omega (arith, mul-room j k size p))
    | no p ↦ inr (omega (arith, mul-room k j size (omega arith)))
  ]

  pub element-copy_at_ne :
      (j : ℕ) → j < n → j ≢ k → element (copy_at buf (k * size) x) size j ≡ element buf size j
  unfolding after
  element-copy_at_ne j h ne =
      get_or_ext 0 _ _
        (length-element after size n length-after j h ∙ sym (length-element buf size n storage j h))
        λ i p.
          let q : i < size = omega (arith, length-element after size n length-after j h) in
          get_or-element after size n length-after j i q
          ∙ ground (
            arith,
            mul-room k n size inside,
            apart j i ne q,
            get_or-copy_at 0 buf (k * size) x (j * size + i),
          )
          ∙ sym (get_or-element buf size n storage j i q)
