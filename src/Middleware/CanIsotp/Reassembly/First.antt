-- ===== src/Middleware/CanIsotp/Reassembly/First.antt =====
-- The header of a first frame, as the receiver reads it.
use nx_c_util.Base.{
  ℕ, ◌+◌, ◌*◌, ◌/◌, ◌≤◌, ◌<◌, ◌≡◌, ◌^◌, refl, sym, ap, ◌∙◌, arith, Bool, true, not, ◌||◌, ◌&&◌,
  some, List, [], ◌∷◌, ◌++◌, length, ltb, ◌==◌, if-true, if-false, Bool-cases, inl, inr, u8, u32,
  ◌>>◌, ◌<<◌, bit_and, bit_or, get_or,
}
use nx_c_util.Base.Bits.{or_sum}
use nx_c_util.Base.Finite.{all_bytes, all_bytes_sound}
use nx_c_util.Middleware.CanIsotp.Emit.{ff_pci}
use nx_c_util.Middleware.CanIsotp.Receive.{ff_len}

-- The first byte in the short form.
ff_test : ℕ → Bool
ff_test h =
    not (ltb h 16)
    || ((bit_and (bit_or 0x10 h) 0xF0 == 0x10) && (bit_and (bit_or 0x10 h) 0x0F == h))

ff_check : all_bytes ff_test ≡ true
unfolding all_bytes ff_test
ff_check = refl

ff_test_lem :
    (h : ℕ)
    → h < 16
    → ff_test h ≡ true
    → (bit_and (bit_or 0x10 h) 0xF0 ≡ 0x10) × (bit_and (bit_or 0x10 h) 0x0F ≡ h)
unfolding ff_test
ff_test_lem h l t = (ground arith, ground arith)

-- What the receiver reads from the header.
pub record Announced (total : ℕ) : Type 0 where
  pub kind : bit_and (get_or (ff_pci total) 0 0) 0xF0 ≡ 0x10
  pub long : 2 ≤ length (ff_pci total)
  pub short : length (ff_pci total) ≤ 6
  pub read :
      (rest : List ℕ) (dlen : ℕ)
      → 8 ≤ dlen
      → ff_len (ff_pci total ++ rest) dlen ≡ some (total, length (ff_pci total))

short_value : (total : ℕ) → total ≤ 4095 → bit_or (u32 ((total / 2 ^ 8) << 8)) (u8 total) ≡ total
short_value total h =
    or_sum 8 (u32 ((total / 2 ^ 8) << 8)) (u8 total) (omega arith) (omega arith) ∙ omega arith

ff_len-short :
    (total : ℕ) (rest : List ℕ) (dlen : ℕ)
    → 0 < total
    → total ≤ 4095
    → 8 ≤ dlen
    → ff_len (bit_or 0x10 (u8 (total >> 8)) ∷ u8 total ∷ rest) dlen ≡ some (total, 2)
unfolding ff_len
ff_len-short total rest dlen pos h l =
    let t =
      ff_test_lem (total / 2 ^ 8) (omega arith)
        (all_bytes_sound ff_test (total / 2 ^ 8) ff_check (omega arith)) in
    let byte : u8 (total >> 8) ≡ total / 2 ^ 8 = omega arith in
    let v : bit_or (u32 (bit_and (bit_or 0x10 (u8 (total >> 8))) 0x0F << 8)) (u8 total) ≡ total =
      ap (λ n. bit_or (u32 (bit_and (bit_or 0x10 n) 0x0F << 8)) (u8 total)) byte
      ∙ ap (λ n. bit_or (u32 (n << 8)) (u8 total)) t.1
      ∙ short_value total h in
    rw v (ground arith)

long_value :
    (a b c d : ℕ)
    → a < 256
    → b < 256
    → c < 256
    → d < 256
    → u32 (bit_or (bit_or (bit_or (a << 24) (b << 16)) (c << 8)) d)
      ≡ a * 2 ^ 24 + b * 2 ^ 16 + c * 2 ^ 8 + d
long_value a b c d ha hb hc hd =
    rw
      (
        or_sum 24 (a * 2 ^ 24) (b * 2 ^ 16) (omega arith) (omega arith),
        or_sum 16 (a * 2 ^ 24 + b * 2 ^ 16) (c * 2 ^ 8) (omega arith) (omega arith),
        or_sum 8 (a * 2 ^ 24 + b * 2 ^ 16 + c * 2 ^ 8) d (omega arith) (omega arith),
      )
      (omega arith)

long_digits :
    (total : ℕ)
    → total < 2 ^ 32
    → u8 (total >> 24) * 2 ^ 24 + u8 (total >> 16) * 2 ^ 16 + u8 (total >> 8) * 2 ^ 8 + u8 total
      ≡ total
long_digits total h = omega arith

ff_len-long :
    (total : ℕ) (rest : List ℕ) (dlen : ℕ)
    → 4095 < total
    → total < 2 ^ 32
    → 8 ≤ dlen
    → ff_len
        (0x10 ∷ 0x00 ∷ u8 (total >> 24) ∷ u8 (total >> 16) ∷ u8 (total >> 8) ∷ u8 total ∷ rest)
        dlen
      ≡ some (total, 6)
unfolding ff_len
ff_len-long total rest dlen pos h l =
    rw
      (
        long_value (u8 (total >> 24)) (u8 (total >> 16)) (u8 (total >> 8)) (u8 total) (omega arith)
            (omega arith) (omega arith) (omega arith),
        long_digits total h,
      )
      (ground arith)

pub ff_pci-Announced : (total : ℕ) → 0 < total → total < 2 ^ 32 → Announced total
unfolding ff_pci
ff_pci-Announced total pos h = elim (Bool-cases (ltb 4095 total)) [
  | inl many ↦
      let e : ff_pci total
          ≡ 0x10 ∷ 0x00 ∷ u8 (total >> 24) ∷ u8 (total >> 16) ∷ u8 (total >> 8) ∷ u8 total ∷ [] =
        if-true {b = ltb 4095 total} _ _ many in
      record {
        kind = ap (λ l. bit_and (get_or l 0 0) 0xF0) e;
        long = let z = ap length e in omega arith;
        short = let z = ap length e in omega arith;
        read = λ rest dlen l.
            ap (λ p. ff_len (p ++ rest) dlen) e
            ∙ ff_len-long total rest dlen (ground arith) h l
            ∙ ap (λ n. some (total, n)) (sym (ap length e));
      }
  | inr few ↦
      let e : ff_pci total ≡ bit_or 0x10 (u8 (total >> 8)) ∷ u8 total ∷ [] =
        if-false {b = ltb 4095 total} _ _ few in
      let small : total ≤ 4095 = ground arith in
      let t =
        ff_test_lem (total / 2 ^ 8) (omega arith)
          (all_bytes_sound ff_test (total / 2 ^ 8) ff_check (omega arith)) in
      let byte : u8 (total >> 8) ≡ total / 2 ^ 8 = omega arith in
      record {
        kind =
            ap (λ l. bit_and (get_or l 0 0) 0xF0) e
            ∙ ap (λ n. bit_and (bit_or 0x10 n) 0xF0) byte
            ∙ t.0;
        long = let z = ap length e in omega arith;
        short = let z = ap length e in omega arith;
        read = λ rest dlen l.
            ap (λ p. ff_len (p ++ rest) dlen) e
            ∙ ff_len-short total rest dlen pos small l
            ∙ ap (λ n. some (total, n)) (sym (ap length e));
      }
]
