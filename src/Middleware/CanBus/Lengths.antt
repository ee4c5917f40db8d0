-- ===== src/Middleware/CanBus/Lengths.antt =====
-- Rounding a length to a code and back.
use nx_c_util.Base.{
  ℕ, ◌≤◌, ◌≡◌, refl, arith, Bool, true, ◌&&◌, not, ◌||◌, leb, ◌==◌, false, inl, inr, Bool-cases,
  if-false,
}
use nx_c_util.Base.Finite.{all_bytes, all_bytes_sound, all_pairs, all_pairs_sound}
use nx_c_util.Middleware.CanBus.{dlc_to_len, len_to_dlc, max_dlc}

abbrev least : (len d : ℕ) → Bool
least len d = not (leb len 64 && leb len (dlc_to_len d)) || leb (len_to_dlc len) d

abbrev covered : ℕ → Bool
covered len =
    not (leb len 64) || (leb (len_to_dlc len) max_dlc && leb len (dlc_to_len (len_to_dlc len)))

abbrev returns : ℕ → Bool
returns d = not (leb d max_dlc) || (len_to_dlc (dlc_to_len d) == d)

least_check : all_pairs least ≡ true
unfolding all_pairs dlc_to_len len_to_dlc
least_check = refl

covered_check : all_bytes covered ≡ true
unfolding all_bytes dlc_to_len len_to_dlc
covered_check = refl

returns_check : all_bytes returns ≡ true
unfolding all_bytes dlc_to_len len_to_dlc
returns_check = refl

abbrev ordered : (d d' : ℕ) → Bool
ordered d d' = not (leb d d' && leb d' max_dlc) || leb (dlc_to_len d) (dlc_to_len d')

ordered_check : all_pairs ordered ≡ true
unfolding all_pairs dlc_to_len
ordered_check = refl

pub dlc_to_len_mono : (d d' : ℕ) → d ≤ d' → d' ≤ max_dlc → dlc_to_len d ≤ dlc_to_len d'
dlc_to_len_mono d d' h h' =
    let o = all_pairs_sound ordered d d' ordered_check (omega arith) (omega arith) in ground arith

dlc_to_len_top : dlc_to_len max_dlc ≡ 64
unfolding dlc_to_len
dlc_to_len_top = refl

dlc_to_len_beyond : (d : ℕ) → leb d max_dlc ≡ false → dlc_to_len d ≡ 0
unfolding dlc_to_len
dlc_to_len_beyond d h = if-false _ _ h

pub dlc_to_len_bound : (d : ℕ) → dlc_to_len d ≤ 64
dlc_to_len_bound d = elim (Bool-cases (leb d max_dlc)) [
  | inl small ↦
      let o = dlc_to_len_mono d max_dlc (ground arith) (omega arith) in
      let e = dlc_to_len_top in omega arith
  | inr large ↦ let e = dlc_to_len_beyond d large in omega arith
]

-- For a length of at most 64 bytes and any code: the code of the length is a code and carries at least that
-- length, it is the least one that does, and the code of a code's length is that code. This is what the code
-- does: for 10 bytes it gives DLC 9, which is 12 bytes, where the comment in nx_can_bus.h says DLC 10.
pub len_to_dlc-dlc_to_len :
    (len d : ℕ)
    → len ≤ 64
    → d ≤ max_dlc
    → (len_to_dlc len ≤ max_dlc)
      × (len ≤ dlc_to_len (len_to_dlc len))
      × (len ≤ dlc_to_len d → len_to_dlc len ≤ d)
      × (len_to_dlc (dlc_to_len d) ≡ d)
len_to_dlc-dlc_to_len len d h hd =
    let c = all_bytes_sound covered len covered_check (omega arith) in
    let l = all_pairs_sound least len d least_check (omega arith) (omega arith) in
    let r = all_bytes_sound returns d returns_check (omega arith) in
    (ground arith, ground arith, λ e. ground arith, ground arith)
