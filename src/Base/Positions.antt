-- ===== src/Base/Positions.antt =====
-- Positions going round an array of `cap` places.
use Prim.Native.Nat.{ℕ, zero, suc, ◌+◌, ◌-◌, ◌≤◌, ◌<◌}
use mathlib.Core.Path.{◌≡◌, refl, ap, ap₂, ◌∙◌}
use mathlib.Core.Logic.{◌≢◌}
use mathlib.Core.List.{List, [], ◌∷◌, ◌++◌}
use native.Mathlib.Omega.{arith}
use nx_c_util.Base.Tests.{ltb, if◌then◌else◌}
use nx_c_util.Base.Tabulate.{tabulate, tabulate_ext}

-- The `i`-th place from `pos` on.
abbrev pub slot : ℕ → ℕ → ℕ → ℕ
slot cap pos i = if ltb (pos + i) cap then pos + i else pos + i - cap

pub slot-lt : (cap pos i : ℕ) → pos < cap → i ≤ cap → slot cap pos i < cap
slot-lt cap pos i inside h = ground arith

-- Going on from a later start.
pub slot-slot :
    (cap pos i k : ℕ) → pos < cap → i + k < cap → slot cap (slot cap pos i) k ≡ slot cap pos (i + k)
slot-slot cap pos i k inside h = ground arith

slot-suc :
    (cap pos i : ℕ) → pos < cap → suc i < cap → slot cap pos (suc i) ≡ slot cap (slot cap pos 1) i
slot-suc cap pos i inside h = ground arith

pub slot-ne : (cap pos i n : ℕ) → pos < cap → n < cap → i < n → slot cap pos i ≢ slot cap pos n
slot-ne cap pos i n inside h p e = ground arith

module _ {ℓ} {A : Type ℓ} where
  tabulate_snoc : (n : ℕ) (f : ℕ → A) → tabulate (suc n) f ≡ tabulate n f ++ (f n ∷ [])
  tabulate_snoc zero f = refl
  tabulate_snoc (suc n) f = ap (λ l. f 0 ∷ l) (tabulate_snoc n (λ i. f (suc i)))

  -- `n` elements of an array from place `pos` on, going round at `cap`.
  abbrev pub round_from : (ℕ → A) → ℕ → ℕ → ℕ → List A
  round_from f cap pos n = tabulate n (λ i. f (slot cap pos i))

  -- An element written just behind the last one extends them.
  pub round_from-push :
      (f g : ℕ → A) (x : A) (cap pos n : ℕ)
      → pos < cap
      → n < cap
      → ((j : ℕ) → j < cap → j ≢ slot cap pos n → g j ≡ f j)
      → g (slot cap pos n) ≡ x
      → round_from g cap pos (suc n) ≡ round_from f cap pos n ++ (x ∷ [])
  round_from-push f g x cap pos n inside room same at =
      tabulate_snoc n (λ i. g (slot cap pos i))
      ∙ ap₂ (λ l y. l ++ (y ∷ []))
          (tabulate_ext n _ _ λ i h.
            same (slot cap pos i) (slot-lt cap pos i inside (omega arith))
              (slot-ne cap pos i n inside room h))
          at

  -- The first element, and the others from the next place on.
  pub round_from-pop :
      (f : ℕ → A) (cap pos n : ℕ)
      → pos < cap
      → n < cap
      → round_from f cap pos (suc n) ≡ f pos ∷ round_from f cap (slot cap pos 1) n
  round_from-pop f cap pos n inside h =
      ap₂ ◌∷◌ (ap f (ground arith))
        (tabulate_ext n _ _ λ i p. ap f (slot-suc cap pos i inside (omega arith)))
