-- ===== src/Base/Finite.antt =====
-- Facts about every byte, or every pair of bytes, by evaluation.
use Prim.Native.Nat.{ℕ, zero, suc, ◌<◌}
use mathlib.Core.Path.{◌≡◌}
use mathlib.Core.Bool.{Bool, true, false}
use native.Mathlib.Omega.{arith}
use nx_c_util.Base.Tests.{if◌then◌else◌}

-- No number under the bound fails the test.
holds_under : (test : ℕ → Bool) → ℕ → Bool
holds_under test zero = true
holds_under test (suc top) = let below = holds_under test top in if test top then below else false

holds_under-at :
    (test : ℕ → Bool) (bound at : ℕ) → at < bound → holds_under test bound ≡ true → test at ≡ true
unfolding holds_under
holds_under-at test zero at lt all = absurd (omega arith)
holds_under-at test (suc top) at lt all = ground (arith, holds_under-at test top at)

-- For all bytes.
unfoldable pub all_bytes : (ℕ → Bool) → Bool
unfolding holds_under
all_bytes p = holds_under p 256

pub all_bytes_sound : (p : ℕ → Bool) (x : ℕ) → all_bytes p ≡ true → x < 256 → p x ≡ true
unfolding all_bytes
all_bytes_sound p x h lt = holds_under-at p 256 x lt h

-- For all pairs of bytes.
unfoldable pub all_pairs : (ℕ → ℕ → Bool) → Bool
unfolding holds_under
all_pairs p = holds_under (λ x. holds_under (p x) 256) 256

pub all_pairs_sound :
    (p : ℕ → ℕ → Bool) (x y : ℕ) → all_pairs p ≡ true → x < 256 → y < 256 → p x y ≡ true
unfolding all_pairs
all_pairs_sound p x y h hx hy =
    holds_under-at (p x) 256 y hy (holds_under-at (λ a. holds_under (p a) 256) 256 x hx h)
