-- ===== src/Middleware/CanIsotp/Reassembly/Store.antt =====
-- A block of memory that is filled from the front.
use mathlib.Core.Path.{subst}
use nx_c_util.Base.{
  ℕ, zero, suc, ◌+◌, ◌≤◌, ◌≡◌, refl, sym, ap, ap₂, arith, List, [], ◌∷◌, ◌++◌, length, take, drop,
  get_or, overwrite, copy_at,
}

take-overwrite :
    (n : ℕ) (xs ys : List ℕ)
    → n ≤ length xs
    → n ≤ length ys
    → take n (overwrite xs (take n ys)) ≡ take n ys
take-overwrite zero xs ys h h' = refl
take-overwrite (suc n) [] ys h h' = absurd (omega arith)
take-overwrite (suc n) (x ∷ xs) [] h h' = absurd (omega arith)
take-overwrite (suc n) (x ∷ xs) (y ∷ ys) h h' =
    ap (λ l. y ∷ l) (take-overwrite n xs ys (omega arith) (omega arith))

-- Where the first `k` bytes are those of the message, its next `n` written behind them make it `k + n`.
pub take-copy_at :
    (k n t : ℕ) (xs ys : List ℕ)
    → t ≡ k + n
    → take k xs ≡ take k ys
    → t ≤ length xs
    → t ≤ length ys
    → take t (copy_at xs k (take n (drop k ys))) ≡ take t ys
take-copy_at zero n t xs ys s e h h' =
    let z : n ≡ t = omega arith in
    subst (λ m. take t (overwrite xs (take m ys)) ≡ take t ys) (sym z) (take-overwrite t xs ys h h')
take-copy_at (suc k) n zero xs ys s e h h' = absurd (omega arith)
take-copy_at (suc k) n (suc t) [] ys s e h h' = absurd (omega arith)
take-copy_at (suc k) n (suc t) (x ∷ xs) [] s e h h' = absurd (omega arith)
take-copy_at (suc k) n (suc t) (x ∷ xs) (y ∷ ys) s e h h' =
    ap₂ (λ a l. a ∷ l) (ap (λ l. get_or l 0 0) e)
      (take-copy_at k n t xs ys (omega arith) (ap (λ l. drop 1 l) e) (omega arith) (omega arith))

-- Of a block that begins with `n` bytes and then others, the first `n`.
pub take-append : (n : ℕ) (xs zs : List ℕ) → n ≤ length xs → take n (take n xs ++ zs) ≡ take n xs
take-append zero xs zs h = refl
take-append (suc n) [] zs h = absurd (omega arith)
take-append (suc n) (x ∷ xs) zs h = ap (λ l. x ∷ l) (take-append n xs zs (omega arith))
