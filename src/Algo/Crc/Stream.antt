-- ===== src/Algo/Crc/Stream.antt =====
-- Feeding data in pieces gives the CRC of the whole.
use nx_c_util.Base.{ℕ, ◌≡◌, refl, sym, ap, ◌∙◌, some, List, [], ◌∷◌, ◌++◌}
use nx_c_util.Algo.Crc.{Ctx, feed, feed_byte, update}

-- A caller that feeds the chunks of a message one after the other.
unfoldable pub update_chunks : Ctx → List (List ℕ) → Ctx
update_chunks ctx [] = ctx
update_chunks ctx (c ∷ cs) = update_chunks (update ctx (some c)) cs

unfoldable pub concat : List (List ℕ) → List ℕ
concat [] = []
concat (c ∷ cs) = c ++ concat cs

feed-append :
    (ctx : Ctx) (reg : ℕ) (xs ys : List ℕ) → feed ctx reg (xs ++ ys) ≡ feed ctx (feed ctx reg xs) ys
unfolding feed
feed-append ctx reg [] ys = refl
feed-append ctx reg (x ∷ xs) ys = feed-append ctx (feed_byte ctx reg x) xs ys

-- The register does not enter the parameters of the loop.
feed_same :
    (ctx : Ctx) (start reg : ℕ) (xs : List ℕ)
    → feed (record ctx { reg = start }) reg xs ≡ feed ctx reg xs
unfolding feed feed_byte
feed_same ctx start reg [] = refl
feed_same ctx start reg (x ∷ xs) = feed_same ctx start (feed_byte ctx reg x) xs

update-update :
    (ctx : Ctx) (xs ys : List ℕ)
    → update (update ctx (some xs)) (some ys) ≡ update ctx (some (xs ++ ys))
unfolding update
update-update ctx xs ys =
    ap (λ r. record ctx { reg = r })
      (feed_same ctx (feed ctx ctx.reg xs) (feed ctx ctx.reg xs) ys
        ∙ sym (feed-append ctx ctx.reg xs ys))

update_nil : (ctx : Ctx) → update ctx (some []) ≡ ctx
unfolding update
update_nil ctx = refl

-- However a message is cut into chunks, feeding them in order is feeding the message.
pub chunks_whole :
    (ctx : Ctx) (cs : List (List ℕ)) → update_chunks ctx cs ≡ update ctx (some (concat cs))
unfolding update_chunks concat
chunks_whole ctx [] = sym (update_nil ctx)
chunks_whole ctx (c ∷ cs) = chunks_whole (update ctx (some c)) cs ∙ update-update ctx c (concat cs)
