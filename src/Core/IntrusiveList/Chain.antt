-- ===== src/Core/IntrusiveList/Chain.antt =====
-- src/core/nx_list.h: what the links of a list look like, and how the operations change them.
use nx_c_util.Base.{
  ℕ, ◌+◌, ◌≤◌, ◌≡◌, ◌≢◌, sym, ap, ◌∙◌, arith, List, [], ◌∷◌, ◌++◌, ◌==◌, if◌then◌else◌,
}
use mathlib.Core.Path.{subst}
use nx_c_util.Core.IntrusiveList.{Links, put, set_next, set_prev, add, del}

-- How often a node stands in a list.
abbrev pub count : ℕ → List ℕ → ℕ
count a [] = 0
count a (x ∷ xs) = (if a == x then 1 else 0) + count a xs

pub count-append : (a : ℕ) (xs ys : List ℕ) → count a (xs ++ ys) ≡ count a xs + count a ys
count-append a [] ys = omega arith
count-append a (x ∷ xs) ys = let e = count-append a xs ys in omega arith

-- The nodes from `p` on, over those listed, to `q`, are linked both ways.
abbrev pub IsChain : Links → ℕ → List ℕ → ℕ → Type 0
IsChain h p [] q = (h.next p ≡ q) × (h.prev q ≡ p)
IsChain h p (x ∷ xs) q = (h.next p ≡ x) × (h.prev x ≡ p) × IsChain h x xs q

pub split :
    (h : Links) (p x q : ℕ) (xs ys : List ℕ)
    → IsChain h p (xs ++ x ∷ ys) q
    → IsChain h p xs x × IsChain h x ys q
split h p x q [] ys (n, r, rest) = ((n, r), rest)
split h p x q (y ∷ xs) ys (n, r, rest) =
    let (front, back) = split h y x q xs ys rest in ((n, r, front), back)

pub join :
    (h : Links) (p x q : ℕ) (xs ys : List ℕ)
    → IsChain h p xs x
    → IsChain h x ys q
    → IsChain h p (xs ++ x ∷ ys) q
join h p x q [] ys (n, r) back = (n, r, back)
join h p x q (y ∷ xs) ys (n, r, rest) back = (n, r, join h y x q xs ys rest back)

put-same : (f : ℕ → ℕ) (at v : ℕ) → put f at v at ≡ v
put-same f at v = ground arith

put-other : (f : ℕ → ℕ) (at v x : ℕ) → x ≢ at → put f at v x ≡ f x
put-other f at v x h = ground arith

-- A write to a node that the chain does not have leaves it.
next-frame :
    (h : Links) (at v p q : ℕ) (xs : List ℕ)
    → count at (p ∷ xs) ≡ 0
    → IsChain h p xs q
    → IsChain (set_next h at v) p xs q
next-frame h at v p q [] off (n, r) = (put-other h.next at v p (ground arith) ∙ n, r)
next-frame h at v p q (x ∷ xs) off (n, r, rest) =
    (put-other h.next at v p (ground arith) ∙ n, r, next-frame h at v x q xs (ground arith) rest)

prev-frame :
    (h : Links) (at v p q : ℕ) (xs : List ℕ)
    → count at (q ∷ xs) ≡ 0
    → IsChain h p xs q
    → IsChain (set_prev h at v) p xs q
prev-frame h at v p q [] off (n, r) = (n, put-other h.prev at v q (ground arith) ∙ r)
prev-frame h at v p q (x ∷ xs) off (n, r, rest) =
    (n, put-other h.prev at v x (ground arith) ∙ r, prev-frame h at v x q xs (ground arith) rest)

-- No node stands in a list twice.
abbrev pub Once : List ℕ → Type 0
Once xs = (a : ℕ) → count a xs ≤ 1

-- A node between two that follow one another.
abbrev linked : Links → (pos node after : ℕ) → Links
linked h pos node after =
    set_next (set_prev (set_next (set_prev h node pos) node after) after node) pos node

add-linked :
    (h : Links) (pos node after : ℕ)
    → pos ≢ node
    → h.next pos ≡ after
    → add h pos node ≡ linked h pos node after
unfolding add
add-linked h pos node after other e =
    ap (λ v. set_next (set_prev (set_next (set_prev h node pos) node (h.next pos)) v node) pos node)
      (put-other h.next node (h.next pos) pos other)
    ∙ ap (linked h pos node) e

linked-links :
    (h : Links) (pos node after : ℕ)
    → node ≢ pos
    → node ≢ after
    → let l = linked h pos node after in
      (l.next pos ≡ node) × (l.prev node ≡ pos) × (l.next node ≡ after) × (l.prev after ≡ node)
linked-links h pos node after first second = (
  put-same (put h.next node after) pos node,
  put-other (put h.prev node pos) after node node second ∙ put-same h.prev node pos,
  put-other (put h.next node after) pos node node first ∙ put-same h.next node after,
  put-same (put h.prev node pos) after node,
)

pub linked-IsChain :
    (h : Links) (pos node : ℕ) (zs : List ℕ)
    → Once (pos ∷ zs)
    → count node (pos ∷ zs) ≡ 0
    → IsChain h pos zs pos
    → IsChain (add h pos node) pos (node ∷ zs) pos
linked-IsChain h pos node [] once off (n, r) =
    let (a, b, c, d) = linked-links h pos node pos (ground arith) (ground arith) in
    subst (λ l. IsChain l pos (node ∷ []) pos) (sym (add-linked h pos node pos (ground arith) n))
      (a, b, (c, d))
linked-IsChain h pos node (z ∷ zs) once off (n, r, rest) =
    let (a, b, c, d) = linked-links h pos node z (ground arith) (ground arith) in
    let kept =
      next-frame (set_prev (set_next (set_prev h node pos) node z) z node) pos node z pos zs
        (let o = once pos in ground arith)
        (prev-frame (set_next (set_prev h node pos) node z) z node z pos zs
          (let o = once z in ground arith)
          (next-frame (set_prev h node pos) node z z pos zs (ground arith)
            (prev-frame h node pos z pos zs (ground arith) rest))) in
    subst (λ l. IsChain l pos (node ∷ z ∷ zs) pos) (sym (add-linked h pos node z (ground arith) n))
      (a, b, (c, d, kept))

-- Two nodes that follow one another once the one between them is out.
abbrev bridged : Links → (before after : ℕ) → Links
bridged h before after = set_prev (set_next h before after) after before

del-bridged :
    (h : Links) (before node after : ℕ)
    → before ≢ node
    → h.prev node ≡ before
    → h.next node ≡ after
    → del h node ≡ bridged h before after
unfolding del
del-bridged h before node after other r n =
    ap (λ v. set_prev (set_next h v (h.next node)) (put h.next v (h.next node) node) (h.prev node))
      r
    ∙ ap (λ v. set_prev (set_next h before (h.next node)) v (h.prev node))
        (put-other h.next before (h.next node) node (λ e. other (sym e)))
    ∙ ap (λ v. set_prev (set_next h before (h.next node)) (h.next node) v) r
    ∙ ap (bridged h before) n

pub bridged-IsChain :
    (h : Links) (before node : ℕ) (zs : List ℕ)
    → Once (before ∷ node ∷ zs)
    → IsChain h before (node ∷ zs) before
    → IsChain (del h node) before zs before
bridged-IsChain h before node [] once (n, r, (n', r')) =
    subst (λ l. IsChain l before [] before)
      (sym (del-bridged h before node before (let o = once node in ground arith) r n'))
      (put-same h.next before before, put-same h.prev before before)
bridged-IsChain h before node (z ∷ zs) once (n, r, (n', r', rest)) =
    subst (λ l. IsChain l before (z ∷ zs) before)
      (sym (del-bridged h before node z (let o = once node in ground arith) r n'))
      (
        put-same h.next before z,
        put-same h.prev z before,
        prev-frame _ z before z before zs (let o = once z in ground arith)
            (next-frame h before z z before zs (let o = once before in ground arith) rest),
      )
