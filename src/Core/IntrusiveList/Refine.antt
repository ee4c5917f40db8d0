-- ===== src/Core/IntrusiveList/Refine.antt =====
-- src/core/nx_list.h: the links as the list of the nodes that were put in and not taken out.
use nx_c_util.Base.{
  ℕ, zero, suc, ◌<◌, ◌≡◌, ◌⊎◌, inl, inr, refl, sym, ap, ◌∙◌, arith, true, List, [], ◌∷◌, ◌++◌,
  length, ◌==◌, if◌then◌else◌, if-true, if-false, Bool-cases,
}
use mathlib.Core.List.{append_assoc}
use mathlib.Core.Path.{subst}
use nx_c_util.Core.IntrusiveList.{Links, init, add, add_head, add_tail, del, each_from, for_each}
use nx_c_util.Core.IntrusiveList.Chain.{
  count, count-append, IsChain, Once, split, join, linked-IsChain, bridged-IsChain,
}

-- The links at a head and the nodes listed make up the list of these nodes.
pub record IsList (h : Links) (head : ℕ) (xs : List ℕ) : Type 0 where
  pub chain : IsChain h head xs head
  pub once : Once (head ∷ xs)

rotate :
    (h : Links) (a b : ℕ) (xs ys : List ℕ)
    → IsChain h a (xs ++ b ∷ ys) a
    → IsChain h b (ys ++ a ∷ xs) b
rotate h a b xs ys c = let (front, back) = split h a b a xs ys c in join h b a b ys xs back front

rotate-Once : (a b : ℕ) (xs ys : List ℕ) → Once (a ∷ (xs ++ b ∷ ys)) → Once (b ∷ (ys ++ a ∷ xs))
rotate-Once a b xs ys once c =
    let o = once c in
    let e = count-append c xs (b ∷ ys) in let e' = count-append c ys (a ∷ xs) in omega arith

count-same : (a node : ℕ) (xs : List ℕ) → (a == node) ≡ true → count node xs ≡ 0 → count a xs ≡ 0
count-same a node xs e off =
    let same : a ≡ node = ground arith in subst (λ n. count n xs ≡ 0) (sym same) off

add-Once :
    (node : ℕ) (xs ys : List ℕ)
    → count node (xs ++ ys) ≡ 0
    → Once (xs ++ ys)
    → Once (xs ++ node ∷ ys)
add-Once node xs ys off once a =
    let o = once a in
    let e = count-append a xs ys in
    let e' = count-append a xs (node ∷ ys) in
    elim (Bool-cases (a == node)) [
      | inl same ↦ (let z = count-same a node (xs ++ ys) same off in ground arith)
      | inr other ↦ ground arith
    ]

del-Once : (node : ℕ) (xs ys : List ℕ) → Once (xs ++ node ∷ ys) → Once (xs ++ ys)
del-Once node xs ys once a =
    let o = once a in
    let e = count-append a xs ys in let e' = count-append a xs (node ∷ ys) in omega arith

pub init-IsList : (h : Links) (head : ℕ) → IsList (init h head) head []
unfolding init
init-IsList h head = record { chain = (ground arith, ground arith); once = λ a. ground arith }

pub add_head-IsList :
    (h : Links) (head node : ℕ) (xs : List ℕ)
    → count node (head ∷ xs) ≡ 0
    → IsList h head xs
    → IsList (add_head h head node) head (node ∷ xs)
unfolding add_head
add_head-IsList h head node xs off l = record {
  chain = linked-IsChain h head node xs l.once off l.chain;
  once = add-Once node (head ∷ []) xs off l.once;
}

-- A list is empty or ends with a node.
snoc-cases : (xs : List ℕ) → (xs ≡ []) ⊎ ((ys : List ℕ) × (y : ℕ) × (xs ≡ ys ++ (y ∷ [])))
snoc-cases [] = inl refl
snoc-cases (x ∷ xs) = elim (snoc-cases xs) [
  | inl e ↦ inr ([], x, ap (λ l. x ∷ l) e)
  | inr (ys, y, e) ↦ inr (x ∷ ys, y, ap (λ l. x ∷ l) e)
]

add_last :
    (h : Links) (head node last : ℕ) (ys : List ℕ)
    → count node (head ∷ (ys ++ (last ∷ []))) ≡ 0
    → IsList h head (ys ++ (last ∷ []))
    → IsList (add_tail h head node) head (ys ++ (last ∷ node ∷ []))
unfolding add_tail
add_last h head node last ys off l =
    let (front, (n, r)) = split h head last head ys [] l.chain in
    let around = rotate h head last ys [] l.chain in
    let once = rotate-Once head last ys [] l.once in
    let e = count-append node ys (last ∷ []) in
    let e' = count-append node (head ∷ ys) (last ∷ node ∷ []) in
    let put_in : IsChain (add h last node) last (node ∷ head ∷ ys) last =
      linked-IsChain h last node (head ∷ ys) once (omega arith) around in
    subst (λ v. IsList (add h v node) head (ys ++ (last ∷ node ∷ []))) (sym r)
      (record {
        chain = rotate (add h last node) last head (node ∷ []) ys put_in;
        once =
            rotate-Once last head (node ∷ []) ys
              (add-Once node (last ∷ []) (head ∷ ys) (omega arith) once);
      })

pub add_tail-IsList :
    (h : Links) (head node : ℕ) (xs : List ℕ)
    → count node (head ∷ xs) ≡ 0
    → IsList h head xs
    → IsList (add_tail h head node) head (xs ++ (node ∷ []))
unfolding add_tail
add_tail-IsList h head node xs off l = elim (snoc-cases xs) [
  | inl e ↦
      let l0 : IsList h head [] = subst (IsList h head) e l in
      let r = l0.chain.1 in
      subst (λ zs. IsList (add h (h.prev head) node) head (zs ++ (node ∷ []))) (sym e)
        (subst (λ v. IsList (add h v node) head (node ∷ [])) (sym r)
          (record {
            chain = linked-IsChain h head node [] l0.once (ground arith) l0.chain;
            once = add-Once node (head ∷ []) [] (ground arith) l0.once;
          }))
  | inr (ys, y, e) ↦
      subst (λ zs. IsList (add h (h.prev head) node) head (zs ++ (node ∷ []))) (sym e)
        (subst (IsList (add h (h.prev head) node) head) (sym (append_assoc ys (y ∷ []) (node ∷ [])))
          (add_last h head node y ys (subst (λ zs. count node (head ∷ zs) ≡ 0) e off)
            (subst (IsList h head) e l)))
]

del_after :
    (h : Links) (head node before : ℕ) (xs ys : List ℕ)
    → IsList h head (xs ++ before ∷ node ∷ ys)
    → IsList (del h node) head (xs ++ before ∷ ys)
del_after h head node before xs ys l =
    let around = rotate h head before xs (node ∷ ys) l.chain in
    let once = rotate-Once head before xs (node ∷ ys) l.once in
    let out = bridged-IsChain h before node (ys ++ head ∷ xs) once around in
    record {
      chain = rotate (del h node) before head ys xs out;
      once = rotate-Once before head ys xs (del-Once node (before ∷ []) (ys ++ head ∷ xs) once);
    }

pub del-IsList :
    (h : Links) (head node : ℕ) (xs ys : List ℕ)
    → IsList h head (xs ++ node ∷ ys)
    → IsList (del h node) head (xs ++ ys)
del-IsList h head node xs ys l = elim (snoc-cases xs) [
  | inl e ↦
      let l0 = subst (λ zs. IsList h head (zs ++ node ∷ ys)) e l in
      subst (λ zs. IsList (del h node) head (zs ++ ys)) (sym e)
        (record {
          chain = bridged-IsChain h head node ys l0.once l0.chain;
          once = del-Once node (head ∷ []) ys l0.once;
        })
  | inr (zs, z, e) ↦
      let l1 = subst (λ ws. IsList h head (ws ++ node ∷ ys)) e l in
      let l2 = subst (IsList h head) (append_assoc zs (z ∷ []) (node ∷ ys)) l1 in
      subst (λ ws. IsList (del h node) head (ws ++ ys)) (sym e)
        (subst (IsList (del h node) head) (sym (append_assoc zs (z ∷ []) ys))
          (del_after h head node z zs ys l2))
]

-- The loop comes to the nodes in their order, and ends within one step more than there are.
each_from-walks :
    (h : Links) (head p : ℕ) (xs : List ℕ) (steps : ℕ)
    → IsChain h p xs head
    → count head xs ≡ 0
    → length xs < steps
    → each_from h head (h.next p) steps ≡ xs
unfolding each_from
each_from-walks h head p xs zero c off l = absurd (omega arith)
each_from-walks h head p [] (suc steps) (n, r) off l =
    if-true {b = h.next p == head} _ _ (ground arith)
each_from-walks h head p (x ∷ xs) (suc steps) (n, r, rest) off l =
    if-false {b = h.next p == head} _ _ (ground arith)
    ∙ ap (λ v. v ∷ each_from h head (h.next v) steps) n
    ∙ ap (λ l. x ∷ l) (each_from-walks h head x xs steps rest (ground arith) (omega arith))

-- A call: a node is put in at either end, or taken out.
pub data Call : Type 0 where
  at_head at_tail out : (node : ℕ) → Call

abbrev pub after : (head : ℕ) → Links → Call → Links
after head h (at_head node) = add_head h head node
after head h (at_tail node) = add_tail h head node
after head h (out node) = del h node

-- What a call does to the nodes.
abbrev pub without : ℕ → List ℕ → List ℕ
without node [] = []
without node (x ∷ xs) = let rest = without node xs in if node == x then xs else x ∷ rest

abbrev pub nodes_after : List ℕ → Call → List ℕ
nodes_after xs (at_head node) = node ∷ xs
nodes_after xs (at_tail node) = xs ++ (node ∷ [])
nodes_after xs (out node) = without node xs

-- A node is put in that is not in the list, or taken out that is.
abbrev pub MayCall : (head : ℕ) → List ℕ → Call → Type 0
MayCall head xs (at_head node) = count node (head ∷ xs) ≡ 0
MayCall head xs (at_tail node) = count node (head ∷ xs) ≡ 0
MayCall head xs (out node) = 0 < count node xs

abbrev pub after_all : (head : ℕ) → Links → List Call → Links
after_all head h [] = h
after_all head h (call ∷ calls) = after_all head (after head h call) calls

abbrev pub nodes_after_all : List ℕ → List Call → List ℕ
nodes_after_all xs [] = xs
nodes_after_all xs (call ∷ calls) = nodes_after_all (nodes_after xs call) calls

abbrev pub MayCallAll : (head : ℕ) → List ℕ → List Call → Type 0
MayCallAll head xs [] = Unit
MayCallAll head xs (call ∷ calls) =
    MayCall head xs call × MayCallAll head (nodes_after xs call) calls

-- Where a node that is in a list stands.
without-cases :
    (node : ℕ) (xs : List ℕ)
    → 0 < count node xs
    → (front : List ℕ) × (back : List ℕ) × (xs ≡ front ++ node ∷ back)
      × (without node xs ≡ front ++ back)
without-cases node [] h = absurd (omega arith)
without-cases node (x ∷ xs) h = elim (Bool-cases (node == x)) [
  | inl same ↦
      let e : node ≡ x = ground arith in
      ([], xs, ap (λ y. y ∷ xs) (sym e), if-true {b = node == x} _ _ same)
  | inr other ↦
      let (front, back, e, e') = without-cases node xs (ground arith) in
      (x ∷ front, back, ap (λ l. x ∷ l) e, if-false {b = node == x} _ _ other ∙ ap (λ l. x ∷ l) e')
]

after-IsList :
    (h : Links) (head : ℕ) (xs : List ℕ) (call : Call)
    → MayCall head xs call
    → IsList h head xs
    → IsList (after head h call) head (nodes_after xs call)
after-IsList h head xs (at_head node) m l = add_head-IsList h head node xs m l
after-IsList h head xs (at_tail node) m l = add_tail-IsList h head node xs m l
after-IsList h head xs (out node) m l =
    let (front, back, e, e') = without-cases node xs m in
    subst (IsList (del h node) head) (sym e')
      (del-IsList h head node front back (subst (IsList h head) e l))

after_all-Keeps :
    (h : Links) (head : ℕ) (xs : List ℕ) (calls : List Call)
    → MayCallAll head xs calls
    → IsList h head xs
    → IsList (after_all head h calls) head (nodes_after_all xs calls)
after_all-Keeps h head xs [] m l = l
after_all-Keeps h head xs (call ∷ calls) (m, ms) l =
    after_all-Keeps (after head h call) head (nodes_after xs call) calls ms
      (after-IsList h head xs call m l)

-- From an initialised head on, whatever nodes are put in at either end and taken out, the links run
-- through just the nodes that a list of them would hold after the same calls, in that order and both
-- ways, and the loop over the list comes to them and ends within one step more than there are. A node is put
-- in only while it is not in the list, and taken out only while it is.
pub after_all-IsList :
    (h : Links) (head : ℕ) (calls : List Call) (steps : ℕ)
    → MayCallAll head [] calls
    → length (nodes_after_all [] calls) < steps
    → let links = after_all head (init h head) calls in
      IsList links head (nodes_after_all [] calls)
      × (for_each links head steps ≡ nodes_after_all [] calls)
unfolding for_each
after_all-IsList h head calls steps m l =
    let links = after_all head (init h head) calls in
    let kept = after_all-Keeps (init h head) head [] calls m (init-IsList h head) in
    (
      kept,
      each_from-walks links head head (nodes_after_all [] calls) steps kept.chain
          (let o = kept.once head in ground arith) l,
    )
