-- ===== src/Core/IntrusiveList.antt =====
-- src/core/nx_list.h: the intrusive doubly linked list. A node is its address, and the memory gives the
-- two links at each address.
pub mod Chain
pub mod Refine
mod Tests
use nx_c_util.Base.{ℕ, zero, suc, Bool, List, [], ◌∷◌, ◌==◌, if◌then◌else◌}

-- `nx_list_t` at every address.
pub record Links : Type 0 where
  pub next : ℕ → ℕ
  pub prev : ℕ → ℕ

-- A function with one value replaced.
abbrev pub put : (ℕ → ℕ) → (at v : ℕ) → ℕ → ℕ
put f at v x = if x == at then v else f x

abbrev pub set_next : Links → (at v : ℕ) → Links
set_next h at v = record h { next = put h.next at v }

abbrev pub set_prev : Links → (at v : ℕ) → Links
set_prev h at v = record h { prev = put h.prev at v }

-- `nx_list_init`
unfoldable pub init : Links → (head : ℕ) → Links
init h head = set_next (set_prev h head head) head head

-- `nx_list_add`
unfoldable pub add : Links → (pos node : ℕ) → Links
add h pos node =
    let h1 = set_prev h node pos in
    let h2 = set_next h1 node (h1.next pos) in
    let h3 = set_prev h2 (h2.next pos) node in set_next h3 pos node

-- `nx_list_add_head`, `nx_list_add_tail`
unfoldable pub add_head : Links → (head node : ℕ) → Links
add_head h head node = add h head node

unfoldable pub add_tail : Links → (head node : ℕ) → Links
add_tail h head node = add h (h.prev head) node

-- `nx_list_del`
unfoldable pub del : Links → (node : ℕ) → Links
del h node =
    let h1 = set_next h (h.prev node) (h.next node) in set_prev h1 (h1.next node) (h1.prev node)

-- `nx_list_is_empty`, `nx_list_first`, `nx_list_last`
unfoldable pub is_empty : Links → (head : ℕ) → Bool
is_empty h head = h.next head == head

unfoldable pub first : Links → (head : ℕ) → ℕ
first h head = h.next head

unfoldable pub last : Links → (head : ℕ) → ℕ
last h head = h.prev head

-- `nx_list_for_each` from a position on: the nodes it comes to, in so many steps.
unfoldable pub each_from : Links → (head pos steps : ℕ) → List ℕ
each_from h head pos zero = []
each_from h head pos (suc steps) =
    let rest = each_from h head (h.next pos) steps in if pos == head then [] else pos ∷ rest

unfoldable pub for_each : Links → (head steps : ℕ) → List ℕ
unfolding each_from
for_each h head steps = each_from h head (h.next head) steps
