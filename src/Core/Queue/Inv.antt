-- ===== src/Core/Queue/Inv.antt =====
-- The representation invariant of `nx_queue_t`, and what the parts of its calls do under it.
use nx_c_util.Base.{
  ℕ, ◌+◌, ◌-◌, ◌*◌, ◌^◌, ◌≤◌, ◌<◌, ◌≡◌, ◌≢◌, refl, sym, ap, ◌∙◌, arith, Option, none, some, List,
  [], ◌∷◌, ◌++◌, length, take, copy_at, length-copy_at, slot, slot-lt, round_from, round_from-push,
  round_from-pop, take-all, ◌%◌, length-tabulate, suc,
}
use nx_c_util.Core.Queue.{
  Queue, OnFull, ok, err_param, init, advance, append, tail, slot_offset, load, clear,
}
use nx_c_util.Core.Queue.Slots.{element, mul-room, element-copy_at_self, element-copy_at_ne}

-- A queue over the bytes `buf`. No object is larger than half the address space, so no size and
-- no position wraps around.
pub record IsValid (q : Queue) : Type 0 where
  pub buf : List ℕ
  pub holds : q.buffer ≡ some buf
  pub storage : length buf ≡ q.capacity * q.element_size
  pub small : q.capacity * q.element_size ≤ 2 ^ 31
  pub size_pos : 0 < q.element_size
  pub head_in : q.head < q.capacity
  pub count_in : q.count ≤ q.capacity

contents_of : Option (List ℕ) → ℕ → ℕ → ℕ → ℕ → List (List ℕ)
contents_of none size cap head n = []
contents_of (some buf) size cap head n = round_from (element buf size) cap head n

-- The elements that the queue holds, front first.
unfoldable pub contents : Queue → List (List ℕ)
unfolding contents_of
contents q = contents_of q.buffer q.element_size q.capacity q.head q.count

pub contents-round_from :
    (q : Queue) (buf : List ℕ)
    → q.buffer ≡ some buf
    → contents q ≡ round_from (element buf q.element_size) q.capacity q.head q.count
unfolding contents contents_of
contents-round_from q buf e = ap (λ b. contents_of b q.element_size q.capacity q.head q.count) e

pub length-contents : {q : Queue} → IsValid q → length (contents q) ≡ q.count
length-contents {q} v = ap length (contents-round_from q v.buf v.holds) ∙ length-tabulate q.count _

le-mul : (a b : ℕ) → 0 < b → a ≤ a * b
le-mul a b h = grind arith

capacity_small : {q : Queue} → IsValid q → q.capacity ≤ 2 ^ 31
capacity_small {q} v = omega (arith, le-mul q.capacity q.element_size v.size_pos)

pub slot_offset-mul :
    {q : Queue} → IsValid q → (k : ℕ) → k < q.capacity → slot_offset q k ≡ k * q.element_size
unfolding slot_offset
slot_offset-mul {q} v k h = omega (arith, mul-room k q.capacity q.element_size h)

tail-slot : {q : Queue} → IsValid q → tail q ≡ slot q.capacity q.head q.count
unfolding tail
tail-slot {q} v = ground (arith, capacity_small v)

pub load-element :
    {q : Queue} (v : IsValid q) (k : ℕ)
    → k < q.capacity
    → load q v.buf k ≡ element v.buf q.element_size k
unfolding load
load-element v k h = rw (slot_offset-mul v k h)

advance-slot :
    {q : Queue} (v : IsValid q)
    → q.count ≢ 0
    → advance q ≡ record q { head = slot q.capacity q.head 1; count = q.count - 1 }
unfolding advance
advance-slot {q} v ne = ground (arith, capacity_small v)

-- Dropping the front element of a queue that has one.
pub advance-IsValid : {q : Queue} → IsValid q → q.count ≢ 0 → IsValid (advance q)
unfolding advance
advance-IsValid {q} v ne = record {
  buf = v.buf;
  holds = v.holds;
  storage = v.storage;
  small = v.small;
  size_pos = v.size_pos;
  head_in = ground (arith, capacity_small v);
  count_in = omega arith;
}

pub contents-advance :
    {q : Queue} (v : IsValid q)
    → q.count ≢ 0
    → contents q ≡ element v.buf q.element_size q.head ∷ contents (advance q)
contents-advance {q} v ne =
    let e : q.count ≡ suc (q.count - 1) = omega arith in
    contents-round_from q v.buf v.holds
    ∙ ap (round_from (element v.buf q.element_size) q.capacity q.head) e
    ∙ round_from-pop (element v.buf q.element_size) q.capacity q.head (q.count - 1) v.head_in
        (omega arith)
    ∙ ap (λ l. element v.buf q.element_size q.head ∷ l)
        (sym (ap contents (advance-slot v ne) ∙ contents-round_from _ v.buf v.holds))

-- Adding an element to a queue with a free slot.
module _ {q : Queue} (v : IsValid q) (x : List ℕ) (room : q.count < q.capacity)
    (size : length x ≡ q.element_size) where
  place : ℕ
  place = slot q.capacity q.head q.count

  grown : List ℕ
  unfolding place
  grown = copy_at v.buf (place * q.element_size) x

  place-lt : place < q.capacity
  unfolding place
  place-lt = slot-lt q.capacity q.head q.count v.head_in v.count_in

  append-grown : append q v.buf x ≡ record q { buffer = some grown; count = q.count + 1 }
  unfolding append grown
  append-grown =
      let t : tail q ≡ place = tail-slot v in
      let o : slot_offset q place ≡ place * q.element_size = slot_offset-mul v place place-lt in
      let w : take q.element_size x ≡ x = take-all q.element_size x (omega arith) in
      let c : (q.count + 1) % 2 ^ 32 ≡ q.count + 1 = omega (arith, capacity_small v) in
      rw (t, o, w, c)

  pub append-IsValid : IsValid (append q v.buf x)
  append-IsValid = rw append-grown (record {
    buf = grown;
    holds = refl;
    storage = unfold grown in length-copy_at v.buf (place * q.element_size) x ∙ v.storage;
    small = v.small;
    size_pos = v.size_pos;
    head_in = v.head_in;
    count_in = omega arith;
  })

  pub contents-append : contents (append q v.buf x) ≡ contents q ++ (x ∷ [])
  unfolding grown
  contents-append =
      ap contents append-grown
      ∙ contents-round_from _ grown refl
      ∙ ap (round_from (element grown q.element_size) q.capacity q.head) {y = suc q.count}
          (omega arith)
      ∙ round_from-push (element v.buf q.element_size) (element grown q.element_size) x q.capacity
          q.head q.count v.head_in room
          (λ j h ne.
            element-copy_at_ne v.buf x q.element_size q.capacity place v.storage size place-lt j h
              ne)
          (element-copy_at_self v.buf x q.element_size q.capacity place v.storage size place-lt)
      ∙ ap (λ l. l ++ (x ∷ [])) (sym (contents-round_from q v.buf v.holds))

-- Dropping the front element of a full queue and adding one in its place.
module _ {q : Queue} (v : IsValid q) (x : List ℕ) (full : q.count ≡ q.capacity)
    (size : length x ≡ q.element_size) where
  some_front : q.count ≢ 0
  some_front = omega arith

  freed : (advance q).count < (advance q).capacity
  unfolding advance
  freed = omega (arith, capacity_small v)

  same_size : length x ≡ (advance q).element_size
  unfolding advance
  same_size = size

  pub overwrite-IsValid : IsValid (append (advance q) v.buf x)
  unfolding advance-IsValid
  overwrite-IsValid = append-IsValid (advance-IsValid v some_front) x freed same_size

  pub contents-overwrite : contents (append (advance q) v.buf x) ≡ contents (advance q) ++ (x ∷ [])
  unfolding advance-IsValid
  contents-overwrite = contents-append (advance-IsValid v some_front) x freed same_size

pub clear-IsValid : {q : Queue} → IsValid q → IsValid (clear q)
unfolding clear
clear-IsValid v = record {
  buf = v.buf;
  holds = v.holds;
  storage = v.storage;
  small = v.small;
  size_pos = v.size_pos;
  head_in = omega arith;
  count_in = omega arith;
}

pub contents-clear : {q : Queue} → IsValid q → contents (clear q) ≡ []
unfolding clear
contents-clear v = contents-round_from _ v.buf v.holds

-- The queue that an initialisation makes.
fresh : List ℕ → (size cap : ℕ) → OnFull → Queue
fresh buf size cap policy = record {
  buffer = some buf;
  element_size = size;
  capacity = cap;
  head = 0;
  count = 0;
  on_full = policy;
}

init-fresh :
    (buf : List ℕ) (size cap : ℕ) (policy : OnFull)
    → 0 < size
    → 0 < cap
    → init (some buf) size cap policy ≡ (ok, some (fresh buf size cap policy))
unfolding init fresh
init-fresh buf size cap policy hs hc = ground arith

fresh-IsValid :
    (buf : List ℕ) (size cap : ℕ) (policy : OnFull)
    → 0 < size
    → 0 < cap
    → length buf ≡ cap * size
    → cap * size ≤ 2 ^ 31
    → IsValid (fresh buf size cap policy)
unfolding fresh
fresh-IsValid buf size cap policy hs hc storage small = record {
  buf = buf;
  holds = refl;
  storage = storage;
  small = small;
  size_pos = hs;
  head_in = hc;
  count_in = omega arith;
}

init_refuses :
    (b : Option (List ℕ)) (n cap : ℕ) (policy : OnFull)
    → (init none n cap policy ≡ (err_param, none))
      × (init b 0 cap policy ≡ (err_param, none))
      × (init b n 0 policy ≡ (err_param, none))
unfolding init
init_refuses none n cap policy = (refl, refl, refl)
init_refuses (some buf) n cap policy = (refl, refl, ground arith)

-- An initialisation of a buffer of `cap * size` bytes, at most 2 ^ 31 of them and neither factor 0,
-- succeeds with a valid empty queue of that capacity, element size and policy, over that buffer. With no
-- buffer, or with a capacity or an element size of 0, it is refused and writes no handle.
pub init-IsValid :
    (buf : List ℕ) (size cap : ℕ) (policy : OnFull)
    → 0 < size
    → 0 < cap
    → length buf ≡ cap * size
    → cap * size ≤ 2 ^ 31
    → ((q : Queue) × (init (some buf) size cap policy ≡ (ok, some q))
        × IsValid q
        × (contents q ≡ [])
        × (q.buffer ≡ some buf)
        × (q.capacity ≡ cap)
        × (q.element_size ≡ size)
        × (q.on_full ≡ policy))
      × ((b : Option (List ℕ)) (n m : ℕ)
          → (init none n m policy ≡ (err_param, none))
            × (init b 0 m policy ≡ (err_param, none))
            × (init b n 0 policy ≡ (err_param, none)))
unfolding fresh
init-IsValid buf size cap policy hs hc storage small = (
  (
    fresh buf size cap policy,
    init-fresh buf size cap policy hs hc,
    fresh-IsValid buf size cap policy hs hc storage small,
    contents-round_from (fresh buf size cap policy) buf refl,
    refl,
    refl,
    refl,
    refl,
  ),
  λ b n m. init_refuses b n m policy,
)
