-- ===== src/Core/Queue.antt =====
-- src/core/nx_queue.h and src/core/nx_queue.c: a ring of fixed-size elements over a caller's
-- bytes. An element is the list of its bytes; a pointer that may be NULL is an `Option`, and an
-- `out` argument is given by whether it is non-NULL.
pub mod Slots
pub mod Inv
pub mod Refine
mod Tests
use nx_c_util.Base.{
  ℕ, ◌*◌, ◌%◌, ◌^◌, Bool, true, false, ◌||◌, Option, none, some, List, ◌+32◌, ◌-32◌, leb, ◌==◌,
  if◌then◌else◌, take, drop, copy_at,
}

-- `nx_queue_ret_t`
pub data Ret : Type 0 where
  ok err_param err_empty err_full : Ret

-- `nx_queue_on_full_t`
pub data OnFull : Type 0 where
  reject overwrite : OnFull

-- `nx_queue_t`. The buffer is the `capacity * element_size` bytes from its start on.
pub record Queue : Type 0 where
  pub buffer : Option (List ℕ)
  pub element_size : ℕ
  pub capacity : ℕ
  pub head : ℕ
  pub count : ℕ
  pub on_full : OnFull

-- The offset that `nx_queue_slot` adds to the buffer.
pub slot_offset : Queue → ℕ → ℕ
slot_offset q index = index * q.element_size % 2 ^ 32

-- `nx_queue_init`; the status, and the handle where it is written.
pub init : Option (List ℕ) → ℕ → ℕ → OnFull → Ret × Option Queue
init none element_size capacity on_full = (err_param, none)
init (some buf) element_size capacity on_full =
    if element_size == 0 || capacity == 0 then (err_param, none) else (
      ok,
      some (record {
        buffer = some buf;
        element_size = element_size;
        capacity = capacity;
        head = 0;
        count = 0;
        on_full = on_full;
      }),
    )

-- `head++; if (head >= capacity) head -= capacity; count--`: the front element is dropped.
pub advance : Queue → Queue
advance q = record q {
  head = if leb q.capacity (q.head +32 1) then (q.head +32 1) -32 q.capacity else q.head +32 1;
  count = q.count -32 1;
}

-- `(head + count)`, wrapped at the capacity.
pub tail : Queue → ℕ
tail q =
    if leb q.capacity (q.head +32 q.count)
    then (q.head +32 q.count) -32 q.capacity
    else q.head +32 q.count

-- The element is copied to the tail.
pub append : Queue → List ℕ → List ℕ → Queue
unfolding tail slot_offset
append q buf element = record q {
  buffer = some (copy_at buf (slot_offset q (tail q)) (take q.element_size element));
  count = q.count +32 1;
}

push_full : OnFull → Queue → List ℕ → List ℕ → Ret × Queue
unfolding append advance
push_full reject q buf element = (err_full, q)
push_full overwrite q buf element = (ok, append (advance q) buf element)

push_to : Queue → Option (List ℕ) → Option (List ℕ) → Ret × Queue
unfolding push_full append
push_to q none element = (err_param, q)
push_to q (some buf) none = (err_param, q)
push_to q (some buf) (some element) =
    if q.count == q.capacity then push_full q.on_full q buf element else (ok, append q buf element)

-- `nx_queue_push`
pub push : Queue → Option (List ℕ) → Ret × Queue
unfolding push_to
push q element = push_to q q.buffer element

-- The bytes of an element, as `memcpy` reads them.
pub load : Queue → List ℕ → ℕ → List ℕ
unfolding slot_offset
load q buf index = take q.element_size (drop (slot_offset q index) buf)

pop_to : Queue → Option (List ℕ) → Bool → Ret × Option (List ℕ) × Queue
unfolding load advance
pop_to q none out = (err_param, none, q)
pop_to q (some buf) out =
    if q.count == 0
    then (err_empty, none, q)
    else (ok, (if out then some (load q buf q.head) else none), advance q)

-- `nx_queue_pop`: the status, what is written to `out`, and the queue.
pub pop : Queue → Bool → Ret × Option (List ℕ) × Queue
unfolding pop_to
pop q out = pop_to q q.buffer out

peek_to : Queue → Option (List ℕ) → Bool → Ret × Option (List ℕ)
unfolding load
peek_to q none out = (err_param, none)
peek_to q (some buf) false = (err_param, none)
peek_to q (some buf) true =
    if q.count == 0 then (err_empty, none) else (ok, some (load q buf q.head))

-- `nx_queue_peek`
pub peek : Queue → Bool → Ret × Option (List ℕ)
unfolding peek_to
peek q out = peek_to q q.buffer out

-- `nx_queue_clear`
pub clear : Queue → Queue
clear q = record q { head = 0; count = 0 }
