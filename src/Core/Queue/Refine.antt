-- ===== src/Core/Queue/Refine.antt =====
-- A valid queue behaves as a bounded list of elements with its policy, under any sequence of calls.
use nx_c_util.Base.{
  ℕ, ◌≡◌, refl, ap, ap₂, ◌∙◌, arith, true, false, Option, none, some, List, [], ◌∷◌, ◌++◌,
  round_from, length, ◌==◌, if◌then◌else◌, ◌≢◌,
}
use nx_c_util.Core.Queue.Slots.{element}
use native.Mathlib.Decide.{ℕ_discrete}
use nx_c_util.Core.Queue.{
  Queue, OnFull, reject, overwrite, Ret, ok, err_empty, err_full, push, push_to, push_full, pop,
  pop_to, peek, peek_to, clear, advance, append,
}
use nx_c_util.Core.Queue.Inv.{
  IsValid, contents, contents-round_from, length-contents, load-element, advance-IsValid,
  contents-advance, append-IsValid, contents-append, clear-IsValid, contents-clear,
  overwrite-IsValid, contents-overwrite,
}

abbrev pub Elements : Type 0
Elements = List (List ℕ)

-- What a client can do, and what it sees.
pub data Op : Type 0 where
  put : List ℕ → Op
  get : Op
  look : Op
  reset : Op

abbrev pub Reply : Type 0
Reply = Ret × Option (List ℕ)

unfoldable pub step : Op → Queue → Reply × Queue
step (put x) q = let (r, q') = push q (some x) in ((r, none), q')
step get q = let (r, out, q') = pop q true in ((r, out), q')
step look q = (peek q true, q)
step reset q = ((ok, none), clear q)

unfoldable pub run : List Op → Queue → List Reply
run [] q = []
run (op ∷ ops) q = let (r, q') = step op q in r ∷ run ops q'

-- The elements after a push into a full queue.
unfoldable pub spec_full : OnFull → List ℕ → Elements → Ret × Elements
spec_full reject x l = (err_full, l)
spec_full overwrite x [] = (ok, x ∷ [])
spec_full overwrite x (y ∷ l) = (ok, l ++ (x ∷ []))

-- The specification: at most `cap` elements, front first.
module _ (cap : ℕ) (policy : OnFull) where
  unfoldable pub spec_step : Op → Elements → Reply × Elements
  unfolding spec_full
  spec_step (put x) l =
      if length l == cap
      then (let (r, l') = spec_full policy x l in ((r, none), l'))
      else ((ok, none), l ++ (x ∷ []))
  spec_step get [] = ((err_empty, none), [])
  spec_step get (x ∷ l) = ((ok, some x), l)
  spec_step look [] = ((err_empty, none), [])
  spec_step look (x ∷ l) = ((ok, some x), x ∷ l)
  spec_step reset l = ((ok, none), [])

  unfoldable pub spec_run : List Op → Elements → List Reply
  spec_run [] l = []
  spec_run (op ∷ ops) l = let (r, l') = spec_step op l in r ∷ spec_run ops l'

-- Every element that a client pushes has the queue's element size.
abbrev pub Fits : ℕ → Op → Type 0
Fits size (put x) = length x ≡ size
Fits size get = Unit
Fits size look = Unit
Fits size reset = Unit

abbrev pub AllFit : ℕ → List Op → Type 0
AllFit size [] = Unit
AllFit size (op ∷ ops) = Fits size op × AllFit size ops

record Simulates (op : Op) (q : Queue) : Type 0 where
  reply : (step op q).0 ≡ (spec_step q.capacity q.on_full op (contents q)).0
  state : contents (step op q).1 ≡ (spec_step q.capacity q.on_full op (contents q)).1
  valid : IsValid (step op q).1
  same_capacity : (step op q).1.capacity ≡ q.capacity
  same_policy : (step op q).1.on_full ≡ q.on_full
  same_size : (step op q).1.element_size ≡ q.element_size

module _ {q : Queue} (v : IsValid q) where
  push-eq : (x : List ℕ) → push q (some x) ≡ push_to q (some v.buf) (some x)
  unfolding push
  push-eq x = ap (λ b. push_to q b (some x)) v.holds

  pop-eq : pop q true ≡ pop_to q (some v.buf) true
  unfolding pop
  pop-eq = ap (λ b. pop_to q b true) v.holds

  peek-eq : peek q true ≡ peek_to q (some v.buf) true
  unfolding peek
  peek-eq = ap (λ b. peek_to q b true) v.holds

  push_room : (x : List ℕ) → q.count ≢ q.capacity → push q (some x) ≡ (ok, append q v.buf x)
  unfolding push_to
  push_room x ne = push-eq x ∙ ground arith

  push_reject :
      (x : List ℕ) → q.count ≡ q.capacity → q.on_full ≡ reject → push q (some x) ≡ (err_full, q)
  unfolding push_to push_full
  push_reject x e r = push-eq x ∙ ground arith

  push-overwrite :
      (x : List ℕ)
      → q.count ≡ q.capacity
      → q.on_full ≡ overwrite
      → push q (some x) ≡ (ok, append (advance q) v.buf x)
  unfolding push_to push_full
  push-overwrite x e r = push-eq x ∙ ground arith

  pop-some : q.count ≢ 0 → pop q true ≡ (ok, some (element v.buf q.element_size q.head), advance q)
  unfolding pop_to
  pop-some ne = pop-eq ∙ ground (arith, load-element v q.head)

  pop-none : q.count ≡ 0 → pop q true ≡ (err_empty, none, q)
  unfolding pop_to
  pop-none e = pop-eq ∙ ground arith

  peek-some : q.count ≢ 0 → peek q true ≡ (ok, some (element v.buf q.element_size q.head))
  unfolding peek_to
  peek-some ne = peek-eq ∙ ground (arith, load-element v q.head)

  peek-none : q.count ≡ 0 → peek q true ≡ (err_empty, none)
  unfolding peek_to
  peek-none e = peek-eq ∙ ground arith

  contents_empty : q.count ≡ 0 → contents q ≡ []
  contents_empty e =
      contents-round_from q v.buf v.holds
      ∙ ap (round_from (element v.buf q.element_size) q.capacity q.head) {y = 0} e

Simulates-room :
    (x : List ℕ) {q : Queue}
    → length x ≡ q.element_size
    → IsValid q
    → q.count ≢ q.capacity
    → Simulates (put x) q
unfolding step spec_step append
Simulates-room x {q} fits v ne =
    let e = push_room v x ne in
    let l = length-contents v in
    let spec : (length (contents q) == q.capacity) ≡ false = ground arith in
    record {
      reply = rw (e, spec) refl;
      state = rw (e, spec) (contents-append v x (omega arith) fits);
      valid = rw e (append-IsValid v x (omega arith) fits);
      same_capacity = rw e refl;
      same_policy = rw e refl;
      same_size = rw e refl;
    }

Simulates-full :
    (x : List ℕ) {q : Queue} (p : OnFull)
    → length x ≡ q.element_size
    → IsValid q
    → q.count ≡ q.capacity
    → q.on_full ≡ p
    → Simulates (put x) q
unfolding step spec_step append advance
Simulates-full x {q} reject fits v full e =
    let c : (length (contents q) == q.capacity) ≡ true = ground (arith, length-contents v) in
    let r = push_reject v x full e in
    record {
      reply = rw (r, c, e) refl;
      state = rw (r, c, e) refl;
      valid = rw r v;
      same_capacity = rw r refl;
      same_policy = rw r refl;
      same_size = rw r refl;
    }
Simulates-full x {q} overwrite fits v full e =
    let c : (length (contents q) == q.capacity) ≡ true = ground (arith, length-contents v) in
    let r = push-overwrite v x full e in
    let f = contents-advance v (omega arith) in
    let k : spec_full q.on_full x (contents q) ≡ (ok, contents (advance q) ++ (x ∷ [])) =
      ap₂ (λ p l. spec_full p x l) e f in
    record {
      reply = rw (r, c, k) refl;
      state = rw (r, c, k) (contents-overwrite v x full fits);
      valid = rw r (overwrite-IsValid v x full fits);
      same_capacity = rw r refl;
      same_policy = rw r refl;
      same_size = rw r refl;
    }

step-Simulates : (op : Op) {q : Queue} → Fits q.element_size op → IsValid q → Simulates op q
unfolding step spec_step advance clear
step-Simulates (put x) {q} fits v = elim (ℕ_discrete q.count q.capacity) [
  | yes e ↦ Simulates-full x q.on_full fits v e refl
  | no ne ↦ Simulates-room x fits v ne
]
step-Simulates get {q} fits v = elim (ℕ_discrete q.count 0) [
  | yes e ↦ record {
    reply = rw (pop-none v e, contents_empty v e) refl;
    state = rw (pop-none v e, contents_empty v e) refl;
    valid = rw (pop-none v e) v;
    same_capacity = rw (pop-none v e) refl;
    same_policy = rw (pop-none v e) refl;
    same_size = rw (pop-none v e) refl;
  }
  | no ne ↦ record {
    reply = rw (pop-some v ne, contents-advance v ne) refl;
    state = rw (pop-some v ne, contents-advance v ne) refl;
    valid = rw (pop-some v ne) (advance-IsValid v ne);
    same_capacity = rw (pop-some v ne) refl;
    same_policy = rw (pop-some v ne) refl;
    same_size = rw (pop-some v ne) refl;
  }
]
step-Simulates look {q} fits v = elim (ℕ_discrete q.count 0) [
  | yes e ↦ record {
    reply = rw (peek-none v e, contents_empty v e) refl;
    state = rw (contents_empty v e) refl;
    valid = v;
    same_capacity = refl;
    same_policy = refl;
    same_size = refl;
  }
  | no ne ↦ record {
    reply = rw (peek-some v ne, contents-advance v ne) refl;
    state = rw (contents-advance v ne) refl;
    valid = v;
    same_capacity = refl;
    same_policy = refl;
    same_size = refl;
  }
]
step-Simulates reset fits v = record {
  reply = refl;
  state = contents-clear v;
  valid = clear-IsValid v;
  same_capacity = refl;
  same_policy = refl;
  same_size = refl;
}

-- No sequence of calls tells a valid queue from the bounded list of the elements that it holds.
pub run-spec_run :
    (ops : List Op) {q : Queue}
    → AllFit q.element_size ops
    → IsValid q
    → run ops q ≡ spec_run q.capacity q.on_full ops (contents q)
unfolding run spec_run
run-spec_run [] fit v = refl
run-spec_run (op ∷ ops) {q} fit v =
    let s = step-Simulates op fit.0 v in
    ap₂ ◌∷◌ s.reply (
      run-spec_run ops (rw (s.same_size) fit.1) s.valid
      ∙ rw (s.same_capacity, s.same_policy, s.state))
