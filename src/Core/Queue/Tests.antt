-- ===== src/Core/Queue/Tests.antt =====
-- Runs of nx_queue.c at concrete inputs, and the theorems about it at such inputs.
use nx_c_util.Base.{ℕ, Option, ◌≡◌, refl, arith, none, some, List, [], ◌∷◌}
use nx_c_util.Core.Queue.{
  Queue, OnFull, reject, overwrite, ok, err_param, err_empty, err_full, init, push, pop, peek,
  clear,
}
use nx_c_util.Core.Queue.Inv.{IsValid, contents, init-IsValid}
use nx_c_util.Core.Queue.Refine.{Op, put, get, look, reset, step, run, spec_run, run-spec_run}

-- Two elements of two bytes, round the end of the buffer.
abbrev wrapped : OnFull → Queue
wrapped policy = record {
  buffer = some (5 ∷ 6 ∷ 3 ∷ 4 ∷ []);
  element_size = 2;
  capacity = 2;
  head = 1;
  count = 2;
  on_full = policy;
}

-- Room for two elements of two bytes.
abbrev storage : List ℕ
storage = 0 ∷ 0 ∷ 0 ∷ 0 ∷ []

abbrev script : List Op
script = put (7 ∷ 8 ∷ []) ∷ look ∷ get ∷ get ∷ get ∷ reset ∷ []

wrapped-IsValid : (policy : OnFull) → IsValid (wrapped policy)
wrapped-IsValid policy = record {
  buf = 5 ∷ 6 ∷ 3 ∷ 4 ∷ [];
  holds = refl;
  storage = refl;
  small = omega arith;
  size_pos = omega arith;
  head_in = omega arith;
  count_in = omega arith;
}

run-overwrite :
    run script (wrapped overwrite)
    ≡ (ok, none)
      ∷ (ok, some (5 ∷ 6 ∷ []))
      ∷ (ok, some (5 ∷ 6 ∷ []))
      ∷ (ok, some (7 ∷ 8 ∷ []))
      ∷ (err_empty, none)
      ∷ (ok, none)
      ∷ []
unfolding run step push pop peek clear
run-overwrite = refl

run_reject :
    run script (wrapped reject)
    ≡ (err_full, none)
      ∷ (ok, some (3 ∷ 4 ∷ []))
      ∷ (ok, some (3 ∷ 4 ∷ []))
      ∷ (ok, some (5 ∷ 6 ∷ []))
      ∷ (err_empty, none)
      ∷ (ok, none)
      ∷ []
unfolding run step push pop peek clear
run_reject = refl

run-spec_run_example :
    run script (wrapped overwrite) ≡ spec_run 2 overwrite script (contents (wrapped overwrite))
run-spec_run_example =
    run-spec_run script (refl, (tt, (tt, (tt, (tt, (tt, tt)))))) (wrapped-IsValid overwrite)

init-IsValid_example :
    ((q : Queue) × (init (some storage) 2 2 reject ≡ (ok, some q))
      × IsValid q
      × (contents q ≡ [])
      × (q.buffer ≡ some storage)
      × (q.capacity ≡ 2)
      × (q.element_size ≡ 2)
      × (q.on_full ≡ reject))
    × ((b : Option (List ℕ)) (n m : ℕ)
        → (init none n m reject ≡ (err_param, none))
          × (init b 0 m reject ≡ (err_param, none))
          × (init b n 0 reject ≡ (err_param, none)))
init-IsValid_example =
    init-IsValid storage 2 2 reject (omega arith) (omega arith) refl (omega arith)
