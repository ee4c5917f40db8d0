-- ===== src/Core/RingBuf/Tests.antt =====
-- Runs of nx_ringbuf.c at concrete inputs, and the theorems about it at such inputs.
use nx_c_util.Base.{
  ℕ, ◌≡◌, refl, arith, true, false, none, some, List, [], ◌∷◌, ◌++◌, ◌-◌, min, take, drop, copy_at,
}
use nx_c_util.Core.RingBuf.{
  RingBuf, init, write, read, peek, discard, clear, peek_linear, poke_linear, commit, store_at,
  copy_out,
}
use nx_c_util.Core.RingBuf.Contents.{contents}
use nx_c_util.Core.RingBuf.Inv.{IsValid}
use nx_c_util.Core.RingBuf.Calls.{write_lem, read_lem, peek-discard-read}
use nx_c_util.Core.RingBuf.Linear.{peek_linear_lem, poke-commit-write}
use nx_c_util.Core.RingBuf.Refine.{
  Op, put, get, look, skip, reset, step, run, spec_run, run_refines,
}

abbrev storage : List ℕ
storage = 0 ∷ 0 ∷ 0 ∷ 0 ∷ []

abbrev fresh : RingBuf
fresh = record { buffer = some storage; capacity = 4; read_pos = 0; count = 0 }

-- 8, 9 and 1, round the end of the buffer
abbrev wrapped : RingBuf
wrapped = record { buffer = some (1 ∷ 7 ∷ 8 ∷ 9 ∷ []); capacity = 4; read_pos = 2; count = 3 }

abbrev script : List Op
script = put (2 ∷ 3 ∷ []) ∷ look 2 ∷ get 3 ∷ put (4 ∷ 5 ∷ []) ∷ skip 1 ∷ get 9 ∷ reset ∷ get 1 ∷ []

abbrev bytes : List ℕ
bytes = 4 ∷ 5 ∷ []

abbrev wrapped-IsValid : IsValid wrapped
wrapped-IsValid = record {
  buf = 1 ∷ 7 ∷ 8 ∷ 9 ∷ [];
  holds = refl;
  storage = refl;
  small = omega arith;
  read_in = omega arith;
  count_in = omega arith;
}

abbrev fresh-IsValid : IsValid fresh
fresh-IsValid = record {
  buf = storage;
  holds = refl;
  storage = refl;
  small = omega arith;
  read_in = omega arith;
  count_in = omega arith;
}

init_limits :
    (init none 4 ≡ none) × (init (some storage) 0 ≡ none) × (init (some storage) 4 ≡ some fresh)
unfolding init
init_limits = (refl, refl, refl)

contents-wrapped : contents wrapped ≡ 8 ∷ 9 ∷ 1 ∷ []
unfolding contents
contents-wrapped = refl

run-wrapped :
    run script wrapped
    ≡ (1, [])
      ∷ (2, 8 ∷ 9 ∷ [])
      ∷ (3, 8 ∷ 9 ∷ 1 ∷ [])
      ∷ (2, [])
      ∷ (1, [])
      ∷ (2, 4 ∷ 5 ∷ [])
      ∷ (0, [])
      ∷ (0, [])
      ∷ []
unfolding run step write read peek discard clear store_at copy_out
run-wrapped = refl

write_lem_example :
    let n = min 2 (4 - 3) in
    let (taken, rb') = write wrapped (some bytes) 2 in
    (taken ≡ n) × (contents rb' ≡ contents wrapped ++ take n bytes) × IsValid rb'
write_lem_example = write_lem bytes 2 wrapped-IsValid (omega arith)

read_lem_example :
    let n = min 2 3 in
    let (moved, out, rb') = read wrapped true 2 in
    (moved ≡ n)
    × (out ≡ take n (contents wrapped))
    × (contents rb' ≡ drop n (contents wrapped))
    × IsValid rb'
    × (read wrapped false 2 ≡ (n, [], rb'))
read_lem_example = read_lem 2 wrapped-IsValid

peek-discard-read_example :
    let n = min 2 3 in
    let (seen, out) = peek wrapped true 2 in
    let (gone, rb') = discard wrapped seen in
    (seen ≡ n)
    × (out ≡ take n (contents wrapped))
    × (contents rb' ≡ drop n (contents wrapped))
    × (read wrapped true 2 ≡ (gone, out, rb'))
peek-discard-read_example = peek-discard-read 2 wrapped-IsValid

peek_linear_lem_example :
    (peek_linear wrapped ≡ some (2, 2))
    × (take 2 (drop 2 (1 ∷ 7 ∷ 8 ∷ 9 ∷ [])) ≡ take 2 (contents wrapped))
peek_linear_lem_example = peek_linear_lem wrapped-IsValid

poke-commit-write_example :
    commit (record fresh { buffer = some (copy_at storage 0 (take 2 bytes)) }) 2
    ≡ write fresh (some bytes) 2
unfolding poke_linear
poke-commit-write_example =
    poke-commit-write fresh-IsValid bytes 2 {off = 0} {room = 4} refl (omega arith) (omega arith)
      (omega arith)

run_refines_example : run script wrapped ≡ spec_run 4 script (contents wrapped)
run_refines_example = run_refines script wrapped-IsValid
