-- ===== src/Core/IntrusiveList/Tests.antt =====
-- Runs of nx_list.h at concrete inputs, and the theorem about it at such an input.
use nx_c_util.Base.{◌≡◌, refl, arith, false, List, [], ◌∷◌}
use nx_c_util.Core.IntrusiveList.{
  Links, init, add, add_head, add_tail, del, each_from, for_each, is_empty, first, last,
}
use nx_c_util.Core.IntrusiveList.Refine.{
  IsList, Call, at_head, at_tail, out, after_all, nodes_after_all, after_all-IsList,
}

-- Links that lead nowhere.
abbrev wild : Links
wild = record { next = λ a. 0; prev = λ a. 0 }

abbrev calls : List Call
calls = at_tail 1 ∷ at_tail 2 ∷ at_head 3 ∷ out 1 ∷ at_tail 1 ∷ []

run : for_each (after_all 100 (init wild 100) calls) 100 9 ≡ 3 ∷ 2 ∷ 1 ∷ []
unfolding for_each each_from add_tail add_head add del init
run = refl

ends :
    let links = after_all 100 (init wild 100) calls in
    (first links 100 ≡ 3) × (last links 100 ≡ 1) × (is_empty links 100 ≡ false)
unfolding first last is_empty add_tail add_head add del init
ends = (refl, refl, refl)

after_all-IsList_example :
    let links = after_all 100 (init wild 100) calls in
    IsList links 100 (nodes_after_all [] calls) × (for_each links 100 4 ≡ nodes_after_all [] calls)
after_all-IsList_example =
    after_all-IsList wild 100 calls 4 (refl, (refl, (refl, (omega arith, (refl, tt)))))
      (omega arith)
