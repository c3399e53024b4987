-- ===== src/GpMm/Tests.antt =====
-- locknsnoop/common/gp_mm.h: the memory manager on an example.
use psa.Prelude.{◌≡◌, refl, some, List, [], ◌∷◌, if◌then◌else◌, ◌==◌, length}
use psa.GpMm.{allocate, free, new_mm, Operation, allocates, frees, calls}
use psa.GpMm.Stack.{stack_calls, calls_lem}
use psa.GpMm.Destructor.{destroy, stack_after, down_from, destroy_lem}

abbrev two_and_back : List Operation
two_and_back =
    allocates
    ∷ allocates
    ∷ frees 0
    ∷ frees 1
    ∷ allocates
    ∷ allocates
    ∷ allocates
    ∷ frees 2
    ∷ frees 0
    ∷ allocates
    ∷ []

calls_example : (calls new_mm two_and_back).0 ≡ stack_calls [] 0 two_and_back
calls_example = calls_lem two_and_back

destroy_example : destroy (calls new_mm two_and_back).1.made (calls new_mm two_and_back).1 ≡ (
  some (stack_after [] two_and_back),
  some (
      if length (stack_after [] two_and_back) == (calls new_mm two_and_back).1.made
      then []
      else down_from (length (stack_after [] two_and_back))),
)
destroy_example = destroy_lem two_and_back

-- Of two entries, one of them empty, the destructor deletes both, and none if both are in use.
destroy_one_empty :
    destroy 2 (calls new_mm (frees 0 ∷ frees 1 ∷ allocates ∷ [])).1
    ≡ (some (0 ∷ []), some (1 ∷ 0 ∷ []))
unfolding destroy calls allocate free
destroy_one_empty = refl

destroy_none_empty :
    destroy 2 (calls new_mm (frees 0 ∷ frees 1 ∷ [])).1 ≡ (some (1 ∷ 0 ∷ []), some [])
unfolding destroy calls allocate free
destroy_none_empty = refl
