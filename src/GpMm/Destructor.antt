-- ===== src/GpMm/Destructor.antt =====
-- locknsnoop/common/gp_mm.h: the destructor of the memory manager.
use psa.Prelude.{
  ℕ, zero, suc, ◌≤◌, ◌<◌, ◌≡◌, refl, sym, subst, ap, Option, none, some, List, [], ◌∷◌,
  if◌then◌else◌, ◌==◌, true, false, arith, length, ℕ_discrete,
}
use psa.GpMm.{Access, GpMm, new_mm, allocate, free, Operation, allocates, frees, calls}
use psa.GpMm.Stack.{before, IsLinked, Holds, allocate_some, allocate_none, free-Freed, Holds-same}

abbrev pub cons_to {ℓ} : {A : Type ℓ} → A → Option (List A) → Option (List A)
cons_to x none = none
cons_to x (some xs) = some (x ∷ xs)

-- The first loop, for `fuel` entries at most: the transactions that it deletes, in their order. `none`
-- is a loop that goes on, or the `assert` in it.
unfoldable pub delete_free : ℕ → (ℕ → Access) → Option ℕ → Option (List ℕ)
delete_free fuel entries none = some []
delete_free zero entries (some a) = none
delete_free (suc fuel) entries (some a) =
    let rest = delete_free fuel entries (entries a).next in
    elim (entries a).trans [ none ↦ none | some t ↦ cons_to t rest ]

-- The second loop likewise: the entries that it deletes
unfoldable pub delete_empties : ℕ → (ℕ → Access) → Option ℕ → Option (List ℕ)
delete_empties fuel entries none = some []
delete_empties zero entries (some a) = none
delete_empties (suc fuel) entries (some a) =
    cons_to a (delete_empties fuel entries (entries a).next)

-- `gp_mm::~gp_mm`
unfoldable pub destroy : ℕ → GpMm → Option (List ℕ) × Option (List ℕ)
unfolding delete_free delete_empties
destroy fuel m = (delete_free fuel m.entries m.free_list, delete_empties fuel m.entries m.empties)

-- The free transactions after calls on a stack
abbrev pub stack_after : List ℕ → List Operation → List ℕ
stack_after free [] = free
stack_after [] (allocates ∷ ops) = stack_after [] ops
stack_after (t ∷ ts) (allocates ∷ ops) = stack_after ts ops
stack_after ts (frees t ∷ ops) = stack_after (t ∷ ts) ops

-- k, k - 1, and so on down to 0
abbrev pub down_from : ℕ → List ℕ
down_from zero = 0 ∷ []
down_from (suc k) = suc k ∷ down_from k

Reaches : GpMm → List ℕ → Type 0
Reaches m ts = IsLinked m (length ts) × Holds m.entries (length ts) ts

calls-Reaches :
    (m : GpMm) (ts : List ℕ) (ops : List Operation)
    → Reaches m ts
    → Reaches (calls m ops).1 (stack_after ts ops)
unfolding calls Reaches
calls-Reaches m ts [] h = h
calls-Reaches m [] (allocates ∷ ops) h =
    let (out, made, linked) = allocate_none m h.0 in
    calls-Reaches (allocate m).1 [] ops (linked, tt)
calls-Reaches m (t ∷ ts) (allocates ∷ ops) h =
    let (out, same, made, linked) = allocate_some m (length ts) h.0 in
    calls-Reaches (allocate m).1 ts ops
      (linked, subst (λ es. Holds es (length ts) ts) (sym same) h.1.1)
calls-Reaches m ts (frees t ∷ ops) h =
    let (linked, here, made, same) = free-Freed m (length ts) t h.0 in
    calls-Reaches (free m t) (t ∷ ts) ops
      (linked, (here, Holds-same m.entries (free m t).entries (length ts) ts same h.1))

delete_free-all :
    (entries : ℕ → Access) (made fuel : ℕ) (ts : List ℕ)
    → ((i : ℕ) → i < made → (entries i).next ≡ before i)
    → Holds entries (length ts) ts
    → length ts ≤ made
    → length ts ≤ fuel
    → delete_free fuel entries (before (length ts)) ≡ some ts
unfolding delete_free
delete_free-all entries made fuel [] links holds l f = refl
delete_free-all entries made zero (t ∷ ts) links holds l f = absurd (omega arith)
delete_free-all entries made (suc fuel) (t ∷ ts) links holds l f =
    rw (holds.0, links (length ts) (omega arith))
      (ap (cons_to t)
        (delete_free-all entries made fuel ts links holds.1 (omega arith) (omega arith)))

delete_empties-all :
    (entries : ℕ → Access) (made fuel k : ℕ)
    → ((i : ℕ) → i < made → (entries i).next ≡ before i)
    → k < made
    → k < fuel
    → delete_empties fuel entries (some k) ≡ some (down_from k)
unfolding delete_empties
delete_empties-all entries made zero k links l f = absurd (omega arith)
delete_empties-all entries made (suc fuel) zero links l f = rw (links 0 l) refl
delete_empties-all entries made (suc fuel) (suc k) links l f = rw (links (suc k) l) (
    ap (cons_to (suc k)) (delete_empties-all entries made fuel k links (omega arith) (omega arith)))

-- After any calls of `allocate` and `free` on a new manager, both loops of the destructor end within as
-- many rounds as entries were made. The first deletes the free transactions, in the order in which
-- they would be handed out. The second deletes no entry if none is empty, and else the first empty
-- entry and those made before it, which are in the free list: the empty entries made after it are not
-- deleted.
pub destroy_lem :
    (ops : List Operation)
    → destroy (calls new_mm ops).1.made (calls new_mm ops).1 ≡ (
      some (stack_after [] ops),
      some (
          if length (stack_after [] ops) == (calls new_mm ops).1.made
          then []
          else down_from (length (stack_after [] ops))),
    )
unfolding destroy Reaches
destroy_lem ops =
    let m : GpMm = (calls new_mm ops).1 in
    let ts : List ℕ = stack_after [] ops in
    let (linked, holds) =
      calls-Reaches new_mm [] ops ((omega arith, refl, refl, λ i lt. absurd (omega arith)), tt) in
    let next = λ (i : ℕ) (lt : i < m.made). (linked.3 i lt).0 in
    let first = delete_free-all m.entries m.made m.made ts next holds linked.0 linked.0 in
    elim (ℕ_discrete (length ts) m.made) [
      | yes e ↦
          let full : (length ts == m.made) ≡ true = ground arith in
          rw (linked.1, linked.2, full, first) refl
      | no ne ↦
          let some_empty : (length ts == m.made) ≡ false = ground arith in
          let second =
            delete_empties-all m.entries m.made m.made (length ts) next (omega (arith, linked.0))
              (omega (arith, linked.0)) in
          rw (linked.1, linked.2, some_empty, first, second) refl
    ]
