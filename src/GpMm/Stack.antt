-- ===== src/GpMm/Stack.antt =====
-- locknsnoop/common/gp_mm.h: the manager against a stack of the transactions that are free.
use psa.Prelude.{
  ℕ, zero, suc, ◌≤◌, ◌<◌, ◌≡◌, refl, Option, none, some, List, [], ◌∷◌, if◌then◌else◌, ◌==◌, arith,
  ◌∙◌, ap, ap₂, sym, subst, ℕ_discrete,
}
use psa.GpMm.{Access, GpMm, new_mm, allocate, free, Operation, allocates, frees, calls}

-- The same calls on a stack, with the number of transactions that were ever made.
abbrev pub stack_calls : List ℕ → ℕ → List Operation → List (Option ℕ)
stack_calls free made [] = []
stack_calls [] made (allocates ∷ ops) = some made ∷ stack_calls [] (suc made) ops
stack_calls (t ∷ ts) made (allocates ∷ ops) = some t ∷ stack_calls ts made ops
stack_calls ts made (frees t ∷ ops) = stack_calls (t ∷ ts) made ops

abbrev pub before : ℕ → Option ℕ
before zero = none
before (suc k) = some k

-- The entries are linked in the order of their numbers, and those below `k` are in use.
abbrev pub IsLinked : GpMm → ℕ → Type 0
IsLinked m k =
    (k ≤ m.made)
    × (m.free_list ≡ before k)
    × (m.empties ≡ (if k == m.made then none else some k))
    × ((i : ℕ)
        → i < m.made
        → ((m.entries i).next ≡ before i)
          × ((m.entries i).prev ≡ (if suc i == m.made then none else some (suc i))))

-- The entries below `k` have these transactions.
abbrev pub Holds : (ℕ → Access) → ℕ → List ℕ → Type 0
Holds entries zero [] = Unit
Holds entries zero (t ∷ ts) = ⊥
Holds entries (suc k) [] = ⊥
Holds entries (suc k) (t ∷ ts) = ((entries k).trans ≡ some t) × Holds entries k ts

pub Holds-same :
    (es es' : ℕ → Access) (k : ℕ) (ts : List ℕ)
    → ((i : ℕ) → i < k → (es' i).trans ≡ (es i).trans)
    → Holds es k ts
    → Holds es' k ts
Holds-same es es' zero [] same h = tt
Holds-same es es' zero (t ∷ ts) same h = h
Holds-same es es' (suc k) [] same h = h
Holds-same es es' (suc k) (t ∷ ts) same h =
    (same k (omega arith) ∙ h.0, Holds-same es es' k ts (λ i lt. same i (omega arith)) h.1)

pub allocate_some :
    (m : GpMm) (k : ℕ)
    → IsLinked m (suc k)
    → ((allocate m).0 ≡ (m.entries k).trans)
      × ((allocate m).1.entries ≡ m.entries)
      × ((allocate m).1.made_trans ≡ m.made_trans)
      × IsLinked (allocate m).1 k
unfolding allocate
allocate_some m k h =
    let links = h.3 k (omega arith) in
    rw (allocate, h.1) (refl, refl, refl, (omega arith, links.0, ground arith, h.3))

pub allocate_none :
    (m : GpMm)
    → IsLinked m 0
    → ((allocate m).0 ≡ some m.made_trans)
      × ((allocate m).1.made_trans ≡ suc m.made_trans)
      × IsLinked (allocate m).1 0
unfolding allocate
allocate_none m h = rw (allocate, h.1) (refl, omega arith, (omega arith, h.1, h.2, h.3))

-- What a free leaves: the entry `k` is the first free one and holds the transaction.
abbrev Freed : GpMm → ℕ → ℕ → GpMm → Type 0
Freed m k t m' =
    IsLinked m' (suc k)
    × ((m'.entries k).trans ≡ some t)
    × (m'.made_trans ≡ m.made_trans)
    × ((i : ℕ) → i < k → (m'.entries i).trans ≡ (m.entries i).trans)

free_filled :
    (m : GpMm) (k t : ℕ) → IsLinked m k → m.empties ≡ some k → k < m.made → Freed m k t (free m t)
unfolding free
free_filled m k t h e lt =
    let links = h.3 k lt in
    rw (free, e)
      (
        (omega arith, refl, ground arith, λ i below. let here = h.3 i below in ground arith),
        ground arith,
        refl,
        λ i below. ground arith,
      )

free_new :
    (m : GpMm) (k t : ℕ) → IsLinked m k → m.empties ≡ none → k ≡ m.made → Freed m k t (free m t)
unfolding free
free_new m zero t h e eq =
    rw (free, e, h.1)
      (
        (omega arith, ground arith, ground arith, λ i below. let here = h.3 i in ground arith),
        ground arith,
        refl,
        λ i below. ground arith,
      )
free_new m (suc k) t h e eq =
    rw (free, e, h.1)
      (
        (omega arith, ground arith, ground arith, λ i below. let here = h.3 i in ground arith),
        ground arith,
        refl,
        λ i below. ground arith,
      )

pub free-Freed : (m : GpMm) (k t : ℕ) → IsLinked m k → Freed m k t (free m t)
free-Freed m k t h = elim (ℕ_discrete k m.made) [
  | yes e ↦ free_new m k t h (ground arith) e
  | no ne ↦ free_filled m k t h (ground arith) (omega (arith, h.0))
]

run_alike :
    (m : GpMm) (k : ℕ) (ts : List ℕ) (ops : List Operation)
    → IsLinked m k
    → Holds m.entries k ts
    → (calls m ops).0 ≡ stack_calls ts m.made_trans ops
unfolding calls
run_alike m k ts [] h holds = refl
run_alike m zero [] (allocates ∷ ops) h holds =
    let (out, made, linked) = allocate_none m h in
    ap₂ (λ x xs. x ∷ xs) out
      (run_alike (allocate m).1 0 [] ops linked tt ∙ ap (λ n. stack_calls [] n ops) made)
run_alike m zero (t ∷ ts) (allocates ∷ ops) h holds = absurd holds
run_alike m (suc k) [] (allocates ∷ ops) h holds = absurd holds
run_alike m (suc k) (t ∷ ts) (allocates ∷ ops) h holds =
    let (out, same, made, linked) = allocate_some m k h in
    ap₂ (λ x xs. x ∷ xs) (out ∙ holds.0)
      (run_alike (allocate m).1 k ts ops linked (subst (λ es. Holds es k ts) (sym same) holds.1)
        ∙ ap (λ n. stack_calls ts n ops) made)
run_alike m k ts (frees t ∷ ops) h holds =
    let (linked, here, made, same) = free-Freed m k t h in
    run_alike (free m t) (suc k) (t ∷ ts) ops linked
      (here, Holds-same m.entries (free m t).entries k ts same holds)
    ∙ ap (λ n. stack_calls (t ∷ ts) n ops) made

-- Any calls of `allocate` and `free` on a new manager hand out what a stack of the free transactions
-- hands out: the one that was freed last and not handed out since, and a new one if there is none.
pub calls_lem : (ops : List Operation) → (calls new_mm ops).0 ≡ stack_calls [] 0 ops
calls_lem ops = run_alike new_mm 0 [] ops (omega arith, refl, refl, λ i lt. absurd (omega arith)) tt
