-- ===== src/Lines/Searching.antt =====
-- src/assignment_1/Cache.h: what the loop of `execute` that searches a set has found, aged and chosen
-- after each of its rounds.
use psa.Prelude.{
  ℕ, zero, suc, ◌+◌, ◌-◌, ◌≤◌, ◌<◌, ◌≡◌, inl, inr, refl, Bool, true, false, ◌&&◌, Option, none,
  some, if◌then◌else◌, ltb, leb, arith, ℕ_discrete, Bool-cases, sym, ◌∙◌,
}
use psa.Lines.{Line, is_invalid, Search, below, visit, search_from, present, max_counter}

-- What the search may take for granted of the line that `min_id` and `min_val` name.
abbrev pub Lowest : (ℕ → Line) → ℕ → ℕ → ℕ → ℕ → Option ℕ → Type 0
Lowest lines addr first i v none = (first ≤ v) × (v < i) × (is_invalid (lines v).state ≡ true)
Lowest lines addr first i v (some m) =
    (first ≤ v)
    × (m ≤ max_counter + 2)
    × ((m < max_counter + 2) → (v < i) × ((lines v).counter ≡ m))
    × ((j : ℕ)
        → first ≤ j
        → j < i
        → present (lines j) addr ≡ false
        → (is_invalid (lines j).state ≡ false) × (m ≤ (lines j).counter))

abbrev pub Found : (ℕ → Line) → ℕ → ℕ → ℕ → Option ℕ → Type 0
Found lines addr first i none = (j : ℕ) → first ≤ j → j < i → present (lines j) addr ≡ false
Found lines addr first i (some r) = (first ≤ r) × (r < i) × (present (lines r) addr ≡ true)

-- A line that the search passed and did not take has grown older.
abbrev pub aged : ℕ → Line → Line
aged addr c = if present c addr then c else record c { counter = c.counter - 1 }

abbrev pub within : ℕ → ℕ → ℕ → Bool
within first i j = leb first j && ltb j i

-- The search between two rounds: lines from `first` up to `i` have been visited.
pub record IsSearched (lines : ℕ → Line) (addr first i : ℕ) (s : Search) : Type 0 where
  pub from : first ≤ i
  pub lines_at : (j : ℕ) → s.lines j ≡ (if within first i j then aged addr (lines j) else lines j)
  pub found : Found lines addr first i s.rindex
  pub lowest : Lowest lines addr first i s.min_id s.min_val

module _ (lines : ℕ → Line) (addr first i : ℕ) where
  Found-skip :
      (r : Option ℕ)
      → Found lines addr first i r
      → present (lines i) addr ≡ false
      → Found lines addr first (suc i) r
  Found-skip none h absent = λ j lo hi. elim (ℕ_discrete j i) [
    | yes here ↦ rw here absent
    | no before ↦ h j lo (omega arith)
  ]
  Found-skip (some r) h absent = (h.0, omega arith, h.2)

  Lowest-present :
      (v : ℕ) (m : Option ℕ)
      → Lowest lines addr first i v m
      → present (lines i) addr ≡ true
      → Lowest lines addr first (suc i) v m
  Lowest-present v none h here = (h.0, omega arith, h.2)
  Lowest-present v (some m) h here = (
    h.0,
    h.1,
    λ lt. let (seen, e) = h.2 lt in (omega arith, e),
    λ j lo hi absent. elim (ℕ_discrete j i) [
      | yes e ↦ let clash : true ≡ false = sym here ∙ (rw e at absent) in cc
      | no before ↦ h.3 j lo (omega arith) absent
    ],
  )

  -- The line is neither present nor invalid, and not below what was found before.
  Lowest-keep :
      (v : ℕ) (m : Option ℕ)
      → Lowest lines addr first i v m
      → is_invalid (lines i).state ≡ false
      → below (lines i).counter m ≡ false
      → Lowest lines addr first (suc i) v m
  Lowest-keep v none h valid above = (h.0, omega arith, h.2)
  Lowest-keep v (some m) h valid above = (
    h.0,
    h.1,
    λ lt. let (seen, e) = h.2 lt in (omega arith, e),
    λ j lo hi absent. elim (ℕ_discrete j i) [
      | yes e ↦ rw e (valid, ground arith)
      | no before ↦ h.3 j lo (omega arith) absent
    ],
  )

  Lowest-lower :
      (v : ℕ) (m : Option ℕ)
      → first ≤ i
      → Lowest lines addr first i v m
      → is_invalid (lines i).state ≡ false
      → below (lines i).counter m ≡ true
      → Lowest lines addr first (suc i) i (some (lines i).counter)
  Lowest-lower v none from h valid lower = cc
  Lowest-lower v (some m) from h valid lower = (
    from,
    ground arith,
    λ lt. (omega arith, refl),
    λ j lo hi absent. elim (ℕ_discrete j i) [
      | yes e ↦ rw e (valid, omega arith)
      | no before ↦ let (v', le) = h.3 j lo (omega arith) absent in (v', ground arith)
    ],
  )

module _ (lines : ℕ → Line) (addr first i : ℕ) (s : Search)
    (h : IsSearched lines addr first i s) where
  line_here : s.lines i ≡ lines i
  line_here = ground (arith, h.from, h.lines_at i)

  visit_lines :
      (j : ℕ)
      → (visit addr i s).lines j ≡ (if within first (suc i) j then aged addr (lines j) else lines j)
  unfolding visit
  visit_lines j = ground (arith, h.from, h.lines_at j, line_here)

  visit_rindex : (visit addr i s).rindex ≡ (if present (lines i) addr then some i else s.rindex)
  unfolding visit
  visit_rindex = ground (arith, line_here)

  visit-Found : Found lines addr first (suc i) (visit addr i s).rindex
  visit-Found = elim (Bool-cases (present (lines i) addr)) [
    | inl here ↦ rw (visit_rindex, here) (h.from, omega arith, here)
    | inr absent ↦ rw (visit_rindex, absent) (Found-skip lines addr first i s.rindex h.found absent)
  ]

  visit-Lowest : Lowest lines addr first (suc i) (visit addr i s).min_id (visit addr i s).min_val
  unfolding visit
  visit-Lowest = elim (Bool-cases (present (lines i) addr)) [
    | inl here ↦ rw (line_here, here) (Lowest-present lines addr first i _ _ h.lowest here)
    | inr absent ↦ elim (Bool-cases (is_invalid (lines i).state)) [
      | inl free ↦ rw (line_here, absent, free) (h.from, omega arith, free)
      | inr valid ↦ elim (Bool-cases (below (lines i).counter s.min_val)) [
        | inl lower ↦
            rw (line_here, absent, valid, lower)
              (Lowest-lower lines addr first i s.min_id s.min_val h.from h.lowest valid lower)
        | inr above ↦
            rw (line_here, absent, valid, above)
              (Lowest-keep lines addr first i s.min_id s.min_val h.lowest valid above)
      ]
    ]
  ]

  visit-IsSearched : IsSearched lines addr first (suc i) (visit addr i s)
  visit-IsSearched = record {
    from = omega (arith, h.from);
    lines_at = visit_lines;
    found = visit-Found;
    lowest = visit-Lowest;
  }

pub search_from-IsSearched :
    (lines : ℕ → Line) (addr first n i k : ℕ) (s : Search)
    → i + n ≡ k
    → IsSearched lines addr first i s
    → IsSearched lines addr first k (search_from addr n i s)
unfolding search_from
search_from-IsSearched lines addr first zero i k s e h = let same : k ≡ i = omega arith in rw same h
search_from-IsSearched lines addr first (suc n) i k s e h =
    let next : i + 1 ≡ suc i = omega arith in
    rw next (
      search_from-IsSearched lines addr first n (suc i) k (visit addr i s) (omega arith)
        (visit-IsSearched lines addr first i s h))
