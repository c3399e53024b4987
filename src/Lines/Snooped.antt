-- ===== src/Lines/Snooped.antt =====
-- src/assignment_1/Cache.h: what a request on the bus does to the lines of a cache that sees it.
use psa.Prelude.{
  ℕ, zero, suc, ◌+◌, ◌≤◌, ◌<◌, ◌≡◌, ◌≢◌, ◌⊎◌, inl, inr, refl, true, false, Option, none, some,
  if◌then◌else◌, arith, ℕ_discrete, Bool-cases, Option-cases, sym, ◌∙◌,
}
use psa.Lines.{
  Line, requested, shared, present, addr_to_index, cache_set_size, read, write, invalidate, Request,
  find_from, answer, answer_found, snooping,
}

-- What the loop has found among the lines from `first` up to `i`.
abbrev Hit : (ℕ → Line) → ℕ → ℕ → ℕ → Option ℕ → Type 0
Hit lines addr first i none = (j : ℕ) → first ≤ j → j < i → present (lines j) addr ≡ false
Hit lines addr first i (some r) = (first ≤ r) × (r < i) × (present (lines r) addr ≡ true)

Hit-next :
    (lines : ℕ → Line) (addr first i : ℕ) (r : Option ℕ)
    → first ≤ i
    → Hit lines addr first i r
    → Hit lines addr first (suc i) (if present (lines i) addr then some i else r)
Hit-next lines addr first i none from h = elim (Bool-cases (present (lines i) addr)) [
  | inl here ↦ rw here (from, omega arith, here)
  | inr absent ↦
      rw absent (λ j lo hi. elim (ℕ_discrete j i) [
        | yes e ↦ rw e absent
        | no before ↦ h j lo (omega arith)
      ])
]
Hit-next lines addr first i (some r) from h = elim (Bool-cases (present (lines i) addr)) [
  | inl here ↦ rw here (from, omega arith, here)
  | inr absent ↦ rw absent (h.0, omega arith, h.2)
]

find_from-Hit :
    (lines : ℕ → Line) (addr first n i k : ℕ) (r : Option ℕ)
    → i + n ≡ k
    → first ≤ i
    → Hit lines addr first i r
    → Hit lines addr first k (find_from lines addr n i r)
unfolding find_from
find_from-Hit lines addr first zero i k r e from h = let same : k ≡ i = omega arith in rw same h
find_from-Hit lines addr first (suc n) i k r e from h =
    let next : i + 1 ≡ suc i = omega arith in
    rw next (
      find_from-Hit lines addr first n (suc i) k _ (omega arith) (omega arith)
        (Hit-next lines addr first i r from h))

-- No two lines of a set that are not invalid have the same tag.
abbrev pub IsUnique : (ℕ → Line) → ℕ → Type 0
IsUnique lines addr =
    (i j : ℕ)
    → addr_to_index addr ≤ i
    → i < addr_to_index addr + cache_set_size
    → addr_to_index addr ≤ j
    → j < addr_to_index addr + cache_set_size
    → present (lines i) addr ≡ true
    → present (lines j) addr ≡ true
    → i ≡ j

module _ (id : ℕ) (lines : ℕ → Line) (req : Request) where
  find : Option ℕ
  find = find_from lines req.addr cache_set_size (addr_to_index req.addr) none

  find-Hit :
      Hit lines req.addr (addr_to_index req.addr) (addr_to_index req.addr + cache_set_size) find
  unfolding find
  find-Hit =
      find_from-Hit lines req.addr _ cache_set_size _ _ none refl (omega arith)
        (λ j lo hi. absurd (omega arith))

  Hit-present :
      (r' : Option ℕ) {r : ℕ}
      → r' ≡ some r
      → Hit lines req.addr (addr_to_index req.addr) (addr_to_index req.addr + cache_set_size) r'
      → (addr_to_index req.addr ≤ r)
        × (r < addr_to_index req.addr + cache_set_size)
        × (present (lines r) req.addr ≡ true)
  Hit-present none e h = cc
  Hit-present (some q) {r} e h = let same : q ≡ r = cc in rw same at h

  Hit-absent :
      (r' : Option ℕ) (j : ℕ)
      → r' ≡ none
      → Hit lines req.addr (addr_to_index req.addr) (addr_to_index req.addr + cache_set_size) r'
      → addr_to_index req.addr ≤ j
      → j < addr_to_index req.addr + cache_set_size
      → present (lines j) req.addr ≡ false
  Hit-absent none j e h lo hi = h j lo hi
  Hit-absent (some q) j e h lo hi = cc

  snooping-answer_found : snooping id lines req ≡ answer_found id lines req find
  unfolding snooping find
  snooping-answer_found = refl

  -- A request changes no line that is not present for its address.
  snooping_other :
      (j : ℕ) → present (lines j) req.addr ≡ false → (snooping id lines req).0 j ≡ lines j
  unfolding answer_found answer
  snooping_other j absent = elim (Option-cases find) [
    | inl none_found ↦ rw (snooping-answer_found, none_found) refl
    | inr (r, found) ↦
        let (lo, hi, here) = Hit-present _ found find-Hit in
        rw (snooping-answer_found, found) (ground arith)
  ]

  -- A write or an invalidation by another processor leaves no line of its set present for its
  -- address, if no two were, and starts no transfer.
  pub snooping_invalidates :
      (j : ℕ)
      → (req.func ≡ write) ⊎ (req.func ≡ invalidate)
      → IsUnique lines req.addr
      → addr_to_index req.addr ≤ j
      → j < addr_to_index req.addr + cache_set_size
      → (present ((snooping id lines req).0 j) req.addr ≡ false)
        × ((snooping id lines req).1 ≡ none)
  unfolding answer_found present
  snooping_invalidates j func unique lo hi = elim (Option-cases find) [
    | inl none_found ↦
        rw (snooping-answer_found, none_found) (Hit-absent _ j none_found find-Hit lo hi, refl)
    | inr (r, found) ↦
        rw (snooping-answer_found, found) (gone r found (ℕ_discrete j r), ground arith)
  ]
    where
      absent_of_ne : (r : ℕ) → find ≡ some r → j ≢ r → present (lines j) req.addr ≡ false
      absent_of_ne r found other =
          let (lo', hi', here) = Hit-present _ found find-Hit in
          elim (Bool-cases (present (lines j) req.addr)) [
            | inl both ↦ absurd (other (unique j r lo hi lo' hi' both here))
            | inr absent ↦ absent
          ]

      gone :
          (r : ℕ)
          → find ≡ some r
          → Dec (j ≡ r)
          → present ((answer id lines req r).0 j) req.addr ≡ false
      gone r found (yes same) = ground arith
      gone r found (no other) = ground (arith, absent_of_ne r found)

  -- A read by another processor of a line that is present, the only one of its set that is, starts a
  -- transfer to that processor for that line; the line goes from requested to shared, and keeps any
  -- other state.
  pub snooping_answers :
      (j : ℕ)
      → req.func ≡ read
      → IsUnique lines req.addr
      → addr_to_index req.addr ≤ j
      → j < addr_to_index req.addr + cache_set_size
      → present (lines j) req.addr ≡ true
      → ((snooping id lines req).1
          ≡ some (record { proc_id = req.id; source_id = id; addr = req.addr; line = j }))
        × (((snooping id lines req).0 j).state
            ≡ elim (lines j).state [ requested ↦ shared | other ↦ other ])
  unfolding answer_found
  snooping_answers j func unique lo hi here = elim (Option-cases find) [
    | inl none_found ↦
        let clash : true ≡ false = sym here ∙ Hit-absent _ j none_found find-Hit lo hi in cc
    | inr (r, found) ↦
        let (lo', hi', there) = Hit-present _ found find-Hit in
        let same : r ≡ j = unique r j lo' hi' lo hi there here in
        rw (snooping-answer_found, found, same) (ground arith)
  ]

  -- A request for an address that no line of its set is present for changes nothing and starts no
  -- transfer.
  pub snooping_absent :
      ((j : ℕ)
        → addr_to_index req.addr ≤ j
        → j < addr_to_index req.addr + cache_set_size
        → present (lines j) req.addr ≡ false)
      → snooping id lines req ≡ (lines, none)
  unfolding answer_found
  snooping_absent absent = elim (Option-cases find) [
    | inl none_found ↦ rw (snooping-answer_found, none_found) refl
    | inr (r, found) ↦
        let (lo, hi, there) = Hit-present _ found find-Hit in
        let clash : true ≡ false = sym there ∙ absent r lo hi in cc
  ]
