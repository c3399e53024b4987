-- ===== src/Lines/Victims.antt =====
-- src/assignment_1/Cache.h: the search of `execute`: it finds a present line of the set, ages the
-- others, and on a miss picks an invalid line or the one whose counter is the lowest.
use psa.Prelude.{
  ℕ, ◌+◌, ◌≤◌, ◌<◌, ◌≡◌, ◌⊎◌, inl, inr, refl, true, false, Option, none, some, if◌then◌else◌, arith,
}
use psa.Lines.{
  Line, is_invalid, check_line, start_search, present, addr_to_index, cache_set_size, max_counter,
}
use psa.Lines.Searching.{Lowest, Found, aged, within, IsSearched, search_from-IsSearched}

module _ (lines : ℕ → Line) (addr : ℕ) where
  -- The first line of the set, and the line behind its last.
  abbrev pub set_first : ℕ
  set_first = addr_to_index addr

  abbrev pub set_end : ℕ
  set_end = addr_to_index addr + cache_set_size

  check_line-IsSearched : IsSearched lines addr set_first set_end (check_line lines addr)
  unfolding check_line
  check_line-IsSearched =
      search_from-IsSearched lines addr set_first cache_set_size set_first set_end
        (start_search lines set_first) refl
        (record {
          from = omega arith;
          lines_at = λ j. ground arith;
          found = λ j lo hi. absurd (omega arith);
          lowest = (
            omega arith,
            omega arith,
            λ lt. absurd (omega arith),
            λ j lo hi. absurd (omega arith),
          );
        })

  Found-hit :
      (r' : Option ℕ) (r : ℕ)
      → r' ≡ some r
      → Found lines addr set_first set_end r'
      → (set_first ≤ r) × (r < set_end) × (present (lines r) addr ≡ true)
  Found-hit none r e h = cc
  Found-hit (some q) r e h = let same : q ≡ r = cc in rw same at h

  Found-miss :
      (r' : Option ℕ) (j : ℕ)
      → r' ≡ none
      → Found lines addr set_first set_end r'
      → set_first ≤ j
      → j < set_end
      → present (lines j) addr ≡ false
  Found-miss none j e h lo hi = h j lo hi
  Found-miss (some q) j e h lo hi = cc

  -- A line that the search finds lies in the set of the address and is present for it.
  check_line_hit :
      {r : ℕ}
      → (check_line lines addr).rindex ≡ some r
      → (addr_to_index addr ≤ r)
        × (r < addr_to_index addr + cache_set_size)
        × (present (lines r) addr ≡ true)
  check_line_hit {r} e = Found-hit _ r e check_line-IsSearched.found

  -- Where the search finds no line, no line of the set is present for the address.
  check_line_miss :
      (j : ℕ)
      → (check_line lines addr).rindex ≡ none
      → addr_to_index addr ≤ j
      → j < addr_to_index addr + cache_set_size
      → present (lines j) addr ≡ false
  check_line_miss j e lo hi = Found-miss _ j e check_line-IsSearched.found lo hi

  Lowest-victim :
      (v : ℕ) (m : Option ℕ) (j : ℕ)
      → Lowest lines addr set_first set_end v m
      → present (lines j) addr ≡ false
      → (lines j).counter ≤ max_counter
      → set_first ≤ j
      → j < set_end
      → (set_first ≤ v)
        × (v < set_end)
        × ((is_invalid (lines v).state ≡ true)
            ⊎ ((is_invalid (lines j).state ≡ false) × ((lines v).counter ≤ (lines j).counter)))
  Lowest-victim v none j h absent small lo hi = (h.0, h.1, inl h.2)
  Lowest-victim v (some m) j h absent small lo hi =
      let (valid, le) = h.3 j lo hi absent in
      let (seen, e) = h.2 (omega arith) in (h.0, seen, inr (valid, omega arith))

  -- On a miss, with no counter in the set above the maximum, the victim lies in the set, and it is
  -- invalid, or no line of the set is invalid and none has a lower counter.
  pub check_line_victim :
      (j : ℕ)
      → (check_line lines addr).rindex ≡ none
      → (lines j).counter ≤ max_counter
      → addr_to_index addr ≤ j
      → j < addr_to_index addr + cache_set_size
      → let v = (check_line lines addr).min_id in
        (addr_to_index addr ≤ v)
        × (v < addr_to_index addr + cache_set_size)
        × ((is_invalid (lines v).state ≡ true)
            ⊎ ((is_invalid (lines j).state ≡ false) × ((lines v).counter ≤ (lines j).counter)))
  check_line_victim j e small lo hi =
      Lowest-victim _ _ j check_line-IsSearched.lowest (check_line_miss j e lo hi) small lo hi

  -- The search takes one from the counter of each line of the set that is not present for the
  -- address, down to 0, and changes nothing else of any line.
  check_line_ages :
      (j : ℕ)
      → (check_line lines addr).lines j ≡ (
          if within (addr_to_index addr) (addr_to_index addr + cache_set_size) j
          then aged addr (lines j)
          else lines j)
  check_line_ages j = check_line-IsSearched.lines_at j
