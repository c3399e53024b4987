-- ===== src/Snooping/Runs.antt =====
-- locknsnoop/snooping_sticky/snooping.cpp: every run of the two initiators.
use psa.Prelude.{
  ℕ, ◌+◌, ◌-◌, ◌*◌, ◌%◌, ◌<◌, ◌≡◌, ◌⊎◌, inl, inr, refl, sym, subst, ◌∙◌, Bool, true, false, none,
  some, List, [], ◌∷◌, Bool-cases, dec_lt, Option-cases, arith, if◌then◌else◌,
}
use psa.Snooping.Table.{find_some, find_none}
use psa.Snooping.Freshness.{IsFresh, IsCoherent, refresh-IsCoherent, direct-IsCoherent}
use psa.Snooping.Regular.{regular_low, regular_high_read, regular_high_write}
use psa.Snooping.{Command, read, write, Dmi, memory_dmi, reconstruct_address}
use psa.Snooping.Interconnect.{Top, erase_overlapping, get_dmi, invalidate_all}
use psa.Snooping.Initiators.{
  Choice, snoops, accesses, find_dmi, access, refresh, snooper_step, turn, run, start, access_by,
  regular, direct,
}

at_address :
    (t : Top) (a b : ℕ) (cmd : Command)
    → b ≡ a
    → IsCoherent (regular t a cmd)
    → IsCoherent (regular t b cmd)
at_address t a b cmd e h = subst (λ x. IsCoherent (regular t x cmd)) (sym e) h

read-IsCoherent :
    (t : Top) (n : ℕ)
    → n < 128
    → IsCoherent t
    → find_dmi t.dmi_table (n * 4) read ≡ none
    → IsCoherent (regular t (n * 4) read)
read-IsCoherent t n lt h e = elim (dec_lt n 64) [
  | yes low ↦ at_address t (n * 4 + 0) (n * 4) read (omega arith) (regular_low t n read low h)
  | no high ↦ at_address t ((n - 64) * 4 + 256) (n * 4) read (omega arith) (
      regular_high_read t (n - 64) (omega arith) h
        ((find_none t.dmi_table (n * 4) read h.0 (omega arith) (omega arith) e).0 refl))
]

write-IsCoherent :
    (t : Top) (n : ℕ)
    → n < 128
    → IsCoherent t
    → find_dmi t.dmi_table (n * 4) write ≡ none
    → IsCoherent (regular t (n * 4) write)
write-IsCoherent t n lt h e = elim (dec_lt n 64) [
  | yes low ↦ at_address t (n * 4 + 0) (n * 4) write (omega arith) (regular_low t n write low h)
  | no high ↦ at_address t ((n - 64) * 4 + 256) (n * 4) write (omega arith) (
      regular_high_write t (n - 64) (omega arith) h
        ((find_none t.dmi_table (n * 4) write h.0 (omega arith) (omega arith) e).1 refl))
]

by_pointer :
    (t : Top) (addr : ℕ) (cmd : Command) (d : Dmi)
    → IsCoherent t
    → find_dmi t.dmi_table addr cmd ≡ some d
    → IsCoherent (direct t d addr cmd)
by_pointer t addr cmd d h e =
    let found = find_some t.dmi_table addr cmd d h.0 e in
    direct-IsCoherent t d addr cmd found.0 found.3 h

buffer-IsFresh : (v : Bool) (t : Top) (b : ℕ) → IsFresh v t → IsFresh v (record t { buffer = b })
buffer-IsFresh true t b h = h
buffer-IsFresh false t b h = h

access-IsCoherent :
    (t : Top) (n : ℕ) (writes : Bool)
    → n < 128
    → IsCoherent t
    → IsCoherent (access t (n * 4) (if writes then write else read))
unfolding access access_by
access-IsCoherent t n true lt h =
    let t' : Top = record t { buffer = n * 4 } in
    let h' : IsCoherent t' = (h.0, h.1, h.2, buffer-IsFresh t.snooper.dmi_valid t (n * 4) h.3) in
    elim (Option-cases (find_dmi t.dmi_table (n * 4) write)) [
      | inl e ↦ rw e (write-IsCoherent t' n lt h' e)
      | inr (d, e) ↦ rw e (by_pointer t' (n * 4) write d h' e)
    ]
access-IsCoherent t n false lt h = elim (Option-cases (find_dmi t.dmi_table (n * 4) read)) [
  | inl e ↦ rw e (read-IsCoherent t n lt h e)
  | inr (d, e) ↦ rw e (by_pointer t (n * 4) read d h e)
]

valid_step :
    (t : Top) (v : Bool)
    → v ≡ true
    → IsFresh v t
    → IsFresh true (record t {
      snooper = record (t.snooper) { count = t.snooper.count + 1; dmi_valid = true };
    })
valid_step t true e h = h
valid_step t false e h = ground arith

snooper_step-IsCoherent :
    (t : Top) → IsCoherent t → (t' : Top) × (snooper_step t ≡ some t') × IsCoherent t'
unfolding snooper_step
snooper_step-IsCoherent t h = elim (Bool-cases t.snooper.dmi_valid) [
  | inl e ↦ rw e (_, refl, (h.0, h.1, h.2, valid_step t t.snooper.dmi_valid e h.3))
  | inr e ↦ rw e (refresh-IsCoherent t h)
]

turn-IsCoherent :
    (t : Top) (c : Choice) → IsCoherent t → (t' : Top) × (turn t c ≡ some t') × IsCoherent t'
unfolding turn
turn-IsCoherent t snoops h = snooper_step-IsCoherent t h
turn-IsCoherent t (accesses n writes) h =
    (_, refl, access-IsCoherent t (n % 128) writes (omega arith) h)

run_next :
    (t t' : Top) (c : Choice) (cs : List Choice) → turn t c ≡ some t' → run t (c ∷ cs) ≡ run t' cs
unfolding run
run_next t t' c cs e = rw (run, e) refl

run-IsCoherent :
    (t : Top) (cs : List Choice) → IsCoherent t → (t' : Top) × (run t cs ≡ some t') × IsCoherent t'
unfolding run
run-IsCoherent t [] h = (t, refl, h)
run-IsCoherent t (c ∷ cs) h =
    let (t', e, h') = turn-IsCoherent t c h in
    let (t'', e'', h'') = run-IsCoherent t' cs h' in (t'', run_next t t' c cs e ∙ e'', h'')

-- The state of the first refresh
first-IsCoherent :
    (words : ℕ → ℕ → ℕ) (cache : ℕ → ℕ) (buffer : ℕ)
    → (t' : Top) × (turn (start words cache buffer) snoops ≡ some t') × IsCoherent t'
unfolding turn snooper_step refresh get_dmi invalidate_all memory_dmi reconstruct_address
    erase_overlapping
first-IsCoherent words cache buffer =
    (_, refl, (tt, refl, refl, (refl, refl, refl, omega arith, refl, λ i lt. ground arith)))

fresh_cache :
    (v : Bool) (t : Top) (i : ℕ)
    → IsFresh v t
    → i < 32
    → (v ≡ false) ⊎ (t.snooper.cache i ≡ (t.memories 1).mem i)
fresh_cache true t i h lt = inr (h.5 i lt)
fresh_cache false t i h lt = inl refl

-- Where the snooping initiator has the first turn, and for any turns after it of the two initiators,
-- with any addresses, commands and contents of the memories: the program is not stopped by a refusal
-- of the snoop, and at the end the cache is marked as stale, or each of its 32 words is the word of
-- the second memory, however the other initiator has written to it.
pub cache_fresh :
    (words : ℕ → ℕ → ℕ) (cache : ℕ → ℕ) (buffer : ℕ) (cs : List Choice) (i : ℕ)
    → i < 32
    → (t : Top) × (run (start words cache buffer) (snoops ∷ cs) ≡ some t)
      × ((t.snooper.dmi_valid ≡ false) ⊎ (t.snooper.cache i ≡ (t.memories 1).mem i))
cache_fresh words cache buffer cs i lt =
    let (t', e, h) = first-IsCoherent words cache buffer in
    let (t, e', h') = run-IsCoherent t' cs h in
    (t, run_next _ t' snoops cs e ∙ e', fresh_cache t.snooper.dmi_valid t i h'.3 lt)
