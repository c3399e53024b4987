-- ===== src/Checker/Rules.antt =====
-- The rules of the base protocol for the phases of transactions, by which the checker of
-- locknsnoop/common/tlm2_base_protocol_checker.h is judged.
use psa.Prelude.{
  ℕ, ◌≡◌, ◌≢◌, Bool, true, false, Option, none, some, List, [], ◌∷◌, if◌then◌else◌, ◌==◌,
}
use psa.AtInterconnect.{Phase, begin_req, end_req, begin_resp, end_resp}
use psa.Checker.{CheckedPhase, protocol}

-- What is seen of a transaction: a phase that is sent, by a call or on its return, or its completion
pub data Mark : Type 0 where
  sends : Phase → Mark
  completes : Mark

-- What was seen so far, the last first
abbrev pub History : Type 0
History = List (ℕ × Mark)

abbrev pub phase_after : Mark → Option Phase
phase_after (sends ph) = some ph
phase_after completes = none

-- The phase that a transaction is in: the last that was sent, if it was not completed
abbrev pub last : ℕ → History → Option Phase
last t [] = none
last t ((u, m) ∷ h) = if u == t then phase_after m else last t h

-- BEGIN_REQ, perhaps END_REQ, BEGIN_RESP, END_RESP; a request and a response may be completed instead.
abbrev pub is_next : Option Phase → Mark → Bool
is_next none (sends begin_req) = true
is_next (some end_resp) (sends begin_req) = true
is_next (some begin_req) (sends end_req) = true
is_next (some begin_req) (sends begin_resp) = true
is_next (some end_req) (sends begin_resp) = true
is_next (some begin_resp) (sends end_resp) = true
is_next (some begin_req) completes = true
is_next (some begin_resp) completes = true
is_next _ _ = false

-- No transaction is in the phase.
abbrev pub IsFree : Phase → History → Type 0
IsFree ph h = (u : ℕ) → last u h ≢ some ph

-- The exclusion rules: a request begins only when no other is in progress, and so does a response.
abbrev pub IsExcluded : Mark → History → Type 0
IsExcluded (sends begin_req) h = IsFree begin_req h
IsExcluded (sends begin_resp) h = IsFree begin_resp h
IsExcluded _ h = Unit

abbrev pub IsLegal : History → Type 0
IsLegal [] = Unit
IsLegal ((t, m) ∷ h) = IsLegal h × (is_next (last t h) m ≡ true) × IsExcluded m h

-- The phase as the checker keeps it
abbrev pub phase_of : CheckedPhase → Option Phase
phase_of (protocol ph) = some ph
phase_of _ = none
