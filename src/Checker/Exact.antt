-- ===== src/Checker/Exact.antt =====
-- locknsnoop/common/tlm2_base_protocol_checker.h: how the two flags of the checker stand to what was seen
-- where the rules are kept.
use psa.Prelude.{
  ℕ, ◌≡◌, true, false, not, ◌&&◌, Option, none, some, ◌∷◌, if◌then◌else◌, arith, ℕ_discrete,
  Option-cases, inl, inr,
}
use psa.AtInterconnect.{begin_req, end_req, begin_resp, end_resp, is_trans}
use psa.Checker.{CheckedPhase, uninitialized, protocol, is_under_way}
use psa.Checker.Phases.{is_phase}
use psa.Checker.Rules.{sends, completes, History, last, IsLegal}
use psa.Checker.Tracking.{
  IsTracked, Set, begin_request-IsTracked, end_request-IsTracked, begin_response-IsTracked,
  end_response-IsTracked, complete_request-IsTracked, complete_response-IsTracked, same-IsTracked,
}

-- The flags stand for the transactions with a request and with a response in progress, and for no
-- others.
pub record IsExact (ph : ℕ → CheckedPhase) (req resp : Option ℕ) (h : History) : Type 0 where
  pub tracked : IsTracked ph req resp h
  pub request_back : (u : ℕ) → req ≡ some u → last u h ≡ some begin_req
  pub response_back : (u : ℕ) → resp ≡ some u → last u h ≡ some begin_resp

module _ (ph ph' : ℕ → CheckedPhase) (req resp : Option ℕ) (h : History) (t : ℕ)
    (k : IsExact ph req resp h) where
  pub request_allowed :
      IsLegal ((t, sends begin_req) ∷ h) → (is_under_way (ph t) ≡ false) × (req ≡ none)
  request_allowed legal =
      let p = k.tracked.phases t in
      elim (Option-cases req) [
        | inl e ↦ (ground arith, e)
        | inr (u, e) ↦ absurd (legal.2 u (k.request_back u e))
      ]

  pub begin_request-IsExact :
      Set ph' ph t (protocol begin_req)
      → IsLegal ((t, sends begin_req) ∷ h)
      → IsExact ph' (some t) resp ((t, sends begin_req) ∷ h)
  begin_request-IsExact e legal =
      let (idle, free) = request_allowed legal in
      record {
        tracked = begin_request-IsTracked ph ph' req resp h t k.tracked e idle free;
        request_back = λ u b. let d = ℕ_discrete t u in ground arith;
        response_back = λ u b.
            let a = k.response_back u b in
            let n = legal.1 in let d = ℕ_discrete t u in ground arith;
      }

  pub response_allowed :
      IsLegal ((t, sends begin_resp) ∷ h)
      → (not (is_phase (ph t) begin_req) && not (is_phase (ph t) end_req) ≡ false) × (resp ≡ none)
  response_allowed legal =
      let p = k.tracked.phases t in
      elim (Option-cases resp) [
        | inl e ↦ (ground arith, e)
        | inr (u, e) ↦ absurd (legal.2 u (k.response_back u e))
      ]

  pub begin_response-IsExact :
      Set ph' ph t (protocol begin_resp)
      → IsLegal ((t, sends begin_resp) ∷ h)
      → IsExact ph' (if is_trans req t then none else req) (some t) ((t, sends begin_resp) ∷ h)
  begin_response-IsExact e legal =
      let (idle, free) = response_allowed legal in
      record {
        tracked = begin_response-IsTracked ph ph' req resp h t k.tracked e idle free;
        request_back = λ u b. let a = k.request_back u in let d = ℕ_discrete t u in ground arith;
        response_back = λ u b. let d = ℕ_discrete t u in ground arith;
      }

  pub end_request_allowed : IsLegal ((t, sends end_req) ∷ h) → is_phase (ph t) begin_req ≡ true
  end_request_allowed legal = let p = k.tracked.phases t in let n = legal.1 in ground arith

  pub end_request-IsExact :
      Set ph' ph t (protocol end_req)
      → IsLegal ((t, sends end_req) ∷ h)
      → IsExact ph' none resp ((t, sends end_req) ∷ h)
  end_request-IsExact e legal = record {
    tracked = end_request-IsTracked ph ph' req resp h t k.tracked e (end_request_allowed legal);
    request_back = λ u b. ground arith;
    response_back = λ u b.
        let a = k.response_back u b in let n = legal.1 in let d = ℕ_discrete t u in ground arith;
  }

  pub end_response_allowed : IsLegal ((t, sends end_resp) ∷ h) → is_phase (ph t) begin_resp ≡ true
  end_response_allowed legal = let p = k.tracked.phases t in let n = legal.1 in ground arith

  pub end_response-IsExact :
      Set ph' ph t (protocol end_resp)
      → IsLegal ((t, sends end_resp) ∷ h)
      → IsExact ph' req none ((t, sends end_resp) ∷ h)
  end_response-IsExact e legal = record {
    tracked = end_response-IsTracked ph ph' req resp h t k.tracked e (end_response_allowed legal);
    request_back = λ u b.
        let a = k.request_back u b in let n = legal.1 in let d = ℕ_discrete t u in ground arith;
    response_back = λ u b. ground arith;
  }

  pub complete_request-IsExact :
      Set ph' ph t uninitialized
      → last t h ≡ some begin_req
      → IsExact ph' none resp ((t, completes) ∷ h)
  complete_request-IsExact e at = record {
    tracked = complete_request-IsTracked ph ph' req resp h t k.tracked e at;
    request_back = λ u b. ground arith;
    response_back = λ u b. let a = k.response_back u b in let d = ℕ_discrete t u in ground arith;
  }

  pub complete_response-IsExact :
      Set ph' ph t uninitialized
      → last t h ≡ some begin_resp
      → IsExact ph' req none ((t, completes) ∷ h)
  complete_response-IsExact e at = record {
    tracked = complete_response-IsTracked ph ph' req resp h t k.tracked e at;
    request_back = λ u b. let a = k.request_back u b in let d = ℕ_discrete t u in ground arith;
    response_back = λ u b. ground arith;
  }

  pub same-IsExact : ((u : ℕ) → ph' u ≡ ph u) → IsExact ph' req resp h
  same-IsExact e = record {
    tracked = same-IsTracked ph ph' req resp h t k.tracked e;
    request_back = k.request_back;
    response_back = k.response_back;
  }
