-- ===== src/Checker/Tracking.antt =====
-- locknsnoop/common/tlm2_base_protocol_checker.h: how the phases and the two flags of the checker stand
-- to what was seen.
use psa.Prelude.{
  ℕ, ◌≡◌, true, false, not, ◌&&◌, Option, none, some, ◌∷◌, if◌then◌else◌, ◌==◌, arith, ℕ_discrete,
}
use psa.AtInterconnect.{begin_req, end_req, begin_resp, end_resp, is_trans}
use psa.Checker.{CheckedPhase, uninitialized, protocol, is_under_way}
use psa.Checker.Phases.{is_phase}
use psa.Checker.Rules.{sends, completes, History, last, IsLegal, phase_of}

-- The checker keeps the phase of each transaction, and the transactions with a request and with a
-- response in progress.
pub record IsTracked (ph : ℕ → CheckedPhase) (req resp : Option ℕ) (h : History) : Type 0 where
  pub phases : (u : ℕ) → phase_of (ph u) ≡ last u h
  pub request : (u : ℕ) → last u h ≡ some begin_req → req ≡ some u
  pub response : (u : ℕ) → last u h ≡ some begin_resp → resp ≡ some u
  pub legal : IsLegal h

abbrev pub Set : (ℕ → CheckedPhase) → (ℕ → CheckedPhase) → ℕ → CheckedPhase → Type 0
Set ph' ph t new = (u : ℕ) → ph' u ≡ (if t == u then new else ph u)

module _ (ph ph' : ℕ → CheckedPhase) (req resp : Option ℕ) (h : History) (t : ℕ)
    (k : IsTracked ph req resp h) where
  pub begin_request-IsTracked :
      Set ph' ph t (protocol begin_req)
      → is_under_way (ph t) ≡ false
      → req ≡ none
      → IsTracked ph' (some t) resp ((t, sends begin_req) ∷ h)
  begin_request-IsTracked e idle free = record {
    phases = λ u. let a = e u in let b = k.phases u in let d = ℕ_discrete t u in ground arith;
    request = λ u b. let a = k.request u in let d = ℕ_discrete t u in ground arith;
    response = λ u b. let a = k.response u in let d = ℕ_discrete t u in ground arith;
    legal =
        (k.legal, let a = k.phases t in ground arith, λ u b. let a = k.request u b in ground arith);
  }

  pub end_request-IsTracked :
      Set ph' ph t (protocol end_req)
      → is_phase (ph t) begin_req ≡ true
      → IsTracked ph' none resp ((t, sends end_req) ∷ h)
  end_request-IsTracked e at = record {
    phases = λ u. let a = e u in let b = k.phases u in let d = ℕ_discrete t u in ground arith;
    request = λ u b.
        let a = k.request u in
        let c = k.request t in let p = k.phases t in let d = ℕ_discrete t u in ground arith;
    response = λ u b. let a = k.response u in let d = ℕ_discrete t u in ground arith;
    legal = (k.legal, let a = k.phases t in ground arith, tt);
  }

  pub begin_response-IsTracked :
      Set ph' ph t (protocol begin_resp)
      → not (is_phase (ph t) begin_req) && not (is_phase (ph t) end_req) ≡ false
      → resp ≡ none
      → IsTracked ph' (if is_trans req t then none else req) (some t) ((t, sends begin_resp) ∷ h)
  begin_response-IsTracked e at free = record {
    phases = λ u. let a = e u in let b = k.phases u in let d = ℕ_discrete t u in ground arith;
    request = λ u b. let a = k.request u in let d = ℕ_discrete t u in ground arith;
    response = λ u b. let a = k.response u in let d = ℕ_discrete t u in ground arith;
    legal = (
      k.legal,
      let a = k.phases t in ground arith,
      λ u b. let a = k.response u b in ground arith,
    );
  }

  pub end_response-IsTracked :
      Set ph' ph t (protocol end_resp)
      → is_phase (ph t) begin_resp ≡ true
      → IsTracked ph' req none ((t, sends end_resp) ∷ h)
  end_response-IsTracked e at = record {
    phases = λ u. let a = e u in let b = k.phases u in let d = ℕ_discrete t u in ground arith;
    request = λ u b. let a = k.request u in let d = ℕ_discrete t u in ground arith;
    response = λ u b.
        let a = k.response u in
        let c = k.response t in let p = k.phases t in let d = ℕ_discrete t u in ground arith;
    legal = (k.legal, let a = k.phases t in ground arith, tt);
  }

  pub complete_request-IsTracked :
      Set ph' ph t uninitialized
      → last t h ≡ some begin_req
      → IsTracked ph' none resp ((t, completes) ∷ h)
  complete_request-IsTracked e at = record {
    phases = λ u. let a = e u in let b = k.phases u in let d = ℕ_discrete t u in ground arith;
    request =
        λ u b. let a = k.request u in let c = k.request t in let d = ℕ_discrete t u in ground arith;
    response = λ u b. let a = k.response u in let d = ℕ_discrete t u in ground arith;
    legal = (k.legal, ground arith, tt);
  }

  pub complete_response-IsTracked :
      Set ph' ph t uninitialized
      → last t h ≡ some begin_resp
      → IsTracked ph' req none ((t, completes) ∷ h)
  complete_response-IsTracked e at = record {
    phases = λ u. let a = e u in let b = k.phases u in let d = ℕ_discrete t u in ground arith;
    request = λ u b. let a = k.request u in let d = ℕ_discrete t u in ground arith;
    response = λ u b.
        let a = k.response u in let c = k.response t in let d = ℕ_discrete t u in ground arith;
    legal = (k.legal, ground arith, tt);
  }

  pub same-IsTracked : ((u : ℕ) → ph' u ≡ ph u) → IsTracked ph' req resp h
  same-IsTracked e = record {
    phases = λ u. let a = e u in let b = k.phases u in ground arith;
    request = k.request;
    response = k.response;
    legal = k.legal;
  }
