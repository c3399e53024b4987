-- ===== src/Checker/Alarms.antt =====
-- locknsnoop/common/tlm2_base_protocol_checker.h: the reports that are about the order of the phases and
-- about the exclusion rules, and the checks that make none of them.
use psa.Prelude.{
  ℕ, zero, suc, ◌≡◌, refl, Bool, true, false, not, ◌&&◌, Option, none, some, List, [], ◌∷◌, ◌++◌,
  ◌==◌, arith, if_cases,
}
use psa.Checker.{
  Clause, clause_6_5, clause_6_5_h, clause_6_5_s, clause_6_5_y, clause_6_7, clause_6_10_e,
  clause_6_11_d, clause_6_13_f, clause_6_14_f, clause_6_15, clause_6_16_e, clause_7_2_3_d,
  clause_7_2_3_i, clause_7_2_4_b, clause_7_2_4_c, clause_7_2_5_m_n, CheckedTrans, Hop, CheckedPath,
  Checker, report, is_write,
}
use psa.Checker.Attributes.{
  initial_reports, differences, added, modified_reports, check_trans_not_modified,
}
use psa.Checker.Paths.{check_response_path}
use psa.Checker.Phases.{manager_reports}

-- The clauses on the phases and on the exclusion of requests and of responses
abbrev pub is_alarm : Clause → Bool
is_alarm clause_7_2_3_d = true
is_alarm clause_7_2_3_i = true
is_alarm clause_7_2_4_b = true
is_alarm clause_7_2_4_c = true
is_alarm _ = false

abbrev pub no_alarm : List Clause → Bool
no_alarm [] = true
no_alarm (c ∷ cs) = not (is_alarm c) && no_alarm cs

-- The reports have no alarm.
pub data IsQuiet (r : List Clause) : Type 0 where
  quiet : no_alarm r ≡ true → IsQuiet r

pub none_stands : {r : List Clause} → IsQuiet r → no_alarm r ≡ true
none_stands (quiet e) = e

pub both-IsQuiet : (xs ys : List Clause) → IsQuiet xs → IsQuiet ys → IsQuiet (xs ++ ys)
both-IsQuiet [] ys e1 e2 = e2
both-IsQuiet (x ∷ xs) ys e1 e2 =
    let a = none_stands e1 in
    let rest = none_stands (both-IsQuiet xs ys (quiet (ground arith)) e2) in quiet (ground arith)

-- A report of another clause, or one whose test fails
pub other-IsQuiet : (b : Bool) (c : Clause) → is_alarm c ≡ false → IsQuiet (report b c)
other-IsQuiet true c e = quiet (ground arith)
other-IsQuiet false c e = quiet refl

pub kept-IsQuiet : (b : Bool) (c : Clause) → b ≡ false → IsQuiet (report b c)
kept-IsQuiet true c e = absurd (ground arith)
kept-IsQuiet false c e = quiet refl

-- A report of another clause after quiet reports
pub then-IsQuiet :
    (xs : List Clause) (b : Bool) (c : Clause)
    → is_alarm c ≡ false
    → IsQuiet xs
    → IsQuiet (xs ++ report b c)
then-IsQuiet xs b c e q = both-IsQuiet xs (report b c) q (other-IsQuiet b c e)

pub manager-IsQuiet : (p : CheckedTrans) → IsQuiet (manager_reports p)
manager-IsQuiet p = then-IsQuiet _ _ clause_6_5_s refl (other-IsQuiet _ clause_6_5_h refl)

pub initial-IsQuiet : (q : CheckedPath) (p : CheckedTrans) → IsQuiet (initial_reports q p)
unfolding initial_reports
initial-IsQuiet q p = then-IsQuiet _ _ clause_6_5 refl (
    then-IsQuiet _ _ clause_6_16_e refl (
      then-IsQuiet _ _ clause_6_15 refl (
        then-IsQuiet _ _ clause_6_14_f refl (
          then-IsQuiet _ _ clause_6_13_f refl (
            then-IsQuiet _ _ clause_6_11_d refl
              (then-IsQuiet _ _ clause_6_10_e refl (other-IsQuiet _ clause_6_5_s refl)))))))

differences-IsQuiet : (n : ℕ) (f g : ℕ → ℕ) → IsQuiet (differences n f g)
unfolding differences
differences-IsQuiet zero f g = quiet refl
differences-IsQuiet (suc n) f g = then-IsQuiet _ _ clause_6_7 refl (differences-IsQuiet n f g)

added-IsQuiet : (n : ℕ) (now before : ℕ → Bool) → IsQuiet (added n now before)
unfolding added
added-IsQuiet zero now before = quiet refl
added-IsQuiet (suc n) now before = then-IsQuiet _ _ clause_6_5_y refl (added-IsQuiet n now before)

data-IsQuiet :
    (d : Option (ℕ → ℕ)) (p : CheckedTrans)
    → IsQuiet (elim d [ none ↦ [] | some bytes ↦ differences p.data_length p.bytes bytes ])
data-IsQuiet none p = quiet refl
data-IsQuiet (some bytes) p = differences-IsQuiet p.data_length p.bytes bytes

modified-IsQuiet :
    (n : ℕ) (h : Hop) (q : CheckedPath) (p0 p : CheckedTrans)
    → IsQuiet (modified_reports n h q p0 p)
unfolding modified_reports
modified-IsQuiet n h q p0 p =
    both-IsQuiet _ _
      (both-IsQuiet _ _
        (then-IsQuiet _ _ clause_6_7 refl (
          both-IsQuiet _ _
            (then-IsQuiet _ _ clause_6_7 refl (
              then-IsQuiet _ _ clause_6_7 refl (
                both-IsQuiet _ _
                  (then-IsQuiet _ _ clause_6_7 refl
                    (then-IsQuiet _ _ clause_6_7 refl (other-IsQuiet _ clause_6_7 refl)))
                  (if_cases IsQuiet (is_write p.command)
                    (λ e. differences-IsQuiet p0.data_length p.bytes p0.bytes) (λ e. quiet refl)))))
            (if_cases IsQuiet (p.byte_enable_ptr == 0) (λ e. quiet refl)
              (λ e. differences-IsQuiet p0.byte_enable_length p.enables p0.enables))))
        (if_cases IsQuiet h.has_mm (λ e. quiet refl)
          (λ e.
            both-IsQuiet _ _ (other-IsQuiet p.has_mm clause_6_5_y refl)
              (added-IsQuiet n p.extensions p0.extensions))))
      (data-IsQuiet q.resp_data p)

-- The reports on a transaction that has changed
abbrev QuietOrNone : Option (List Clause) → Type 0
QuietOrNone none = Unit
QuietOrNone (some r) = IsQuiet r

pub not_modified-IsQuiet :
    (n : ℕ) (s : Checker) (t : ℕ) (p : CheckedTrans) (m : List Clause)
    → check_trans_not_modified n s t p ≡ some m
    → IsQuiet m
unfolding check_trans_not_modified
not_modified-IsQuiet n s t p m e =
    let all : QuietOrNone (check_trans_not_modified n s t p) = of_copy (s.m_map t).gp in rw e at all
  where
    of_copy :
        (o : Option CheckedTrans)
        → QuietOrNone (elim o [
          | none ↦ none
          | some p0 ↦ some (modified_reports n (s.m_map t) (s.shared_map t) p0 p)
        ])
    of_copy none = tt
    of_copy (some p0) = modified-IsQuiet n (s.m_map t) (s.shared_map t) p0 p

pub path-IsQuiet : (s : Checker) (t : ℕ) (p : CheckedTrans) → IsQuiet (check_response_path s t p).1
unfolding check_response_path
path-IsQuiet s t p = of_path (s.shared_map t).path refl
  where
    of_path : (xs : List ℕ) → (s.shared_map t).path ≡ xs → IsQuiet (check_response_path s t p).1
    of_path [] e = rw (check_response_path, e) (quiet refl)
    of_path (x ∷ xs) e =
        rw (check_response_path, e) (other-IsQuiet (not (x == s.this)) clause_7_2_5_m_n refl)
