-- ===== src/Cypher/Governor/Contract.antt =====
-- What governor.rs promises to the executor.
use acetone.Prelude.{
  ℕ, ◌+◌, ◌≤◌, ◌<◌, ◌≡◌, ◌≢◌, refl, ◌∙◌, subst, Option, none, some, arith, List, [], ◌∷◌,
}
use acetone.Prelude.{All}
use acetone.Cypher.Governor.{
  QueryLimits, Governor, granted, exceeded, ResourceLimit, Charge, charge, charges, new_governor,
  deadline_of, work_units, clock_poll_stride, u64_max,
}
use acetone.Cypher.Governor.Totals.{
  Totals, nothing, calls_of, total_after, first_excess, IsAt, Agrees, charges-Agrees,
}
use acetone.Cypher.Governor.Granted.{
  IsAdmitted, charges-granted, work-total_after, going_on, granted_self,
}
use acetone.Cypher.Governor.Calls.{
  IsGovernor, IsWithin, IsPolled, IsLate, Spent, Outcome, charge-Outcome,
}

-- Without a wall clock, a query is refused exactly where exact totals cross a cap: at the same call
-- and for the same limit as in an account that never saturates and reads no clock, where the
-- greatest `u64` as a cap is no cap. Where it is not refused, each counter is the exact total as far
-- as a `u64` counts.
pub charges-first_excess :
    (latest start : ℕ) (l : QueryLimits) (cs : List (ℕ × Charge))
    → l.wall_clock ≡ none
    → Agrees l
        (total_after (calls_of cs) nothing)
        (first_excess l nothing (calls_of cs))
        (charges cs (new_governor latest start l))
unfolding new_governor deadline_of
charges-first_excess latest start l cs e =
    charges-Agrees cs l (new_governor latest start l) nothing (refl, refl, refl) refl (rw e refl)

-- One call, granted or refused: the executor may go on after either.
pub data Step (g h : Governor) : Type 0 where
  grant : (now : ℕ) (c : Charge) → charge now c g ≡ granted h → Step g h
  deny :
      (now : ℕ) (c : Charge) (limit : ResourceLimit) → charge now c g ≡ exceeded limit h → Step g h

pub data Reach (g : Governor) : Governor → Type 0 where
  here : Reach g g
  next : {h k : Governor} → Reach g h → Step h k → Reach g k

granted-Outcome :
    (now : ℕ) (c : Charge) (g h : Governor)
    → IsGovernor g
    → charge now c g ≡ granted h
    → Outcome now g (granted h)
granted-Outcome now c g h inv e = subst (λ t. Outcome now g t) e (charge-Outcome now c g inv)

exceeded-Outcome :
    (now : ℕ) (c : Charge) (limit : ResourceLimit) (g h : Governor)
    → IsGovernor g
    → charge now c g ≡ exceeded limit h
    → Outcome now g (exceeded limit h)
exceeded-Outcome now c limit g h inv e = subst (λ t. Outcome now g t) e (charge-Outcome now c g inv)

Step-Spent : {g h : Governor} → IsGovernor g → Step g h → IsGovernor h × Spent g h
Step-Spent inv (grant now c e) = let (i, s, _, _, _) = granted-Outcome now c _ _ inv e in (i, s)
Step-Spent inv (deny now c limit e) =
    let (i, s, _) = exceeded-Outcome now c limit _ _ inv e in (i, s)

new_governor-IsGovernor :
    (latest start : ℕ) (l : QueryLimits) → IsGovernor (new_governor latest start l)
unfolding new_governor
new_governor-IsGovernor latest start l = (omega arith, omega arith, omega arith, omega arith)

Reach-IsGovernor : {g h : Governor} → IsGovernor g → Reach g h → IsGovernor h
Reach-IsGovernor inv here = inv
Reach-IsGovernor inv (next r s) = (Step-Spent (Reach-IsGovernor inv r) s).0

Reach-Spent :
    {g h : Governor}
    → IsGovernor g
    → Reach g h
    → (h.limits ≡ g.limits) × (h.deadline ≡ g.deadline) × (g.work ≤ h.work)
Reach-Spent inv here = (refl, refl, omega arith)
Reach-Spent inv (next r s) =
    let (l, d, up) = Reach-Spent inv r in
    let (sl, sd, more, _, _) = (Step-Spent (Reach-IsGovernor inv r) s).1 in
    (sl ∙ l, sd ∙ d, omega arith)

-- In every state that calls lead to from a new governor, granted and refused ones in any order, the
-- counters are numbers of type `u64`, the last poll of the clock is not ahead of the work, and the
-- limits and the deadline are those of the start.
pub Reach-new_governor :
    (latest start : ℕ) (l : QueryLimits) {h : Governor}
    → Reach (new_governor latest start l) h
    → IsGovernor h × (h.limits ≡ l) × (h.deadline ≡ deadline_of latest start l.wall_clock)
unfolding new_governor
Reach-new_governor latest start l r =
    let inv = new_governor-IsGovernor latest start l in
    let (same, d, _) = Reach-Spent inv r in (Reach-IsGovernor inv r, same, d)

-- Once a call has been refused for the work budget, every later call of any kind is refused, whatever
-- calls come between.
pub exceeded_stays :
    (now later : ℕ) (c d : Charge) (g : Governor) {h k m : Governor}
    → IsGovernor g
    → charge now c g ≡ exceeded work_units h
    → Reach h k
    → charge later d k ≢ granted m
exceeded_stays now later c d g {h} {k} {m} inv e r again =
    let (kept, (same, _, _, _, _), over) = exceeded-Outcome now c work_units g h inv e in
    let (l, _, up) = Reach-Spent kept r in
    let (_, (_, _, more, _, _), most, _, _) =
      granted-Outcome later d k m (Reach-IsGovernor kept r) again in
    omega (arith, over refl, subst (λ t. m.work ≤ t.max_work_units) (l ∙ same) most)

run-IsWithin :
    (cs : List (ℕ × Charge)) (g h : Governor)
    → IsGovernor g
    → IsWithin g
    → charges cs g ≡ granted h
    → IsWithin h × (h.deadline ≡ g.deadline)
unfolding charges
run-IsWithin [] g h inv within e =
    subst (λ k. IsWithin k × (k.deadline ≡ g.deadline)) (granted_self g h e) (within, refl)
run-IsWithin ((now, c) ∷ cs) g h inv (_, hops, scans, _) e =
    let (m, first, rest) = going_on cs (charge now c g) h e in
    let (inv', (_, same, _, _, _), _, within, _) = granted-Outcome now c g m inv first in
    let (within', d) = run-IsWithin cs m h inv' (within (hops, scans)) rest in (within', d ∙ same)

new_governor-IsWithin :
    (latest start : ℕ) (l : QueryLimits) → IsWithin (new_governor latest start l)
unfolding new_governor
new_governor-IsWithin latest start l =
    (omega arith, omega arith, omega arith, unpolled (deadline_of latest start l.wall_clock))
  where
    unpolled : (d : Option ℕ) → IsPolled d 0 0
    unpolled none = tt
    unpolled (some t) = omega arith

-- A query all of whose calls were granted kept to every cap, and the limits and the deadline are still
-- those of the start. Its counters of work, hops and candidates are the exact totals as far as a
-- `u64` counts, and none is over its cap; no set of rows was full when a row was pushed, no
-- collection was longer than the cap, and none was full when an element was pushed; and where there
-- is a deadline the clock was read less than one stride of work ago by the counter.
pub charges-IsWithin :
    (latest start : ℕ) (l : QueryLimits) (cs : List (ℕ × Charge)) (h : Governor)
    → charges cs (new_governor latest start l) ≡ granted h
    → IsWithin h
      × (h.limits ≡ l)
      × (h.deadline ≡ deadline_of latest start l.wall_clock)
      × All (IsAdmitted l) (calls_of cs)
      × IsAt h (total_after (calls_of cs) nothing)
unfolding new_governor
charges-IsWithin latest start l cs h e =
    let g = new_governor latest start l in
    let (within, d) =
      run-IsWithin cs g h (new_governor-IsGovernor latest start l)
        (new_governor-IsWithin latest start l) e in
    let (admitted, same, totals) = charges-granted cs g h nothing (refl, refl, refl) e in
    (within, same, d, admitted, totals)

run_late :
    (cs : List (ℕ × Charge)) (deadline : ℕ) (g h : Governor)
    → IsGovernor g
    → g.deadline ≡ some deadline
    → All (λ call. deadline ≤ call.0) cs
    → charges cs g ≡ granted h
    → (h.deadline ≡ some deadline) × (h.work_at_last_poll ≡ g.work_at_last_poll)
unfolding charges
run_late [] deadline g h inv d late e =
    subst (λ t. (t.deadline ≡ some deadline) × (t.work_at_last_poll ≡ g.work_at_last_poll))
      (granted_self g h e) (d, refl)
run_late ((now, c) ∷ cs) deadline g h inv d (past, late) e =
    let (m, first, rest) = going_on cs (charge now c g) h e in
    let (inv', (_, same, _, _, _), _, _, still) = granted-Outcome now c g m inv first in
    let (d', polled) = run_late cs deadline m h inv' (same ∙ d) late rest in
    let kept : m.work_at_last_poll ≡ g.work_at_last_poll =
      subst (λ t. IsLate now t g.work_at_last_poll m.work_at_last_poll) d still past in
    (d', polled ∙ kept)

-- Where the cap on work is below the greatest `u64`, less than one stride of work is granted past the
-- deadline: whatever calls are made from a budget within its caps, all at or behind the deadline, as
-- long as all are granted the work that they charge comes to less than 4096 units in all, counted
-- exactly.
pub charges_late :
    (cs : List (ℕ × Charge)) (deadline : ℕ) (g h : Governor)
    → IsGovernor g
    → IsWithin g
    → g.limits.max_work_units < u64_max
    → g.deadline ≡ some deadline
    → All (λ call. deadline ≤ call.0) cs
    → charges cs g ≡ granted h
    → (total_after (calls_of cs) nothing).work < clock_poll_stride
charges_late cs deadline g h inv within capped d late e =
    let ((most, _, _, near), _) = run-IsWithin cs g h inv within e in
    let (d', polled) = run_late cs deadline g h inv d late e in
    let (top, hops, scans, past) = inv in
    let before : Totals = record { work = g.work; hops = g.expansion; scanned = g.scanned } in
    let (_, same, (exact, _, _)) =
      charges-granted cs g h before (omega arith, omega arith, omega arith) e in
    let recent : h.work < h.work_at_last_poll + clock_poll_stride =
      subst (λ t. IsPolled t h.work h.work_at_last_poll) d' near in
    let unsaturated : h.work < u64_max =
      omega (arith, subst (λ t. h.work ≤ t.max_work_units) same most) in
    omega (arith, work-total_after (calls_of cs) before, exact, unsaturated, recent, polled, past)
