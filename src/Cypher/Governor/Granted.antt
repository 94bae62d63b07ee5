-- ===== src/Cypher/Governor/Granted.antt =====
-- What is known of calls on the budget of governor.rs that were granted, deadline or not: none ran
-- into a cap of its own, and each counter is the exact total as far as a `u64` counts.
use acetone.Prelude.{
  ℕ, ◌+◌, ◌≤◌, ◌<◌, ◌≡◌, refl, sym, ◌∙◌, ap, subst, min, List, [], ◌∷◌, Option, none, some, arith,
  All,
}
use acetone.Prelude.{Bool, true, false, ltb, leb, if◌then◌else◌, by_test, ltb→ge, leb→gt}
use acetone.Cypher.Governor.{
  QueryLimits, ResourceLimit, Governor, Charged, granted, exceeded, Charge, one_row, one_hop,
  whole_collection, one_element, one_scan, charge, charges, charge_work, poll, row, hop, collection,
  collection_push, scan, u64_max, clock_poll_stride, wrapping_sub, saturating_add,
}
use acetone.Cypher.Governor.Totals.{Totals, nothing, after, IsAt, calls_of, total_after, count_on}

-- A call is not over a cap on a single set of rows or a single collection.
abbrev pub IsAdmitted : QueryLimits → Charge → Type 0
IsAdmitted l (one_row set_len) = set_len < l.max_result_rows
IsAdmitted l one_hop = Unit
IsAdmitted l (whole_collection len) = len ≤ l.max_collection_len
IsAdmitted l (one_element current_len) = current_len < l.max_collection_len
IsAdmitted l (one_scan candidates) = Unit

abbrev Kept : Governor → Governor → Type 0
Kept g h = (h.limits ≡ g.limits) × (h.expansion ≡ g.expansion) × (h.scanned ≡ g.scanned)

pub granted_self : (g h : Governor) → granted g ≡ granted h → g ≡ h
granted_self g h e = cc

passed :
    (over : Bool) (limit : ResourceLimit) (g h : Governor) (next : Charged)
    → (if over then exceeded limit g else next) ≡ granted h
    → (over ≡ false) × (next ≡ granted h)
passed true limit g h next e = cc
passed false limit g h next e = (refl, e)

poll_granted :
    (now : ℕ) (deadline : Option ℕ) (g h : Governor)
    → poll now deadline g ≡ granted h
    → (h.work ≡ g.work) × Kept g h
unfolding poll
poll_granted now none g h e = rw (sym (granted_self g h e)) (refl, (refl, refl, refl))
poll_granted now (some t) g h e =
    by_test (leb clock_poll_stride (wrapping_sub g.work g.work_at_last_poll))
      (λ due.
        let (_, e') = passed (leb t now) _ _ h _ (rw due at e) in
        rw (sym (granted_self _ h e')) (refl, (refl, refl, refl)))
      (λ soon. rw (sym (granted_self g h (rw soon at e))) (refl, (refl, refl, refl)))

charge_work_granted :
    (now n : ℕ) (g h : Governor)
    → charge_work now n g ≡ granted h
    → (h.work ≡ saturating_add g.work n) × Kept g h
unfolding charge_work
charge_work_granted now n g h e =
    let (_, e') = passed (ltb g.limits.max_work_units (saturating_add g.work n)) _ _ h _ e in
    poll_granted now g.deadline (record g { work = saturating_add g.work n }) h e'

-- A granted call: it was admitted, and added to the counters what it adds to the totals.
abbrev pub Granted : Charge → Governor → Governor → Type 0
Granted c g h =
    IsAdmitted g.limits c × (h.limits ≡ g.limits) × ((t : Totals) → IsAt g t → IsAt h (after c t))

added :
    (total n count : ℕ)
    → count ≡ min total u64_max
    → saturating_add count n ≡ min (total + n) u64_max
added total n count e = ap (λ k. saturating_add k n) e ∙ count_on total n

-- Each of the five calls.
pub charge-Granted :
    (now : ℕ) (c : Charge) (g h : Governor) → charge now c g ≡ granted h → Granted c g h
unfolding charge row hop collection collection_push scan
charge-Granted now (one_row set_len) g h e =
    let (in_time, e') = passed (leb g.limits.max_result_rows set_len) _ _ h _ e in
    let (w, (l, x, s)) = charge_work_granted now 1 g h e' in
    (leb→gt _ _ in_time, l, λ t (tw, tx, ts). (w ∙ added t.work 1 g.work tw, x ∙ tx, s ∙ ts))
charge-Granted now one_hop g h e =
    let (_, e') =
      passed (ltb g.limits.max_expansion_steps (saturating_add g.expansion 1)) _ _ h _ e in
    let (w, (l, x, s)) =
      charge_work_granted now 1 (record g { expansion = saturating_add g.expansion 1 }) h e' in
    (
      tt,
      l,
      λ t (tw, tx, ts). (w ∙ added t.work 1 g.work tw, x ∙ added t.hops 1 g.expansion tx, s ∙ ts),
    )
charge-Granted now (whole_collection len) g h e =
    let (fits, e') = passed (ltb g.limits.max_collection_len len) _ _ h _ e in
    let (w, (l, x, s)) = charge_work_granted now len g h e' in
    (ltb→ge _ _ fits, l, λ t (tw, tx, ts). (w ∙ added t.work len g.work tw, x ∙ tx, s ∙ ts))
charge-Granted now (one_element current_len) g h e =
    let (fits, e') = passed (leb g.limits.max_collection_len current_len) _ _ h _ e in
    let (w, (l, x, s)) = charge_work_granted now 1 g h e' in
    (leb→gt _ _ fits, l, λ t (tw, tx, ts). (w ∙ added t.work 1 g.work tw, x ∙ tx, s ∙ ts))
charge-Granted now (one_scan candidates) g h e =
    let (_, e') =
      passed (ltb g.limits.max_scanned_candidates (saturating_add g.scanned candidates)) _ _ h _
        e in
    let (w, (l, x, s)) =
      charge_work_granted now candidates
        (record g { scanned = saturating_add g.scanned candidates }) h e' in
    (
      tt,
      l,
      λ t (tw, tx, ts). (
        w ∙ added t.work candidates g.work tw,
        x ∙ tx,
        s ∙ added t.scanned candidates g.scanned ts,
      ),
    )

pub going_on :
    (cs : List (ℕ × Charge)) (done : Charged) (h : Governor)
    → (elim done [ granted g ↦ charges cs g | exceeded limit g ↦ exceeded limit g ]) ≡ granted h
    → (m : Governor) × (done ≡ granted m) × (charges cs m ≡ granted h)
going_on cs (granted m) h e = (m, refl, e)
going_on cs (exceeded limit m) h e = cc

-- A run of granted calls.
pub charges-granted :
    (cs : List (ℕ × Charge)) (g h : Governor) (t : Totals)
    → IsAt g t
    → charges cs g ≡ granted h
    → All (IsAdmitted g.limits) (calls_of cs)
      × (h.limits ≡ g.limits)
      × IsAt h (total_after (calls_of cs) t)
unfolding charges calls_of total_after
charges-granted [] g h t at e =
    subst (λ k. Unit × (k.limits ≡ g.limits) × IsAt k t) (granted_self g h e) (tt, refl, at)
charges-granted ((now, c) ∷ cs) g h t at e =
    let (m, first, rest) = going_on cs (charge now c g) h e in
    let (admitted, l, on) = charge-Granted now c g m first in
    let (later, l', at') = charges-granted cs m h (after c t) (on t at) rest in
    ((admitted, subst (λ k. All (IsAdmitted k) (calls_of cs)) l later), l' ∙ l, at')

-- What calls add to all work does not depend on what came before.
pub work-total_after :
    (cs : List Charge) (t : Totals)
    → (total_after cs t).work ≡ t.work + (total_after cs nothing).work
unfolding total_after
work-total_after [] t = omega arith
work-total_after (c ∷ cs) t =
    omega (
      arith,
      work-total_after cs (after c t),
      work-total_after cs (after c nothing),
      cost_alike c t,
    )
  where
    cost_alike : (c : Charge) (t : Totals) → (after c t).work ≡ t.work + (after c nothing).work
    cost_alike (one_row set_len) t = omega arith
    cost_alike one_hop t = omega arith
    cost_alike (whole_collection len) t = omega arith
    cost_alike (one_element current_len) t = omega arith
    cost_alike (one_scan candidates) t = omega arith
