-- ===== src/Cypher/Governor/Totals.antt =====
-- The budget of governor.rs as an abstract account: totals without bound, and the caps that they
-- cross.
use acetone.Prelude.{ℕ, ◌+◌, ◌≡◌, refl, min, List, [], ◌∷◌, Option, none, some, arith}
use acetone.Prelude.{Bool, true, false, ◌&&◌, ltb, leb, if◌then◌else◌, by_test, subst}
use acetone.Cypher.Governor.{
  QueryLimits, ResourceLimit, Governor, Charged, granted, exceeded, Charge, one_row, one_hop,
  whole_collection, one_element, one_scan, charge, charges, charge_work, poll, row, hop, collection,
  collection_push, scan, u64_max, work_units, result_rows, expansion_steps, scanned_candidates,
  collection_len, saturating_add,
}

pub record Totals : Type 0 where
  pub work : ℕ
  pub hops : ℕ
  pub scanned : ℕ

abbrev pub nothing : Totals
nothing = record { work = 0; hops = 0; scanned = 0 }

-- What a call adds.
abbrev pub after : Charge → Totals → Totals
after (one_row set_len) t = record t { work = t.work + 1 }
after one_hop t = record t { work = t.work + 1; hops = t.hops + 1 }
after (whole_collection len) t = record t { work = t.work + len }
after (one_element current_len) t = record t { work = t.work + 1 }
after (one_scan candidates) t = record t {
  work = t.work + candidates;
  scanned = t.scanned + candidates;
}

-- A total is over its cap; the greatest `u64` is no cap at all.
abbrev pub is_over : ℕ → ℕ → Bool
is_over cap total = ltb cap total && ltb cap u64_max

-- The cap that a call runs into itself, apart from the one on all work.
abbrev own_excess : QueryLimits → Totals → Charge → Option ResourceLimit
own_excess l t (one_row set_len) = if leb l.max_result_rows set_len then some result_rows else none
own_excess l t one_hop = if is_over l.max_expansion_steps t.hops then some expansion_steps else none
own_excess l t (whole_collection len) =
    if ltb l.max_collection_len len then some collection_len else none
own_excess l t (one_element current_len) =
    if leb l.max_collection_len current_len then some collection_len else none
own_excess l t (one_scan candidates) =
    if is_over l.max_scanned_candidates t.scanned then some scanned_candidates else none

abbrev or_work : QueryLimits → Totals → Option ResourceLimit → Option ResourceLimit
or_work l t (some limit) = some limit
or_work l t none = if is_over l.max_work_units t.work then some work_units else none

-- The first cap that a sequence of calls crosses, in the order of the calls.
unfoldable pub first_excess : QueryLimits → Totals → List Charge → Option ResourceLimit
first_excess l t [] = none
first_excess l t (c ∷ cs) = elim (or_work l (after c t) (own_excess l (after c t) c)) [
  | none ↦ first_excess l (after c t) cs
  | some limit ↦ some limit
]

-- The counters are the totals, as far as a `u64` counts.
abbrev pub IsAt : Governor → Totals → Type 0
IsAt g t =
    (g.work ≡ min t.work u64_max)
    × (g.expansion ≡ min t.hops u64_max)
    × (g.scanned ≡ min t.scanned u64_max)

abbrev pub Agrees : QueryLimits → Totals → Option ResourceLimit → Charged → Type 0
Agrees l t expected (granted g) =
    (expected ≡ none) × IsAt g t × (g.limits ≡ l) × (g.deadline ≡ none)
Agrees l t expected (exceeded limit g) = expected ≡ some limit

over_saturated : (cap total : ℕ) → ltb cap (min total u64_max) ≡ is_over cap total
over_saturated cap total = ground arith

pub count_on : (total n : ℕ) → saturating_add (min total u64_max) n ≡ min (total + n) u64_max
count_on total n = ground arith

-- The charge on all work, behind a call's own counters.
charge_work-Agrees :
    (now n : ℕ) (g : Governor) (t : Totals)
    → IsAt g t
    → g.deadline ≡ none
    → Agrees g.limits
        (record t { work = t.work + n })
        (or_work g.limits (record t { work = t.work + n }) none)
        (charge_work now n g)
unfolding charge_work poll
charge_work-Agrees now n g t (w, e, s) d =
    rw (w, count_on, over_saturated)
      (by_test (is_over g.limits.max_work_units (t.work + n)) (λ over. rw over refl)
        (λ under. rw (under, d) (refl, (refl, e, s), refl, refl)))

gated :
    (over : Bool) (limit : ResourceLimit) (now n : ℕ) (g : Governor) (t : Totals)
    → IsAt g t
    → g.deadline ≡ none
    → Agrees g.limits
        (record t { work = t.work + n })
        (or_work g.limits (record t { work = t.work + n }) (if over then some limit else none))
        (if over then exceeded limit g else charge_work now n g)
gated true limit now n g t at d = refl
gated false limit now n g t at d = charge_work-Agrees now n g t at d

-- Each of the five calls is refused exactly for the cap that the totals cross.
pub charge-Agrees :
    (now : ℕ) (c : Charge) (g : Governor) (t : Totals)
    → IsAt g t
    → g.deadline ≡ none
    → Agrees g.limits
        (after c t)
        (or_work g.limits (after c t) (own_excess g.limits (after c t) c))
        (charge now c g)
unfolding charge row hop collection collection_push scan
charge-Agrees now (one_row set_len) g t at d =
    gated (leb g.limits.max_result_rows set_len) result_rows now 1 g t at d
charge-Agrees now one_hop g t (w, e, s) d =
    rw (e, count_on, over_saturated)
      (gated (is_over g.limits.max_expansion_steps (t.hops + 1)) expansion_steps now 1
        (record g { expansion = min (t.hops + 1) u64_max }) (record t { hops = t.hops + 1 })
        (w, refl, s) d)
charge-Agrees now (whole_collection len) g t at d =
    gated (ltb g.limits.max_collection_len len) collection_len now len g t at d
charge-Agrees now (one_element current_len) g t at d =
    gated (leb g.limits.max_collection_len current_len) collection_len now 1 g t at d
charge-Agrees now (one_scan candidates) g t (w, e, s) d =
    rw (s, count_on, over_saturated)
      (gated (is_over g.limits.max_scanned_candidates (t.scanned + candidates)) scanned_candidates
        now candidates (record g { scanned = min (t.scanned + candidates) u64_max })
        (record t { scanned = t.scanned + candidates }) (w, e, refl) d)

unfoldable pub calls_of : List (ℕ × Charge) → List Charge
calls_of [] = []
calls_of ((now, c) ∷ cs) = c ∷ calls_of cs

unfoldable pub total_after : List Charge → Totals → Totals
total_after [] t = t
total_after (c ∷ cs) t = total_after cs (after c t)

next_call :
    (cs : List (ℕ × Charge)) (expected : Option ResourceLimit) (l : QueryLimits) (t : Totals)
    (done : Charged)
    → ((g : Governor)
        → IsAt g t
        → g.limits ≡ l
        → g.deadline ≡ none
        → Agrees l (total_after (calls_of cs) t) (first_excess l t (calls_of cs)) (charges cs g))
    → Agrees l t expected done
    → Agrees l
        (total_after (calls_of cs) t)
        (elim expected [ none ↦ first_excess l t (calls_of cs) | some limit ↦ some limit ])
        (elim done [ granted g ↦ charges cs g | exceeded limit g ↦ exceeded limit g ])
next_call cs expected l t (granted g) rest (e, at, same, d) = rw e (rest g at same d)
next_call cs expected l t (exceeded limit g) rest e = rw e refl

-- A query is refused at the call, and for the cap, that the totals say.
pub charges-Agrees :
    (cs : List (ℕ × Charge)) (l : QueryLimits) (g : Governor) (t : Totals)
    → IsAt g t
    → g.limits ≡ l
    → g.deadline ≡ none
    → Agrees l (total_after (calls_of cs) t) (first_excess l t (calls_of cs)) (charges cs g)
unfolding charges first_excess calls_of total_after
charges-Agrees [] l g t at same d = (refl, at, same, d)
charges-Agrees ((now, c) ∷ cs) l g t at same d =
    next_call cs (or_work l (after c t) (own_excess l (after c t) c)) l (after c t) (charge now c g)
      (λ g'. λ at'. λ same'. λ d'. charges-Agrees cs l g' (after c t) at' same' d')
      (subst
        (λ m.
          Agrees m (after c t) (or_work m (after c t) (own_excess m (after c t) c))
            (charge now c g))
        same (charge-Agrees now c g t at d))
