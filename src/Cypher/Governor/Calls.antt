-- ===== src/Cypher/Governor/Calls.antt =====
-- Calls on the budget of governor.rs as steps: the states that are reached, and what holds in them.
use acetone.Prelude.{ℕ, ◌+◌, ◌-◌, ◌≤◌, ◌<◌, ◌≡◌, ◌≢◌, refl, ◌∙◌, subst, Option, none, some, arith}
use acetone.Prelude.{Bool, true, false, ltb, leb, if◌then◌else◌, by_test, ltb→lt, ltb→ge, leb→gt}
use acetone.Cypher.Governor.{
  ResourceLimit, Governor, Charged, granted, exceeded, Charge, one_row, one_hop, whole_collection,
  one_element, one_scan, charge, charge_work, poll, row, hop, collection, collection_push, scan,
  u64_max, work_units, result_rows, expansion_steps, scanned_candidates, collection_len,
  saturating_add, wrapping_sub, clock_poll_stride,
}

-- The counters are of type `u64`, and the last poll lies in the past.
abbrev pub IsGovernor : Governor → Type 0
IsGovernor g =
    (g.work ≤ u64_max)
    × (g.expansion ≤ u64_max)
    × (g.scanned ≤ u64_max)
    × (g.work_at_last_poll ≤ g.work)

abbrev pub IsPolled : Option ℕ → ℕ → ℕ → Type 0
IsPolled none work polled = Unit
IsPolled (some deadline) work polled = work < polled + clock_poll_stride

-- No counter is over its cap, and where there is a deadline the clock was read lately.
abbrev pub IsWithin : Governor → Type 0
IsWithin g =
    (g.work ≤ g.limits.max_work_units)
    × (g.expansion ≤ g.limits.max_expansion_steps)
    × (g.scanned ≤ g.limits.max_scanned_candidates)
    × IsPolled g.deadline g.work g.work_at_last_poll

-- What a call leaves alone before it charges work.
abbrev Keeps : Governor → Governor → Type 0
Keeps g h =
    (h.limits ≡ g.limits)
    × (h.work ≡ g.work)
    × (h.deadline ≡ g.deadline)
    × (h.work_at_last_poll ≡ g.work_at_last_poll)

abbrev Counts : Governor → Type 0
Counts g = (g.expansion ≤ u64_max) × (g.scanned ≤ u64_max)

abbrev Caps : Governor → Type 0
Caps g =
    (g.expansion ≤ g.limits.max_expansion_steps) × (g.scanned ≤ g.limits.max_scanned_candidates)

-- A call is refused for a cap of its own, or charges work.
data Form (now : ℕ) (c : Charge) (g : Governor) : Type 0 where
  refused :
      (limit : ResourceLimit) (h : Governor)
      → Keeps g h
      → (Counts g → Counts h)
      → limit ≢ work_units
      → charge now c g ≡ exceeded limit h
      → Form now c g
  charged :
      (n : ℕ) (h : Governor)
      → Keeps g h
      → (Counts g → Counts h)
      → (Caps g → Caps h)
      → charge now c g ≡ charge_work now n h
      → Form now c g

form :
    (now : ℕ) (c : Charge) (g h : Governor) (over : Bool) (limit : ResourceLimit) (n : ℕ)
    → limit ≢ work_units
    → Keeps g h
    → (Counts g → Counts h)
    → ((over ≡ false) → Caps g → Caps h)
    → charge now c g ≡ (if over then exceeded limit h else charge_work now n h)
    → Form now c g
form now c g h true limit n own same counts caps e = refused limit h same counts own e
form now c g h false limit n own same counts caps e = charged n h same counts (caps refl) e

charge-Form : (now : ℕ) (c : Charge) (g : Governor) → Form now c g
unfolding charge row hop collection collection_push scan
charge-Form now (one_row set_len) g =
    form now (one_row set_len) g g (leb g.limits.max_result_rows set_len) result_rows 1 (λ e. cc)
      (refl, refl, refl, refl) (λ k. k) (λ _. λ k. k) refl
charge-Form now one_hop g =
    form now one_hop g (record g { expansion = saturating_add g.expansion 1 })
      (ltb g.limits.max_expansion_steps (saturating_add g.expansion 1)) expansion_steps 1 (λ e. cc)
      (refl, refl, refl, refl) (λ k. (omega arith, k.1)) (λ u. λ k. (ltb→ge _ _ u, k.1)) refl
charge-Form now (whole_collection len) g =
    form now (whole_collection len) g g (ltb g.limits.max_collection_len len) collection_len len
      (λ e. cc) (refl, refl, refl, refl) (λ k. k) (λ _. λ k. k) refl
charge-Form now (one_element len) g =
    form now (one_element len) g g (leb g.limits.max_collection_len len) collection_len 1 (λ e. cc)
      (refl, refl, refl, refl) (λ k. k) (λ _. λ k. k) refl
charge-Form now (one_scan candidates) g =
    form now (one_scan candidates) g (record g { scanned = saturating_add g.scanned candidates })
      (ltb g.limits.max_scanned_candidates (saturating_add g.scanned candidates)) scanned_candidates
      candidates (λ e. cc) (refl, refl, refl, refl) (λ k. (k.0, omega arith))
      (λ u. λ k. (k.0, ltb→ge _ _ u)) refl

-- What charging work does to the state, on either outcome.
abbrev pub IsLate : ℕ → Option ℕ → ℕ → ℕ → Type 0
IsLate now none polled polled' = Unit
IsLate now (some deadline) polled polled' = deadline ≤ now → polled' ≡ polled

abbrev pub Spent : Governor → Governor → Type 0
Spent g h =
    (h.limits ≡ g.limits)
    × (h.deadline ≡ g.deadline)
    × (g.work ≤ h.work)
    × (h.work ≤ u64_max)
    × (h.work_at_last_poll ≤ h.work)

abbrev Kept : Governor → Governor → Type 0
Kept g h = (h.expansion ≡ g.expansion) × (h.scanned ≡ g.scanned)

abbrev After : ℕ → Governor → Charged → Type 0
After now g (granted h) =
    Spent g h
    × Kept g h
    × (h.work ≤ g.limits.max_work_units)
    × IsPolled g.deadline h.work h.work_at_last_poll
    × IsLate now g.deadline g.work_at_last_poll h.work_at_last_poll
After now g (exceeded limit h) =
    Spent g h × Kept g h × (limit ≡ work_units → g.limits.max_work_units < h.work)

no_wrap : (a b : ℕ) → b ≤ a → a ≤ u64_max → wrapping_sub a b ≡ a - b
no_wrap a b le top = omega arith

poll-After :
    (now work : ℕ) (deadline : Option ℕ) (g : Governor)
    → g.deadline ≡ deadline
    → g.work ≤ work
    → work ≤ u64_max
    → work ≤ g.limits.max_work_units
    → g.work_at_last_poll ≤ g.work
    → After now g (poll now deadline (record g { work = work }))
unfolding poll
poll-After now work none g d up top most last =
    rw d ((refl, refl, up, top, omega arith), (refl, refl), most, tt, tt)
poll-After now work (some t) g d up top most last =
    rw (d, no_wrap work g.work_at_last_poll (omega arith) top)
      (by_test (leb clock_poll_stride (work - g.work_at_last_poll))
        (λ due. rw due (
          by_test (leb t now)
            (λ late. rw late ((refl, refl, up, top, omega arith), (refl, refl), λ e. cc))
            (λ early. rw early (
              (refl, refl, up, top, omega arith),
              (refl, refl),
              most,
              omega arith,
              λ le. absurd (omega (arith, leb→gt _ _ early)),
            ))))
        (λ soon. rw soon (
          (refl, refl, up, top, omega arith),
          (refl, refl),
          most,
          omega (arith, leb→gt _ _ soon),
          λ _. refl,
        )))

charge_work-After :
    (now n : ℕ) (g : Governor)
    → g.work ≤ u64_max
    → g.work_at_last_poll ≤ g.work
    → After now g (charge_work now n g)
unfolding charge_work
charge_work-After now n g top last =
    by_test (ltb g.limits.max_work_units (saturating_add g.work n))
      (λ over.
        rw over
          ((refl, refl, omega arith, omega arith, omega arith), (refl, refl), λ _. ltb→lt _ _ over))
      (λ under. rw under (
        poll-After now (saturating_add g.work n) g.deadline g refl (omega arith) (omega arith)
          (ltb→ge _ _ under) last))

-- The outcome of a call.
abbrev pub Outcome : ℕ → Governor → Charged → Type 0
Outcome now g (granted h) =
    IsGovernor h
    × Spent g h
    × (h.work ≤ g.limits.max_work_units)
    × (Caps g → IsWithin h)
    × IsLate now g.deadline g.work_at_last_poll h.work_at_last_poll
Outcome now g (exceeded limit h) =
    IsGovernor h × Spent g h × (limit ≡ work_units → g.limits.max_work_units < h.work)

charged-Outcome :
    (now : ℕ) (g m : Governor) (done : Charged)
    → Keeps g m
    → Counts m
    → (Caps g → Caps m)
    → After now m done
    → Outcome now g done
charged-Outcome now g m (granted h) (l, w, d, p) (ce, cs) caps
      ((sl, sd, up, top, last), (ke, ks), most, near, late) =
    (
      (top, omega arith, omega arith, last),
      (sl ∙ l, sd ∙ d, omega arith, top, last),
      subst (λ t. h.work ≤ t.max_work_units) l most,
      λ k. rw (sl, ke, ks, sd) (most, (caps k).0, (caps k).1, near),
      subst (λ t. IsLate now t g.work_at_last_poll h.work_at_last_poll) d
          (subst (λ t. IsLate now m.deadline t h.work_at_last_poll) p late),
    )
charged-Outcome now g m (exceeded limit h) (l, w, d, p) (ce, cs) caps
      ((sl, sd, up, top, last), (ke, ks), over) =
    (
      (top, omega arith, omega arith, last),
      (sl ∙ l, sd ∙ d, omega arith, top, last),
      λ e. subst (λ t. t.max_work_units < h.work) l (over e),
    )

pub charge-Outcome :
    (now : ℕ) (c : Charge) (g : Governor) → IsGovernor g → Outcome now g (charge now c g)
charge-Outcome now c g (top, ce, cs, last) = elim (charge-Form now c g) [
  | refused limit h (l, w, d, p) counts own e ↦ rw e (
    (omega arith, (counts (ce, cs)).0, (counts (ce, cs)).1, omega arith),
    (l, d, omega arith, omega arith, omega arith),
    λ same. absurd (own same),
  )
  | charged n h (l, w, d, p) counts caps e ↦ rw e (
      charged-Outcome now g h (charge_work now n h) (l, w, d, p) (counts (ce, cs)) caps
        (charge_work-After now n h (omega arith) (omega arith)))
]
