-- ===== src/Cypher/Governor/Tests.antt =====
-- Runs of the budget of governor.rs on small limits.
use acetone.Prelude.{ℕ, ◌<◌, ◌≡◌, ◌≢◌, refl, none, some, arith, List, [], ◌∷◌, All}
use acetone.Cypher.Governor.{
  QueryLimits, Governor, granted, exceeded, Charge, charge, charges, new_governor, deadline_of,
  work_units, clock_poll_stride, with_max_work_units, unbounded, one_row, one_hop, whole_collection,
  row, hop, collection, collection_push, scan, charge_work, poll, one_element, one_scan,
  default_limits, u64_max, with_wall_clock,
}
use acetone.Cypher.Governor.Totals.{nothing, calls_of, total_after, first_excess, Agrees, IsAt}
use acetone.Cypher.Governor.Granted.{IsAdmitted}
use acetone.Cypher.Governor.Calls.{IsGovernor, IsWithin}
use acetone.Cypher.Governor.Contract.{
  charges-first_excess, here, next, grant, deny, Reach-new_governor, exceeded_stays,
  charges-IsWithin, charges_late,
}

-- As in the test `work_cap_is_the_odometer_over_every_charge`.
abbrev five_units : QueryLimits
five_units = with_max_work_units unbounded 5

abbrev five_calls : List (ℕ × Charge)
five_calls = (0, one_row 0) ∷ (0, one_hop) ∷ (0, whole_collection 2) ∷ (0, one_row 0) ∷ []

abbrev start : Governor
start = new_governor 100 0 five_units

abbrev spent : Governor
spent = record {
  limits = five_units;
  work = 5;
  expansion = 1;
  scanned = 0;
  deadline = none;
  work_at_last_poll = 0;
}

abbrev refused : Governor
refused = record spent { work = 6; expansion = 2 }

five_calls_granted : charges five_calls start ≡ granted spent
unfolding charges charge row hop collection charge_work poll new_governor deadline_of
five_calls_granted = refl

hop_refused : charge 0 one_hop spent ≡ exceeded work_units refused
unfolding charge hop charge_work
hop_refused = refl

row_refused : charge 0 (one_row 0) refused ≡ exceeded work_units (record refused { work = 7 })
unfolding charge row charge_work
row_refused = refl

charges-first_excess_example :
    Agrees five_units
      (total_after (calls_of five_calls) nothing)
      (first_excess five_units nothing (calls_of five_calls))
      (charges five_calls (new_governor 100 0 five_units))
charges-first_excess_example = charges-first_excess 100 0 five_units five_calls refl

first_row : charge 0 (one_row 0) start ≡ granted (record start { work = 1 })
unfolding charge row charge_work poll new_governor deadline_of
first_row = refl

Reach-new_governor_example :
    IsGovernor (record start { work = 1 })
    × ((record start { work = 1 }).limits ≡ five_units)
    × ((record start { work = 1 }).deadline ≡ deadline_of 100 0 none)
Reach-new_governor_example =
    Reach-new_governor 100 0 five_units (next here (grant 0 (one_row 0) first_row))

exceeded_stays_example : charge 0 (one_row 0) (record refused { work = 7 }) ≢ granted spent
exceeded_stays_example =
    exceeded_stays 0 0 one_hop (one_row 0) spent
      (omega arith, omega arith, omega arith, omega arith) hop_refused
      (next here (deny 0 (one_row 0) work_units row_refused))

-- One call of each kind, with every cap set and a deadline.
abbrev tight : QueryLimits
tight = record {
  max_work_units = 10;
  max_result_rows = 2;
  max_expansion_steps = 1;
  max_scanned_candidates = 4;
  max_collection_len = 3;
  wall_clock = some 50;
}

abbrev all_kinds : List (ℕ × Charge)
all_kinds =
    (1, one_row 1)
    ∷ (2, one_hop)
    ∷ (3, whole_collection 3)
    ∷ (4, one_element 2)
    ∷ (5, one_scan 4)
    ∷ []

abbrev used_up : Governor
used_up = record {
  limits = tight;
  work = 10;
  expansion = 1;
  scanned = 4;
  deadline = some 50;
  work_at_last_poll = 0;
}

all_kinds_granted : charges all_kinds (new_governor 100 0 tight) ≡ granted used_up
unfolding charges charge row hop collection collection_push scan charge_work poll new_governor
    deadline_of
all_kinds_granted = refl

charges-IsWithin_example :
    IsWithin used_up
    × (used_up.limits ≡ tight)
    × (used_up.deadline ≡ deadline_of 100 0 (some 50))
    × All (IsAdmitted tight) (calls_of all_kinds)
    × IsAt used_up (total_after (calls_of all_kinds) nothing)
charges-IsWithin_example = charges-IsWithin 100 0 tight all_kinds used_up all_kinds_granted

abbrev late : Governor
late = record {
  limits = default_limits;
  work = 7;
  expansion = 0;
  scanned = 0;
  deadline = some 3;
  work_at_last_poll = 0;
}

abbrev late_call : List (ℕ × Charge)
late_call = (3, whole_collection 4_000) ∷ []

late_collection : charges late_call late ≡ granted (record late { work = 4_007 })
unfolding charges charge collection charge_work poll
late_collection = refl

charges_late_example : (total_after (calls_of late_call) nothing).work < clock_poll_stride
charges_late_example =
    charges_late late_call 3 late (record late { work = 4_007 })
      (omega arith, omega arith, omega arith, omega arith)
      (omega arith, omega arith, omega arith, omega arith) (omega arith) refl (omega arith, tt)
      late_collection

-- Without a cap on work the odometer can stand still at its greatest value, and then the clock is not
-- read again: the second collection is granted behind the deadline.
abbrev patient : QueryLimits
patient = with_wall_clock unbounded (some 3)

abbrev stuck : Governor
stuck = record {
  limits = patient;
  work = u64_max;
  expansion = 0;
  scanned = 0;
  deadline = some 3;
  work_at_last_poll = u64_max;
}

stuck_granted :
    charges
      ((0, whole_collection u64_max) ∷ (9, whole_collection u64_max) ∷ [])
      (new_governor 100 0 patient)
    ≡ granted stuck
unfolding charges charge collection charge_work poll new_governor deadline_of
stuck_granted = refl
