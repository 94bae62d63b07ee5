-- ===== src/Cypher/Governor.antt =====
-- crates/acetone-cypher/src/exec/governor.rs: the budget of one query. The cells of the struct are
-- the fields of a record that every operation takes and gives back, whether it grants the charge or
-- not. `Instant::now()` is the argument `now`, one for each call.

pub mod Totals
pub mod Calls
pub mod Granted
pub mod Contract
mod Tests
use acetone.Prelude.{ℕ, ◌+◌, ◌-◌, ◌%◌, ◌^◌, min, List, [], ◌∷◌, Option, none, some}
use acetone.Prelude.{ltb, leb, if◌then◌else◌}

abbrev pub u64_max : ℕ
u64_max = 18_446_744_073_709_551_615

pub record QueryLimits : Type 0 where
  pub max_work_units : ℕ
  pub max_result_rows : ℕ
  pub max_expansion_steps : ℕ
  pub max_scanned_candidates : ℕ
  pub max_collection_len : ℕ
  pub wall_clock : Option ℕ

abbrev pub default_limits : QueryLimits
default_limits = record {
  max_work_units = 100_000_000;
  max_result_rows = 1_000_000;
  max_expansion_steps = 1_000_000;
  max_scanned_candidates = 20_000_000;
  max_collection_len = 10_000_000;
  wall_clock = none;
}

abbrev pub unbounded : QueryLimits
unbounded = record {
  max_work_units = u64_max;
  max_result_rows = u64_max;
  max_expansion_steps = u64_max;
  max_scanned_candidates = u64_max;
  max_collection_len = u64_max;
  wall_clock = none;
}

-- The builder methods.
abbrev pub with_max_work_units : QueryLimits → ℕ → QueryLimits
with_max_work_units l units = record l { max_work_units = units }

abbrev pub with_max_result_rows : QueryLimits → ℕ → QueryLimits
with_max_result_rows l rows = record l { max_result_rows = rows }

abbrev pub with_max_expansion_steps : QueryLimits → ℕ → QueryLimits
with_max_expansion_steps l steps = record l { max_expansion_steps = steps }

abbrev pub with_max_scanned_candidates : QueryLimits → ℕ → QueryLimits
with_max_scanned_candidates l candidates = record l { max_scanned_candidates = candidates }

abbrev pub with_max_collection_len : QueryLimits → ℕ → QueryLimits
with_max_collection_len l len = record l { max_collection_len = len }

abbrev pub with_wall_clock : QueryLimits → Option ℕ → QueryLimits
with_wall_clock l budget = record l { wall_clock = budget }

pub data ResourceLimit : Type 0 where
  work_units : ResourceLimit
  result_rows : ResourceLimit
  expansion_steps : ResourceLimit
  scanned_candidates : ResourceLimit
  collection_len : ResourceLimit
  wall_clock_passed : ResourceLimit
  value_depth : ResourceLimit

abbrev pub clock_poll_stride : ℕ
clock_poll_stride = 4096

pub record Governor : Type 0 where
  pub limits : QueryLimits
  pub work : ℕ
  pub expansion : ℕ
  pub scanned : ℕ
  pub deadline : Option ℕ
  pub work_at_last_poll : ℕ

-- `Result<(), ExecError>` with the cells as the call leaves them.
pub data Charged : Type 0 where
  granted : Governor → Charged
  exceeded : ResourceLimit → Governor → Charged

-- `Instant::checked_add`, where `latest` is the last instant that the platform can represent.
abbrev checked_add : ℕ → ℕ → ℕ → Option ℕ
checked_add latest now budget = if leb (now + budget) latest then some (now + budget) else none

unfoldable pub deadline_of : ℕ → ℕ → Option ℕ → Option ℕ
deadline_of latest now none = none
deadline_of latest now (some budget) = checked_add latest now budget

unfoldable pub new_governor : ℕ → ℕ → QueryLimits → Governor
unfolding deadline_of
new_governor latest now limits = record {
  limits = limits;
  work = 0;
  expansion = 0;
  scanned = 0;
  deadline = deadline_of latest now limits.wall_clock;
  work_at_last_poll = 0;
}

-- `u64::saturating_add` and `u64::wrapping_sub`
abbrev pub saturating_add : ℕ → ℕ → ℕ
saturating_add a b = min (a + b) u64_max

abbrev pub wrapping_sub : ℕ → ℕ → ℕ
wrapping_sub a b = (a + 2 ^ 64 - b) % 2 ^ 64

-- The poll of the wall clock at the end of `charge_work`.
unfoldable pub poll : ℕ → Option ℕ → Governor → Charged
poll now none g = granted g
poll now (some deadline) g =
    if leb clock_poll_stride (wrapping_sub g.work g.work_at_last_poll)
    then if leb deadline now
      then exceeded wall_clock_passed (record g { work_at_last_poll = g.work })
      else granted (record g { work_at_last_poll = g.work })
    else granted g

unfoldable pub charge_work : ℕ → ℕ → Governor → Charged
unfolding poll
charge_work now n g =
    let work = saturating_add g.work n in
    if ltb g.limits.max_work_units work
    then exceeded work_units (record g { work = work })
    else poll now g.deadline (record g { work = work })

unfoldable pub row : ℕ → ℕ → Governor → Charged
unfolding charge_work
row now set_len g =
    if leb g.limits.max_result_rows set_len then exceeded result_rows g else charge_work now 1 g

unfoldable pub hop : ℕ → Governor → Charged
unfolding charge_work
hop now g =
    let expansion = saturating_add g.expansion 1 in
    if ltb g.limits.max_expansion_steps expansion
    then exceeded expansion_steps (record g { expansion = expansion })
    else charge_work now 1 (record g { expansion = expansion })

unfoldable pub collection : ℕ → ℕ → Governor → Charged
unfolding charge_work
collection now len g =
    if ltb g.limits.max_collection_len len then exceeded collection_len g else charge_work now len g

unfoldable pub collection_push : ℕ → ℕ → Governor → Charged
unfolding charge_work
collection_push now current_len g =
    if leb g.limits.max_collection_len current_len
    then exceeded collection_len g
    else charge_work now 1 g

unfoldable pub scan : ℕ → ℕ → Governor → Charged
unfolding charge_work
scan now candidates g =
    let scanned = saturating_add g.scanned candidates in
    if ltb g.limits.max_scanned_candidates scanned
    then exceeded scanned_candidates (record g { scanned = scanned })
    else charge_work now candidates (record g { scanned = scanned })

-- A call of one of the five public operations, and what it does.
pub data Charge : Type 0 where
  one_row : ℕ → Charge
  one_hop : Charge
  whole_collection : ℕ → Charge
  one_element : ℕ → Charge
  one_scan : ℕ → Charge

unfoldable pub charge : ℕ → Charge → Governor → Charged
unfolding row hop collection collection_push scan
charge now (one_row set_len) g = row now set_len g
charge now one_hop g = hop now g
charge now (whole_collection len) g = collection now len g
charge now (one_element current_len) g = collection_push now current_len g
charge now (one_scan candidates) g = scan now candidates g

-- The calls of a query one after the other, each at its moment; the first refusal ends the query.
unfoldable pub charges : List (ℕ × Charge) → Governor → Charged
charges [] g = granted g
charges ((now, c) ∷ cs) g = elim (charge now c g) [
  | granted g' ↦ charges cs g'
  | exceeded limit g' ↦ exceeded limit g'
]
