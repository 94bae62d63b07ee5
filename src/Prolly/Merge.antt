-- ===== src/Prolly/Merge.antt =====
-- merge.rs: the three-way merge, from the streams of differences of both sides against the base.
pub mod Pairs
pub mod ThreeWay
use acetone.Prelude.{ℕ, Bool, true, false, not, if◌then◌else◌, List, [], ◌∷◌, Option, none, some}
use acetone.Prelude.{Ordering}
use acetone.Prelude.Bytes.{bytes_cmp}
use acetone.Prelude.Result.{Result, ok, err, out_of_fuel, ◌>>=◌}
use acetone.Prolly.Types.{
  Bytes, bytes_eq, ProllyError, corrupt, base_disagreement, Prolly, DiffEntry, BatchOp, put, delete,
  Conflict, Diff, ended, yields, failed, starved,
}

-- `Option<Bytes>: PartialEq`
abbrev pub option_eq : Option Bytes → Option Bytes → Bool
option_eq none none = true
option_eq none (some y) = false
option_eq (some x) none = false
option_eq (some x) (some y) = bytes_eq x y

unfoldable pub to_op : DiffEntry → BatchOp
to_op e = elim e.after [ some v ↦ put e.key v | none ↦ delete e.key ]

-- What the loop has pushed.
pub record Pushed : Type 0 where
  pub ops : List BatchOp
  pub conflicts : List Conflict

abbrev nothing_pushed : Pushed
nothing_pushed = record { ops = []; conflicts = [] }

abbrev push_op : BatchOp → Prolly Pushed → Prolly Pushed
push_op op later = later >>= λ p. ok (record { ops = op ∷ p.ops; conflicts = p.conflicts })

abbrev push_conflict : Conflict → Prolly Pushed → Prolly Pushed
push_conflict c later =
    later >>= λ p. ok (record { ops = delete c.key ∷ p.ops; conflicts = c ∷ p.conflicts })

abbrev pub conflict : DiffEntry → DiffEntry → Conflict
conflict oe te = record { key = oe.key; base = te.before; ours = oe.after; theirs = te.after }

-- The loop, over what the two diffs yield. A diff is asked for its next entry as soon as the one
-- before is taken, ours first, so an error that stands next is returned at once.
unfoldable pub merge_loop : Diff → Diff → Prolly Pushed
merge_loop (failed e) theirs = err e
merge_loop starved theirs = out_of_fuel
merge_loop ended (failed e) = err e
merge_loop ended starved = out_of_fuel
merge_loop (yields oe ours) (failed e) = err e
merge_loop (yields oe ours) starved = out_of_fuel
merge_loop ended ended = ok nothing_pushed
merge_loop (yields oe ours) ended = push_op (to_op oe) (merge_loop ours ended)
merge_loop ended (yields te theirs) = push_op (to_op te) (merge_loop ended theirs)
merge_loop (yields oe ours) (yields te theirs) = elim (bytes_cmp oe.key te.key) [
  | Ordering.lt ↦ push_op (to_op oe) (merge_loop ours (yields te theirs))
  | Ordering.gt ↦ push_op (to_op te) (merge_loop (yields oe ours) theirs)
  | Ordering.eq ↦
      let later = merge_loop ours theirs in
      if not (option_eq oe.before te.before)
      then err (corrupt base_disagreement)
      else if option_eq oe.after te.after
      then push_op (to_op oe) later
      else push_conflict (conflict oe te) later
]
