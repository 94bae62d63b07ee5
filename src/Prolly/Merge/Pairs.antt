-- ===== src/Prolly/Merge/Pairs.antt =====
-- What the merge loop pushes, key by key.
use acetone.Prelude.{by_test, by_order}
use acetone.Prelude.{◌≡◌, refl, true, if◌then◌else◌, List, [], ◌∷◌, Option, none, some, All}
use acetone.Prelude.Bytes.{bytes_cmp, eq_of_bytes_cmp}
use acetone.Prelude.Result.{ok}
use acetone.Prolly.Types.{Bytes, DiffEntry, BatchOp, put, delete, Conflict}
use acetone.Prolly.Ordered.{bytes_eq_self}
use acetone.Prolly.Ordered.PairUp.{Pair, pair_up}
use acetone.Prolly.Ordered.FilterMap.{filter_map}
use acetone.Prolly.Diff.Changes.{diff_key, of_list}
use acetone.Prolly.Merge.{option_eq, to_op, Pushed, merge_loop}

-- The operation that brings a key to a value.
abbrev pub op_at : Bytes → Option Bytes → BatchOp
op_at k none = delete k
op_at k (some v) = put k v

-- The operation for a key that one side changed, or both.
abbrev pub op_for : Bytes → Option DiffEntry → Option DiffEntry → Option BatchOp
op_for k none none = none
op_for k (some o) none = some (op_at k o.after)
op_for k none (some t) = some (op_at k t.after)
op_for k (some o) (some t) = some (if option_eq o.after t.after then op_at k o.after else delete k)

-- The conflict over a key, if both sides changed it and not to the same.
abbrev pub conflict_for : Bytes → Option DiffEntry → Option DiffEntry → Option Conflict
conflict_for k none t = none
conflict_for k (some o) none = none
conflict_for k (some o) (some t) =
    if option_eq o.after t.after
    then none
    else some (record { key = k; base = t.before; ours = o.after; theirs = t.after })

abbrev pub op_of : Pair DiffEntry DiffEntry → Option BatchOp
op_of p = op_for p.key p.left p.right

abbrev pub conflict_of : Pair DiffEntry DiffEntry → Option Conflict
conflict_of p = conflict_for p.key p.left p.right

abbrev pub conflict_key : Conflict → Bytes
conflict_key c = c.key

unfoldable pub pushed : List DiffEntry → List DiffEntry → Pushed
unfolding pair_up filter_map
pushed ours theirs =
    let pairs = pair_up diff_key diff_key ours theirs in
    record { ops = filter_map op_of pairs; conflicts = filter_map conflict_of pairs }

pub option_eq_self : (x : Option Bytes) → option_eq x x ≡ true
option_eq_self none = refl
option_eq_self (some v) = bytes_eq_self v

-- Diffs against the same base agree on what it has.
abbrev pub Against : (Bytes → Option Bytes) → List DiffEntry → Type 0
Against base d = All (λ e. e.before ≡ base e.key) d

agree :
    (base : Bytes → Option Bytes) (o t : DiffEntry)
    → o.before ≡ base o.key
    → t.before ≡ base t.key
    → o.key ≡ t.key
    → option_eq o.before t.before ≡ true
agree base o t ho ht h = rw (ho, ht, h) (option_eq_self (base t.key))

pub merge_loop-pushed :
    (base : Bytes → Option Bytes) (ours theirs : List DiffEntry)
    → Against base ours
    → Against base theirs
    → merge_loop (of_list ours) (of_list theirs) ≡ ok (pushed ours theirs)
unfolding merge_loop pushed filter_map to_op
merge_loop-pushed base [] [] p q = unfold pair_up in refl
merge_loop-pushed base (o ∷ ours) [] (p, ps) q =
    rw (merge_loop-pushed base ours [] ps q) (unfold pair_up in refl)
merge_loop-pushed base [] (t ∷ theirs) p (q, qs) =
    rw (merge_loop-pushed base [] theirs p qs) (unfold pair_up in refl)
merge_loop-pushed base (o ∷ ours) (t ∷ theirs) (p, ps) (q, qs) =
    by_order (bytes_cmp o.key t.key)
      (λ h.
        rw (merge_loop, pair_up, h) (rw (merge_loop-pushed base ours (t ∷ theirs) ps (q, qs)) refl))
      (λ h.
        let same_base : option_eq o.before t.before ≡ true =
          agree base o t p q (eq_of_bytes_cmp o.key t.key h) in
        rw (merge_loop, pair_up, h)
          (rw (same_base, merge_loop-pushed base ours theirs ps qs)
            (by_test (option_eq o.after t.after) (λ e. rw e refl) (λ e. rw e refl))))
      (λ h.
        rw (merge_loop, pair_up, h) (rw (merge_loop-pushed base (o ∷ ours) theirs (p, ps) qs) refl))
