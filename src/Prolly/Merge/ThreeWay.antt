-- ===== src/Prolly/Merge/ThreeWay.antt =====
-- The three-way rule at one key, and that the merge loop follows it at every key.
use acetone.Prelude.{by_test}
use acetone.Prelude.{◌≡◌, refl, sym, ap, ◌∙◌, true, if◌then◌else◌, List, Option, none, some}
use acetone.Prelude.Bytes.{bytes_cmp-swap}
use acetone.Prelude.{swap, Ordering}
use acetone.Prolly.Types.{Bytes, bytes_eq, is_eq, Entry, DiffEntry, BatchOp, op_key, Conflict}
use acetone.Prolly.Ordered.{IsAscending, find, eq_of_bytes_eq}
use acetone.Prolly.Ordered.PairUp.{pair_key, pair_up, pair_up-IsAscending}
use acetone.Prolly.Ordered.Lookup.{paired, find-pair_up}
use acetone.Prolly.Ordered.FilterMap.{made, KeepsKeys, find-filter_map, filter_map-IsAscending}
use acetone.Prolly.Diff.Changes.{
  entry_key, diff_key, value_at, change_at, changes, find-changes, changes-IsAscending,
}
use acetone.Prolly.Batch.{merge_ops}
use acetone.Prolly.Batch.Written.{written, value_at-merge_ops}
use acetone.Prolly.Merge.{option_eq}
use acetone.Prolly.Merge.Pairs.{
  op_at, op_for, conflict_for, op_of, conflict_of, conflict_key, pushed,
}

-- The merged value: a change on one side only is taken, an identical change on both sides is taken
-- once, and a key changed differently on both sides is absent.
abbrev pub merged : Option Bytes → Option Bytes → Option Bytes → Option Bytes
merged base ours theirs =
    if option_eq ours base
    then theirs
    else if option_eq theirs base
    then ours
    else if option_eq ours theirs
    then ours
    else none

-- The conflict at a key: both sides changed it, and differently.
abbrev pub conflict_at : Bytes → Option Bytes → Option Bytes → Option Bytes → Option Conflict
conflict_at k base ours theirs =
    if option_eq ours base
    then none
    else if option_eq theirs base
    then none
    else if option_eq ours theirs
    then none
    else some (record { key = k; base = base; ours = ours; theirs = theirs })

eq_of_option_eq : (x y : Option Bytes) → option_eq x y ≡ true → x ≡ y
eq_of_option_eq none none h = refl
eq_of_option_eq none (some w) h = cc
eq_of_option_eq (some v) none h = cc
eq_of_option_eq (some v) (some w) h = ap some (eq_of_bytes_eq v w h)

is_eq-swap : (o : Ordering) → is_eq (swap o) ≡ is_eq o
is_eq-swap Ordering.lt = refl
is_eq-swap Ordering.eq = refl
is_eq-swap Ordering.gt = refl

option_eq-swap : (x y : Option Bytes) → option_eq y x ≡ option_eq x y
option_eq-swap none none = refl
option_eq-swap none (some w) = refl
option_eq-swap (some v) none = refl
option_eq-swap (some v) (some w) = ap is_eq (bytes_cmp-swap v w) ∙ is_eq-swap _

-- A difference stands where the values differ.
change_at-option_eq :
    (k : Bytes) (x y : Option Bytes)
    → change_at k x y
      ≡ (if option_eq y x then none else some (record { key = k; before = x; after = y }))
change_at-option_eq k none none = refl
change_at-option_eq k (some v) none = refl
change_at-option_eq k none (some w) = refl
change_at-option_eq k (some v) (some w) =
    rw (option_eq-swap (some v) (some w)) (by_test (bytes_eq v w) (λ e. rw e refl) (λ e. rw e refl))

written-op_at : (k : Bytes) (v w : Option Bytes) → written v (some (op_at k w)) ≡ w
written-op_at k v none = refl
written-op_at k v (some w) = refl

op_for-merged :
    (k : Bytes) (b o t : Option Bytes)
    → written b (op_for k (change_at k b o) (change_at k b t)) ≡ merged b o t
op_for-merged k b o t =
    rw (change_at-option_eq k b o, change_at-option_eq k b t)
      (by_test (option_eq o b)
        (λ ours.
          by_test (option_eq t b) (λ theirs. rw (ours, theirs) (sym (eq_of_option_eq t b theirs)))
            (λ theirs. rw (ours, theirs) (written-op_at k b t)))
        (λ ours.
          by_test (option_eq t b) (λ theirs. rw (ours, theirs) (written-op_at k b o))
            (λ theirs.
              by_test (option_eq o t) (λ same. rw (ours, theirs, same) (written-op_at k b o))
                (λ differ. rw (ours, theirs, differ) refl))))

conflict_for-conflict_at :
    (k : Bytes) (b o t : Option Bytes)
    → conflict_for k (change_at k b o) (change_at k b t) ≡ conflict_at k b o t
conflict_for-conflict_at k b o t =
    rw (change_at-option_eq k b o, change_at-option_eq k b t)
      (by_test (option_eq o b) (λ ours. rw ours refl)
        (λ ours.
          by_test (option_eq t b) (λ theirs. rw (ours, theirs) refl)
            (λ theirs. rw (ours, theirs) refl)))

op_at-key : (k : Bytes) (v : Option Bytes) → op_key (op_at k v) ≡ k
op_at-key k none = refl
op_at-key k (some v) = refl

op_for-key :
    (k : Bytes) (o t : Option DiffEntry) (op : BatchOp) → op_for k o t ≡ some op → op_key op ≡ k
op_for-key k none none op h = cc
op_for-key k (some o) none op h = cc (op_at-key k o.after)
op_for-key k none (some t) op h = cc (op_at-key k t.after)
op_for-key k (some o) (some t) op h =
    by_test (option_eq o.after t.after) (λ e. cc (rw e at h, op_at-key k o.after))
      (λ e. cc (rw e at h, op_at-key k none))

op_of-KeepsKeys : KeepsKeys pair_key op_key op_of
op_of-KeepsKeys p op h = op_for-key p.key p.left p.right op h

conflict_for-key :
    (k : Bytes) (o t : Option DiffEntry) (c : Conflict) → conflict_for k o t ≡ some c → c.key ≡ k
conflict_for-key k none t c h = cc
conflict_for-key k (some o) none c h = cc
conflict_for-key k (some o) (some t) c h =
    by_test (option_eq o.after t.after) (λ e. cc (rw e at h)) (λ e. cc (rw e at h))

conflict_of-KeepsKeys : KeepsKeys pair_key conflict_key conflict_of
conflict_of-KeepsKeys p c h = conflict_for-key p.key p.left p.right c h

op_for-paired : (k : Bytes) (o t : Option DiffEntry) → made op_of (paired k o t) ≡ op_for k o t
op_for-paired k none none = refl
op_for-paired k (some o) t = refl
op_for-paired k none (some t) = refl

conflict_for-paired :
    (k : Bytes) (o t : Option DiffEntry) → made conflict_of (paired k o t) ≡ conflict_for k o t
conflict_for-paired k none none = refl
conflict_for-paired k (some o) t = refl
conflict_for-paired k none (some t) = refl

-- The three-way rule at every key, for the operations and the conflicts of two diffs against one base.
module _ (b o t : List Entry) (pb : IsAscending entry_key b) (po : IsAscending entry_key o)
    (pt : IsAscending entry_key t) where
  abbrev ours : List DiffEntry
  ours = changes b o

  abbrev theirs : List DiffEntry
  theirs = changes b t

  pairs-IsAscending : IsAscending pair_key (pair_up diff_key diff_key ours theirs)
  pairs-IsAscending =
      pair_up-IsAscending diff_key diff_key ours theirs (changes-IsAscending b o pb po)
        (changes-IsAscending b t pb pt)

  pub ops-IsAscending : IsAscending op_key (pushed ours theirs).ops
  unfolding pushed
  ops-IsAscending = filter_map-IsAscending pair_key op_key op_of _ op_of-KeepsKeys pairs-IsAscending

  pub conflicts-IsAscending : IsAscending conflict_key (pushed ours theirs).conflicts
  unfolding pushed
  conflicts-IsAscending =
      filter_map-IsAscending pair_key conflict_key conflict_of _ conflict_of-KeepsKeys
        pairs-IsAscending

  found_pair :
      (k : Bytes)
      → find pair_key k (pair_up diff_key diff_key ours theirs)
        ≡ paired k
            (change_at k (value_at k b) (value_at k o))
            (change_at k (value_at k b) (value_at k t))
  found_pair k =
      find-pair_up diff_key diff_key k ours theirs (changes-IsAscending b o pb po)
        (changes-IsAscending b t pb pt)
      ∙ rw (find-changes k b o pb po, find-changes k b t pb pt) refl

  pub merged_values :
      (k : Bytes)
      → value_at k (merge_ops b (pushed ours theirs).ops)
        ≡ merged (value_at k b) (value_at k o) (value_at k t)
  unfolding pushed
  merged_values k =
      value_at-merge_ops k b (pushed ours theirs).ops pb ops-IsAscending
      ∙ (ap (λ f. written (value_at k b) f)
            (find-filter_map pair_key op_key op_of k _ op_of-KeepsKeys pairs-IsAscending
              ∙ (ap (made op_of) (found_pair k) ∙ op_for-paired k _ _))
          ∙ op_for-merged k (value_at k b) (value_at k o) (value_at k t))

  pub found_conflicts :
      (k : Bytes)
      → find conflict_key k (pushed ours theirs).conflicts
        ≡ conflict_at k (value_at k b) (value_at k o) (value_at k t)
  unfolding pushed
  found_conflicts k =
      find-filter_map pair_key conflict_key conflict_of k _ conflict_of-KeepsKeys pairs-IsAscending
      ∙ (ap (made conflict_of) (found_pair k)
          ∙ (conflict_for-paired k _ _
              ∙ conflict_for-conflict_at k (value_at k b) (value_at k o) (value_at k t)))
