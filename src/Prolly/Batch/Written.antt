-- ===== src/Prolly/Batch/Written.antt =====
-- What a batch makes of a map, key by key.
use acetone.Prelude.{by_order}
use acetone.Prelude.{◌≡◌, refl, ap, ◌∙◌, List, [], ◌∷◌, Option, none, some}
use acetone.Prelude.Bytes.{bytes_cmp, eq_of_bytes_cmp}
use acetone.Prolly.Types.{Bytes, Entry, BatchOp, put, delete, op_key}
use acetone.Prolly.Ordered.{IsAscending, find}
use acetone.Prolly.Ordered.PairUp.{Pair, pair_key, pair_up, pair_up-IsAscending}
use acetone.Prolly.Ordered.Lookup.{paired, find-pair_up}
use acetone.Prolly.Ordered.FilterMap.{
  filter_map, made, KeepsKeys, find-filter_map, filter_map-IsAscending,
}
use acetone.Prolly.Diff.Changes.{entry_key, value_of, value_at}
use acetone.Prolly.Batch.{apply_op, merge_ops}

-- The value at a key after the operation on it, if there is one.
abbrev pub written : Option Bytes → Option BatchOp → Option Bytes
written v none = v
written v (some (put k w)) = some w
written v (some (delete k)) = none

abbrev entry_with : Bytes → Option Bytes → Option Entry
entry_with k none = none
entry_with k (some v) = some (record { key = k; value = v })

abbrev entry_of : Pair Entry BatchOp → Option Entry
entry_of p = entry_with p.key (written (value_of p.left) p.right)

merge_ops-filter_map :
    (old : List Entry) (ops : List BatchOp)
    → merge_ops old ops ≡ filter_map entry_of (pair_up entry_key op_key old ops)
unfolding merge_ops filter_map pair_up apply_op
merge_ops-filter_map [] [] = refl
merge_ops-filter_map (x ∷ old) [] = ap (λ es. x ∷ es) (merge_ops-filter_map old [])
merge_ops-filter_map [] (put k v ∷ ops) =
    ap (λ es. record { key = k; value = v } ∷ es) (merge_ops-filter_map [] ops)
merge_ops-filter_map [] (delete k ∷ ops) = merge_ops-filter_map [] ops
merge_ops-filter_map (x ∷ old) (put k v ∷ ops) =
    by_order (bytes_cmp x.key k)
      (λ h.
        rw (merge_ops, pair_up, h) (ap (λ es. x ∷ es) (merge_ops-filter_map old (put k v ∷ ops))))
      (λ h.
        rw (merge_ops, pair_up, h)
          (rw (eq_of_bytes_cmp x.key k h)
            (ap (λ es. record { key = k; value = v } ∷ es) (merge_ops-filter_map old ops))))
      (λ h.
        rw (merge_ops, pair_up, h)
          (ap (λ es. record { key = k; value = v } ∷ es) (merge_ops-filter_map (x ∷ old) ops)))
merge_ops-filter_map (x ∷ old) (delete k ∷ ops) =
    by_order (bytes_cmp x.key k)
      (λ h.
        rw (merge_ops, pair_up, h) (ap (λ es. x ∷ es) (merge_ops-filter_map old (delete k ∷ ops))))
      (λ h. rw (merge_ops, pair_up, h) (merge_ops-filter_map old ops))
      (λ h. rw (merge_ops, pair_up, h) (merge_ops-filter_map (x ∷ old) ops))

entry_with-key : (k : Bytes) (v : Option Bytes) (e : Entry) → entry_with k v ≡ some e → e.key ≡ k
entry_with-key k none e h = cc
entry_with-key k (some v) e h = cc

entry_of-KeepsKeys : KeepsKeys pair_key entry_key entry_of
entry_of-KeepsKeys p e h = entry_with-key p.key (written (value_of p.left) p.right) e h

value_of-entry_with : (k : Bytes) (v : Option Bytes) → value_of (entry_with k v) ≡ v
value_of-entry_with k none = refl
value_of-entry_with k (some v) = refl

value_of-paired :
    (k : Bytes) (x : Option Entry) (op : Option BatchOp)
    → value_of (made entry_of (paired k x op)) ≡ written (value_of x) op
value_of-paired k none none = refl
value_of-paired k (some x) op = value_of-entry_with k (written (some x.value) op)
value_of-paired k none (some op) = value_of-entry_with k (written none (some op))

-- A batch of operations in ascending order of their keys makes of an ascending map the map in which
-- each key has the value that the operation on it gives it, if there is one, and its old value
-- otherwise.
pub value_at-merge_ops :
    (k : Bytes) (old : List Entry) (ops : List BatchOp)
    → IsAscending entry_key old
    → IsAscending op_key ops
    → value_at k (merge_ops old ops) ≡ written (value_at k old) (find op_key k ops)
value_at-merge_ops k old ops p q =
    let pairs = pair_up entry_key op_key old ops in
    ap (λ es. value_at k es) (merge_ops-filter_map old ops)
    ∙ (ap value_of (
          find-filter_map pair_key entry_key entry_of k pairs entry_of-KeepsKeys
            (pair_up-IsAscending entry_key op_key old ops p q))
        ∙ (ap (λ f. value_of (made entry_of f)) (find-pair_up entry_key op_key k old ops p q)
            ∙ value_of-paired k (find entry_key k old) (find op_key k ops)))

pub merge_ops-IsAscending :
    (old : List Entry) (ops : List BatchOp)
    → IsAscending entry_key old
    → IsAscending op_key ops
    → IsAscending entry_key (merge_ops old ops)
merge_ops-IsAscending old ops p q = rw (merge_ops-filter_map old ops) (
    filter_map-IsAscending pair_key entry_key entry_of (pair_up entry_key op_key old ops)
      entry_of-KeepsKeys (pair_up-IsAscending entry_key op_key old ops p q))
