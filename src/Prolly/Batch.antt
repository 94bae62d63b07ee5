-- ===== src/Prolly/Batch.antt =====
-- tree.rs: a batch of operations applied to the entries of a run of leaves.
pub mod Written
use acetone.Prelude.{List, [], ◌∷◌, ◌++◌, Ordering}
use acetone.Prelude.Bytes.{bytes_cmp}
use acetone.Prolly.Types.{Entry, BatchOp, put, delete, op_key}

unfoldable pub apply_op : BatchOp → List Entry → List Entry
apply_op (put key value) out = record { key = key; value = value } ∷ out
apply_op (delete key) out = out

-- The loop takes from the entries, from the operations or from both, and pushes on `out` in the order
-- of keys: the list here is what it pushes from now on.
unfoldable pub merge_ops : List Entry → List BatchOp → List Entry
unfolding apply_op
merge_ops [] [] = []
merge_ops (x ∷ old) [] = x ∷ merge_ops old []
merge_ops [] (op ∷ ops) = apply_op op (merge_ops [] ops)
merge_ops (x ∷ old) (op ∷ ops) = elim (bytes_cmp x.key (op_key op)) [
  | Ordering.lt ↦ x ∷ merge_ops old (op ∷ ops)
  | Ordering.eq ↦ apply_op op (merge_ops old ops)
  | Ordering.gt ↦ apply_op op (merge_ops (x ∷ old) ops)
]
