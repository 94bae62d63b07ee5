-- ===== src/Prolly/Types.antt =====
-- The types of crates/acetone-prolly/src: lib.rs, node.rs, diff.rs, merge.rs and error.rs. A key, a
-- value and a digest are lists of bytes.
use acetone.Prelude.{ℕ, Bool, true, false, List, Option, Ordering}
use acetone.Prelude.Bytes.{bytes_cmp}
use acetone.Prelude.Result.{Result}

abbrev pub Bytes : Type 0
Bytes = List ℕ

-- `Ordering::is_eq`
abbrev pub is_eq : Ordering → Bool
is_eq Ordering.eq = true
is_eq Ordering.lt = false
is_eq Ordering.gt = false

-- `Bytes: PartialEq`
abbrev pub bytes_eq : Bytes → Bytes → Bool
bytes_eq x y = is_eq (bytes_cmp x y)

-- The reasons of `Corrupt`.
pub data Corruption : Type 0 where
  truncated_node level_tag leaf_keys_not_ascending empty_inner_node : Corruption
  bad_child_hash inner_keys_not_ascending trailing_bytes empty_chunk : Corruption
  wrong_last_key keys_below_position base_disagreement digest_too_wide : Corruption

pub data InvalidParams : Type 0 where
  min_bytes_zero min_exceeds_max max_over_format mask_bits_too_wide : InvalidParams

-- `unreachable` is a panic of the source.
pub data ProllyError : Type 0 where
  store_error : ProllyError
  missing_chunk : Bytes → ProllyError
  corrupt : Corruption → ProllyError
  invalid_params : InvalidParams → ProllyError
  invalid_root : ℕ → ProllyError
  key_too_long : ℕ → ProllyError
  value_too_long : ℕ → ProllyError
  too_many_entries params_mismatch unreachable : ProllyError

abbrev pub Prolly {ℓ} : Type ℓ → Type ℓ
Prolly A = Result ProllyError A

pub record Entry : Type 0 where
  pub key : Bytes
  pub value : Bytes

pub record NodeRef : Type 0 where
  pub last_key : Bytes
  pub hash : Bytes

pub data Node : Type 0 where
  leaf : List Entry → Node
  inner : List NodeRef → Node

pub record DiffEntry : Type 0 where
  pub key : Bytes
  pub before : Option Bytes
  pub after : Option Bytes

pub data BatchOp : Type 0 where
  put : Bytes → Bytes → BatchOp
  delete : Bytes → BatchOp

abbrev pub op_key : BatchOp → Bytes
op_key (put k v) = k
op_key (delete k) = k

pub record Conflict : Type 0 where
  pub key : Bytes
  pub base : Option Bytes
  pub ours : Option Bytes
  pub theirs : Option Bytes

-- What an iterator over differences yields, to its end or to the error that stops it. `starved` is no
-- value of the program: the iterator is modelled on fuel.
pub data Diff : Type 0 where
  ended : Diff
  yields : DiffEntry → Diff → Diff
  failed : ProllyError → Diff
  starved : Diff
