-- ===== src/Prolly/Node.antt =====
-- node.rs: how a tree node is written, read, and checked against what its parent says. The position in
-- the data is what is left of it. The sum of a position and a framed length, below 2 ^ 32, stays in
-- the range of `usize`, so `checked_add` in `take` does not fail.
pub mod Frames
pub mod RoundTrip
pub mod Strict
use acetone.Prelude.{
  ℕ, zero, suc, ◌^◌, Bool, true, false, not, if◌then◌else◌, List, [], ◌∷◌, ◌++◌, Option, none, some,
}
use acetone.Prelude.{ltb, ◌==◌, length, take, drop, last?, Ordering}
use acetone.Prelude.Bytes.{bytes_cmp, be_bytes, from_be}
use acetone.Prelude.Result.{Result, ok, err, out_of_fuel, ◌>>=◌, ◌>>◌, ensure, refuse}
use acetone.Prolly.Types.{
  Bytes, bytes_eq, ProllyError, missing_chunk, corrupt, truncated_node, level_tag,
  leaf_keys_not_ascending, empty_inner_node, bad_child_hash, inner_keys_not_ascending,
  trailing_bytes, empty_chunk, wrong_last_key, keys_below_position, digest_too_wide, key_too_long,
  value_too_long, Prolly, Entry, NodeRef, Node, leaf, inner,
}

-- A chunk store that is not written to, and the digests that `Hash::from_bytes` takes.
pub record Store : Type 0 where
  pub get : Bytes → Prolly (Option Bytes)
  pub is_digest : Bytes → Bool

unfoldable pub first_key : Node → Option Bytes
first_key (leaf []) = none
first_key (leaf (e ∷ es)) = some e.key
first_key (inner []) = none
first_key (inner (r ∷ refs)) = some r.last_key

abbrev key_of_last : Option Entry → Option Bytes
key_of_last none = none
key_of_last (some e) = some e.key

abbrev last_key_of_last : Option NodeRef → Option Bytes
last_key_of_last none = none
last_key_of_last (some r) = some r.last_key

unfoldable pub last_key : Node → Option Bytes
last_key (leaf entries) = key_of_last (last? entries)
last_key (inner refs) = last_key_of_last (last? refs)

unfoldable pub take_bytes : ℕ → Bytes → Prolly (Bytes × Bytes)
take_bytes n chunk =
    if ltb (length chunk) n then err (corrupt truncated_node) else ok (take n chunk, drop n chunk)

unfoldable pub take_u8 : Bytes → Prolly (ℕ × Bytes)
take_u8 chunk = do (b, rest) ← take_bytes 1 chunk; ok (from_be 0 b, rest)

unfoldable pub take_u32 : Bytes → Prolly (ℕ × Bytes)
take_u32 chunk = do (b, rest) ← take_bytes 4 chunk; ok (from_be 0 b, rest)

-- Is the key above the last one read, if there is one?
unfoldable pub ascends : Option Bytes → Bytes → Bool
ascends none key = true
ascends (some prev) key = elim (bytes_cmp prev key) [ Ordering.lt ↦ true | _ ↦ false ]

unfoldable pub read_entries : ℕ → Option Bytes → Bytes → Prolly (List Entry × Bytes)
read_entries zero last chunk = ok ([], chunk)
read_entries (suc count) last chunk = do
  (klen, after) ← take_u32 chunk
  (key, after_key) ← take_bytes klen after
  (vlen, after_vlen) ← take_u32 after_key
  (value, rest) ← take_bytes vlen after_vlen
  ensure (ascends last key) (corrupt leaf_keys_not_ascending)
  (entries, end) ← read_entries count (some key) rest
  ok (record { key = key; value = value } ∷ entries, end)

unfoldable pub read_refs : Store → ℕ → Option Bytes → Bytes → Prolly (List NodeRef × Bytes)
read_refs store zero last chunk = ok ([], chunk)
read_refs store (suc count) last chunk = do
  (klen, after) ← take_u32 chunk
  (key, after_key) ← take_bytes klen after
  (hlen, after_hlen) ← take_u8 after_key
  (hash, rest) ← take_bytes hlen after_hlen
  ensure (store.is_digest hash) (corrupt bad_child_hash)
  ensure (ascends last key) (corrupt inner_keys_not_ascending)
  (refs, end) ← read_refs store count (some key) rest
  ok (record { last_key = key; hash = hash } ∷ refs, end)

unfoldable pub read_body : Store → ℕ → ℕ → Bytes → Prolly (Node × Bytes)
read_body store level count chunk =
    if level == 0
    then (do (entries, rest) ← read_entries count none chunk; ok (leaf entries, rest))
    else (do
      refuse (count == 0) (corrupt empty_inner_node)
      (refs, rest) ← read_refs store count none chunk
      ok (inner refs, rest))

abbrev pub is_empty {ℓ} : {A : Type ℓ} → List A → Bool
is_empty [] = true
is_empty (x ∷ xs) = false

unfoldable pub decode_node : Store → Bytes → ℕ → Prolly Node
decode_node store chunk expect_level = do
  (level, after) ← take_u8 chunk
  ensure (level == expect_level) (corrupt level_tag)
  (count, body) ← take_u32 after
  (node, rest) ← read_body store level count body
  ensure (is_empty rest) (corrupt trailing_bytes)
  ok node

unfoldable pub decode_node_self : Store → Bytes → Prolly (ℕ × Node)
decode_node_self store [] = err (corrupt empty_chunk)
decode_node_self store (level ∷ rest) =
    decode_node store (level ∷ rest) level >>= λ node. ok (level, node)

-- Does the node end at the key its parent declares, where it declares one?
unfoldable pub ends_at : Option Bytes → Option Bytes → Bool
ends_at none got = true
ends_at (some want) none = false
ends_at (some want) (some got) = bytes_eq got want

-- Does the node begin above the bound, where there is one?
unfoldable pub begins_above : Option Bytes → Option Bytes → Bool
begins_above none first = true
begins_above (some low) none = true
begins_above (some low) (some first) = elim (bytes_cmp first low) [ Ordering.gt ↦ true | _ ↦ false ]

abbrev pub present : Bytes → Option Bytes → Prolly Bytes
present hash none = err (missing_chunk hash)
present hash (some chunk) = ok chunk

unfoldable pub read_node : Store → Bytes → ℕ → Option Bytes → Option Bytes → Prolly Node
read_node store hash expect_level expect_last_key min_key_exclusive = do
  found ← store.get hash
  chunk ← present hash found
  node ← decode_node store chunk expect_level
  ensure (ends_at expect_last_key (last_key node)) (corrupt wrong_last_key)
  ensure (begins_above min_key_exclusive (first_key node)) (corrupt keys_below_position)
  ok node

unfoldable pub encode_leaf_entry : Bytes → Bytes → Bytes → Prolly Bytes
encode_leaf_entry key value out = do
  ensure (ltb (length key) (2 ^ 32)) (key_too_long (length key))
  ensure (ltb (length value) (2 ^ 32)) (value_too_long (length value))
  ok (out ++ (be_bytes 4 (length key) ++ (key ++ (be_bytes 4 (length value) ++ value))))

unfoldable pub encode_inner_entry : Bytes → Bytes → Bytes → Prolly Bytes
encode_inner_entry key hash out = do
  ensure (ltb (length key) (2 ^ 32)) (key_too_long (length key))
  ensure (ltb (length hash) (2 ^ 8)) (corrupt digest_too_wide)
  ok (out ++ (be_bytes 4 (length key) ++ (key ++ (length hash ∷ hash))))

-- `LevelBuilder` of tree.rs: the entries pushed since the last cut, and the chunk it emits. Its count of
-- entries, with the error above 2 ^ 32 - 1 of them, is the argument of `emitted`.
unfoldable pub push_entries : List Entry → Bytes → Prolly Bytes
push_entries [] buf = ok buf
push_entries (e ∷ es) buf = encode_leaf_entry e.key e.value buf >>= λ buf'. push_entries es buf'

unfoldable pub push_refs : List NodeRef → Bytes → Prolly Bytes
push_refs [] buf = ok buf
push_refs (r ∷ refs) buf = encode_inner_entry r.last_key r.hash buf >>= λ buf'. push_refs refs buf'

unfoldable pub emitted : ℕ → ℕ → Bytes → Bytes
emitted level count buf = level ∷ (be_bytes 4 count ++ buf)
