-- ===== src/Prolly/Tests.antt =====
-- A store with three leaves, and the theorems at it.
use acetone.Prelude.{ℕ, ◌≡◌, refl, true, if◌then◌else◌, List, [], ◌∷◌, none, some, arith}
use acetone.Prelude.Bytes.{bytes_cmp, from_be, IsBytes, be_bytes}
use acetone.Prelude.Result.{ok, err}
use acetone.Prolly.Types.{
  Bytes, bytes_eq, Entry, NodeRef, DiffEntry, BatchOp, put, delete, op_key, yields, ended, leaf,
  inner, corrupt, leaf_keys_not_ascending,
}
use acetone.Prolly.Node.{
  Store, read_node, decode_node, read_body, read_entries, take_bytes, take_u8, take_u32, ascends,
  ends_at, begins_above, push_entries, push_refs, encode_leaf_entry, encode_inner_entry, emitted,
}
use acetone.Prolly.Node.RoundTrip.{decode_node-leaf, decode_node-inner, ref_key}
use acetone.Prolly.Node.Strict.{IsChunkOf, decode_node-IsChunkOf}
use acetone.Prolly.Ordered.{IsAscending, find}
use acetone.Prolly.Diff.{LeafMerge, read_leaf, region_diff, next_entry, top_up, round}
use acetone.Prolly.Diff.Changes.{entry_key, diff_key, value_at, change_at, of_list}
use acetone.Prolly.Diff.Stream.{Side, Holds}
use acetone.Prolly.Batch.{merge_ops}
use acetone.Prolly.Merge.{Pushed, merge_loop}
use acetone.Prolly.Merge.Pairs.{conflict_key}
use acetone.Prolly.Merge.ThreeWay.{merged, conflict_at}
use acetone.Prolly.Batch.Written.{written, value_at-merge_ops}
use acetone.Prolly.Contract.{region_diff_entries, three_way_merge}

abbrev entry : ℕ → ℕ → Entry
entry k v = record { key = k ∷ []; value = v ∷ [] }

abbrev leaf_of : ℕ → Bytes → Bytes
leaf_of n body = 0 ∷ 0 ∷ 0 ∷ 0 ∷ n ∷ body

abbrev framed : ℕ → ℕ → Bytes → Bytes
framed k v rest = 0 ∷ 0 ∷ 0 ∷ 1 ∷ k ∷ 0 ∷ 0 ∷ 0 ∷ 1 ∷ v ∷ rest

abbrev base : List Entry
base = entry 97 1 ∷ entry 98 2 ∷ entry 99 3 ∷ []

abbrev ours : List Entry
ours = entry 97 9 ∷ entry 98 2 ∷ entry 99 4 ∷ []

abbrev theirs : List Entry
theirs = entry 97 1 ∷ entry 99 5 ∷ []

abbrev store : Store
store = record {
  get = λ h. ok (
      if bytes_eq h (1 ∷ [])
      then some (leaf_of 3 (framed 97 1 (framed 98 2 (framed 99 3 []))))
      else if bytes_eq h (2 ∷ [])
      then some (leaf_of 3 (framed 97 9 (framed 98 2 (framed 99 4 []))))
      else if bytes_eq h (3 ∷ [])
      then some (leaf_of 2 (framed 97 1 (framed 99 5 [])))
      else none);
  is_digest = λ h. true;
}

abbrev root : ℕ → List NodeRef
root h = record { last_key = []; hash = h ∷ [] } ∷ []

abbrev against : ℕ → LeafMerge
against h = record { a_refs = root 1; b_refs = root h; a = []; b = []; pseudo = true }

base_held : Side store true [] (root 1) base
unfolding Holds read_leaf read_node decode_node read_body read_entries take_bytes take_u8 take_u32
    ascends ends_at begins_above bytes_cmp from_be
base_held = (base, (base, [], refl, refl, refl), refl)

ours_held : Side store true [] (root 2) ours
unfolding Holds read_leaf read_node decode_node read_body read_entries take_bytes take_u8 take_u32
    ascends ends_at begins_above bytes_cmp from_be
ours_held = (ours, (ours, [], refl, refl, refl), refl)

theirs_held : Side store true [] (root 3) theirs
unfolding Holds read_leaf read_node decode_node read_body read_entries take_bytes take_u8 take_u32
    ascends ends_at begins_above bytes_cmp from_be
theirs_held = (theirs, (theirs, [], refl, refl, refl), refl)

base-IsAscending : IsAscending entry_key base
unfolding IsAscending bytes_cmp
base-IsAscending = ((refl, (refl, tt)), ((refl, tt), (tt, tt)))

ours-IsAscending : IsAscending entry_key ours
unfolding IsAscending bytes_cmp
ours-IsAscending = ((refl, (refl, tt)), ((refl, tt), (tt, tt)))

theirs-IsAscending : IsAscending entry_key theirs
unfolding IsAscending bytes_cmp
theirs-IsAscending = ((refl, tt), (tt, tt))

-- The stream itself, and the run of the merge on it.
ours_stream :
    region_diff 7 store (against 2)
    ≡ yields
        (record { key = 97 ∷ []; before = some (1 ∷ []); after = some (9 ∷ []) })
        (yields (record { key = 99 ∷ []; before = some (3 ∷ []); after = some (4 ∷ []) }) ended)
unfolding region_diff next_entry top_up round read_leaf read_node decode_node read_body read_entries
    take_bytes take_u8 take_u32 ascends ends_at begins_above bytes_cmp from_be
ours_stream = refl

region_diff_entries_example :
    (es : List DiffEntry) × (region_diff 7 store (against 2) ≡ of_list es)
    × IsAscending diff_key es
    × ((k : Bytes) → find diff_key k es ≡ change_at k (value_at k base) (value_at k ours))
region_diff_entries_example =
    region_diff_entries store (against 2) base ours 7 base-IsAscending ours-IsAscending
      (base_held, ours_held) (omega arith)

three_way_merge_example :
    (p : Pushed) × (merge_loop (region_diff 7 store (against 2)) (region_diff 7 store (against 3))
      ≡ ok p)
    × IsAscending op_key p.ops
    × IsAscending conflict_key p.conflicts
    × ((k : Bytes)
        → value_at k (merge_ops base p.ops)
          ≡ merged (value_at k base) (value_at k ours) (value_at k theirs))
    × ((k : Bytes)
        → find conflict_key k p.conflicts
          ≡ conflict_at k (value_at k base) (value_at k ours) (value_at k theirs))
three_way_merge_example =
    three_way_merge store (against 2) (against 3) base ours theirs 7 base-IsAscending
      ours-IsAscending theirs-IsAscending (base_held, ours_held) (base_held, theirs_held)
      (omega arith) (omega arith)

abbrev batch : List BatchOp
batch = delete (98 ∷ []) ∷ put (100 ∷ []) (7 ∷ []) ∷ []

batch-IsAscending : IsAscending op_key batch
unfolding IsAscending bytes_cmp
batch-IsAscending = ((refl, tt), (tt, tt))

value_at-merge_ops_example :
    value_at (98 ∷ []) (merge_ops base batch)
    ≡ written (value_at (98 ∷ []) base) (find op_key (98 ∷ []) batch)
value_at-merge_ops_example =
    value_at-merge_ops (98 ∷ []) base batch base-IsAscending batch-IsAscending

abbrev base_body : Bytes
base_body = framed 97 1 (framed 98 2 (framed 99 3 []))

base_pushed : push_entries base [] ≡ ok base_body
unfolding push_entries encode_leaf_entry be_bytes
base_pushed = refl

decode_node-leaf_example : decode_node store (emitted 0 3 base_body) 0 ≡ ok (leaf base)
decode_node-leaf_example =
    decode_node-leaf store base base_body base-IsAscending (omega arith) base_pushed

abbrev children : List NodeRef
children =
    record { last_key = 98 ∷ []; hash = 1 ∷ 2 ∷ [] }
    ∷ record { last_key = 99 ∷ []; hash = 3 ∷ [] }
    ∷ []

abbrev children_body : Bytes
children_body = 0 ∷ 0 ∷ 0 ∷ 1 ∷ 98 ∷ 2 ∷ 1 ∷ 2 ∷ 0 ∷ 0 ∷ 0 ∷ 1 ∷ 99 ∷ 1 ∷ 3 ∷ []

children_pushed : push_refs children [] ≡ ok children_body
unfolding push_refs encode_inner_entry be_bytes
children_pushed = refl

children-IsAscending : IsAscending ref_key children
unfolding IsAscending bytes_cmp
children-IsAscending = ((refl, tt), (tt, tt))

decode_node-inner_example : decode_node store (emitted 2 2 children_body) 2 ≡ ok (inner children)
decode_node-inner_example =
    decode_node-inner store 2 children children_body (omega arith) children-IsAscending
      (refl, (refl, tt)) (omega arith) (omega arith) children_pushed

leaf_read : decode_node store (leaf_of 3 base_body) 0 ≡ ok (leaf base)
unfolding decode_node read_body read_entries take_bytes take_u8 take_u32 ascends bytes_cmp from_be
leaf_read = refl

keys_out_of_order :
    decode_node store (leaf_of 2 (framed 98 1 (framed 97 1 []))) 0
    ≡ err (corrupt leaf_keys_not_ascending)
unfolding decode_node read_body read_entries take_bytes take_u8 take_u32 ascends bytes_cmp from_be
keys_out_of_order = refl

leaf-IsBytes : IsBytes (leaf_of 3 base_body)
leaf-IsBytes = (
  omega arith,
  (
    omega arith,
    (
      omega arith,
      (
        omega arith,
        (
          omega arith,
          (
            omega arith,
            (
              omega arith,
              (
                omega arith,
                (
                  omega arith,
                  (
                    omega arith,
                    (
                      omega arith,
                      (
                        omega arith,
                        (
                          omega arith,
                          (
                            omega arith,
                            (
                              omega arith,
                              (
                                omega arith,
                                (
                                  omega arith,
                                  (
                                    omega arith,
                                    (
                                      omega arith,
                                      (
                                        omega arith,
                                        (
                                          omega arith,
                                          (
                                            omega arith,
                                            (
                                              omega arith,
                                              (
                                                omega arith,
                                                (
                                                  omega arith,
                                                  (
                                                    omega arith,
                                                    (
                                                      omega arith,
                                                      (
                                                        omega arith,
                                                        (
                                                          omega arith,
                                                          (
                                                            omega arith,
                                                            (
                                                            omega arith,
                                                            (
                                                            omega arith,
                                                            (
                                                            omega arith,
                                                            (omega arith, (omega arith, tt)),
                                                            ),
                                                            ),
                                                            ),
                                                          ),
                                                        ),
                                                      ),
                                                    ),
                                                  ),
                                                ),
                                              ),
                                            ),
                                          ),
                                        ),
                                      ),
                                    ),
                                  ),
                                ),
                              ),
                            ),
                          ),
                        ),
                      ),
                    ),
                  ),
                ),
              ),
            ),
          ),
        ),
      ),
    ),
  ),
)

decode_node-IsChunkOf_example : IsChunkOf store 0 (leaf base) (leaf_of 3 base_body)
decode_node-IsChunkOf_example =
    decode_node-IsChunkOf store (leaf_of 3 base_body) 0 (leaf base) leaf-IsBytes leaf_read
