-- ===== src/Prolly/Contract.antt =====
-- What diff.rs, merge.rs and the batches of tree.rs promise together.
use acetone.Prelude.{ℕ, ◌+◌, ◌<◌, ◌≡◌, List, length}
use acetone.Prelude.Result.{ok}
use acetone.Prolly.Types.{Bytes, Entry, op_key}
use acetone.Prolly.Node.{Store}
use acetone.Prolly.Ordered.{IsAscending, find}
use acetone.Prolly.Diff.{LeafMerge, region_diff}
use acetone.Prolly.Diff.Changes.{
  entry_key, diff_key, value_at, change_at, changes, of_list, find-changes, changes-IsAscending,
  changes-before,
}
use acetone.Prolly.Diff.Stream.{RegionHolds, region_diff-changes}
use acetone.Prolly.Batch.{merge_ops}
use acetone.Prolly.Merge.{Pushed, merge_loop}
use acetone.Prolly.Merge.Pairs.{conflict_key, pushed, merge_loop-pushed}
use acetone.Prolly.Merge.ThreeWay.{
  merged, conflict_at, ops-IsAscending, conflicts-IsAscending, merged_values, found_conflicts,
}

-- Where the leaves on both sides of a region read as two ascending lists of entries, and the fuel
-- is above the number of entries, the stream of differences yields, in ascending order of the keys
-- and without an error, exactly the keys whose values in the two maps differ, each with both
-- values.
pub region_diff_entries :
    (store : Store) (s : LeafMerge) (a b : List Entry) (fuel : ℕ)
    → IsAscending entry_key a
    → IsAscending entry_key b
    → RegionHolds store s a b
    → length a + length b < fuel
    → (es : List _) × (region_diff fuel store s ≡ of_list es)
      × IsAscending diff_key es
      × ((k : Bytes) → find diff_key k es ≡ change_at k (value_at k a) (value_at k b))
region_diff_entries store s a b fuel pa pb region enough = (
  changes a b,
  region_diff-changes fuel store s a b region enough,
  changes-IsAscending a b pa pb,
  λ k. find-changes k a b pa pb,
)

-- Where two regions hold a base map against ours and against theirs, all three ascending, and the
-- fuel is above the number of entries on both sides of each, the merge loop over the two streams of
-- differences comes to operations and conflicts, both in ascending order of keys. The operations
-- applied to the base give each key its value by the three-way rule, and the conflicts are the keys
-- that both sides changed differently, with the three values.
pub three_way_merge :
    (store : Store) (s s' : LeafMerge) (b o t : List Entry) (fuel : ℕ)
    → IsAscending entry_key b
    → IsAscending entry_key o
    → IsAscending entry_key t
    → RegionHolds store s b o
    → RegionHolds store s' b t
    → length b + length o < fuel
    → length b + length t < fuel
    → (p : Pushed) × (merge_loop (region_diff fuel store s) (region_diff fuel store s') ≡ ok p)
      × IsAscending op_key p.ops
      × IsAscending conflict_key p.conflicts
      × ((k : Bytes)
          → value_at k (merge_ops b p.ops) ≡ merged (value_at k b) (value_at k o) (value_at k t))
      × ((k : Bytes)
          → find conflict_key k p.conflicts
            ≡ conflict_at k (value_at k b) (value_at k o) (value_at k t))
three_way_merge store s s' b o t fuel pb po pt ours theirs more_ours more_theirs = (
  pushed (changes b o) (changes b t),
  rw
      (
        region_diff-changes fuel store s b o ours more_ours,
        region_diff-changes fuel store s' b t theirs more_theirs,
      )
      (merge_loop-pushed (λ k. value_at k b) (changes b o) (changes b t) (changes-before b o pb po)
        (changes-before b t pb pt)),
  ops-IsAscending b o t pb po pt,
  conflicts-IsAscending b o t pb po pt,
  merged_values b o t pb po pt,
  found_conflicts b o t pb po pt,
)
