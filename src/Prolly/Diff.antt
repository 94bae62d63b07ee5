-- ===== src/Prolly/Diff.antt =====
-- diff.rs: the stream of differences between two runs of leaves (`LeafMerge` and the iterator over it).
pub mod Changes
pub mod Stream
use acetone.Prelude.{
  ℕ, zero, suc, ◌+◌, Bool, true, false, not, if◌then◌else◌, List, [], ◌∷◌, Option, none, some,
}
use acetone.Prelude.{Ordering}
use acetone.Prelude.Bytes.{bytes_cmp}
use acetone.Prelude.Result.{Result, ok, err, out_of_fuel, ◌>>=◌}
use acetone.Prolly.Types.{
  Bytes, bytes_eq, ProllyError, unreachable, Prolly, Entry, NodeRef, Node, leaf, inner, DiffEntry,
  Diff, ended, yields, failed, starved,
}
use acetone.Prolly.Diff.Changes.{removed, added, changed}
use acetone.Prolly.Node.{Store, read_node}

-- What one round of the loop in `LeafMerge::next_entry` does with the fronts of the two buffers.
pub data Round : Type 0 where
  drained : Round
  found : DiffEntry → List Entry → List Entry → Round
  skipped : List Entry → List Entry → Round

unfoldable pub round : List Entry → List Entry → Round
round [] [] = drained
round (x ∷ a) [] = found (removed x) a []
round [] (y ∷ b) = found (added y) [] b
round (x ∷ a) (y ∷ b) = elim (bytes_cmp x.key y.key) [
  | Ordering.lt ↦ found (removed x) a (y ∷ b)
  | Ordering.gt ↦ found (added y) (x ∷ a) b
  | Ordering.eq ↦ if not (bytes_eq x.value y.value) then found (changed x y) a b else skipped a b
]

pub record LeafMerge : Type 0 where
  pub a_refs : List NodeRef
  pub b_refs : List NodeRef
  pub a : List Entry
  pub b : List Entry
  pub pseudo : Bool

-- A reference's entries: `read_node` at level 0, its claim checked unless it is a placeholder.
unfoldable pub read_leaf : Store → NodeRef → Bool → Prolly (List Entry)
read_leaf store r pseudo =
    read_node store r.hash 0 (if not pseudo then some r.last_key else none) none >>= λ node.
    elim node [ leaf entries ↦ ok entries | inner refs ↦ err unreachable ]

-- `while buf.is_empty()`
unfoldable pub top_up :
    Store → List Entry → List NodeRef → Bool → Prolly (List Entry × List NodeRef)
top_up store (e ∷ es) refs pseudo = ok (e ∷ es, refs)
top_up store [] [] pseudo = ok ([], [])
top_up store [] (r ∷ refs) pseudo = read_leaf store r pseudo >>= λ es. top_up store es refs pseudo

abbrev pub state_of : LeafMerge → List NodeRef → List NodeRef → List Entry → List Entry → LeafMerge
state_of s a_refs b_refs a b = record {
  a_refs = a_refs;
  b_refs = b_refs;
  a = a;
  b = b;
  pseudo = s.pseudo;
}

-- A round that finds equal entries takes one from each side, so the number of entries is fuel enough.
unfoldable pub next_entry : ℕ → Store → LeafMerge → Prolly (Option DiffEntry × LeafMerge)
next_entry zero store s = out_of_fuel
next_entry (suc fuel) store s = do
  (a, a_refs) ← top_up store s.a s.a_refs s.pseudo
  (b, b_refs) ← top_up store s.b s.b_refs s.pseudo
  elim (round a b) [
    | drained ↦ ok (none, state_of s a_refs b_refs a b)
    | found e a' b' ↦ ok (some e, state_of s a_refs b_refs a' b')
    | skipped a' b' ↦ next_entry fuel store (state_of s a_refs b_refs a' b')
  ]

-- The iterator, drained: an error ends it. The number of entries is fuel enough.
unfoldable pub region_diff : ℕ → Store → LeafMerge → Diff
region_diff zero store s = starved
region_diff (suc fuel) store s = elim (next_entry (suc fuel) store s) [
  | ok (none, s') ↦ ended
  | ok (some e, s') ↦ yields e (region_diff fuel store s')
  | err e ↦ failed e
  | out_of_fuel ↦ starved
]
