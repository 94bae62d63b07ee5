-- ===== src/Graph/CellMerge/InOrder.antt =====
-- What the loop of cell_merge.rs over ascending names gives is ascending too.
use acetone.Prelude.{◌≡◌, lt, List, [], ◌∷◌, Option, none, some, subst}
use acetone.Prelude.Bytes.{bytes_cmp}
use acetone.Prelude.Result.{ok, bind_parts}
use acetone.Prolly.Types.{Bytes}
use acetone.Prolly.Ordered.{Above, IsAscending}
use acetone.Records.{Property}
use acetone.Graph.CellMerge.{
  PropertyConflict, Merged, get, names_of, property_names, resolved, held, conflict_at, merge_names,
  merge_properties,
}
use acetone.Graph.CellMerge.Names.{same, extend-IsAscending}
use acetone.Graph.CellMerge.Rule.{ok_same}
use acetone.Model.{Value}

-- Strictly ascending, so that no name stands twice.
abbrev pub IsInOrder : Merged → Type 0
IsInOrder m =
    IsAscending Property.name m.properties × IsAscending PropertyConflict.property m.conflicts

abbrev IsAbove : Bytes → Merged → Type 0
IsAbove j m = Above Property.name j m.properties × Above PropertyConflict.property j m.conflicts

held-IsAbove :
    (j : Bytes) (c : PropertyConflict) (r : Option (Option Value)) (later : Merged)
    → bytes_cmp j c.property ≡ lt
    → IsAbove j later
    → IsAbove j (held c r later)
unfolding held
held-IsAbove j c none later h (p, q) = (p, (h, q))
held-IsAbove j c (some none) later h (p, q) = (p, q)
held-IsAbove j c (some (some v)) later h (p, q) = ((h, p), q)

held-IsInOrder :
    (c : PropertyConflict) (r : Option (Option Value)) (later : Merged)
    → IsAbove c.property later
    → IsInOrder later
    → IsInOrder (held c r later)
unfolding held IsAscending
held-IsInOrder c none later (p, q) (asc, asc') = (asc, (q, asc'))
held-IsInOrder c (some none) later (p, q) (asc, asc') = (asc, asc')
held-IsInOrder c (some (some v)) later (p, q) (asc, asc') = ((p, asc), asc')

module _ (base ours theirs : List Property) where
  first_and_later :
      (n : Bytes) (ns : List Bytes) (m : Merged)
      → merge_names base ours theirs (n ∷ ns) ≡ ok m
      → (r : Option (Option Value)) × (later : Merged) × (merge_names base ours theirs ns
          ≡ ok later)
        × (held (conflict_at base ours theirs n) r later ≡ m)
  unfolding merge_names
  first_and_later n ns m run =
      let (r, _, run') = bind_parts (resolved (get base n) (get ours n) (get theirs n)) _ run in
      let (later, rest, e) = bind_parts (merge_names base ours theirs ns) _ run' in
      (r, later, rest, ok_same e)

  no_names :
      (m : Merged)
      → merge_names base ours theirs [] ≡ ok m
      → record { properties = []; conflicts = [] } ≡ m
  unfolding merge_names
  no_names m run = ok_same run

  merge_names-IsAbove :
      (j : Bytes) (names : List Bytes) (m : Merged)
      → Above same j names
      → merge_names base ours theirs names ≡ ok m
      → IsAbove j m
  merge_names-IsAbove j [] m above run = subst (IsAbove j) (no_names m run) (tt, tt)
  merge_names-IsAbove j (n ∷ ns) m (h, above) run =
      let (r, later, rest, e) = first_and_later n ns m run in
      subst (IsAbove j) e (
        held-IsAbove j (conflict_at base ours theirs n) r later h
          (merge_names-IsAbove j ns later above rest))

  merge_names-IsInOrder :
      (names : List Bytes) (m : Merged)
      → IsAscending same names
      → merge_names base ours theirs names ≡ ok m
      → IsInOrder m
  unfolding IsAscending
  merge_names-IsInOrder [] m asc run = subst IsInOrder (no_names m run) (tt, tt)
  merge_names-IsInOrder (n ∷ ns) m (above, asc) run =
      let (r, later, rest, e) = first_and_later n ns m run in
      subst IsInOrder e (
        held-IsInOrder (conflict_at base ours theirs n) r later
          (merge_names-IsAbove n ns later above rest) (merge_names-IsInOrder ns later asc rest))

  pub merge_properties-IsInOrder :
      (m : Merged) → merge_properties base ours theirs ≡ ok m → IsInOrder m
  unfolding merge_properties property_names
  merge_properties-IsInOrder m run =
      merge_names-IsInOrder (property_names base ours theirs) m
        (extend-IsAscending (names_of theirs) _ (
          extend-IsAscending (names_of ours) _
            (extend-IsAscending (names_of base) [] (unfold IsAscending in tt))))
        run
