-- ===== src/Graph/CellMerge/Contract.antt =====
-- What cell_merge.rs promises to the graph merge.
use acetone.Prelude.{
  ◌≡◌, ◌↔◌, inl, inr, refl, sym, ◌∙◌, ap, subst, Bool, true, false, not, ◌&&◌, ◌||◌, List, [],
  Option, none, some, All, if◌then◌else◌, arith,
}
use acetone.Prelude.Result.{ok}
use acetone.Prolly.Types.{Bytes}
use acetone.Prolly.Ordered.{IsAscending}
use acetone.ValueCodec.Canonical.{canonical}
use acetone.Records.{Property}
use acetone.Graph.CellMerge.{
  Merged, get, extend, contains, names_of, property_names, conflict_at, value_eq, merge_properties,
  merge_labels, label_kept,
}
use acetone.Graph.CellMerge.Names.{
  contains-extend, get_absent, same, extend-IsAscending, filter-IsAscending, contains-filter,
}
use acetone.Graph.CellMerge.ValueEq.{IsStored, value_eq_runs}
use acetone.Graph.CellMerge.Rule.{
  Rule, Holds, value_of, conflict_of, resolved_at, merge_names_runs, merge_names-At,
}
use acetone.Graph.CellMerge.{merge_node_record, PropertyConflict}
use acetone.Graph.CellMerge.InOrder.{IsInOrder, merge_properties-IsInOrder}
use acetone.Graph.CellMerge.Labels.{
  IsCanonical, normalise_strings-IsCanonical, contains-normalise_strings,
}
use acetone.Records.{NodeRecord, new_node_record}
use acetone.Model.{Value}

-- `value_eq` of two Rust values that can be stored succeeds, and is true exactly when they are equal
-- up to the payloads of NaNs.
pub value_eq_iff :
    (v w : Value)
    → IsStored v
    → IsStored w
    → (b : Bool) × (value_eq v w ≡ ok b) × ((b ≡ true) ↔ (canonical v ≡ canonical w))
value_eq_iff v w hv hw = value_eq_runs v w hv hw

neither : (a b : Bool) → (a || b) ≡ false → (a ≡ false) × (b ≡ false)
neither a b e = ground arith

-- A name outside all three maps is absent from each.
absent :
    (base ours theirs : List Property) (k : Bytes)
    → contains (property_names base ours theirs) k ≡ false
    → (get base k ≡ none) × (get ours k ≡ none) × (get theirs k ≡ none)
unfolding property_names contains
absent base ours theirs k e =
    let e1 =
      sym (contains-extend k (names_of theirs) (extend (names_of ours) (extend (names_of base) [])))
      ∙ e in
    let (t, e2) = neither _ _ e1 in
    let (o, e3) =
      neither _ _ (sym (contains-extend k (names_of ours) (extend (names_of base) [])) ∙ e2) in
    let (b, _) = neither _ _ (sym (contains-extend k (names_of base) []) ∙ e3) in
    (get_absent base k b, get_absent ours k o, get_absent theirs k t)

-- What the rule gives for a name that none of the three maps has.
nothing_there :
    (base ours theirs : Option Value) (r : Option (Option Value))
    → base ≡ none
    → ours ≡ none
    → theirs ≡ none
    → Rule base ours theirs r
    → r ≡ some none
nothing_there base ours theirs r b o t (inl (agree, e)) = e ∙ ap some o
nothing_there base ours theirs r b o t (inr (inl (clash, _, _))) = absurd (clash (rw (o, t) refl))
nothing_there base ours theirs r b o t (inr (inr (inl (clash, _, _, _)))) =
    absurd (clash (rw (o, t) refl))
nothing_there base ours theirs r b o t (inr (inr (inr (clash, _, _, _)))) =
    absurd (clash (rw (o, t) refl))

-- `merge_properties` of maps of values that can be stored succeeds, and at every name follows the
-- three-way rule, which compares values up to the payloads of NaNs. Where both sides agree it holds
-- our value, and else, where one side agrees with the base, that of the other side, with no conflict;
-- otherwise it holds no value, and one conflict of all three. The properties and the conflicts are in
-- strictly ascending order of names, so that no name stands twice.
pub merge_properties-Rule :
    (base ours theirs : List Property) (name : Bytes)
    → All (λ p. IsStored p.value) base
    → All (λ p. IsStored p.value) ours
    → All (λ p. IsStored p.value) theirs
    → (m : Merged) × (merge_properties base ours theirs ≡ ok m)
      × (r : Option (Option Value)) × Rule (get base name) (get ours name) (get theirs name) r
      × Holds name m (value_of r) (conflict_of (conflict_at base ours theirs name) r)
      × IsInOrder m
unfolding merge_properties
merge_properties-Rule base ours theirs name hb ho ht =
    let names = property_names base ours theirs in
    let (m, run) = merge_names_runs base ours theirs hb ho ht names in
    let (r, e, rule) = resolved_at base ours theirs hb ho ht name in
    let held : Holds name m (value_of r) (conflict_of (conflict_at base ours theirs name) r) =
      elim (merge_names-At base ours theirs hb ho ht name r e names m run) [
        | inl (_, found) ↦ found
        | inr (away, found) ↦
            let (b, o, t) = absent base ours theirs name away in
            let nothing = nothing_there _ _ _ r b o t rule in
            subst
              (λ x. Holds name m (value_of x) (conflict_of (conflict_at base ours theirs name) x))
              (sym nothing) found
      ] in
    (m, run, r, rule, held, merge_properties-IsInOrder base ours theirs m run)

four_bools :
    (b o t : Bool)
    → (((b || o || t) && not ((b && not o) || (b && not t))) && (t || (o || b)))
      ≡ (if b then o && t else o || t)
four_bools b o t = ground arith

contains_collected :
    (k : Bytes) (names : List Bytes) → contains (extend names []) k ≡ contains names k
unfolding contains
contains_collected k names = contains-extend k names [] ∙ ground arith

-- `merge_labels` holds a label of the base exactly if both sides kept it, and a label that the base
-- has not exactly if one side added it; its labels are in strictly ascending byte order.
pub merge_labels_rule :
    (base ours theirs : List Bytes) (label : Bytes)
    → (contains (merge_labels base ours theirs) label ≡ (
        if contains base label
        then contains ours label && contains theirs label
        else contains ours label || contains theirs label))
      × IsAscending same (merge_labels base ours theirs)
unfolding merge_labels label_kept
merge_labels_rule base ours theirs label =
    let b = extend base [] in
    let o = extend ours [] in
    let t = extend theirs [] in
    let all = extend t (extend o (extend b [])) in
    let among : contains all label ≡ (contains t label || (contains o label || contains b label)) =
      contains-extend label t (extend o (extend b []))
      ∙ ap (λ x. contains t label || x)
          (contains-extend label o (extend b [])
            ∙ ap (λ x. contains o label || x) (contains_collected label b)) in
    (
      contains-filter (label_kept b o t) all label
          ∙ rw
              (
                among,
                contains_collected label base,
                contains_collected label ours,
                contains_collected label theirs,
              )
              (four_bools (contains base label) (contains ours label) (contains theirs label)),
      filter-IsAscending (label_kept b o t) all (
          extend-IsAscending t _
            (extend-IsAscending o _ (extend-IsAscending b [] (unfold IsAscending in tt)))),
    )

-- `merge_node_record` of records of values that can be stored succeeds. At every property name it
-- follows the three-way rule; it holds a label of the base exactly if both sides kept it, and another
-- label exactly if one side has it. The labels are in strictly ascending canonical order, and the
-- properties and the conflicts in that of their names.
pub merge_node_record-Rule :
    (base ours theirs : NodeRecord) (name label : Bytes)
    → All (λ p. IsStored p.value) base.properties
    → All (λ p. IsStored p.value) ours.properties
    → All (λ p. IsStored p.value) theirs.properties
    → (node : NodeRecord) × (conflicts : List PropertyConflict) × (merge_node_record base ours
          theirs
        ≡ ok (node, conflicts))
      × (r : Option (Option Value)) × Rule
          (get base.properties name)
          (get ours.properties name)
          (get theirs.properties name)
          r
      × Holds name
          (record { properties = node.properties; conflicts = conflicts })
          (value_of r)
          (conflict_of (conflict_at base.properties ours.properties theirs.properties name) r)
      × (contains node.secondary_labels label ≡ (
          if contains base.secondary_labels label
          then contains ours.secondary_labels label && contains theirs.secondary_labels label
          else contains ours.secondary_labels label || contains theirs.secondary_labels label))
      × IsCanonical node.secondary_labels
      × IsInOrder (record { properties = node.properties; conflicts = conflicts })
unfolding merge_node_record new_node_record
merge_node_record-Rule base ours theirs name label hb ho ht =
    let labels = merge_labels base.secondary_labels ours.secondary_labels theirs.secondary_labels in
    let (m, run, r, rule, held, ordered) =
      merge_properties-Rule base.properties ours.properties theirs.properties name hb ho ht in
    let (kept, _) =
      merge_labels_rule base.secondary_labels ours.secondary_labels theirs.secondary_labels label in
    (
      new_node_record labels m.properties,
      m.conflicts,
      rw run refl,
      r,
      rule,
      held,
      contains-normalise_strings label labels ∙ kept,
      normalise_strings-IsCanonical labels,
      ordered,
    )
