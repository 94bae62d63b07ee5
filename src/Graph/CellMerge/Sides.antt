-- ===== src/Graph/CellMerge/Sides.antt =====
-- The merge of cell_merge.rs with its two sides exchanged.
use acetone.Prelude.{◌≡◌, inl, inr, refl, sym, ◌∙◌, ap, List, Option, none, some, All}
use acetone.Prelude.Result.{ok}
use acetone.Prolly.Types.{Bytes}
use acetone.Prolly.Ordered.{find}
use acetone.Records.{Property}
use acetone.Graph.CellMerge.{PropertyConflict, Merged, get, conflict_at, merge_properties}
use acetone.Graph.CellMerge.ValueEq.{IsStored, Agree, canonical_in}
use acetone.Graph.CellMerge.Rule.{Rule, value_of, conflict_of}
use acetone.Graph.CellMerge.Contract.{merge_properties-Rule}
use acetone.Model.{Value}

abbrev pub exchanged : PropertyConflict → PropertyConflict
exchanged c = record c { ours = c.theirs; theirs = c.ours }

abbrev pub exchanged_in : Option PropertyConflict → Option PropertyConflict
exchanged_in none = none
exchanged_in (some c) = some (exchanged c)

-- Two results that hold the same value up to the payloads of NaNs, or that are both conflicts.
abbrev IsMirrored : PropertyConflict → Option (Option Value) → Option (Option Value) → Type 0
IsMirrored c r s =
    Agree (value_of r) (value_of s) × (conflict_of (exchanged c) s ≡ exchanged_in (conflict_of c r))

both_held :
    (c : PropertyConflict) (r s : Option (Option Value)) (v w : Option Value)
    → r ≡ some v
    → s ≡ some w
    → Agree v w
    → IsMirrored c r s
both_held c r s v w e e' agree = rw (e, e') (agree, refl)

both_clash :
    (c : PropertyConflict) (r s : Option (Option Value)) → r ≡ none → s ≡ none → IsMirrored c r s
both_clash c r s e e' = rw (e, e') (refl, refl)

Rule-IsMirrored :
    (c : PropertyConflict) (b o t : Option Value) (r s : Option (Option Value))
    → Rule b o t r
    → Rule b t o s
    → IsMirrored c r s
Rule-IsMirrored c b o t r s (inl (ot, e)) (inl (to, e')) = both_held c r s o t e e' ot
Rule-IsMirrored c b o t r s (inl (ot, e)) (inr (inl (nto, _, _))) = absurd (nto (sym ot))
Rule-IsMirrored c b o t r s (inl (ot, e)) (inr (inr (inl (nto, _, _, _)))) = absurd (nto (sym ot))
Rule-IsMirrored c b o t r s (inl (ot, e)) (inr (inr (inr (nto, _, _, _)))) = absurd (nto (sym ot))
Rule-IsMirrored c b o t r s (inr (inl (not', ob, e))) (inl (to, _)) = absurd (not' (sym to))
Rule-IsMirrored c b o t r s (inr (inl (not', ob, e))) (inr (inl (_, tb, _))) =
    absurd (not' (ob ∙ sym tb))
Rule-IsMirrored c b o t r s (inr (inl (not', ob, e))) (inr (inr (inl (_, _, _, e')))) =
    both_held c r s t t e e' refl
Rule-IsMirrored c b o t r s (inr (inl (not', ob, e))) (inr (inr (inr (_, _, nob, _)))) =
    absurd (nob ob)
Rule-IsMirrored c b o t r s (inr (inr (inl (not', nob, tb, e)))) (inl (to, _)) =
    absurd (not' (sym to))
Rule-IsMirrored c b o t r s (inr (inr (inl (not', nob, tb, e)))) (inr (inl (_, _, e'))) =
    both_held c r s o o e e' refl
Rule-IsMirrored c b o t r s (inr (inr (inl (not', nob, tb, e)))) (inr (inr (inl (_, ntb, _, _)))) =
    absurd (ntb tb)
Rule-IsMirrored c b o t r s (inr (inr (inl (not', nob, tb, e)))) (inr (inr (inr (_, ntb, _, _)))) =
    absurd (ntb tb)
Rule-IsMirrored c b o t r s (inr (inr (inr (not', nob, ntb, e)))) (inl (to, _)) =
    absurd (not' (sym to))
Rule-IsMirrored c b o t r s (inr (inr (inr (not', nob, ntb, e)))) (inr (inl (_, tb, _))) =
    absurd (ntb tb)
Rule-IsMirrored c b o t r s (inr (inr (inr (not', nob, ntb, e)))) (inr (inr (inl (_, _, ob, _)))) =
    absurd (nob ob)
Rule-IsMirrored c b o t r s (inr (inr (inr (not', nob, ntb, e)))) (inr (inr (inr (_, _, _, e')))) =
    both_clash c r s e e'

-- `merge_properties` of maps of values that can be stored treats both sides alike: with the sides
-- exchanged it holds at every name the same value, up to the payloads of NaNs, and the same conflict
-- with its sides exchanged.
pub merge_properties_comm :
    (base ours theirs : List Property) (name : Bytes)
    → All (λ p. IsStored p.value) base
    → All (λ p. IsStored p.value) ours
    → All (λ p. IsStored p.value) theirs
    → (m n : Merged) × (merge_properties base ours theirs ≡ ok m)
      × (merge_properties base theirs ours ≡ ok n)
      × Agree (get m.properties name) (get n.properties name)
      × (find PropertyConflict.property name n.conflicts
          ≡ exchanged_in (find PropertyConflict.property name m.conflicts))
merge_properties_comm base ours theirs name hb ho ht =
    let (m, run, r, rule, (value, clash), _) =
      merge_properties-Rule base ours theirs name hb ho ht in
    let (n, run', s, rule', (value', clash'), _) =
      merge_properties-Rule base theirs ours name hb ht ho in
    let (agree, mirrored) =
      Rule-IsMirrored (conflict_at base ours theirs name) (get base name) (get ours name)
        (get theirs name) r s rule rule' in
    (
      m,
      n,
      run,
      run',
      ap canonical_in value ∙ agree ∙ ap canonical_in (sym value'),
      clash' ∙ mirrored ∙ ap exchanged_in (sym clash),
    )
