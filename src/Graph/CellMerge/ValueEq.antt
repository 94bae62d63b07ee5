-- ===== src/Graph/CellMerge/ValueEq.antt =====
-- Which values have the same encoding.
use acetone.Prelude.{
  ℕ, ◌≡◌, ◌⊎◌, ◌↔◌, inl, inr, refl, sym, ◌∙◌, ap, subst, Bool, true, false, [], Option, none, some,
  by_test, if◌then◌else◌,
}
use acetone.Prelude.Result.{ok}
use acetone.ValueCodec.Write.{encode_value, write_float, length_of}
use acetone.ValueCodec.Read.{decode_value}
use acetone.ValueCodec.Floats.{canonical_nan_bits}
use acetone.ValueCodec.Item.{item, items, IsItem, IsSized}
use acetone.ValueCodec.Canonical.{canonical, canonicals}
use acetone.ValueCodec.RoundTrip.{decode_value-item}
use acetone.ValueCodec.Contract.{encode_value_outcome}
use acetone.Prolly.Types.{bytes_eq}
use acetone.Prolly.Ordered.{eq_of_bytes_eq, bytes_eq_self}
use acetone.Graph.CellMerge.{Fallible, value_eq, opt_eq}
use acetone.Model.{is_nan, IsValue}
use acetone.Model.{
  Value, Values, null, bool, int, float, string, bytes, date, time, date_time, duration, list, nil,
  cons,
}

-- A Rust value that can be stored.
abbrev pub IsStored : Value → Type 0
IsStored v = IsValue v × IsSized v × IsItem 0 v

abbrev pub IsStoredIn : Option Value → Type 0
IsStoredIn none = Unit
IsStoredIn (some v) = IsStored v

abbrev pub canonical_in : Option Value → Option Value
canonical_in none = none
canonical_in (some v) = some (canonical v)

-- Two values that differ at most in the payloads of NaNs, or that are both absent.
abbrev pub Agree : Option Value → Option Value → Type 0
Agree a b = canonical_in a ≡ canonical_in b

encode_stored : (v : Value) → IsStored v → encode_value v ≡ ok (item v)
encode_stored v (h, z, k) = elim (encode_value_outcome v h z) [
  | inl (_, written) ↦ written
  | inr (refused, _, _) ↦ absurd (refused k)
]

write_float-canonical :
    (x : ℕ) → write_float [] (if is_nan x then canonical_nan_bits else x) ≡ write_float [] x
unfolding write_float is_nan
write_float-canonical x =
    by_test (is_nan x) (λ nan. rw nan refl)
      (λ number.
        subst (λ b. write_float [] (if b then canonical_nan_bits else x) ≡ write_float [] x)
          (sym number) refl)

mutual
  unfolding item canonical

  item-canonical : (v : Value) → item (canonical v) ≡ item v
  item-canonical null = refl
  item-canonical (bool b) = refl
  item-canonical (int n) = refl
  item-canonical (float x) = write_float-canonical x
  item-canonical (string s) = refl
  item-canonical (bytes b) = refl
  item-canonical (date d) = refl
  item-canonical (time t) = refl
  item-canonical (date_time t) = refl
  item-canonical (duration d) = refl
  item-canonical (list vs) = let (count, same) = items-canonicals vs in rw (count, same) refl

  items-canonicals :
      (vs : Values)
      → (length_of (canonicals vs) ≡ length_of vs) × (items (canonicals vs) ≡ items vs)
  items-canonicals nil = (refl, refl)
  items-canonicals (cons v vs) =
      let (count, same) = items-canonicals vs in (rw count refl, rw (item-canonical v, same) refl)

ok_same : {a b : Value} → ◌≡◌ {A = Fallible Value} (ok a) (ok b) → a ≡ b
ok_same e = cc

some_same : {a b : Value} → ◌≡◌ {A = Option Value} (some a) (some b) → a ≡ b
some_same e = cc

canonical_of_item :
    (v w : Value) → IsStored v → IsStored w → item v ≡ item w → canonical v ≡ canonical w
canonical_of_item v w (hv, zv, kv) (hw, zw, kw) e =
    cc (decode_value-item v hv zv kv, decode_value-item w hw zw kw, ap decode_value e)

item_of_canonical : (v w : Value) → canonical v ≡ canonical w → item v ≡ item w
item_of_canonical v w e = sym (item-canonical v) ∙ ap item e ∙ item-canonical w

pub value_eq_runs :
    (v w : Value)
    → IsStored v
    → IsStored w
    → (b : Bool) × (value_eq v w ≡ ok b) × ((b ≡ true) ↔ (canonical v ≡ canonical w))
unfolding value_eq
value_eq_runs v w hv hw = (
  bytes_eq (item v) (item w),
  rw (encode_stored v hv, encode_stored w hw) refl,
  (
    (λ e. canonical_of_item v w hv hw (eq_of_bytes_eq (item v) (item w) e)),
    (λ e.
        subst (λ x. bytes_eq (item v) x ≡ true) (item_of_canonical v w e) (bytes_eq_self (item v))),
  ),
)

pub opt_eq_runs :
    (a b : Option Value)
    → IsStoredIn a
    → IsStoredIn b
    → (t : Bool) × (opt_eq a b ≡ ok t) × ((t ≡ true) ↔ Agree a b)
unfolding opt_eq
opt_eq_runs none none ha hb = (true, refl, ((λ _. refl), (λ _. refl)))
opt_eq_runs none (some w) ha hb = (false, refl, ((λ e. cc), (λ e. cc)))
opt_eq_runs (some v) none ha hb = (false, refl, ((λ e. cc), (λ e. cc)))
opt_eq_runs (some v) (some w) ha hb =
    let (t, run, (to, from)) = value_eq_runs v w ha hb in
    (t, run, ((λ e. ap some (to e)), (λ e. from (some_same e))))

-- The two outcomes of a comparison.
pub opt_eq_cases :
    (a b : Option Value)
    → IsStoredIn a
    → IsStoredIn b
    → (Agree a b × (opt_eq a b ≡ ok true)) ⊎ ((¬ Agree a b) × (opt_eq a b ≡ ok false))
opt_eq_cases a b ha hb =
    let (t, run, (to, from)) = opt_eq_runs a b ha hb in
    by_test t (λ yes'. inl (to yes', run ∙ ap ok yes'))
      (λ no'. inr ((λ agree. cc (from agree, no')), run ∙ ap ok no'))
