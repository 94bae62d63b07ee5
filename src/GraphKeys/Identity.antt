-- ===== src/GraphKeys/Identity.antt =====
-- The identities that the constructors of graph_keys.rs accept.
use acetone.Prelude.{ℕ, ◌≡◌, refl, Bool, true, false, ◌⊎◌, inl, inr, List, by_test, length, ◌==◌}
use acetone.Prelude.Result.{ok, err, refuse, ensure, ◌>>◌}
use acetone.GraphKeys.{
  GraphKeyError, Keyed, is_empty, is_nil, is_null, check_scalar, nan_key_value, null_key_value,
  non_scalar, empty_name, empty_key_tuple, shape,
}
use acetone.GraphKeys.Node.{NodeKey, check_key, new_node_key}
use acetone.GraphKeys.Edge.{EdgeKey, new_edge_key}
use acetone.GraphKeys.Index.{IndexEntry, new_index_entry, any_empty, length_of}
use acetone.Model.{
  Value, Values, null, bool, int, float, string, bytes, date, time, date_time, duration, list, nil,
  cons, is_nan,
}
use Prim.Native.String.{String}

-- A scalar that is no NaN, and one that is not null besides.
abbrev pub IsScalar : Value → Type 0
IsScalar (list items) = ⊥
IsScalar (float x) = is_nan x ≡ false
IsScalar _ = Unit

abbrev pub AreParts : Values → Type 0
AreParts nil = Unit
AreParts (cons v vs) = (is_null v ≡ false) × (IsScalar v × AreParts vs)

abbrev pub IsNodeKey : NodeKey → Type 0
IsNodeKey k = (is_empty k.label ≡ false) × ((is_nil k.key ≡ false) × AreParts k.key)

abbrev pub IsEdgeKey : EdgeKey → Type 0
IsEdgeKey e = (is_empty e.rtype ≡ false) × IsScalar e.disc

abbrev pub IsIndexEntry : IndexEntry → Type 0
IsIndexEntry e =
    (is_empty e.label ≡ false)
    × ((is_empty e.properties ≡ false)
        × ((any_empty e.properties ≡ false) × ((length e.properties == length_of e.values) ≡ true)))

-- A constructor takes what is of the kind `Good`, and refuses the rest with an error.
abbrev pub Takes {ℓ} : {A : Type ℓ} → Type 0 → A → Keyed A → Type ℓ
Takes Good made done = (Good × (done ≡ ok made)) ⊎ ((¬ Good) × (e : GraphKeyError) × (done ≡ err e))

-- A test in front, which refuses what is not good.
refuse-Takes {ℓ} :
    {A : Type ℓ} (test : Bool) (error : GraphKeyError) (Rest : Type 0) (made : A) (next : Keyed A)
    → Takes Rest made next
    → Takes ((test ≡ false) × Rest) made (refuse test error >> next)
refuse-Takes true error Rest made next t = inr ((λ good. cc good.0), error, refl)
refuse-Takes false error Rest made next (inl (rest, e)) = inl ((refl, rest), e)
refuse-Takes false error Rest made next (inr (bad, error', e)) =
    inr ((λ good. bad good.1), error', e)

ensure-Takes {ℓ} :
    {A : Type ℓ} (test : Bool) (error : GraphKeyError) (made : A)
    → Takes (test ≡ true) made (ensure test error >> ok made)
ensure-Takes true error made = inl (refl, refl)
ensure-Takes false error made = inr ((λ good. cc good), error, refl)

then-Takes {ℓ} :
    {A : Type ℓ} (First Rest : Type 0) (first : Keyed (Unit {0})) (made : A) (next : Keyed A)
    → Takes First tt first
    → Takes Rest made next
    → Takes (First × Rest) made (first >> next)
then-Takes First Rest first made next (inl (good, e)) (inl (rest, e')) = inl ((good, rest), rw e e')
then-Takes First Rest first made next (inl (good, e)) (inr (bad, error, e')) =
    inr ((λ all. bad all.1), error, rw e e')
then-Takes First Rest first made next (inr (bad, error, e)) _ =
    inr ((λ all. bad all.0), error, rw e refl)

last-Takes {ℓ} :
    {A : Type ℓ} (First : Type 0) (first : Keyed (Unit {0})) (made : A)
    → Takes First tt first
    → Takes First made (first >> ok made)
last-Takes First first made (inl (good, e)) = inl (good, rw e refl)
last-Takes First first made (inr (bad, error, e)) = inr (bad, error, rw e refl)

check_scalar-Takes : (v : Value) (context : String) → Takes (IsScalar v) tt (check_scalar v context)
unfolding check_scalar
check_scalar-Takes (list items) context = inr ((λ bad. bad), non_scalar context, refl)
check_scalar-Takes (float x) context =
    by_test (is_nan x) (λ nan. inr ((λ good. cc (nan, good)), nan_key_value context, rw nan refl))
      (λ number. inl (number, rw number refl))
check_scalar-Takes null context = inl (tt, refl)
check_scalar-Takes (bool b) context = inl (tt, refl)
check_scalar-Takes (int n) context = inl (tt, refl)
check_scalar-Takes (string s) context = inl (tt, refl)
check_scalar-Takes (bytes b) context = inl (tt, refl)
check_scalar-Takes (date d) context = inl (tt, refl)
check_scalar-Takes (time t) context = inl (tt, refl)
check_scalar-Takes (date_time t) context = inl (tt, refl)
check_scalar-Takes (duration d) context = inl (tt, refl)

pub check_key-Takes : (vs : Values) → Takes (AreParts vs) tt (check_key vs)
unfolding check_key
check_key-Takes nil = inl (tt, refl)
check_key-Takes (cons v vs) = refuse-Takes (is_null v) null_key_value _ tt _ (
    then-Takes (IsScalar v) (AreParts vs) _ tt _ (check_scalar-Takes v "node key tuple")
      (check_key-Takes vs))

-- `NodeKey::new` takes exactly a label that is not empty with a tuple of one or more values, none of
-- them null, a list or a NaN, and keeps both; it refuses everything else with an error.
pub new_node_key-Takes :
    (label : List ℕ) (key : Values)
    → Takes
        (IsNodeKey (record { label = label; key = key }))
        (record { label = label; key = key })
        (new_node_key label key)
unfolding new_node_key
new_node_key-Takes label key = refuse-Takes (is_empty label) (empty_name "primary label") _ _ _ (
    refuse-Takes (is_nil key) empty_key_tuple _ _ _
      (last-Takes (AreParts key) (check_key key) _ (check_key-Takes key)))

-- `EdgeKey::new` takes exactly a type that is not empty with a discriminator that is null or a scalar
-- other than NaN, and keeps its four parts; it refuses everything else with an error.
pub new_edge_key-Takes :
    (src : NodeKey) (rtype : List ℕ) (dst : NodeKey) (disc : Value)
    → Takes
        (IsEdgeKey (record { src = src; rtype = rtype; dst = dst; disc = disc }))
        (record { src = src; rtype = rtype; dst = dst; disc = disc })
        (new_edge_key src rtype dst disc)
unfolding new_edge_key
new_edge_key-Takes src rtype dst disc =
    refuse-Takes (is_empty rtype) (empty_name "relationship type") _ _ _ (
      last-Takes (IsScalar disc) (check_scalar disc "discriminator") _
        (check_scalar-Takes disc "discriminator"))

-- `IndexEntry::new` takes exactly a label and property names, at least one, none of them empty, with
-- as many values as names, and keeps its four parts; it refuses everything else with an error.
pub new_index_entry-Takes :
    (label : List ℕ) (properties : List (List ℕ)) (values : Values) (node : NodeKey)
    → Takes
        (IsIndexEntry
          (record { label = label; properties = properties; values = values; node = node }))
        (record { label = label; properties = properties; values = values; node = node })
        (new_index_entry label properties values node)
unfolding new_index_entry
new_index_entry-Takes label properties values node =
    refuse-Takes (is_empty label) (empty_name "index label") _ _ _ (
      refuse-Takes (is_empty properties) (empty_name "index property") _ _ _ (
        refuse-Takes (any_empty properties) (empty_name "index property") _ _ _ (
          ensure-Takes (length properties == length_of values)
            (shape "index entry property and value counts differ") _)))

-- What a constructor took is of its kind, and is what it was given.
pub taken {ℓ} :
    {A : Type ℓ} (Good : Type 0) (made got : A) (done : Keyed A)
    → Takes Good made done
    → done ≡ ok got
    → Good × (made ≡ got)
taken Good made got done (inl (good, e)) e' = (good, cc (e, e'))
taken Good made got done (inr (bad, error, e)) e' = cc (e, e')

pub takes {ℓ} :
    {A : Type ℓ} (Good : Type 0) (made : A) (done : Keyed A)
    → Takes Good made done
    → Good
    → done ≡ ok made
takes Good made done (inl (_, e)) good = e
takes Good made done (inr (bad, _, _)) good = absurd (bad good)
