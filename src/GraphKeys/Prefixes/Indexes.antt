-- ===== src/GraphKeys/Prefixes/Indexes.antt =====
-- The keys that the index prefixes of graph_keys.rs cover.
use acetone.Prelude.{ℕ, ◌≡◌, ◌↔◌, refl, List, [], ◌∷◌, true, arith, ◌≤◌, inl, inr}
use acetone.Prelude.Result.{ok}
use acetone.Keys.Tag
use acetone.Keys.RoundTrip.{normals}
use acetone.Keys.Encoding.{AreKeys}
use acetone.Keys.Accepts.{encode_key_outcome}
use acetone.Keys.Contract.{append}
use acetone.Keys.Front.{IsAsLong}
use acetone.GraphKeys.Node.{node_to_value}
use acetone.GraphKeys.Index.{
  IndexEntry, strings, encode_index_entry, index_prefix, index_value_prefix,
}
use acetone.GraphKeys.Range.{starts_with}
use acetone.GraphKeys.NodeCodec.{from_encode_ok}
use acetone.GraphKeys.IndexCodec.{IsEntryValue, normals-strings}
use acetone.Model.{Value, Values, string, list, nil, cons, IsValue, AreValues}
use acetone.GraphKeys.Prefixes.{key_prefix_iff, two_same, string_same, list_same, both_iff}

three_same :
    {a a' b b' c c' : Value}
    → cons a (cons b (cons c nil)) ≡ cons a' (cons b' (cons c' nil))
    → (a ≡ a') × (b ≡ b') × (c ≡ c')
three_same e = (cc, cc, cc)

strings_same : (ps qs : List (List ℕ)) → strings ps ≡ strings qs → ps ≡ qs
strings_same [] [] e = refl
strings_same [] (q ∷ qs) e = cc
strings_same (p ∷ ps) [] e = cc
strings_same (p ∷ ps) (q ∷ qs) e =
    let rest : strings ps ≡ strings qs = cc in
    let here : p ≡ q = cc in rw (here, strings_same ps qs rest) refl

indexed_same_iff :
    (l m : List ℕ) (ps qs : List (List ℕ)) (vs ws : Values)
    → (normals (cons (string l) (cons (list (strings ps)) (cons (list vs) nil)))
        ≡ normals (cons (string m) (cons (list (strings qs)) (cons (list ws) nil))))
      ↔ ((l ≡ m) × (ps ≡ qs) × (normals vs ≡ normals ws))
unfolding normals
indexed_same_iff l m ps qs vs ws =
    rw (normals-strings ps, normals-strings qs)
      (
        λ e.
            let (label, names, values) = three_same e in
            (string_same label, strings_same ps qs (list_same names), list_same values),
        λ (label, names, values). rw (label, names, values) refl,
      )

-- The prefix of an index and a tuple of values covers exactly the entries of that index, with the
-- label and the property names in order, that carry these values.
pub index_value_prefix_iff :
    (e : IndexEntry) (label : List ℕ) (properties : List (List ℕ)) (values : Values) (p x : List ℕ)
    → IsEntryValue e
    → IsValue (string label)
    → AreValues (strings properties)
    → AreValues values
    → index_value_prefix label properties values ≡ ok p
    → encode_index_entry e ≡ ok x
    → (starts_with p x ≡ true)
      ↔ ((e.label ≡ label) × (e.properties ≡ properties) × (normals e.values ≡ normals values))
unfolding index_value_prefix encode_index_entry append
index_value_prefix_iff e label properties values p x (hl, hp, hv, hn) hl' hp' hv' ep ex =
    both_iff
      (key_prefix_iff
        (cons (string e.label) (cons (list (strings e.properties)) (cons (list e.values) nil)))
        (cons (node_to_value e.node) nil)
        (cons (string label) (cons (list (strings properties)) (cons (list values) nil))) p x
        (unfold IsAsLong in tt) (unfold node_to_value in (hl, (hp, (hv, (hn, tt)))))
        (hl', (hp', (hv', tt))) (from_encode_ok _ p ep) (from_encode_ok _ x ex))
      (indexed_same_iff e.label label e.properties properties e.values values)

strings-AreKeys : (ps : List (List ℕ)) (d : ℕ) → d ≤ Tag.max_depth → AreKeys d (strings ps)
strings-AreKeys [] d h = tt
strings-AreKeys (p ∷ ps) d h = (h, strings-AreKeys ps d h)

named_same_iff :
    (l m : List ℕ) (ps qs : List (List ℕ))
    → (normals (cons (string l) (cons (list (strings ps)) nil))
        ≡ normals (cons (string m) (cons (list (strings qs)) nil)))
      ↔ ((l ≡ m) × (ps ≡ qs))
unfolding normals
named_same_iff l m ps qs =
    rw (normals-strings ps, normals-strings qs)
      (
        λ e.
            let (label, names) = two_same e in
            (string_same label, strings_same ps qs (list_same names)),
        λ (label, names). rw (label, names) refl,
      )

index_prefix_ok :
    (label : List ℕ) (properties : List (List ℕ))
    → IsValue (string label)
    → AreValues (strings properties)
    → (p : List ℕ) × (index_prefix label properties ≡ ok p)
unfolding index_prefix
index_prefix_ok label properties hl hp =
    elim (encode_key_outcome (cons (string label) (cons (list (strings properties)) nil))
      (hl, (hp, tt))) [
        | inl (keys, code) ↦ (_, code)
        | inr (refused, error, code) ↦
            absurd (
              refused
                (omega arith, ((omega arith, strings-AreKeys properties 1 (omega arith)), tt)))
      ]

-- `index_prefix` never panics, and the prefix covers exactly the entries of the index with the label
-- and the property names in order.
pub index_prefix_iff :
    (e : IndexEntry) (label : List ℕ) (properties : List (List ℕ)) (x : List ℕ)
    → IsEntryValue e
    → IsValue (string label)
    → AreValues (strings properties)
    → encode_index_entry e ≡ ok x
    → (p : List ℕ) × (index_prefix label properties ≡ ok p)
      × ((starts_with p x ≡ true) ↔ ((e.label ≡ label) × (e.properties ≡ properties)))
unfolding index_prefix encode_index_entry append
index_prefix_iff e label properties x (hl, hp, hv, hn) hl' hp' ex =
    let (p, ep) = index_prefix_ok label properties hl' hp' in
    (
      p,
      ep,
      both_iff
          (key_prefix_iff (cons (string e.label) (cons (list (strings e.properties)) nil))
            (cons (list e.values) (cons (node_to_value e.node) nil))
            (cons (string label) (cons (list (strings properties)) nil)) p x (unfold IsAsLong in tt)
            (unfold node_to_value in (hl, (hp, (hv, (hn, tt))))) (hl', (hp', tt)) ep
            (from_encode_ok _ x ex))
          (named_same_iff e.label label e.properties properties),
    )
