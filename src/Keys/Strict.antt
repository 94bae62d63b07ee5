-- ===== src/Keys/Strict.antt =====
-- The decoder accepts nothing but what the encoder writes.
mod Bodies
mod Framing
mod Scalars
pub use Scalars.{Exact, ok_injective}
use acetone.Prelude.{
  ℕ, zero, suc, ◌+◌, ◌*◌, ◌≤◌, ◌<◌, ◌≡◌, refl, sym, ◌∙◌, ap, subst, List, [], ◌∷◌, ◌++◌, arith,
  true, false, Bool,
}
use acetone.Prelude.{
  append_assoc, append-nil, length, ltb, ltb→ge, ◌==◌, ==_iff, if◌then◌else◌, Bool-cases, inl, inr,
  ◌⊎◌, ◌≢◌,
}
use acetone.Prelude.Bytes.{IsBytes}
use acetone.Prelude.Result.{ok, err, out_of_fuel, ◌>>=◌, ◌>>◌, refuse, bind_parts}
use acetone.Keys.Tag
use acetone.Keys.Read.{
  Read, read_u8, peek_u8, read_scalar, read_element, read_elements, decode_key_loop, decode_key,
  depth_exceeded,
}
use acetone.Keys.Encoding.{encoding, encodings, IsKey, AreKeys}
use acetone.Model.{IsValue, AreValues}
use acetone.Model.{Value, Values, list, nil, cons}
use Scalars.{read_scalar_ok}

-- The encodings of the items of a list, its end mark, and the rest.
record ExactList (d : ℕ) (input : List ℕ) (q : Values × List ℕ) : Type 0 where
  split : input ≡ encodings q.0 ++ (Tag.list_end ∷ q.1)
  values : AreValues q.0
  keys : AreKeys d q.0
  rest : IsBytes q.1

-- What a successful read has tested and read, for each of the two readers.
pub element_facts :
    (f d : ℕ) (input : List ℕ) (q : Value × List ℕ)
    → read_element (suc f) d input ≡ ok q
    → (d ≤ Tag.max_depth)
      × (tag : ℕ) × (rest : List ℕ) × (input ≡ tag ∷ rest)
      × ((if tag == Tag.list
            then (read_elements f (d + 1) rest >>= λ (vs, after). ok (list vs, after))
            else read_scalar tag rest)
          ≡ ok q)
unfolding read_element read_u8
element_facts f d [] q e = ground arith
element_facts f d (tag ∷ rest) q e = elim (Bool-cases (ltb Tag.max_depth d)) [
  | inl deep ↦ cc (rw deep at e)
  | inr fits ↦ (ltb→ge _ _ fits, tag, rest, refl, rw fits at e)
]

pub elements_facts :
    (f d : ℕ) (input : List ℕ) (q : Values × List ℕ)
    → read_elements (suc f) d input ≡ ok q
    → ((after : List ℕ) × (input ≡ Tag.list_end ∷ after) × (q ≡ (nil, after)))
      ⊎ ((read_element f d input >>= λ (v, rest).
            read_elements f d rest >>= λ (vs, after). ok (cons v vs, after))
          ≡ ok q)
unfolding read_elements read_u8 peek_u8
elements_facts f d [] q e = cc
elements_facts f d (b ∷ bs) q e = elim (Bool-cases (b == Tag.list_end)) [
  | inl end ↦ inl (bs, rw ((==_iff b Tag.list_end).0 end), sym (ok_injective (rw end at e)))
  | inr more ↦ inr (rw more at e)
]

element_without_fuel :
    (d : ℕ) (input : List ℕ) (q : Value × List ℕ) → read_element zero d input ≢ ok q
unfolding read_element
element_without_fuel d input q = λ e. cc

elements_without_fuel :
    (d : ℕ) (input : List ℕ) (q : Values × List ℕ) → read_elements zero d input ≢ ok q
unfolding read_elements
elements_without_fuel d input q = λ e. cc

list-Exact :
    (d tag : ℕ) (rest : List ℕ) (p : Values × List ℕ) (q : Value × List ℕ)
    → (tag == Tag.list) ≡ true
    → d ≤ Tag.max_depth
    → ExactList (d + 1) rest p
    → ◌≡◌ {A = Read (Value × List ℕ)} (ok (list p.0, p.1)) (ok q)
    → Exact d (tag ∷ rest) q
unfolding encoding
list-Exact d tag rest p q l shallow x e =
    subst (λ u. Exact d (u ∷ rest) q) (sym ((==_iff tag Tag.list).0 l))
      (subst (Exact d (Tag.list ∷ rest)) (ok_injective e) record {
        split =
            ap (λ t. Tag.list ∷ t)
              (x.split ∙ sym (append_assoc (encodings p.0) (Tag.list_end ∷ []) p.1));
        value = x.values;
        key = (shallow, x.keys);
        rest = x.rest;
      })

nil-Exact :
    (d : ℕ) (input after : List ℕ) (q : Values × List ℕ)
    → IsBytes input
    → input ≡ Tag.list_end ∷ after
    → q ≡ (nil, after)
    → ExactList d input q
unfolding encoding
nil-Exact d input after q h split same =
    subst (ExactList d input) (sym same)
      record { split = split; values = tt; keys = tt; rest = (rw split at h).1 }

cons-Exact :
    (d : ℕ) (input : List ℕ) (p : Value × List ℕ) (r q : Values × List ℕ)
    → Exact d input p
    → ExactList d p.1 r
    → ◌≡◌ {A = Read (Values × List ℕ)} (ok (cons p.0 r.0, r.1)) (ok q)
    → ExactList d input q
unfolding encoding
cons-Exact d input p r q x xs e = subst (ExactList d input) (ok_injective e) record {
  split =
      x.split
      ∙ ap (λ t. encoding p.0 ++ t) xs.split
      ∙ sym (append_assoc (encoding p.0) (encodings r.0) (Tag.list_end ∷ r.1));
  values = (x.value, xs.values);
  keys = (x.key, xs.keys);
  rest = xs.rest;
}

mutual
  unfolding encoding

  pub read_element-Exact :
      (f d : ℕ) (input : List ℕ) (q : Value × List ℕ)
      → IsBytes input
      → read_element f d input ≡ ok q
      → Exact d input q
  read_element-Exact zero d input q h e = absurd (element_without_fuel d input q e)
  read_element-Exact (suc f) d input q h e =
      let (shallow, tag, rest, split, e') = element_facts f d input q e in
      let after : IsBytes rest = (rw split at h).1 in
      subst (λ t. Exact d t q) (sym split)
        (elim (Bool-cases (tag == Tag.list)) [
          | inl l ↦
              let (p, e1, e2) = bind_parts (read_elements f (d + 1) rest) _ (rw l at e') in
              list-Exact d tag rest p q l shallow (read_elements-Exact f (d + 1) rest p after e1) e2
          | inr other ↦ read_scalar_ok d tag rest q shallow after (rw other at e')
        ])

  read_elements-Exact :
      (f d : ℕ) (input : List ℕ) (q : Values × List ℕ)
      → IsBytes input
      → read_elements f d input ≡ ok q
      → ExactList d input q
  read_elements-Exact zero d input q h e = absurd (elements_without_fuel d input q e)
  read_elements-Exact (suc f) d input q h e = elim (elements_facts f d input q e) [
    | inl (after, split, same) ↦ nil-Exact d input after q h split same
    | inr e' ↦
        let (p, e1, e2) = bind_parts (read_element f d input) _ e' in
        let (r, e3, e4) = bind_parts (read_elements f d p.1) _ e2 in
        let x = read_element-Exact f d input p h e1 in
        cons-Exact d input p r q x (read_elements-Exact f d p.1 r x.rest e3) e4
  ]

-- A tuple, and the input that it was read from.
abbrev ExactTuple : List ℕ → Values → Type 0
ExactTuple input vs = (input ≡ encodings vs) × AreValues vs × AreKeys 0 vs

decode_key_loop-ExactTuple :
    (f : ℕ) (input : List ℕ) (vs : Values)
    → IsBytes input
    → decode_key_loop f input ≡ ok vs
    → ExactTuple input vs
unfolding decode_key_loop encodings
decode_key_loop-ExactTuple f [] vs h e = subst (ExactTuple []) (ok_injective e) (refl, tt, tt)
decode_key_loop-ExactTuple zero (b ∷ bs) vs h e = cc
decode_key_loop-ExactTuple (suc f) (b ∷ bs) vs h e =
    let (p, e1, e2) = bind_parts (read_element (2 * length (b ∷ bs) + 1) 0 (b ∷ bs)) _ e in
    let (ws, e3, e4) = bind_parts (decode_key_loop f p.1) _ e2 in
    let x = read_element-Exact (2 * length (b ∷ bs) + 1) 0 (b ∷ bs) p h e1 in
    let (split, values, keys) = decode_key_loop-ExactTuple f p.1 ws x.rest e3 in
    subst (ExactTuple (b ∷ bs)) (ok_injective e4)
      (x.split ∙ ap (λ t. encoding p.0 ++ t) split, (x.value, values), (x.key, keys))

pub decode_key-ExactTuple :
    (input : List ℕ) (vs : Values)
    → IsBytes input
    → decode_key input ≡ ok vs
    → (input ≡ encodings vs) × AreValues vs × AreKeys 0 vs
unfolding decode_key
decode_key-ExactTuple input vs = decode_key_loop-ExactTuple (length input) input vs
