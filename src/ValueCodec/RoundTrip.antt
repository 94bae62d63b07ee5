-- ===== src/ValueCodec/RoundTrip.antt =====
-- The decoder of values.rs reads back what the encoder promises, but that each NaN comes back as one.
use acetone.Prelude.{
  ℕ, zero, suc, ◌+◌, ◌*◌, ◌^◌, ◌≤◌, ◌<◌, ◌≡◌, refl, ◌∙◌, false, List, [], ◌∷◌, ◌++◌, arith,
}
use acetone.Prelude.{◌==◌, ge→ltb, length, length-append, append_assoc, append-nil, subst}
use acetone.Prelude.Result.{ok, ◌>>=◌}
use acetone.Cbor.{read_u8}
use acetone.Cbor.Heads.{head, code, code-lt_32, split_first, read_head_value-code}
use acetone.ValueCodec.Write.{length_of, max_value_depth}
use acetone.ValueCodec.Read.{read_value, read_items, read_scalar_item, decode_value}
use acetone.ValueCodec.Item.{item, items, IsItem, AreItems, IsSized, AreSized}
use acetone.ValueCodec.Scalars.{ReadsBack, scalar-ReadsBack}
use acetone.ValueCodec.Canonical.{canonical, canonicals}
use acetone.Model.{IsValue, AreValues}
use acetone.Model.{Value, Values, time, date_time, list, nil, cons}

scalar_step :
    (f d major low : ℕ) (rest : List ℕ)
    → d ≤ max_value_depth
    → low < 32
    → (major == 4) ≡ false
    → read_value (suc f) d ((major * 32 + low) ∷ rest) ≡ read_scalar_item major low rest
unfolding read_value read_u8
scalar_step f d major low rest h small other =
    let (quotient, remainder) = split_first major low small in
    rw (ge→ltb max_value_depth d h, quotient, remainder, other) refl

scalar_back :
    (v : Value) (f d : ℕ) (rest : List ℕ)
    → d ≤ max_value_depth
    → ReadsBack v
    → read_value (suc f) d (item v ++ rest) ≡ ok (canonical v, rest)
scalar_back v f d rest h (major, low, body, e, small, other, back) =
    rw e (scalar_step f d major low (body ++ rest) h small other ∙ back rest)

list_step :
    (f d n : ℕ) (rest : List ℕ)
    → d ≤ max_value_depth
    → n < 2 ^ 64
    → n ≤ length rest
    → read_value (suc f) d (head 4 n ++ rest)
      ≡ (read_items f n (d + 1) rest >>= λ (vs, left). ok (list vs, left))
unfolding read_value read_u8 head
list_step f d n rest h small enough =
    let (quotient, remainder) = split_first 4 (code n) (code-lt_32 n) in
    rw
      (
        ge→ltb max_value_depth d h,
        quotient,
        remainder,
        read_head_value-code n rest small,
        ge→ltb (length rest) n enough,
      )
      refl

no_items : (f d : ℕ) (rest : List ℕ) → read_items (suc f) zero d rest ≡ ok (nil, rest)
unfolding read_items
no_items f d rest = refl

items_step :
    (f n d : ℕ) (input : List ℕ)
    → read_items (suc f) (suc n) d input ≡ (
        read_value f d input >>= λ (v, after).
        read_items f n d after >>= λ (vs, rest). ok (cons v vs, rest))
unfolding read_items
items_step f n d input = refl

IsItem-shallow : (d : ℕ) (v : Value) → IsItem d v → d ≤ max_value_depth
IsItem-shallow d (time t) k = k.0
IsItem-shallow d (date_time t) k = k.0
IsItem-shallow d (list vs) k = k.0
IsItem-shallow d _ k = k

head_positive : (major n : ℕ) → 1 ≤ length (head major n)
unfolding head
head_positive major n = omega arith

pub item_positive : (v : Value) (d : ℕ) → IsValue v → IsSized v → IsItem d v → 1 ≤ length (item v)
item_positive (list vs) d h z k =
    unfold item in
    omega (arith, head_positive 4 (length_of vs), length-append (head 4 (length_of vs)) (items vs))
item_positive v d h z k =
    let (major, low, body, e, _, _, _) = scalar-ReadsBack v d tt h z k in rw e (omega arith)

count_fits :
    (vs : Values) (d : ℕ)
    → AreValues vs
    → AreSized vs
    → AreItems d vs
    → length_of vs ≤ length (items vs)
unfolding items
count_fits nil d h z k = omega arith
count_fits (cons v vs) d (h, hs) (z, zs) (k, ks) =
    omega
      (arith, length-append (item v) (items vs), item_positive v d h z k, count_fits vs d hs zs ks)

mutual
  unfolding item canonical

  read_value-item :
      (v : Value) (f d : ℕ) (rest : List ℕ)
      → IsValue v
      → IsSized v
      → IsItem d v
      → 2 * length (item v) ≤ f
      → read_value f d (item v ++ rest) ≡ ok (canonical v, rest)
  read_value-item v zero d rest h z k enough = absurd (omega (arith, item_positive v d h z k))
  read_value-item (list vs) (suc f) d rest h (z, zs) (deep, k) enough =
      rw (append_assoc (head 4 (length_of vs)) (items vs) rest) (
        list_step f d (length_of vs) (items vs ++ rest) deep z
          (omega (arith, count_fits vs (d + 1) h zs k, length-append (items vs) rest))
        ∙ rw
            (read_items-items vs f (d + 1) rest h zs k (
              omega (
                arith,
                head_positive 4 (length_of vs),
                length-append (head 4 (length_of vs)) (items vs),
              )))
            refl)
  read_value-item v (suc f) d rest h z k enough =
      scalar_back v f d rest (IsItem-shallow d v k) (scalar-ReadsBack v d tt h z k)

  read_items-items :
      (vs : Values) (f d : ℕ) (rest : List ℕ)
      → AreValues vs
      → AreSized vs
      → AreItems d vs
      → 2 * length (items vs) + 1 ≤ f
      → read_items f (length_of vs) d (items vs ++ rest) ≡ ok (canonicals vs, rest)
  read_items-items vs zero d rest h z k enough = absurd (omega arith)
  read_items-items nil (suc f) d rest h z k enough = no_items f d rest
  read_items-items (cons v vs) (suc f) d rest (h, hs) (z, zs) (k, ks) enough =
      rw (append_assoc (item v) (items vs) rest) (
        items_step f (length_of vs) d (item v ++ (items vs ++ rest))
        ∙ rw
            (read_value-item v f d (items vs ++ rest) h z k
              (omega (arith, length-append (item v) (items vs))))
            (rw
              (read_items-items vs f d rest hs zs ks
                (omega (arith, length-append (item v) (items vs), item_positive v d h z k)))
              refl))

-- The whole input, with the fuel of `decode_value`.
pub decode_value-item :
    (v : Value) → IsValue v → IsSized v → IsItem 0 v → decode_value (item v) ≡ ok (canonical v)
unfolding decode_value
decode_value-item v h z k =
    let run : read_value (2 * length (item v) + 1) 0 (item v) ≡ ok (canonical v, []) =
      subst (λ t. read_value (2 * length (item v) + 1) 0 t ≡ ok (canonical v, []))
        (append-nil (item v))
        (read_value-item v (2 * length (item v) + 1) 0 [] h z k (omega arith)) in
    rw run refl
