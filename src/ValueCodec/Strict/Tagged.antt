-- ===== src/ValueCodec/Strict/Tagged.antt =====
-- The tagged values of values.rs, read backwards.
use acetone.Prelude.{ℕ, ◌/◌, ◌^◌, ◌≤◌, ◌≡◌, refl, sym, ◌∙◌, ap, subst, List, [], ◌∷◌, ◌++◌, arith}
use acetone.Prelude.{ltb, leb, ◌==◌, ==_iff, ltb→lt, ltb→ge, leb→gt, by_test, append_assoc, bit_and}
use acetone.Prelude.Int.{ℤ, pos, negsuc, IsSigned}
use acetone.Prelude.Bytes.{IsBytes}
use acetone.Prelude.Result.{ok, err, out_of_fuel, bind_parts, ensure_passed, refuse_passed}
use acetone.Keys.Write.{unsigned_abs}
use acetone.Cbor.{Read, ValueDecodeError, read_u8, read_i64, read_head, read_head_value}
use acetone.Cbor.Heads.{head, code}
use acetone.Cbor.Strict.{HeadRead, read_head_value-HeadRead, read_head-exact}
use acetone.ValueCodec.Write.{tag_date, tag_time, tag_date_time, tag_duration, max_value_depth}
use acetone.ValueCodec.Read.{
  map_err, array_error, days_error, expect_array, read_date, read_time, read_date_time,
  read_duration, read_tagged, to_i16,
}
use acetone.ValueCodec.Item.{item, int_item, IsItem, IsSized}
use acetone.Model.{nanos_per_day, max_offset_minutes, IsValue}
use acetone.Model.{Value}
use acetone.ValueCodec.Strict.Fields.{Exact, ok_same, left_bytes, head_split, read_i64-IntRead}

-- A value read behind its tag.
abbrev pub TaggedRead : ℕ → ℕ → List ℕ → Value × List ℕ → Type 0
TaggedRead d tag input q =
    (body : List ℕ) × (input ≡ body ++ q.1)
    × (item q.0 ≡ head 6 tag ++ body)
    × IsValue q.0
    × IsSized q.0
    × IsItem d q.0

map_err_ok :
    {A : Type 0} (f : ValueDecodeError → ValueDecodeError) (r : Read A) (a : A)
    → map_err f r ≡ ok a
    → r ≡ ok a
map_err_ok f (ok b) a e = cc
map_err_ok f (err error) a e = cc
map_err_ok f out_of_fuel a e = cc

read_date-TaggedRead :
    (d : ℕ) (input : List ℕ) (q : Value × List ℕ)
    → d ≤ max_value_depth
    → IsBytes input
    → read_date input ≡ ok q
    → TaggedRead d tag_date input q
unfolding read_date item
read_date-TaggedRead d input q deep h e =
    let (p, e1, e2) = bind_parts (map_err days_error (read_i64 input)) _ e in
    let (split, signed) = read_i64-IntRead input p h (map_err_ok days_error _ p e1) in
    subst (TaggedRead d tag_date input) (ok_same e2) (int_item p.0, split, refl, signed, tt, deep)

read_time-TaggedRead :
    (d : ℕ) (input : List ℕ) (q : Value × List ℕ)
    → d ≤ max_value_depth
    → IsBytes input
    → read_time input ≡ ok q
    → TaggedRead d tag_time input q
unfolding read_time read_u8 item
read_time-TaggedRead d [] q deep h e = cc
read_time-TaggedRead d (ib ∷ after) q deep (hb, h) e =
    let (high, e1) = ensure_passed (ib / 2 ^ 5 == 0) _ _ q e in
    let (p, e2, e3) = bind_parts (read_head_value (bit_and ib 0x1f) after) _ e1 in
    let (early, e4) = refuse_passed (leb nanos_per_day p.0) _ _ q e3 in
    let split =
      head_split ib 0 after p ((==_iff _ 0).0 high) (read_head_value-HeadRead _ after p h e2) in
    subst (TaggedRead d tag_time (ib ∷ after)) (ok_same e4)
      (head 0 p.0, split, refl, omega (arith, leb→gt _ _ early), tt, (deep, leb→gt _ _ early))

expect_array-split :
    (n t : ℕ) (input rest : List ℕ)
    → IsBytes input
    → expect_array n t input ≡ ok rest
    → input ≡ head 4 n ++ rest
unfolding expect_array
expect_array-split n t input rest h e =
    let (p, e1, e2) = bind_parts (map_err (array_error t) (read_head 4 input)) _ e in
    let (same, e3) = ensure_passed (p.0 == n) _ _ rest e2 in
    let (_, split) = read_head-exact 4 input p h (map_err_ok (array_error t) _ p e1) in
    split ∙ ap (λ m. head 4 m ++ p.1) ((==_iff p.0 n).0 same) ∙ ap (λ r. head 4 n ++ r) (ok_same e3)

to_i16_ok : (z n : ℤ) → to_i16 z ≡ ok n → (z ≡ n) × IsSigned 15 n
to_i16_ok (pos m) n e =
    by_test (ltb m (2 ^ 15))
      (λ near.
        subst (λ t. (pos m ≡ t) × IsSigned 15 t) (ok_same (rw near at e)) (refl, ltb→lt _ _ near))
      (λ far. cc (rw far at e))
to_i16_ok (negsuc m) n e =
    by_test (ltb m (2 ^ 15))
      (λ near.
        subst (λ t. (negsuc m ≡ t) × IsSigned 15 t) (ok_same (rw near at e))
          (refl, ltb→lt _ _ near))
      (λ far. cc (rw far at e))

join_two : (input a b c rest : List ℕ) → input ≡ a ++ b → b ≡ c ++ rest → input ≡ (a ++ c) ++ rest
join_two input a b c rest e f = e ∙ ap (λ t. a ++ t) f ∙ sym (append_assoc a c rest)

read_date_time-TaggedRead :
    (d : ℕ) (input : List ℕ) (q : Value × List ℕ)
    → d ≤ max_value_depth
    → IsBytes input
    → read_date_time input ≡ ok q
    → TaggedRead d tag_date_time input q
unfolding read_date_time item
read_date_time-TaggedRead d input q deep h e =
    let (r, e1, e2) = bind_parts (expect_array 2 tag_date_time input) _ e in
    let front = expect_array-split 2 tag_date_time input r h e1 in
    let hr = left_bytes input (head 4 2) r h front in
    let (p, e3, e4) = bind_parts (read_i64 r) _ e2 in
    let (split, signed) = read_i64-IntRead r p hr e3 in
    let (o, e5, e6) = bind_parts (read_i64 p.1) _ e4 in
    let (split', signed') = read_i64-IntRead p.1 o (left_bytes r (int_item p.0) p.1 hr split) e5 in
    let (m, e7, e8) = bind_parts (to_i16 o.0) _ e6 in
    let (same, narrow) = to_i16_ok o.0 m e7 in
    let (near, e9) = refuse_passed (ltb max_offset_minutes (unsigned_abs m)) _ _ q e8 in
    subst (TaggedRead d tag_date_time input) (ok_same e9) (
      head 4 2 ++ (int_item p.0 ++ int_item m),
      join_two input (head 4 2) r (int_item p.0 ++ int_item m) o.1 front (
          join_two r (int_item p.0) p.1 (int_item m) o.1 split
            (split' ∙ ap (λ t. int_item t ++ o.1) same)),
      refl,
      (signed, narrow),
      tt,
      (deep, ltb→ge _ _ near),
    )

read_duration-TaggedRead :
    (d : ℕ) (input : List ℕ) (q : Value × List ℕ)
    → d ≤ max_value_depth
    → IsBytes input
    → read_duration input ≡ ok q
    → TaggedRead d tag_duration input q
unfolding read_duration item
read_duration-TaggedRead d input q deep h e =
    let (r, e1, e2) = bind_parts (expect_array 3 tag_duration input) _ e in
    let front = expect_array-split 3 tag_duration input r h e1 in
    let hr = left_bytes input (head 4 3) r h front in
    let (p, e3, e4) = bind_parts (read_i64 r) _ e2 in
    let (split, signed) = read_i64-IntRead r p hr e3 in
    let hp = left_bytes r (int_item p.0) p.1 hr split in
    let (o, e5, e6) = bind_parts (read_i64 p.1) _ e4 in
    let (split', signed') = read_i64-IntRead p.1 o hp e5 in
    let (n, e7, e8) = bind_parts (read_i64 o.1) _ e6 in
    let (split'', signed'') =
      read_i64-IntRead o.1 n (left_bytes p.1 (int_item o.0) o.1 hp split') e7 in
    subst (TaggedRead d tag_duration input) (ok_same e8) (
      head 4 3 ++ (int_item p.0 ++ (int_item o.0 ++ int_item n.0)),
      join_two input (head 4 3) r (int_item p.0 ++ (int_item o.0 ++ int_item n.0)) n.1 front (
          join_two r (int_item p.0) p.1 (int_item o.0 ++ int_item n.0) n.1 split
            (join_two p.1 (int_item o.0) o.1 (int_item n.0) n.1 split' split'')),
      refl,
      (signed, signed', signed''),
      tt,
      deep,
    )

read_tagged-TaggedRead :
    (d tag : ℕ) (input : List ℕ) (q : Value × List ℕ)
    → d ≤ max_value_depth
    → IsBytes input
    → read_tagged tag input ≡ ok q
    → TaggedRead d tag input q
unfolding read_tagged
read_tagged-TaggedRead d tag input q deep h e =
    by_test (tag == tag_date)
      (λ a.
        subst (λ t. TaggedRead d t input q) (sym ((==_iff tag tag_date).0 a))
          (read_date-TaggedRead d input q deep h (rw a at e)))
      (λ a.
        by_test (tag == tag_time)
          (λ b.
            subst (λ t. TaggedRead d t input q) (sym ((==_iff tag tag_time).0 b))
              (read_time-TaggedRead d input q deep h (rw (a, b) at e)))
          (λ b.
            by_test (tag == tag_date_time)
              (λ c.
                subst (λ t. TaggedRead d t input q) (sym ((==_iff tag tag_date_time).0 c))
                  (read_date_time-TaggedRead d input q deep h (rw (a, b, c) at e)))
              (λ c.
                by_test (tag == tag_duration)
                  (λ f.
                    subst (λ t. TaggedRead d t input q) (sym ((==_iff tag tag_duration).0 f))
                      (read_duration-TaggedRead d input q deep h (rw (a, b, c, f) at e)))
                  (λ f. cc (rw (a, b, c, f) at e)))))

-- The same in front of the whole input.
pub tagged-Exact :
    (d ib : ℕ) (after : List ℕ) (p : ℕ × List ℕ) (q : Value × List ℕ)
    → d ≤ max_value_depth
    → ib / 2 ^ 5 ≡ 6
    → IsBytes (ib ∷ after)
    → HeadRead (bit_and ib 0x1f) after p
    → read_tagged p.0 p.1 ≡ ok q
    → Exact d (ib ∷ after) q
tagged-Exact d ib after p q deep high h first e =
    let front = head_split ib 6 after p high first in
    let hp = left_bytes (ib ∷ after) (head 6 p.0) p.1 h front in
    let (body, split, code, hv, hz, hk) = read_tagged-TaggedRead d p.0 p.1 q deep hp e in
    record {
      split =
          join_two (ib ∷ after) (head 6 p.0) p.1 body q.1 front split
          ∙ sym (ap (λ t. t ++ q.1) code);
      value = hv;
      sized = hz;
      key = hk;
      rest = left_bytes p.1 body q.1 hp split;
    }
