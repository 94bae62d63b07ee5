-- ===== src/ValueCodec/Strict/Fields.antt =====
-- The arms of the decoder of values.rs but that of arrays take only what the encoder writes.
use acetone.Prelude.{
  ℕ, ◌+◌, ◌-◌, ◌*◌, ◌/◌, ◌^◌, ◌≤◌, ◌<◌, ◌≡◌, refl, ◌∙◌, ap, subst, false, List, [], ◌∷◌, ◌++◌,
  arith, some, none, Option,
}
use acetone.Prelude.{ltb, leb, ◌==◌, ==_iff, ltb→ge, leb→gt, ge→ltb, by_test, bit_and}
use acetone.Prelude.Bits.{and_31}
use acetone.Prelude.Int.{ℤ, IsSigned}
use acetone.Prelude.Bytes.{be_bytes, IsBytes}
use acetone.Prelude.Result.{ok, bind_parts}
use acetone.Cbor.{
  Read, read_u8, read_i64, read_be_u64, read_wide, read_head_value, unsigned_to_i64,
  negative_to_i64, to_i64,
}
use acetone.Cbor.Heads.{head, code}
use acetone.Cbor.Strict.{HeadRead, read_head_value-HeadRead, read_wide-WideRead}
use acetone.ValueCodec.Floats.{f16_from_f64_exact, f32_from_f64_exact, canonical_nan_bits}
use acetone.ValueCodec.Write.{write_float, write_half, write_single}
use acetone.ValueCodec.Read.{is_some}
use acetone.ValueCodec.Item.{item, int_item, IsItem, IsSized}
use acetone.Model.{is_nan, IsValue}
use acetone.Model.{Value, float}

-- A value, and the input that it was read from.
pub record Exact (d : ℕ) (input : List ℕ) (q : Value × List ℕ) : Type 0 where
  pub split : input ≡ item q.0 ++ q.1
  pub value : IsValue q.0
  pub sized : IsSized q.0
  pub key : IsItem d q.0
  pub rest : IsBytes q.1

pub ok_same : {A : Type 0} {a b : A} → ◌≡◌ {A = Read A} (ok a) (ok b) → a ≡ b
ok_same e = cc

pub back_bytes : (x rest : List ℕ) → IsBytes (x ++ rest) → IsBytes rest
back_bytes [] rest h = h
back_bytes (b ∷ x) rest (_, h) = back_bytes x rest h

-- What is left behind a front that was read.
pub left_bytes : (input x rest : List ℕ) → IsBytes input → input ≡ x ++ rest → IsBytes rest
left_bytes input x rest h split = back_bytes x rest (subst IsBytes split h)

pub head_split :
    (ib major : ℕ) (after : List ℕ) (q : ℕ × List ℕ)
    → ib / 2 ^ 5 ≡ major
    → HeadRead (bit_and ib 0x1f) after q
    → ib ∷ after ≡ head major q.0 ++ q.1
unfolding head
head_split ib major after q high (small, low, split) =
    let first : ib ≡ major * 32 + code q.0 = omega (arith, low, high, and_31 ib) in
    rw first (ap (λ r. (major * 32 + code q.0) ∷ r) split)

-- An integer item.
abbrev pub IntRead : List ℕ → ℤ × List ℕ → Type 0
IntRead input q = (input ≡ int_item q.0 ++ q.1) × IsSigned 63 q.0

to_i64_ok :
    (major v : ℕ) (n : ℤ) → to_i64 major v ≡ ok n → IsSigned 63 n × (head major v ≡ int_item n)
unfolding unsigned_to_i64 negative_to_i64 int_item
to_i64_ok major v n e =
    by_test (major == 0)
      (λ unsigned.
        by_test (leb (2 ^ 63) v) (λ far. cc (rw (unsigned, far) at e))
          (λ near.
            subst (λ z. IsSigned 63 z × (head major v ≡ int_item z))
              (ok_same (rw (unsigned, near) at e))
              (leb→gt _ _ near, ap (λ m. head m v) ((==_iff major 0).0 unsigned))))
      (λ signed.
        by_test (major == 1)
          (λ negative.
            by_test (ltb (2 ^ 63 - 1) v) (λ far. cc (rw (signed, negative, far) at e))
              (λ near.
                subst (λ z. IsSigned 63 z × (head major v ≡ int_item z))
                  (ok_same (rw (signed, negative, near) at e))
                  (
                    omega (arith, ltb→ge _ _ near),
                    ap (λ m. head m v) ((==_iff major 1).0 negative),
                  )))
          (λ other. cc (rw (signed, other) at e)))

pub read_i64-IntRead :
    (input : List ℕ) (q : ℤ × List ℕ) → IsBytes input → read_i64 input ≡ ok q → IntRead input q
unfolding read_i64 read_u8
read_i64-IntRead [] q h e = cc
read_i64-IntRead (ib ∷ after) q (hb, h) e =
    let (p, e1, e2) = bind_parts (read_head_value (bit_and ib 0x1f) after) _ e in
    let (n, e3, e4) = bind_parts (to_i64 (ib / 2 ^ 5) p.0) _ e2 in
    let (signed, same) = to_i64_ok (ib / 2 ^ 5) p.0 n e3 in
    subst (IntRead (ib ∷ after)) (ok_same e4) (
      head_split ib (ib / 2 ^ 5) after p refl (read_head_value-HeadRead _ after p h e1)
          ∙ ap (λ t. t ++ p.1) same,
      signed,
    )

-- A word of the given width.
pub word_read :
    (w : ℕ) (input : List ℕ) (q : ℕ × List ℕ)
    → IsBytes input
    → 256 ^ w ≤ 2 ^ 64
    → read_be_u64 w input ≡ ok q
    → (input ≡ be_bytes w q.0 ++ q.1) × (q.0 < 256 ^ w)
word_read w input q h room e =
    let (split, _, bound) =
      read_wide-WideRead w 0 input q h room
        (unfold read_wide in rw (e, ge→ltb q.0 0 (omega arith)) refl) in
    (split, bound)

pub none_of : (o : Option ℕ) → is_some o ≡ false → o ≡ none
none_of none e = refl
none_of (some x) e = cc

-- The item of a float that is written in each of the three widths.
pub half_item :
    (x h : ℕ)
    → is_nan x ≡ false
    → f16_from_f64_exact x ≡ some h
    → item (float x) ≡ 0xf9 ∷ be_bytes 2 h
unfolding item write_float write_half
half_item x h number found = rw (number, found) refl

pub single_item :
    (x y : ℕ)
    → is_nan x ≡ false
    → f16_from_f64_exact x ≡ none
    → f32_from_f64_exact x ≡ some y
    → item (float x) ≡ 0xfa ∷ be_bytes 4 y
unfolding item write_float write_half write_single
single_item x y number no_half found = rw (number, no_half, found) refl

pub double_item :
    (x : ℕ)
    → is_nan x ≡ false
    → f16_from_f64_exact x ≡ none
    → f32_from_f64_exact x ≡ none
    → item (float x) ≡ 0xfb ∷ be_bytes 8 x
unfolding item write_float write_half write_single
double_item x number no_half no_single = rw (number, no_half, no_single) refl

pub nan_item : item (float canonical_nan_bits) ≡ 0xf9 ∷ be_bytes 2 0x7e00
unfolding item write_float is_nan
nan_item = refl
