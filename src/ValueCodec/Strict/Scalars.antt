-- ===== src/ValueCodec/Strict/Scalars.antt =====
-- The values of one item, read backwards.
use acetone.Prelude.{
  ℕ, ◌+◌, ◌-◌, ◌/◌, ◌^◌, ◌≤◌, ◌<◌, ◌≡◌, sym, ◌∙◌, ap, subst, false, List, ◌∷◌, ◌++◌, arith,
}
use acetone.Prelude.{ltb, leb, ◌==◌, ==_iff, ltb→ge, leb→gt, by_test, length, append_assoc, bit_and}
use acetone.Prelude.Bits.{and_31}
use acetone.Prelude.Bytes.{IsBytes}
use acetone.Prelude.Result.{ok, bind_parts, ensure_passed}
use acetone.Cbor.{read_head_value, check_len, read_exact, unsigned_to_i64, negative_to_i64}
use acetone.Cbor.Heads.{head}
use acetone.Cbor.Strict.{HeadRead, read_head_value-HeadRead, read_exact-parts}
use acetone.ValueCodec.Write.{max_value_depth}
use acetone.ValueCodec.Read.{
  read_simple_or_float, read_bytes, read_string, read_unsigned, read_negative, read_scalar_item,
}
use acetone.ValueCodec.Item.{item, int_item}
use acetone.Model.{is_utf8}
use acetone.Model.{Value}
use acetone.ValueCodec.Strict.Fields.{Exact, ok_same, left_bytes, head_split}
use acetone.ValueCodec.Strict.Arms.{read_simple_or_float-Exact}
use acetone.ValueCodec.Strict.Tagged.{tagged-Exact}

-- The first byte of a value, and how its head reads.
module _ (d ib : ℕ) (after : List ℕ) (q : Value × List ℕ) (deep : d ≤ max_value_depth)
    (h : IsBytes (ib ∷ after)) where
  unsigned-Exact :
      ib / 2 ^ 5 ≡ 0 → read_unsigned (bit_and ib 0x1f) after ≡ ok q → Exact d (ib ∷ after) q
  unfolding read_unsigned unsigned_to_i64 item int_item
  unsigned-Exact high e =
      let (p, e1, e2) = bind_parts (read_head_value (bit_and ib 0x1f) after) _ e in
      let front = head_split ib 0 after p high (read_head_value-HeadRead _ after p h.1 e1) in
      by_test (leb (2 ^ 63) p.0) (λ far. cc (rw far at e2))
        (λ near. subst (Exact d (ib ∷ after)) (ok_same (rw near at e2)) record {
          split = front;
          value = leb→gt _ _ near;
          sized = tt;
          key = deep;
          rest = left_bytes (ib ∷ after) (head 0 p.0) p.1 h front;
        })

  negative-Exact :
      ib / 2 ^ 5 ≡ 1 → read_negative (bit_and ib 0x1f) after ≡ ok q → Exact d (ib ∷ after) q
  unfolding read_negative negative_to_i64 item int_item
  negative-Exact high e =
      let (p, e1, e2) = bind_parts (read_head_value (bit_and ib 0x1f) after) _ e in
      let front = head_split ib 1 after p high (read_head_value-HeadRead _ after p h.1 e1) in
      by_test (ltb (2 ^ 63 - 1) p.0) (λ far. cc (rw far at e2))
        (λ near. subst (Exact d (ib ∷ after)) (ok_same (rw near at e2)) record {
          split = front;
          value = omega (arith, ltb→ge _ _ near);
          sized = tt;
          key = deep;
          rest = left_bytes (ib ∷ after) (head 1 p.0) p.1 h front;
        })

  -- A length, and that many bytes.
  framed :
      (major : ℕ) (p : ℕ × List ℕ) (s : List ℕ × List ℕ)
      → ib / 2 ^ 5 ≡ major
      → HeadRead (bit_and ib 0x1f) after p
      → read_exact p.0 p.1 ≡ ok s
      → (ib ∷ after ≡ (head major (length s.0) ++ s.0) ++ s.1)
        × (length s.0 < 2 ^ 64)
        × IsBytes s.0
        × IsBytes s.1
  framed major p s high first e =
      let front = head_split ib major after p high first in
      let hp = left_bytes (ib ∷ after) (head major p.0) p.1 h front in
      let (split, exact, bytes_read) = read_exact-parts p.0 p.1 s hp e in
      (
        subst (λ n. ib ∷ after ≡ (head major n ++ s.0) ++ s.1) (sym exact)
            (front
              ∙ ap (λ t. head major p.0 ++ t) split
              ∙ sym (append_assoc (head major p.0) s.0 s.1)),
        omega (arith, exact, first.0),
        bytes_read,
        left_bytes p.1 s.0 s.1 hp split,
      )

  checked : (declared len : ℕ) (input : List ℕ) → check_len declared input ≡ ok len → declared ≡ len
  unfolding check_len
  checked declared len input e =
      by_test (ltb (length input) declared) (λ long. cc (rw long at e))
        (λ fits. ok_same (rw fits at e))

  bytes-Exact : ib / 2 ^ 5 ≡ 2 → read_bytes (bit_and ib 0x1f) after ≡ ok q → Exact d (ib ∷ after) q
  unfolding read_bytes item
  bytes-Exact high e =
      let (p, e1, e2) = bind_parts (read_head_value (bit_and ib 0x1f) after) _ e in
      let (len, e3, e4) = bind_parts (check_len p.0 p.1) _ e2 in
      let (s, e5, e6) = bind_parts (read_exact len p.1) _ e4 in
      let run : read_exact p.0 p.1 ≡ ok s =
        subst (λ n. read_exact n p.1 ≡ ok s) (sym (checked p.0 len p.1 e3)) e5 in
      let (split, short, body, rest) =
        framed 2 p s high (read_head_value-HeadRead _ after p h.1 e1) run in
      subst (Exact d (ib ∷ after)) (ok_same e6)
        record { split = split; value = body; sized = short; key = deep; rest = rest }

  string-Exact :
      ib / 2 ^ 5 ≡ 3 → read_string (bit_and ib 0x1f) after ≡ ok q → Exact d (ib ∷ after) q
  unfolding read_string item
  string-Exact high e =
      let (p, e1, e2) = bind_parts (read_head_value (bit_and ib 0x1f) after) _ e in
      let (len, e3, e4) = bind_parts (check_len p.0 p.1) _ e2 in
      let (s, e5, e6) = bind_parts (read_exact len p.1) _ e4 in
      let (valid, e7) = ensure_passed (is_utf8 s.0) _ _ q e6 in
      let run : read_exact p.0 p.1 ≡ ok s =
        subst (λ n. read_exact n p.1 ≡ ok s) (sym (checked p.0 len p.1 e3)) e5 in
      let (split, short, body, rest) =
        framed 3 p s high (read_head_value-HeadRead _ after p h.1 e1) run in
      subst (Exact d (ib ∷ after)) (ok_same e7)
        record { split = split; value = (body, valid); sized = short; key = deep; rest = rest }

  simple-Exact :
      ib < 256
      → (ib / 2 ^ 5 == 0) ≡ false
      → (ib / 2 ^ 5 == 1) ≡ false
      → (ib / 2 ^ 5 == 2) ≡ false
      → (ib / 2 ^ 5 == 3) ≡ false
      → (ib / 2 ^ 5 == 4) ≡ false
      → (ib / 2 ^ 5 == 5) ≡ false
      → (ib / 2 ^ 5 == 6) ≡ false
      → read_simple_or_float (bit_and ib 0x1f) after ≡ ok q
      → Exact d (ib ∷ after) q
  simple-Exact small n0 n1 n2 n3 n4 n5 n6 e =
      let high : ib / 2 ^ 5 ≡ 7 = ground arith in
      let first : 0xe0 + bit_and ib 0x1f ≡ ib = omega (arith, high, and_31 ib) in
      subst (λ b. Exact d (b ∷ after) q) first
        (read_simple_or_float-Exact d (bit_and ib 0x1f) after q deep h.1 e)

  pub scalar-Exact :
      (ib / 2 ^ 5 == 4) ≡ false
      → read_scalar_item (ib / 2 ^ 5) (bit_and ib 0x1f) after ≡ ok q
      → Exact d (ib ∷ after) q
  unfolding read_scalar_item
  scalar-Exact n4 e =
      by_test (ib / 2 ^ 5 == 0) (λ a. unsigned-Exact ((==_iff _ 0).0 a) (rw a at e))
        (λ a.
          by_test (ib / 2 ^ 5 == 1) (λ b. negative-Exact ((==_iff _ 1).0 b) (rw (a, b) at e))
            (λ b.
              by_test (ib / 2 ^ 5 == 2) (λ c. bytes-Exact ((==_iff _ 2).0 c) (rw (a, b, c) at e))
                (λ c.
                  by_test (ib / 2 ^ 5 == 3)
                    (λ f. string-Exact ((==_iff _ 3).0 f) (rw (a, b, c, f) at e))
                    (λ f.
                      by_test (ib / 2 ^ 5 == 5) (λ g. cc (rw (a, b, c, f, g) at e))
                        (λ g.
                          by_test (ib / 2 ^ 5 == 6)
                            (λ t.
                              let (p, e1, e2) =
                                bind_parts (read_head_value (bit_and ib 0x1f) after) _
                                  (rw (a, b, c, f, g, t) at e) in
                              tagged-Exact d ib after p q deep ((==_iff _ 6).0 t) h
                                (read_head_value-HeadRead _ after p h.1 e1) e2)
                            (λ t. simple-Exact h.0 a b c f n4 g t (rw (a, b, c, f, g, t) at e)))))))
