-- ===== src/ValueCodec/Strict/Arms.antt =====
-- Each arm of the decoder of values.rs but that of arrays, read backwards.
use acetone.Prelude.{
  ℕ, ◌+◌, ◌^◌, ◌≤◌, ◌<◌, ◌≡◌, refl, sym, ◌∙◌, ap, subst, true, false, Bool, not, ◌&&◌, ◌||◌, List,
  [], ◌∷◌, ◌++◌, arith,
}
use acetone.Prelude.{leb, ◌==◌, ==_iff, by_test}
use acetone.Prelude.Bytes.{be_bytes, IsBytes}
use acetone.Prelude.Result.{ok, bind_parts, refuse_passed}
use acetone.Cbor.{read_be_u64}
use acetone.ValueCodec.Floats.{
  f16_bits_to_f64, f16_from_f64_exact, f32_from_f64_exact, widen, canonical_nan_bits,
}
use acetone.ValueCodec.Half.{is_half_nan, f16_bits_to_f64-IsHalf}
use acetone.ValueCodec.Single.{is_single_nan, widen-IsSingle}
use acetone.ValueCodec.Single.Through.{f32_from_f64_exact-widen}
use acetone.ValueCodec.Write.{max_value_depth}
use acetone.ValueCodec.Read.{is_some, read_half, read_single, read_double, read_simple_or_float}
use acetone.ValueCodec.Item.{item, IsItem, IsSized}
use acetone.Model.{is_nan, IsValue}
use acetone.Model.{Value, null, bool, float}
use acetone.ValueCodec.Strict.Fields.{
  Exact, ok_same, left_bytes, word_read, none_of, half_item, single_item, double_item, nan_item,
}

pub float-Exact :
    (d first x : ℕ) (input body rest : List ℕ)
    → d ≤ max_value_depth
    → x < 2 ^ 64
    → item (float x) ≡ first ∷ body
    → input ≡ body ++ rest
    → IsBytes input
    → Exact d (first ∷ input) (float x, rest)
float-Exact d first x input body rest deep bound e split h = record {
  split = ap (λ t. first ∷ t) split ∙ sym (ap (λ t. t ++ rest) e);
  value = bound;
  sized = tt;
  key = deep;
  rest = left_bytes input body rest h split;
}

read_half-Exact :
    (d : ℕ) (input : List ℕ) (q : Value × List ℕ)
    → d ≤ max_value_depth
    → IsBytes input
    → read_half input ≡ ok q
    → Exact d (0xf9 ∷ input) q
unfolding read_half
read_half-Exact d input q deep h e =
    let (p, e1, e2) = bind_parts (read_be_u64 2 input) _ e in
    let (clear, e3) = refuse_passed (is_half_nan p.0 && not (p.0 == 0x7e00)) _ _ q e2 in
    let (split, bound) = word_read 2 input p h (omega arith) e1 in
    by_test (is_half_nan p.0)
      (λ nan.
        let quiet : (p.0 == 0x7e00) ≡ true = ground arith in
        let split' : input ≡ be_bytes 2 0x7e00 ++ p.1 = rw ((==_iff p.0 0x7e00).0 quiet) at split in
        subst (Exact d (0xf9 ∷ input)) (ok_same (rw nan at e3)) (
          float-Exact d 0xf9 canonical_nan_bits input (be_bytes 2 0x7e00) p.1 deep (omega arith)
            nan_item split' h))
      (λ number.
        let (back, others) = f16_bits_to_f64-IsHalf p.0 (omega arith) number in
        subst (Exact d (0xf9 ∷ input)) (ok_same (rw number at e3)) (
          float-Exact d 0xf9 (f16_bits_to_f64 p.0) input (be_bytes 2 p.0) p.1 deep others.1
            (half_item (f16_bits_to_f64 p.0) p.0 others.0 back) split h))

read_single-Exact :
    (d : ℕ) (input : List ℕ) (q : Value × List ℕ)
    → d ≤ max_value_depth
    → IsBytes input
    → read_single input ≡ ok q
    → Exact d (0xfa ∷ input) q
unfolding read_single
read_single-Exact d input q deep h e =
    let (p, e1, e2) = bind_parts (read_be_u64 4 input) _ e in
    let (number, e3) = refuse_passed (is_single_nan p.0) _ _ q e2 in
    let (longer, e4) = refuse_passed (is_some (f16_from_f64_exact (widen p.0))) _ _ q e3 in
    let (split, bound) = word_read 4 input p h (omega arith) e1 in
    let (_, others) = widen-IsSingle p.0 (omega arith) number in
    subst (Exact d (0xfa ∷ input)) (ok_same e4) (
      float-Exact d 0xfa (widen p.0) input (be_bytes 4 p.0) p.1 deep others.1
        (single_item (widen p.0) p.0 others.0 (none_of _ longer)
          (f32_from_f64_exact-widen p.0 (omega arith) number))
        split h)

neither : (a b : Bool) → (a || b) ≡ false → (a ≡ false) × (b ≡ false)
neither a b e = ground arith

read_double-Exact :
    (d : ℕ) (input : List ℕ) (q : Value × List ℕ)
    → d ≤ max_value_depth
    → IsBytes input
    → read_double input ≡ ok q
    → Exact d (0xfb ∷ input) q
unfolding read_double
read_double-Exact d input q deep h e =
    let (p, e1, e2) = bind_parts (read_be_u64 8 input) _ e in
    let (number, e3) = refuse_passed (is_nan p.0) _ _ q e2 in
    let (longest, e4) =
      refuse_passed (is_some (f16_from_f64_exact p.0) || is_some (f32_from_f64_exact p.0)) _ _ q
        e3 in
    let (split, bound) = word_read 8 input p h (omega arith) e1 in
    let (a, b) = neither _ _ longest in
    subst (Exact d (0xfb ∷ input)) (ok_same e4) (
      float-Exact d 0xfb p.0 input (be_bytes 8 p.0) p.1 deep (omega arith)
        (double_item p.0 number (none_of _ a) (none_of _ b)) split h)

-- A value of one byte.
byte-Exact :
    (d byte : ℕ) (v : Value) (input : List ℕ)
    → item v ≡ byte ∷ []
    → IsValue v
    → IsSized v
    → IsItem d v
    → IsBytes input
    → Exact d (byte ∷ input) (v, input)
byte-Exact d byte v input e hv hz hk h = record {
  split = sym (ap (λ t. t ++ input) e);
  value = hv;
  sized = hz;
  key = hk;
  rest = h;
}

pub read_simple_or_float-Exact :
    (d ai : ℕ) (input : List ℕ) (q : Value × List ℕ)
    → d ≤ max_value_depth
    → IsBytes input
    → read_simple_or_float ai input ≡ ok q
    → Exact d ((0xe0 + ai) ∷ input) q
unfolding read_simple_or_float item
read_simple_or_float-Exact d ai input q deep h e =
    by_test (ai == 20)
      (λ a.
        subst (λ n. Exact d ((0xe0 + n) ∷ input) q) (sym ((==_iff ai 20).0 a))
          (subst (Exact d (0xf4 ∷ input)) (ok_same (rw a at e))
            (byte-Exact d 0xf4 (bool false) input refl tt tt deep h)))
      (λ a.
        by_test (ai == 21)
          (λ b.
            subst (λ n. Exact d ((0xe0 + n) ∷ input) q) (sym ((==_iff ai 21).0 b))
              (subst (Exact d (0xf5 ∷ input)) (ok_same (rw (a, b) at e))
                (byte-Exact d 0xf5 (bool true) input refl tt tt deep h)))
          (λ b.
            by_test (ai == 22)
              (λ c.
                subst (λ n. Exact d ((0xe0 + n) ∷ input) q) (sym ((==_iff ai 22).0 c))
                  (subst (Exact d (0xf6 ∷ input)) (ok_same (rw (a, b, c) at e))
                    (byte-Exact d 0xf6 null input refl tt tt deep h)))
              (λ c.
                by_test (ai == 23) (λ f. cc (rw (a, b, c, f) at e))
                  (λ f.
                    by_test (leb ai 24) (λ g. cc (rw (a, b, c, f, g) at e))
                      (λ g.
                        by_test (ai == 25)
                          (λ i.
                            subst (λ n. Exact d ((0xe0 + n) ∷ input) q) (sym ((==_iff ai 25).0 i))
                              (read_half-Exact d input q deep h (rw (a, b, c, f, g, i) at e)))
                          (λ i.
                            by_test (ai == 26)
                              (λ j.
                                subst (λ n. Exact d ((0xe0 + n) ∷ input) q)
                                  (sym ((==_iff ai 26).0 j))
                                  (read_single-Exact d input q deep h
                                    (rw (a, b, c, f, g, i, j) at e)))
                              (λ j.
                                by_test (ai == 27)
                                  (λ k.
                                    subst (λ n. Exact d ((0xe0 + n) ∷ input) q)
                                      (sym ((==_iff ai 27).0 k))
                                      (read_double-Exact d input q deep h
                                        (rw (a, b, c, f, g, i, j, k) at e)))
                                  (λ k.
                                    by_test (leb ai 30)
                                      (λ l. cc (rw (a, b, c, f, g, i, j, k, l) at e))
                                      (λ l. cc (rw (a, b, c, f, g, i, j, k, l) at e))))))))))
