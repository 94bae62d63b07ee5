-- ===== src/Keys/Order.antt =====
-- The order of encoded keys is the logical order.
use acetone.Prelude.{ℕ, ◌*◌, ◌^◌, ◌<◌, ◌≡◌, refl, ◌∙◌, List, [], ◌∷◌, ◌++◌, arith, true, false}
use acetone.Prelude.{append_assoc, lt, gt, compare, then_with, then_assoc}
use acetone.Prelude.Int.{ℤ, IsSigned, biased, biased-lt, compare-biased, int_cmp}
use acetone.Prelude.Bytes.{bytes_cmp, be_bytes, bytes_cmp-be_bytes}
use acetone.Keys.Tag
use acetone.Keys.Cmp.{date_time_cmp, duration_cmp, rank, normalise_zero, value_cmp, key_cmp}
use acetone.Keys.Encoding.{encoding, encodings, word, float_ordinal, bytes_cmp-chunks}
use acetone.Model.{DateTime, Duration, IsValue, AreValues, is_zero, total_cmp}
use acetone.Model.{
  Value, Values, null, bool, int, float, string, bytes, date, time, date_time, duration, list, nil,
  cons,
}

-- Two signed words.
words_order :
    (k n : ℕ) (a b : ℤ) (r s : List ℕ)
    → 2 * 2 ^ k ≡ 256 ^ n
    → IsSigned k a
    → IsSigned k b
    → bytes_cmp (be_bytes n (biased k a) ++ r) (be_bytes n (biased k b) ++ s)
      ≡ then_with (int_cmp a b) (bytes_cmp r s)
words_order k n a b r s fits ha hb =
    bytes_cmp-be_bytes n (biased k a) (biased k b) r s (omega (arith, biased-lt k a ha))
      (omega (arith, biased-lt k b hb))
    ∙ rw (compare-biased k a b ha hb)

pub normalise_zero-lt : (x : ℕ) → x < 2 ^ 64 → normalise_zero x < 2 ^ 64
unfolding normalise_zero is_zero
normalise_zero-lt x h = ground arith

pub float_ordinal-lt : (x : ℕ) → x < 2 ^ 64 → float_ordinal x < 256 ^ 8
float_ordinal-lt x h = ground arith

compare-float_ordinal :
    (x y : ℕ)
    → x < 2 ^ 64
    → y < 2 ^ 64
    → compare (float_ordinal x) (float_ordinal y) ≡ total_cmp x y
compare-float_ordinal x y hx hy = ground arith

pub encoding_tag : (v : Value) → (body : List ℕ) × (encoding v ≡ rank v ∷ body) × (0 < rank v)
unfolding encoding rank
encoding_tag (bool false) = (_, refl, omega arith)
encoding_tag (bool true) = (_, refl, omega arith)
encoding_tag _ = (_, refl, omega arith)

-- A list that ends sorts before one that goes on.
end_below_encoding :
    (v : Value) (r s : List ℕ) → bytes_cmp (Tag.list_end ∷ r) (encoding v ++ s) ≡ lt
unfolding bytes_cmp
end_below_encoding v r s = let (body, e, positive) = encoding_tag v in rw e (ground arith)

encoding_above_end :
    (v : Value) (r s : List ℕ) → bytes_cmp (encoding v ++ r) (Tag.list_end ∷ s) ≡ gt
unfolding bytes_cmp
encoding_above_end v r s = let (body, e, positive) = encoding_tag v in rw e (ground arith)

date_time_order :
    (a b : DateTime) (r s : List ℕ)
    → IsSigned 63 a.epoch_nanos
    → IsSigned 15 a.offset_minutes
    → IsSigned 63 b.epoch_nanos
    → IsSigned 15 b.offset_minutes
    → bytes_cmp
        ((word (biased 63 a.epoch_nanos) ++ be_bytes 2 (biased 15 a.offset_minutes)) ++ r)
        ((word (biased 63 b.epoch_nanos) ++ be_bytes 2 (biased 15 b.offset_minutes)) ++ s)
      ≡ then_with (date_time_cmp a b) (bytes_cmp r s)
date_time_order a b r s ha ha' hb hb' =
    rw
      (
        append_assoc (word (biased 63 a.epoch_nanos)) _ r,
        append_assoc (word (biased 63 b.epoch_nanos)) _ s,
      )
      (words_order 63 8 a.epoch_nanos b.epoch_nanos _ _ refl ha hb
        ∙ rw (words_order 15 2 a.offset_minutes b.offset_minutes r s refl ha' hb', then_assoc))

duration_order :
    (a b : Duration) (r s : List ℕ)
    → IsValue (duration a)
    → IsValue (duration b)
    → bytes_cmp
        ((word (biased 63 a.months) ++ (word (biased 63 a.days) ++ word (biased 63 a.nanos))) ++ r)
        ((word (biased 63 b.months) ++ (word (biased 63 b.days) ++ word (biased 63 b.nanos))) ++ s)
      ≡ then_with (duration_cmp a b) (bytes_cmp r s)
duration_order a b r s (ha, ha', ha'') (hb, hb', hb'') =
    rw (append_assoc (word (biased 63 a.months)) _ r, append_assoc (word (biased 63 b.months)) _ s)
      (words_order 63 8 a.months b.months _ _ refl ha hb
        ∙ rw
            (append_assoc (word (biased 63 a.days)) _ r, append_assoc (word (biased 63 b.days)) _ s)
            (rw
              (words_order 63 8 a.days b.days (word (biased 63 a.nanos) ++ r)
                (word (biased 63 b.nanos) ++ s) refl ha' hb')
              (rw (words_order 63 8 a.nanos b.nanos r s refl ha'' hb'', then_assoc, then_assoc))))

mutual
  unfolding value_cmp encoding bytes_cmp rank

  value_order :
      (v w : Value) (r s : List ℕ)
      → IsValue v
      → IsValue w
      → bytes_cmp (encoding v ++ r) (encoding w ++ s) ≡ then_with (value_cmp v w) (bytes_cmp r s)
  value_order null null r s hv hw = refl
  value_order (bool false) (bool false) r s hv hw = refl
  value_order (bool true) (bool true) r s hv hw = refl
  value_order (bool false) (bool true) r s hv hw = refl
  value_order (bool true) (bool false) r s hv hw = refl
  value_order (int a) (int b) r s hv hw = words_order 63 8 a b r s refl hv hw
  value_order (float a) (float b) r s hv hw =
      bytes_cmp-be_bytes 8 (float_ordinal (normalise_zero a)) (float_ordinal (normalise_zero b)) r s
        (float_ordinal-lt _ (normalise_zero-lt a hv)) (float_ordinal-lt _ (normalise_zero-lt b hw))
      ∙ rw (compare-float_ordinal _ _ (normalise_zero-lt a hv) (normalise_zero-lt b hw))
  value_order (string a) (string b) r s hv hw = bytes_cmp-chunks 8 a b r s (omega arith)
  value_order (bytes a) (bytes b) r s hv hw = bytes_cmp-chunks 8 a b r s (omega arith)
  value_order (date a) (date b) r s hv hw = words_order 63 8 a.days b.days r s refl hv hw
  value_order (time a) (time b) r s hv hw = bytes_cmp-be_bytes 8 a.nanos b.nanos r s hv hw
  value_order (date_time a) (date_time b) r s (ha, ha') (hb, hb') =
      date_time_order a b r s ha ha' hb hb'
  value_order (duration a) (duration b) r s hv hw = duration_order a b r s hv hw
  value_order (list xs) (list ys) r s hv hw =
      rw
        (
          append_assoc (encodings xs) (Tag.list_end ∷ []) r,
          append_assoc (encodings ys) (Tag.list_end ∷ []) s,
        )
        (values_order xs ys r s hv hw)
  value_order (bool false) _ r s hv hw = refl
  value_order (bool true) _ r s hv hw = refl
  value_order _ (bool false) r s hv hw = refl
  value_order _ (bool true) r s hv hw = refl
  value_order _ _ r s hv hw = refl

  values_order :
      (vs ws : Values) (r s : List ℕ)
      → AreValues vs
      → AreValues ws
      → bytes_cmp (encodings vs ++ Tag.list_end ∷ r) (encodings ws ++ Tag.list_end ∷ s)
        ≡ then_with (key_cmp vs ws) (bytes_cmp r s)
  values_order nil nil r s hv hw = refl
  values_order nil (cons w ws) r s hv hw =
      rw (append_assoc (encoding w) (encodings ws)) (end_below_encoding w r _)
  values_order (cons v vs) nil r s hv hw =
      rw (append_assoc (encoding v) (encodings vs)) (encoding_above_end v _ s)
  values_order (cons v vs) (cons w ws) r s (hv, hvs) (hw, hws) =
      rw
        (
          append_assoc (encoding v) (encodings vs) (Tag.list_end ∷ r),
          append_assoc (encoding w) (encodings ws) (Tag.list_end ∷ s),
        )
        (value_order v w (encodings vs ++ Tag.list_end ∷ r) (encodings ws ++ Tag.list_end ∷ s) hv hw
          ∙ rw (values_order vs ws r s hvs hws, then_assoc))

-- Whole tuples have no end mark: a tuple that is a prefix of another sorts first.
pub tuple_order :
    (vs ws : Values)
    → AreValues vs
    → AreValues ws
    → bytes_cmp (encodings vs) (encodings ws) ≡ key_cmp vs ws
unfolding key_cmp encodings bytes_cmp
tuple_order nil nil hv hw = refl
tuple_order nil (cons w ws) hv hw = let (body, e, positive) = encoding_tag w in rw e
tuple_order (cons v vs) nil hv hw = let (body, e, positive) = encoding_tag v in rw e
tuple_order (cons v vs) (cons w ws) (hv, hvs) (hw, hws) =
    value_order v w (encodings vs) (encodings ws) hv hw ∙ rw (tuple_order vs ws hvs hws)
