-- ===== src/ValueCodec/Scalars.antt =====
-- Each arm of the decoder of values.rs but that of arrays, on what the encoder promises.
use acetone.ValueCodec.Canonical.{canonical}
use acetone.ValueCodec.FloatItems.{write_float-FloatBack}
use acetone.Prelude.{
  ℕ, ◌+◌, ◌-◌, ◌*◌, ◌^◌, ◌≤◌, ◌<◌, ◌≡◌, refl, ◌∙◌, ap, true, false, List, [], ◌∷◌, ◌++◌, arith,
}
use acetone.Prelude.{ltb, ◌==◌, ge→ltb, gt→leb, lt→ltb, length, length-append, append_assoc, subst}
use acetone.Prelude.Int.{ℤ, pos, negsuc, IsSigned}
use acetone.Prelude.Bytes.{be_bytes}
use acetone.Prelude.Result.{ok}
use acetone.Keys.Write.{unsigned_abs}
use acetone.Cbor.{read_u8, read_i64, check_len, unsigned_to_i64, negative_to_i64}
use acetone.Cbor.Heads.{
  head, code, width, code-lt_32, split_first, read_head-head, read_head_value-code,
  read_exact-append,
}
use acetone.Cbor.Contract.{read_i64-write_int}
use acetone.ValueCodec.Write.{tag_date, tag_time, tag_date_time, tag_duration}
use acetone.ValueCodec.Read.{
  read_simple_or_float, expect_array, read_date, read_time, read_date_time, read_duration,
  read_tagged, read_bytes, read_string, read_unsigned, read_negative, read_scalar_item, to_i16,
}
use acetone.ValueCodec.Item.{item, int_item, IsItem, IsSized}
use acetone.ValueCodec.Accepts.{write_int-int_item}
use acetone.Model.{
  Date, Time, DateTime, Duration, nanos_per_day, max_offset_minutes, is_utf8, IsValue,
}
use acetone.Model.{
  Value, null, bool, int, float, string, bytes, date, time, date_time, duration, list,
}

-- A scalar's item begins with its first byte, and the rest reads back.
abbrev pub ReadsBack : Value → Type 0
ReadsBack v =
    (major : ℕ) × (low : ℕ) × (body : List ℕ) × (item v ≡ (major * 32 + low) ∷ body)
    × (low < 32)
    × ((major == 4) ≡ false)
    × ((rest : List ℕ) → read_scalar_item major low (body ++ rest) ≡ ok (canonical v, rest))

pub read_i64-int_item :
    (n : ℤ) (rest : List ℕ) → IsSigned 63 n → read_i64 (int_item n ++ rest) ≡ ok (n, rest)
read_i64-int_item n rest h =
    subst (λ t. read_i64 (t ++ rest) ≡ ok (n, rest)) (write_int-int_item [] n h)
      (read_i64-write_int n rest h)

read_unsigned-code :
    (n : ℕ) (rest : List ℕ)
    → n < 2 ^ 63
    → read_unsigned (code n) (be_bytes (width n) n ++ rest) ≡ ok (int (pos n), rest)
unfolding read_unsigned unsigned_to_i64
read_unsigned-code n rest h =
    rw (read_head_value-code n rest (omega arith), gt→leb (2 ^ 63) n h) refl

read_negative-code :
    (n : ℕ) (rest : List ℕ)
    → n < 2 ^ 63
    → read_negative (code n) (be_bytes (width n) n ++ rest) ≡ ok (int (negsuc n), rest)
unfolding read_negative negative_to_i64
read_negative-code n rest h =
    rw (read_head_value-code n rest (omega arith), ge→ltb (2 ^ 63 - 1) n (omega arith)) refl

fits : (s rest : List ℕ) → ltb (length (s ++ rest)) (length s) ≡ false
fits s rest = ge→ltb _ _ (omega (arith, length-append s rest))

read_bytes-code :
    (s rest : List ℕ)
    → length s < 2 ^ 64
    → read_bytes (code (length s)) ((be_bytes (width (length s)) (length s) ++ s) ++ rest)
      ≡ ok (bytes s, rest)
unfolding read_bytes check_len
read_bytes-code s rest h =
    rw (append_assoc (be_bytes (width (length s)) (length s)) s rest) (
      rw (read_head_value-code (length s) (s ++ rest) h, fits s rest, read_exact-append s rest)
        refl)

read_string-code :
    (s rest : List ℕ)
    → length s < 2 ^ 64
    → is_utf8 s ≡ true
    → read_string (code (length s)) ((be_bytes (width (length s)) (length s) ++ s) ++ rest)
      ≡ ok (string s, rest)
unfolding read_string check_len
read_string-code s rest h valid =
    rw (append_assoc (be_bytes (width (length s)) (length s)) s rest) (
      rw
        (
          read_head_value-code (length s) (s ++ rest) h,
          fits s rest,
          read_exact-append s rest,
          valid,
        )
        refl)

read_date-item :
    (x : Date) (rest : List ℕ)
    → IsSigned 63 x.days
    → read_tagged tag_date (int_item x.days ++ rest) ≡ ok (date x, rest)
unfolding read_tagged read_date
read_date-item x rest h = rw (read_i64-int_item x.days rest h) refl

read_time-item :
    (t : Time) (rest : List ℕ)
    → t.nanos < nanos_per_day
    → read_tagged tag_time (head 0 t.nanos ++ rest) ≡ ok (time t, rest)
unfolding read_tagged read_time read_u8 head
read_time-item t rest h =
    let (quotient, remainder) = split_first 0 (code t.nanos) (code-lt_32 t.nanos) in
    rw (quotient, remainder, read_head_value-code t.nanos rest (omega arith), gt→leb _ _ h) refl

expect_array-head :
    (n t : ℕ) (rest : List ℕ) → n < 2 ^ 64 → expect_array n t (head 4 n ++ rest) ≡ ok rest
unfolding expect_array
expect_array-head n t rest h =
    let same : (n == n) ≡ true = ground arith in rw (read_head-head 4 n rest h, same) refl

in_i16 : (n : ℤ) → IsSigned 15 n → to_i16 n ≡ ok n
in_i16 (pos n) h = rw (lt→ltb n (2 ^ 15) h) refl
in_i16 (negsuc n) h = rw (lt→ltb n (2 ^ 15) h) refl

wide : (n : ℤ) → IsSigned 15 n → IsSigned 63 n
wide (pos n) h = omega arith
wide (negsuc n) h = omega arith

read_date_time-item :
    (t : DateTime) (rest : List ℕ)
    → IsSigned 63 t.epoch_nanos
    → IsSigned 15 t.offset_minutes
    → unsigned_abs t.offset_minutes ≤ max_offset_minutes
    → read_tagged tag_date_time
        (head 4 2 ++ (int_item t.epoch_nanos ++ (int_item t.offset_minutes ++ rest)))
      ≡ ok (date_time t, rest)
unfolding read_tagged read_date_time
read_date_time-item t rest h h' near = rw (expect_array-head 2 tag_date_time _ (omega arith)) (
    rw (read_i64-int_item t.epoch_nanos _ h) (
      rw (read_i64-int_item t.offset_minutes rest (wide t.offset_minutes h'))
        (rw (in_i16 t.offset_minutes h', ge→ltb _ _ near) refl)))

read_duration-item :
    (d : Duration) (rest : List ℕ)
    → IsValue (duration d)
    → read_tagged tag_duration
        (head 4 3 ++ (int_item d.months ++ (int_item d.days ++ (int_item d.nanos ++ rest))))
      ≡ ok (duration d, rest)
unfolding read_tagged read_duration
read_duration-item d rest (h, h', h'') = rw (expect_array-head 3 tag_duration _ (omega arith)) (
    rw (read_i64-int_item d.months _ h)
      (rw (read_i64-int_item d.days _ h') (rw (read_i64-int_item d.nanos rest h'') refl)))

abbrev pub IsScalar : Value → Type 0
IsScalar (list vs) = ⊥
IsScalar v = Unit

three_parts : (a b c rest : List ℕ) → (a ++ (b ++ c)) ++ rest ≡ a ++ (b ++ (c ++ rest))
three_parts a b c rest = append_assoc a (b ++ c) rest ∙ ap (λ t. a ++ t) (append_assoc b c rest)

tagged-ReadsBack :
    (t : ℕ) (body : List ℕ) (v : Value)
    → t < 2 ^ 64
    → item v ≡ head 6 t ++ body
    → canonical v ≡ v
    → ((rest : List ℕ) → read_tagged t (body ++ rest) ≡ ok (v, rest))
    → ReadsBack v
unfolding head read_scalar_item
tagged-ReadsBack t body v small e same back = (
  6,
  code t,
  be_bytes (width t) t ++ body,
  e,
  code-lt_32 t,
  refl,
  λ rest.
      rw (same, append_assoc (be_bytes (width t) t) body rest)
        (rw (read_head_value-code t (body ++ rest) small) (back rest)),
)

pub scalar-ReadsBack :
    (v : Value) (d : ℕ) → IsScalar v → IsValue v → IsSized v → IsItem d v → ReadsBack v
unfolding item int_item head canonical read_scalar_item read_simple_or_float
scalar-ReadsBack null d s h z k = (7, 22, [], refl, omega arith, refl, λ rest. refl)
scalar-ReadsBack (bool true) d s h z k = (7, 21, [], refl, omega arith, refl, λ rest. refl)
scalar-ReadsBack (bool false) d s h z k = (7, 20, [], refl, omega arith, refl, λ rest. refl)
scalar-ReadsBack (int (pos n)) d s h z k =
    (0, code n, be_bytes (width n) n, refl, code-lt_32 n, refl, λ rest. read_unsigned-code n rest h)
scalar-ReadsBack (int (negsuc n)) d s h z k =
    (1, code n, be_bytes (width n) n, refl, code-lt_32 n, refl, λ rest. read_negative-code n rest h)
scalar-ReadsBack (float x) d s h z k =
    let (low, body, e, small, back) = write_float-FloatBack x h in
    (7, low, body, e, small, refl, back)
scalar-ReadsBack (string x) d s h z k = (
  3,
  code (length x),
  _,
  refl,
  code-lt_32 (length x),
  refl,
  λ rest. read_string-code x rest z h.1,
)
scalar-ReadsBack (bytes x) d s h z k =
    (2, code (length x), _, refl, code-lt_32 (length x), refl, λ rest. read_bytes-code x rest z)
scalar-ReadsBack (date x) d s h z k =
    tagged-ReadsBack tag_date (int_item x.days) (date x) (omega arith) refl refl
      (λ rest. read_date-item x rest h)
scalar-ReadsBack (time t) d s h z k =
    tagged-ReadsBack tag_time (head 0 t.nanos) (time t) (omega arith) refl refl
      (λ rest. read_time-item t rest k.1)
scalar-ReadsBack (date_time t) d s h z k =
    tagged-ReadsBack tag_date_time
      (head 4 2 ++ (int_item t.epoch_nanos ++ int_item t.offset_minutes)) (date_time t)
      (omega arith) refl refl
      (λ rest.
        rw (three_parts (head 4 2) (int_item t.epoch_nanos) (int_item t.offset_minutes) rest)
          (read_date_time-item t rest h.0 h.1 k.1))
scalar-ReadsBack (duration x) d s h z k =
    tagged-ReadsBack tag_duration
      (head 4 3 ++ (int_item x.months ++ (int_item x.days ++ int_item x.nanos))) (duration x)
      (omega arith) refl refl
      (λ rest.
        rw
          (
            append_assoc (head 4 3) (int_item x.months ++ (int_item x.days ++ int_item x.nanos))
                rest,
            three_parts (int_item x.months) (int_item x.days) (int_item x.nanos) rest,
          )
          (read_duration-item x rest h))
scalar-ReadsBack (list vs) d s h z k = absurd s
