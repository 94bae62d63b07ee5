-- ===== src/Keys/RoundTrip/Scalars.antt =====
-- Each arm of the decoder but that of lists, on what the encoder promises.
use acetone.Prelude.{ℕ, ◌≤◌, ◌<◌, ◌≡◌, refl, List, ◌∷◌, ◌++◌, arith, true, false}
use acetone.Prelude.{append_assoc, ge→ltb, gt→leb, ◌==◌, ◌^◌}
use acetone.Prelude.Int.{ℤ, biased, IsSigned}
use acetone.Prelude.Bytes.{be_bytes, from_be-be_bytes, length-be_bytes}
use acetone.Prelude.Result.{ok}
use acetone.Keys.Tag
use acetone.Keys.Cmp.{normalise_zero}
use acetone.Keys.Order.{normalise_zero-lt, float_ordinal-lt}
use acetone.Keys.Read.{
  read_scalar, read_float, read_date_time, read_duration, read_time, read_int, read_date,
  read_string, read_bytes,
}
use acetone.Keys.Write.{unsigned_abs}
use acetone.Keys.Encoding.{chunks, encoding, word, float_ordinal, IsKey}
use acetone.Keys.RoundTrip.Bodies.{
  unbias, read_i64-word, float_bits-ordinal, is_nan-normalise_zero, normalise_zero-ne_negative,
}
use acetone.Keys.RoundTrip.Framing.{read_array_front, read_chunked-chunks}
use acetone.Model.{
  Date, Time, DateTime, Duration, IsValue, is_nan, is_utf8, nanos_per_day, max_offset_minutes,
}
use acetone.Model.{
  Value, Values, null, bool, int, float, string, bytes, date, time, date_time, duration, list, nil,
  cons,
}

-- What a value decodes to: the sign of zero is lost.
unfoldable mutual
  unfolding normalise_zero

  pub normal : Value → Value
  normal (float x) = float (normalise_zero x)
  normal (list vs) = list (normals vs)
  normal v = v

  pub normals : Values → Values
  normals nil = nil
  normals (cons v vs) = cons (normal v) (normals vs)

abbrev pub IsScalar : Value → Type 0
IsScalar (list vs) = ⊥
IsScalar _ = Unit

read_float-word :
    (x : ℕ) (rest : List ℕ)
    → x < 2 ^ 64
    → is_nan x ≡ false
    → read_float (word (float_ordinal (normalise_zero x)) ++ rest)
      ≡ ok (float (normalise_zero x), rest)
unfolding read_float
read_float-word x rest h number = rw (
  read_array_front 8 (word (float_ordinal (normalise_zero x))) rest (length-be_bytes 8 _),
  from_be-be_bytes 8 (float_ordinal (normalise_zero x))
      (float_ordinal-lt _ (normalise_zero-lt x h)),
  float_bits-ordinal (normalise_zero x) (normalise_zero-lt x h),
  is_nan-normalise_zero x number,
  normalise_zero-ne_negative x,
)

read_time-word :
    (t : Time) (rest : List ℕ)
    → t.nanos < nanos_per_day
    → read_time (word t.nanos ++ rest) ≡ ok (time t, rest)
unfolding read_time
read_time-word t rest h = rw (
  read_array_front 8 (word t.nanos) rest (length-be_bytes 8 _),
  from_be-be_bytes 8 t.nanos (omega arith),
  gt→leb _ _ h,
)

read_date_time-words :
    (t : DateTime) (rest : List ℕ)
    → IsValue (date_time t)
    → unsigned_abs t.offset_minutes ≤ max_offset_minutes
    → read_date_time
        (word (biased 63 t.epoch_nanos) ++ (be_bytes 2 (biased 15 t.offset_minutes) ++ rest))
      ≡ ok (date_time t, rest)
unfolding read_date_time
read_date_time-words t rest (h, h') near = rw (read_i64-word t.epoch_nanos _ h) (
    rw (
      read_array_front 2 (be_bytes 2 (biased 15 t.offset_minutes)) rest (length-be_bytes 2 _),
      unbias 15 2 t.offset_minutes refl h',
      ge→ltb _ _ near,
    ))

read_duration-words :
    (x : Duration) (rest : List ℕ)
    → IsValue (duration x)
    → read_duration (
        word (biased 63 x.months)
        ++ (word (biased 63 x.days) ++ (word (biased 63 x.nanos) ++ rest)))
      ≡ ok (duration x, rest)
unfolding read_duration
read_duration-words x rest (h, h', h'') =
    rw (read_i64-word x.months _ h)
      (rw (read_i64-word x.days _ h') (rw (read_i64-word x.nanos rest h'')))

read_int-word :
    (z : ℤ) (rest : List ℕ)
    → IsSigned 63 z
    → read_int (word (biased 63 z) ++ rest) ≡ ok (int z, rest)
unfolding read_int
read_int-word z rest h = rw (read_i64-word z rest h)

read_date-word :
    (x : Date) (rest : List ℕ)
    → IsSigned 63 x.days
    → read_date (word (biased 63 x.days) ++ rest) ≡ ok (date x, rest)
unfolding read_date
read_date-word x rest h = rw (read_i64-word x.days rest h)

read_string-chunks :
    (s rest : List ℕ) → is_utf8 s ≡ true → read_string (chunks 8 s ++ rest) ≡ ok (string s, rest)
unfolding read_string
read_string-chunks s rest valid = rw (read_chunked-chunks s rest, valid)

read_bytes-chunks : (s rest : List ℕ) → read_bytes (chunks 8 s ++ rest) ≡ ok (bytes s, rest)
unfolding read_bytes
read_bytes-chunks s rest = rw (read_chunked-chunks s rest)

-- A scalar's encoding begins with its tag, and the rest reads back.
abbrev pub ReadsBack : Value → Type 0
ReadsBack v =
    (tag : ℕ) × (body : List ℕ) × (encoding v ≡ tag ∷ body)
    × ((tag == Tag.list) ≡ false)
    × ((rest : List ℕ) → read_scalar tag (body ++ rest) ≡ ok (normal v, rest))

pub scalar-ReadsBack : (v : Value) (d : ℕ) → IsScalar v → IsValue v → IsKey d v → ReadsBack v
unfolding encoding normal read_scalar
scalar-ReadsBack null d s h k = (_, _, refl, refl, λ rest. refl)
scalar-ReadsBack (bool true) d s h k = (_, _, refl, refl, λ rest. refl)
scalar-ReadsBack (bool false) d s h k = (_, _, refl, refl, λ rest. refl)
scalar-ReadsBack (int n) d s h k = (_, _, refl, refl, λ rest. read_int-word n rest h)
scalar-ReadsBack (float x) d s h k = (_, _, refl, refl, λ rest. read_float-word x rest h k.1)
scalar-ReadsBack (string x) d s h k = (_, _, refl, refl, λ rest. read_string-chunks x rest h.1)
scalar-ReadsBack (bytes x) d s h k = (_, _, refl, refl, λ rest. read_bytes-chunks x rest)
scalar-ReadsBack (date x) d s h k = (_, _, refl, refl, λ rest. read_date-word x rest h)
scalar-ReadsBack (time t) d s h k = (_, _, refl, refl, λ rest. read_time-word t rest k.1)
scalar-ReadsBack (date_time t) d s h k = (
  _,
  _,
  refl,
  refl,
  λ rest.
      rw (append_assoc (word (biased 63 t.epoch_nanos)) _ rest) (read_date_time-words t rest h k.1),
)
scalar-ReadsBack (duration x) d s h k = (
  _,
  _,
  refl,
  refl,
  λ rest.
      rw (append_assoc (word (biased 63 x.months)) _ rest)
        (rw (append_assoc (word (biased 63 x.days)) _ rest) (read_duration-words x rest h)),
)
scalar-ReadsBack (list vs) d s h k = absurd s
