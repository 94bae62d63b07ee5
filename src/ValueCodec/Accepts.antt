-- ===== src/ValueCodec/Accepts.antt =====
-- The encoder of values.rs writes the promised items, and refuses what is out of range.
use acetone.Prelude.{
  ℕ, ◌+◌, ◌^◌, ◌≤◌, ◌<◌, ◌≡◌, ◌⊎◌, inl, inr, refl, ◌∙◌, true, false, Bool, List, [], ◌++◌, arith,
  some, none, Option,
}
use acetone.Prelude.{
  ltb, leb, ltb→ge, leb→gt, by_test, ge→ltb, gt→leb, ap, length, append_assoc, append-nil,
}
use acetone.Prelude.Int.{ℤ, pos, negsuc, IsSigned}
use acetone.Keys.Write.{unsigned_abs}
use acetone.Cbor.{write_head, write_int}
use acetone.Cbor.Heads.{head, write_head-head}
use acetone.ValueCodec.Floats.{f16_from_f64_exact, f32_from_f64_exact}
use acetone.ValueCodec.Write.{
  write_float, write_half, write_single, write_value, write_values, length_of, max_value_depth,
  ValueEncodeError, time_out_of_range, offset_out_of_range, depth_exceeded, Written, wrote, failed,
  check, ◌>>=◌, tag_date, tag_time, tag_date_time, tag_duration,
}
use acetone.Model.{nanos_per_day, max_offset_minutes, is_nan, IsValue, AreValues}
use acetone.Model.{
  Value, Values, null, bool, int, float, string, bytes, date, time, date_time, duration, list, nil,
  cons,
}
use acetone.ValueCodec.Item.{int_item, item, items, IsItem, AreItems, IsSized, AreSized}

pub write_int-int_item :
    (out : List ℕ) (n : ℤ) → IsSigned 63 n → write_int out n ≡ out ++ int_item n
unfolding write_int int_item
write_int-int_item out (pos n) h = write_head-head out 0 n (omega arith) (omega arith)
write_int-int_item out (negsuc n) h = write_head-head out 1 n (omega arith) (omega arith)

write_single-append :
    (out : List ℕ) (x : ℕ) (s : Option ℕ) → write_single out x s ≡ out ++ write_single [] x s
unfolding write_single
write_single-append out x (some s) = refl
write_single-append out x none = refl

write_half-append :
    (out : List ℕ) (x : ℕ) (h : Option ℕ) → write_half out x h ≡ out ++ write_half [] x h
unfolding write_half
write_half-append out x (some h) = refl
write_half-append out x none = write_single-append out x (f32_from_f64_exact x)

write_float-append : (out : List ℕ) (x : ℕ) → write_float out x ≡ out ++ write_float [] x
unfolding write_float
write_float-append out x =
    by_test (is_nan x) (λ nan. rw nan refl)
      (λ number. rw number (write_half-append out x (f16_from_f64_exact x)))

-- A write either is of an accepted value, and appends `code`, or is of none, and fails with what was
-- there before still in front.
abbrev pub Outcome : Type 0 → List ℕ → List ℕ → Written → Type 0
Outcome Good out code w =
    (Good × (w ≡ wrote (out ++ code)))
    ⊎ ((¬ Good) × (e : ValueEncodeError) × (rest : List ℕ) × (w ≡ failed e (out ++ rest)))

tested :
    (test : Bool) (Good Rest : Type 0) (out code : List ℕ) (error : ValueEncodeError)
    (next : Written)
    → (Good → test ≡ false)
    → (Good → Rest)
    → ((test ≡ false) → Rest → Good)
    → Outcome Rest out code next
    → Outcome Good out code (check test error out next)
tested true Good Rest out code error next clear keep join o =
    inr ((λ good. cc (clear good)), error, [], rw append-nil refl)
tested false Good Rest out code error next clear keep join (inl (rest, e)) = inl (join refl rest, e)
tested false Good Rest out code error next clear keep join (inr (bad, error', more, e)) =
    inr ((λ good. bad (keep good)), error', more, e)

-- The test of the depth alone.
shallow :
    (d : ℕ) (out code written : List ℕ)
    → written ≡ out ++ code
    → Outcome
        (d ≤ max_value_depth)
        out
        code
        (check (ltb max_value_depth d) depth_exceeded out (wrote written))
shallow d out code written e =
    tested (ltb max_value_depth d) (d ≤ max_value_depth) Unit out code depth_exceeded
      (wrote written) (λ fits. ge→ltb _ _ fits) (λ _. tt) (λ fits _. ltb→ge _ _ fits)
      (inl (tt, ap wrote e))

in_turn :
    (First Second : Type 0) (out code code' : List ℕ) (w : Written) (f : List ℕ → Written)
    → Outcome First out code w
    → Outcome Second (out ++ code) code' (f (out ++ code))
    → Outcome (First × Second) out (code ++ code') (w >>= f)
in_turn First Second out code code' w f (inl (a, e)) (inl (b, e')) =
    inl ((a, b), rw e (e' ∙ ap wrote (append_assoc out code code')))
in_turn First Second out code code' w f (inl (a, e)) (inr (bad, error, rest, e')) = inr (
  (λ both. bad both.1),
  error,
  code ++ rest,
  rw e (e' ∙ ap (failed error) (append_assoc out code rest)),
)
in_turn First Second out code code' w f (inr (bad, error, rest, e)) _ =
    inr ((λ both. bad both.0), error, rest, rw e refl)

-- Bytes in front of what a loop appends.
behind :
    (out before code : List ℕ) (Good : Type 0) (w : Written)
    → Outcome Good (out ++ before) code w
    → Outcome Good out (before ++ code) w
behind out before code Good w (inl (good, e)) =
    inl (good, e ∙ ap wrote (append_assoc out before code))
behind out before code Good w (inr (bad, error, rest, e)) =
    inr (bad, error, before ++ rest, e ∙ ap (failed error) (append_assoc out before rest))

-- A test behind that of the depth.
guarded :
    (d : ℕ) (test : Bool) (Near : Type 0) (out code written : List ℕ) (error : ValueEncodeError)
    → (Near → test ≡ false)
    → ((test ≡ false) → Near)
    → written ≡ out ++ code
    → Outcome
        ((d ≤ max_value_depth) × Near)
        out
        code
        (check (ltb max_value_depth d) depth_exceeded out (check test error out (wrote written)))
guarded d test Near out code written error clear near e =
    tested (ltb max_value_depth d) _ Near out code depth_exceeded _ (λ good. ge→ltb _ _ good.0)
      (λ good. good.1) (λ fits rest. (ltb→ge _ _ fits, rest))
      (tested test Near Unit out code error (wrote written) clear (λ _. tt)
        (λ passed _. near passed) (inl (tt, ap wrote e)))

tagged : (out : List ℕ) (t : ℕ) → t < 2 ^ 64 → write_head out 6 t ≡ out ++ head 6 t
tagged out t h = write_head-head out 6 t (omega arith) h

two_parts :
    (out : List ℕ) (n m : ℤ)
    → IsSigned 63 n
    → IsSigned 63 m
    → write_int (write_int out n) m ≡ out ++ (int_item n ++ int_item m)
two_parts out n m hn hm =
    rw (write_int-int_item out n hn, write_int-int_item (out ++ int_item n) m hm)
      (append_assoc out (int_item n) (int_item m))

array_head :
    (out : List ℕ) (t n : ℕ)
    → t < 2 ^ 64
    → n < 2 ^ 64
    → write_head (write_head out 6 t) 4 n ≡ (out ++ head 6 t) ++ head 4 n
array_head out t n ht hn =
    rw (write_head-head out 6 t (omega arith) ht)
      (write_head-head (out ++ head 6 t) 4 n (omega arith) hn)

date_time_item :
    (out : List ℕ) (n m : ℤ)
    → IsSigned 63 n
    → IsSigned 63 m
    → write_int (write_int (write_head (write_head out 6 tag_date_time) 4 2) n) m
      ≡ out ++ (head 6 tag_date_time ++ (head 4 2 ++ (int_item n ++ int_item m)))
date_time_item out n m hn hm = rw (array_head out tag_date_time 2 (omega arith) (omega arith)) (
    two_parts _ n m hn hm
    ∙ append_assoc (out ++ head 6 tag_date_time) (head 4 2) (int_item n ++ int_item m)
    ∙ append_assoc out (head 6 tag_date_time) (head 4 2 ++ (int_item n ++ int_item m)))

duration_item :
    (out : List ℕ) (n m k : ℤ)
    → IsSigned 63 n
    → IsSigned 63 m
    → IsSigned 63 k
    → write_int (write_int (write_int (write_head (write_head out 6 tag_duration) 4 3) n) m) k
      ≡ out ++ (head 6 tag_duration ++ (head 4 3 ++ (int_item n ++ (int_item m ++ int_item k))))
duration_item out n m k hn hm hk =
    rw
      (
        array_head out tag_duration 3 (omega arith) (omega arith),
        write_int-int_item ((out ++ head 6 tag_duration) ++ head 4 3) n hn,
      )
      (two_parts _ m k hm hk
        ∙ append_assoc ((out ++ head 6 tag_duration) ++ head 4 3) (int_item n)
            (int_item m ++ int_item k)
        ∙ append_assoc (out ++ head 6 tag_duration) (head 4 3)
            (int_item n ++ (int_item m ++ int_item k))
        ∙ append_assoc out (head 6 tag_duration)
            (head 4 3 ++ (int_item n ++ (int_item m ++ int_item k))))

wider : (n : ℤ) → IsSigned 15 n → IsSigned 63 n
wider (pos n) h = omega arith
wider (negsuc n) h = omega arith

text_item :
    (major : ℕ) (out s : List ℕ)
    → major < 8
    → length s < 2 ^ 64
    → write_head out major (length s) ++ s ≡ out ++ (head major (length s) ++ s)
text_item major out s hm h =
    rw (write_head-head out major (length s) hm h) (append_assoc out (head major (length s)) s)

mutual
  unfolding write_value item

  pub write_value-Outcome :
      (v : Value) (out : List ℕ) (d : ℕ)
      → IsValue v
      → IsSized v
      → Outcome (IsItem d v) out (item v) (write_value v out d)
  write_value-Outcome null out d h z = shallow d out _ _ refl
  write_value-Outcome (bool true) out d h z = shallow d out _ _ refl
  write_value-Outcome (bool false) out d h z = shallow d out _ _ refl
  write_value-Outcome (int n) out d h z = shallow d out _ _ (write_int-int_item out n h)
  write_value-Outcome (float x) out d h z = shallow d out _ _ (write_float-append out x)
  write_value-Outcome (string s) out d h z = shallow d out _ _ (text_item 3 out s (omega arith) z)
  write_value-Outcome (bytes b) out d h z = shallow d out _ _ (text_item 2 out b (omega arith) z)
  write_value-Outcome (date x) out d h z = shallow d out _ _ (
      rw (tagged out tag_date (omega arith)) (
        write_int-int_item (out ++ head 6 tag_date) x.days h
        ∙ append_assoc out (head 6 tag_date) (int_item x.days)))
  write_value-Outcome (time t) out d h z =
      guarded d (leb nanos_per_day t.nanos) (t.nanos < nanos_per_day) out _ _
        (time_out_of_range t.nanos) (λ early. gt→leb _ _ early) (λ passed. leb→gt _ _ passed)
        (rw (tagged out tag_time (omega arith)) (
          write_head-head (out ++ head 6 tag_time) 0 t.nanos (omega arith) h
          ∙ append_assoc out (head 6 tag_time) (head 0 t.nanos)))
  write_value-Outcome (date_time t) out d h z =
      guarded d (ltb max_offset_minutes (unsigned_abs t.offset_minutes)) _ out _ _
        (offset_out_of_range t.offset_minutes) (λ near. ge→ltb _ _ near)
        (λ passed. ltb→ge _ _ passed)
        (date_time_item out t.epoch_nanos t.offset_minutes h.0 (wider t.offset_minutes h.1))
  write_value-Outcome (duration x) out d h z =
      shallow d out _ _ (duration_item out x.months x.days x.nanos h.0 h.1 h.2)
  write_value-Outcome (list vs) out d h z =
      tested (ltb max_value_depth d) _ (AreItems (d + 1) vs) out _ depth_exceeded _
        (λ good. ge→ltb _ _ good.0) (λ good. good.1) (λ fits rest. (ltb→ge _ _ fits, rest))
        (rw (write_head-head out 4 (length_of vs) (omega arith) z.0) (
          behind out (head 4 (length_of vs)) (items vs) (AreItems (d + 1) vs) _
            (write_values-Outcome vs (out ++ head 4 (length_of vs)) (d + 1) h z.1)))

  pub write_values-Outcome :
      (vs : Values) (out : List ℕ) (d : ℕ)
      → AreValues vs
      → AreSized vs
      → Outcome (AreItems d vs) out (items vs) (write_values vs out d)
  write_values-Outcome nil out d h z = inl (tt, rw append-nil refl)
  write_values-Outcome (cons v vs) out d (h, hs) (z, zs) =
      in_turn (IsItem d v) (AreItems d vs) out _ _ _ _ (write_value-Outcome v out d h z)
        (write_values-Outcome vs (out ++ item v) d hs zs)
