-- ===== src/ValueCodec/Item.antt =====
-- What the encoder of values.rs promises to write, and which values it accepts.
use acetone.Prelude.{ℕ, ◌+◌, ◌^◌, ◌≤◌, ◌<◌, true, false, List, [], ◌∷◌, ◌++◌}
use acetone.Prelude.{length}
use acetone.Prelude.Int.{ℤ, pos, negsuc}
use acetone.Keys.Write.{unsigned_abs}
use acetone.Cbor.Heads.{head}
use acetone.ValueCodec.Write.{
  write_float, length_of, max_value_depth, simple_null, simple_false, simple_true, tag_date,
  tag_time, tag_date_time, tag_duration,
}
use acetone.Model.{nanos_per_day, max_offset_minutes}
use acetone.Model.{
  Value, Values, null, bool, int, float, string, bytes, date, time, date_time, duration, list, nil,
  cons,
}

unfoldable pub int_item : ℤ → List ℕ
int_item (pos n) = head 0 n
int_item (negsuc n) = head 1 n

unfoldable mutual
  unfolding int_item

  pub item : Value → List ℕ
  item null = simple_null ∷ []
  item (bool false) = simple_false ∷ []
  item (bool true) = simple_true ∷ []
  item (int n) = int_item n
  item (float x) = write_float [] x
  item (string s) = head 3 (length s) ++ s
  item (bytes b) = head 2 (length b) ++ b
  item (date d) = head 6 tag_date ++ int_item d.days
  item (time t) = head 6 tag_time ++ head 0 t.nanos
  item (date_time t) =
      head 6 tag_date_time ++ (head 4 2 ++ (int_item t.epoch_nanos ++ int_item t.offset_minutes))
  item (duration d) =
      head 6 tag_duration
      ++ (head 4 3 ++ (int_item d.months ++ (int_item d.days ++ int_item d.nanos)))
  item (list vs) = head 4 (length_of vs) ++ items vs

  pub items : Values → List ℕ
  items nil = []
  items (cons v vs) = item v ++ items vs

-- A value that is accepted at this nesting depth.
abbrev mutual
  pub IsItem : ℕ → Value → Type 0
  IsItem d (time t) = (d ≤ max_value_depth) × (t.nanos < nanos_per_day)
  IsItem d (date_time t) =
      (d ≤ max_value_depth) × (unsigned_abs t.offset_minutes ≤ max_offset_minutes)
  IsItem d (list vs) = (d ≤ max_value_depth) × AreItems (d + 1) vs
  IsItem d v = d ≤ max_value_depth

  pub AreItems : ℕ → Values → Type 0
  AreItems d nil = Unit
  AreItems d (cons v vs) = IsItem d v × AreItems d vs

-- The lengths of strings, bytes and lists are numbers of type `u64`, as Rust guarantees.
abbrev mutual
  pub IsSized : Value → Type 0
  IsSized (string s) = length s < 2 ^ 64
  IsSized (bytes b) = length b < 2 ^ 64
  IsSized (list vs) = (length_of vs < 2 ^ 64) × AreSized vs
  IsSized v = Unit

  pub AreSized : Values → Type 0
  AreSized nil = Unit
  AreSized (cons v vs) = IsSized v × AreSized vs
