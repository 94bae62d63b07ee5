-- ===== src/Keys/Cmp.antt =====
-- The logical order of keys.rs: `rank`, `value_cmp` and `key_cmp`.
use acetone.Prelude.{ℕ, Ordering, lt, eq, gt, true, false, compare, then_with, if◌then◌else◌}
use acetone.Prelude.Int.{int_cmp}
use acetone.Prelude.Bytes.{bytes_cmp}
use acetone.Keys.Tag
use acetone.Model.{DateTime, Duration, is_zero, total_cmp}
use acetone.Model.{
  Value, Values, null, bool, int, float, string, bytes, date, time, date_time, duration, list, nil,
  cons,
}

unfoldable pub rank : Value → ℕ
rank null = Tag.null
rank (bool false) = Tag.bool_false
rank (bool true) = Tag.bool_true
rank (int _) = Tag.int
rank (float _) = Tag.float
rank (string _) = Tag.string
rank (bytes _) = Tag.bytes
rank (date _) = Tag.date
rank (time _) = Tag.time
rank (date_time _) = Tag.date_time
rank (duration _) = Tag.duration
rank (list _) = Tag.list

unfoldable pub normalise_zero : ℕ → ℕ
unfolding is_zero
normalise_zero x = if is_zero x then 0 else x

-- The derived orders of the temporal structs: field by field.
abbrev pub date_time_cmp : DateTime → DateTime → Ordering
date_time_cmp a b =
    then_with (int_cmp a.epoch_nanos b.epoch_nanos) (int_cmp a.offset_minutes b.offset_minutes)

abbrev pub duration_cmp : Duration → Duration → Ordering
duration_cmp a b =
    then_with (int_cmp a.months b.months)
      (then_with (int_cmp a.days b.days) (int_cmp a.nanos b.nanos))

-- `value_cmp` decides by rank first, so two values of unlike variants, and two booleans, compare as
-- their ranks do; within a variant the contents decide.
unfoldable mutual
  pub value_cmp : Value → Value → Ordering
  value_cmp (int x) (int y) = int_cmp x y
  value_cmp (float x) (float y) = total_cmp (normalise_zero x) (normalise_zero y)
  value_cmp (string x) (string y) = bytes_cmp x y
  value_cmp (bytes x) (bytes y) = bytes_cmp x y
  value_cmp (date x) (date y) = int_cmp x.days y.days
  value_cmp (time x) (time y) = compare x.nanos y.nanos
  value_cmp (date_time x) (date_time y) = date_time_cmp x y
  value_cmp (duration x) (duration y) = duration_cmp x y
  value_cmp (list x) (list y) = key_cmp x y
  value_cmp a b = compare (rank a) (rank b)

  pub key_cmp : Values → Values → Ordering
  key_cmp nil nil = eq
  key_cmp nil (cons y ys) = lt
  key_cmp (cons x xs) nil = gt
  key_cmp (cons x xs) (cons y ys) = then_with (value_cmp x y) (key_cmp xs ys)
