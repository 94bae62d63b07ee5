-- ===== src/Keys/Encoding.antt =====
-- What the encoder of keys.rs promises to write, in plain arithmetic, and which values it accepts.
mod Chunks
unfoldable pub use Chunks.{chunks}
pub use Chunks.{bytes_cmp-chunks, length-chunks, length-le-chunks, chunks-IsBytes}
use acetone.Prelude.{ℕ, zero, suc, ◌+◌, ◌-◌, ◌^◌, ◌≤◌, ◌<◌, ◌≡◌, true, false, List, [], ◌∷◌, ◌++◌}
use acetone.Prelude.{ltb, if◌then◌else◌}
use acetone.Prelude.Int.{biased}
use acetone.Prelude.Bytes.{be_bytes}
use acetone.Keys.Tag
use acetone.Keys.Cmp.{normalise_zero}
use acetone.Keys.Write.{unsigned_abs}
use acetone.Model.{nanos_per_day, max_offset_minutes, is_nan}
use acetone.Model.{
  Value, Values, null, bool, int, float, string, bytes, date, time, date_time, duration, list, nil,
  cons,
}

-- The place of a float in the total order of bit patterns, from the least negative NaN on.
abbrev pub float_ordinal : ℕ → ℕ
float_ordinal bits = if ltb bits (2 ^ 63) then bits + 2 ^ 63 else 2 ^ 64 - 1 - bits

abbrev pub word : ℕ → List ℕ
word x = be_bytes 8 x

unfoldable mutual
  unfolding chunks normalise_zero

  pub encoding : Value → List ℕ
  encoding null = Tag.null ∷ []
  encoding (bool false) = Tag.bool_false ∷ []
  encoding (bool true) = Tag.bool_true ∷ []
  encoding (int n) = Tag.int ∷ word (biased 63 n)
  encoding (float x) = Tag.float ∷ word (float_ordinal (normalise_zero x))
  encoding (string s) = Tag.string ∷ chunks 8 s
  encoding (bytes b) = Tag.bytes ∷ chunks 8 b
  encoding (date d) = Tag.date ∷ word (biased 63 d.days)
  encoding (time t) = Tag.time ∷ word t.nanos
  encoding (date_time t) =
      Tag.date_time ∷ (word (biased 63 t.epoch_nanos) ++ be_bytes 2 (biased 15 t.offset_minutes))
  encoding (duration d) =
      Tag.duration
      ∷ (word (biased 63 d.months) ++ (word (biased 63 d.days) ++ word (biased 63 d.nanos)))
  encoding (list vs) = Tag.list ∷ (encodings vs ++ Tag.list_end ∷ [])

  pub encodings : Values → List ℕ
  encodings nil = []
  encodings (cons v vs) = encoding v ++ encodings vs

-- A value that may stand in a key at this nesting depth.
abbrev mutual
  pub IsKey : ℕ → Value → Type 0
  IsKey d null = d ≤ Tag.max_depth
  IsKey d (bool b) = d ≤ Tag.max_depth
  IsKey d (int n) = d ≤ Tag.max_depth
  IsKey d (float x) = (d ≤ Tag.max_depth) × (is_nan x ≡ false)
  IsKey d (string s) = d ≤ Tag.max_depth
  IsKey d (bytes b) = d ≤ Tag.max_depth
  IsKey d (date x) = d ≤ Tag.max_depth
  IsKey d (time t) = (d ≤ Tag.max_depth) × (t.nanos < nanos_per_day)
  IsKey d (date_time t) = (d ≤ Tag.max_depth) × (unsigned_abs t.offset_minutes ≤ max_offset_minutes)
  IsKey d (duration x) = d ≤ Tag.max_depth
  IsKey d (list vs) = (d ≤ Tag.max_depth) × AreKeys (d + 1) vs

  pub AreKeys : ℕ → Values → Type 0
  AreKeys d nil = Unit
  AreKeys d (cons v vs) = IsKey d v × AreKeys d vs
