-- ===== src/Model.antt =====
-- crates/acetone-model/src/lib.rs: property values. `String` is its UTF-8 bytes, `i64` and `i16`
-- are integers with a range, and `f64` is its IEEE-754 bit pattern, on which the comparisons of the
-- language are written out.
use acetone.Prelude.{ℕ, ◌-◌, ◌*◌, ◌%◌, ◌^◌, ◌<◌, ◌≡◌, Ordering}
use acetone.Prelude.{Bool, true, ◌&&◌, List, [], ◌∷◌, ltb, leb, ◌==◌, if◌then◌else◌}
use acetone.Prelude.Int.{ℤ, pos, negsuc, IsSigned, int_cmp}
use acetone.Prelude.Bytes.{IsBytes}

abbrev pub nanos_per_day : ℕ
nanos_per_day = 86_400_000_000_000

abbrev pub max_offset_minutes : ℕ
max_offset_minutes = 18 * 60

pub record Date : Type 0 where
  pub days : ℤ

pub record Time : Type 0 where
  pub nanos : ℕ

pub record DateTime : Type 0 where
  pub epoch_nanos : ℤ
  pub offset_minutes : ℤ

pub record Duration : Type 0 where
  pub months : ℤ
  pub days : ℤ
  pub nanos : ℤ

mutual
  pub data Value : Type 0 where
    null : Value
    bool : Bool → Value
    int : ℤ → Value
    float : ℕ → Value
    string : List ℕ → Value
    bytes : List ℕ → Value
    date : Date → Value
    time : Time → Value
    date_time : DateTime → Value
    duration : Duration → Value
    list : Values → Value

  -- `Vec<Value>` and `&[Value]`
  pub data Values : Type 0 where
    nil : Values
    cons : Value → Values → Values

-- `f64::is_nan`, `x == 0.0` and `f64::total_cmp` on bit patterns.
unfoldable pub is_nan : ℕ → Bool
is_nan bits = ltb 0x7ff0_0000_0000_0000 (bits % 2 ^ 63)

unfoldable pub is_zero : ℕ → Bool
is_zero bits = bits % 2 ^ 63 == 0

abbrev pub total_key : ℕ → ℤ
total_key bits = if ltb bits (2 ^ 63) then pos bits else negsuc (bits - 2 ^ 63)

abbrev pub total_cmp : ℕ → ℕ → Ordering
total_cmp x y = int_cmp (total_key x) (total_key y)

-- The state of a UTF-8 validator: how many continuation bytes are due, and the range of the next.
pub record Utf8State : Type 0 where
  pub due : ℕ
  pub low : ℕ
  pub high : ℕ

abbrev utf8_after : ℕ → ℕ → ℕ → Utf8State
utf8_after n lo hi = record { due = n; low = lo; high = hi }

-- A first byte: one byte, or the head of two, three or four; the tighter ranges rule out overlong
-- forms, surrogates and numbers past U+10FFFF. `low` above `high` refuses every byte.
abbrev utf8_first : ℕ → Utf8State
utf8_first b =
    if ltb b 0x80
    then utf8_after 0 0 0
    else if ltb b 0xc2
    then utf8_after 1 1 0
    else if ltb b 0xe0
    then utf8_after 1 0x80 0xbf
    else if b == 0xe0
    then utf8_after 2 0xa0 0xbf
    else if b == 0xed
    then utf8_after 2 0x80 0x9f
    else if ltb b 0xf0
    then utf8_after 2 0x80 0xbf
    else if b == 0xf0
    then utf8_after 3 0x90 0xbf
    else if ltb b 0xf4
    then utf8_after 3 0x80 0xbf
    else if b == 0xf4
    then utf8_after 3 0x80 0x8f
    else utf8_after 1 1 0

utf8_next : ℕ → Utf8State → Utf8State
utf8_next b s =
    if s.due == 0
    then utf8_first b
    else if leb s.low b && leb b s.high
    then utf8_after (s.due - 1) 0x80 0xbf
    else utf8_after 1 1 0

utf8_run : Utf8State → List ℕ → Bool
utf8_run s [] = s.due == 0
utf8_run s (b ∷ bs) = utf8_run (utf8_next b s) bs

-- `str::from_utf8` accepts.
unfoldable pub is_utf8 : List ℕ → Bool
unfolding utf8_run utf8_next
is_utf8 bs = utf8_run (utf8_after 0 0 0) bs

-- What Rust's types guarantee of a value: the widths of the integers, bytes, and UTF-8 in strings.
abbrev mutual
  pub IsValue : Value → Type 0
  IsValue null = Unit
  IsValue (bool b) = Unit
  IsValue (int n) = IsSigned 63 n
  IsValue (float bits) = bits < 2 ^ 64
  IsValue (string s) = IsBytes s × (is_utf8 s ≡ true)
  IsValue (bytes b) = IsBytes b
  IsValue (date d) = IsSigned 63 d.days
  IsValue (time t) = t.nanos < 2 ^ 64
  IsValue (date_time t) = IsSigned 63 t.epoch_nanos × IsSigned 15 t.offset_minutes
  IsValue (duration d) = IsSigned 63 d.months × IsSigned 63 d.days × IsSigned 63 d.nanos
  IsValue (list vs) = AreValues vs

  pub AreValues : Values → Type 0
  AreValues nil = Unit
  AreValues (cons v vs) = IsValue v × AreValues vs
