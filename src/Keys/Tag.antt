-- ===== src/Keys/Tag.antt =====
-- The constants of keys.rs: type tags, the depth limit and the chunk framing.
use acetone.Prelude.{ℕ, ◌^◌}

abbrev pub list_end : ℕ
list_end = 0x00

abbrev pub null : ℕ
null = 0x01

abbrev pub bool_false : ℕ
bool_false = 0x02

abbrev pub bool_true : ℕ
bool_true = 0x03

abbrev pub int : ℕ
int = 0x04

abbrev pub float : ℕ
float = 0x05

abbrev pub string : ℕ
string = 0x06

abbrev pub bytes : ℕ
bytes = 0x07

abbrev pub date : ℕ
date = 0x08

abbrev pub time : ℕ
time = 0x09

abbrev pub date_time : ℕ
date_time = 0x0a

abbrev pub duration : ℕ
duration = 0x0b

abbrev pub list : ℕ
list = 0x0c

abbrev pub max_depth : ℕ
max_depth = 128

abbrev pub sign_bit : ℕ
sign_bit = 2 ^ 63

abbrev pub marker_base : ℕ
marker_base = 0xf7

abbrev pub marker_continue : ℕ
marker_continue = 0xff

abbrev pub group : ℕ
group = 8
