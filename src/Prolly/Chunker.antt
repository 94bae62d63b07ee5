-- ===== src/Prolly/Chunker.antt =====
-- chunker.rs: where the entries of a level are cut into chunks. The lengths and the counts are of
-- bytes and entries held in memory, so their sums stay in the range of `u64`.
pub mod Cuts
pub mod Shape
pub mod Contract
mod Tests
use acetone.Prelude.{
  ℕ, zero, suc, ◌+◌, ◌-◌, ◌*◌, ◌/◌, ◌%◌, ◌^◌, Bool, true, false, not, ◌&&◌, if◌then◌else◌, List, [],
  ◌∷◌,
}
use acetone.Prelude.{bit_and, bit_xor, ltb, leb, ◌==◌, length}
use acetone.Prelude.Result.{ok, ◌>>=◌, ◌>>◌, refuse}
use acetone.Prolly.Types.{
  Bytes, Prolly, invalid_params, min_bytes_zero, min_exceeds_max, max_over_format,
  mask_bits_too_wide,
}

abbrev pub max_chunk_max_bytes : ℕ
max_chunk_max_bytes = 2 ^ 20

pub record ChunkParams : Type 0 where
  pub min_bytes : ℕ
  pub mask_bits : ℕ
  pub max_bytes : ℕ

-- `ChunkParams::default`
abbrev pub default_params : ChunkParams
default_params = record { min_bytes = 1024; mask_bits = 12; max_bytes = 16384 }

-- `ChunkParams::new`
unfoldable pub new_params : ℕ → ℕ → ℕ → Prolly ChunkParams
new_params min_bytes mask_bits max_bytes = do
  refuse (min_bytes == 0) (invalid_params min_bytes_zero)
  refuse (ltb max_bytes min_bytes) (invalid_params min_exceeds_max)
  refuse (ltb max_chunk_max_bytes max_bytes) (invalid_params max_over_format)
  refuse (leb 64 mask_bits) (invalid_params mask_bits_too_wide)
  ok (record { min_bytes = min_bytes; mask_bits = mask_bits; max_bytes = max_bytes })

abbrev pub mask : ChunkParams → ℕ
mask params = 2 ^ params.mask_bits - 1

-- One slot of the table, from the state of the generator.
unfoldable pub splitmix : ℕ → ℕ
splitmix state =
    let z = bit_xor state (state / 2 ^ 30) * 0xbf58_476d_1ce4_e5b9 % 2 ^ 64 in
    let z' = bit_xor z (z / 2 ^ 27) * 0x94d0_49bb_1331_11eb % 2 ^ 64 in bit_xor z' (z' / 2 ^ 31)

-- The slot of a byte, counted from the state before the first slot.
unfoldable pub gear_from : ℕ → ℕ → ℕ
gear_from state zero = splitmix ((state + 0x9e37_79b9_7f4a_7c15) % 2 ^ 64)
gear_from state (suc b) = gear_from ((state + 0x9e37_79b9_7f4a_7c15) % 2 ^ 64) b

unfoldable pub gear : ℕ → ℕ
gear b = gear_from 0x9ae1_6a3b_2f90_404f b

pub record Chunker : Type 0 where
  pub params : ChunkParams
  pub hash : ℕ
  pub len : ℕ
  pub entries : ℕ

unfoldable pub new_chunker : ChunkParams → Chunker
new_chunker params = record { params = params; hash = 0; len = 0; entries = 0 }

-- `for &b in bytes`
unfoldable pub roll : ℕ → Bytes → ℕ
roll hash [] = hash
roll hash (b ∷ bytes) = roll ((hash * 2 % 2 ^ 64 + gear b) % 2 ^ 64) bytes

-- The state that an entry leaves, and whether the chunk is cut after it.
abbrev pub fed : Chunker → Bytes → Chunker
fed c bytes = record {
  params = c.params;
  hash = roll c.hash bytes;
  len = c.len + length bytes;
  entries = c.entries + 1;
}

unfoldable pub decides : Chunker → Bytes → Bool
decides c bytes =
    if ltb c.entries 2
    then false
    else if leb c.params.max_bytes c.len
    then true
    else leb c.params.min_bytes c.len && ltb (bit_and c.hash (mask c.params)) (length bytes)

unfoldable pub feed_entry : Chunker → Bytes → Bool × Chunker
feed_entry c bytes = (decides (fed c bytes) bytes, fed c bytes)

unfoldable pub reset : Chunker → Chunker
reset c = record { params = c.params; hash = 0; len = 0; entries = 0 }
