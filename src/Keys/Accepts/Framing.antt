-- ===== src/Keys/Accepts/Framing.antt =====
-- The bodies that the encoder of keys.rs writes, as the promised encoding.
use acetone.Prelude.{
  ℕ, zero, suc, ◌+◌, ◌-◌, ◌^◌, ◌≤◌, ◌<◌, ◌≡◌, refl, ◌∙◌, List, [], ◌∷◌, ◌++◌, arith,
}
use acetone.Prelude.{
  append_assoc, bit_xor, length, take, drop, replicate, leb, leb→le, leb→gt, ltb, inl, inr,
  Bool-cases, length-drop,
}
use acetone.Prelude.Int.{ℤ, IsSigned, biased, flip-biased, to_unsigned}
use acetone.Prelude.Bits.{and_below, and_above, or_set}
use acetone.Prelude.Bytes.{be_bytes}
use acetone.Keys.Write.{write_chunked_loop, write_chunked, flip_sign_i64, float_body}
use acetone.Keys.Encoding.{chunks, word, float_ordinal}

pub flip_sign_i64-word : (n : ℤ) → IsSigned 63 n → flip_sign_i64 n ≡ word (biased 63 n)
unfolding flip_sign_i64
flip_sign_i64-word n h = rw (flip-biased 63 n h)

pub offset-biased :
    (n : ℤ)
    → IsSigned 15 n
    → be_bytes 2 (bit_xor (to_unsigned 15 n) 0x8000) ≡ be_bytes 2 (biased 15 n)
offset-biased n h = rw (flip-biased 15 n h)

pub float_body-ordinal : (x : ℕ) → x < 2 ^ 64 → float_body x ≡ float_ordinal x
unfolding float_body
float_body-ordinal x h = elim (Bool-cases (ltb x (2 ^ 63))) [
  | inl low ↦ ground (arith, and_below 63 x, or_set 63 x)
  | inr high ↦ ground (arith, and_above 63 (x - 2 ^ 63))
]

-- A full group in one step.
pub chunks_full :
    (rem : List ℕ)
    → 8 ≤ length rem
    → chunks 8 rem ≡ (take 8 rem ++ 0xff ∷ []) ++ chunks 8 (drop 8 rem)
unfolding chunks
chunks_full (a ∷ b ∷ c ∷ d ∷ e ∷ f ∷ g ∷ h ∷ []) p = refl
chunks_full (a ∷ b ∷ c ∷ d ∷ e ∷ f ∷ g ∷ h ∷ i ∷ r) p = refl
chunks_full _ p = absurd (omega arith)

-- The last group.
pub chunks_part :
    (room : ℕ) (rem : List ℕ)
    → length rem < room
    → chunks room rem
      ≡ rem ++ (replicate (room - length rem) 0 ++ (0xff - (room - length rem)) ∷ [])
unfolding chunks
chunks_part zero rem p = absurd (omega arith)
chunks_part (suc room) [] p = let same : suc room - 0 ≡ suc room = omega arith in rw same
chunks_part (suc room) (b ∷ rem) p =
    let same : suc room - suc (length rem) ≡ room - length rem = omega arith in
    rw (same, chunks_part room rem (omega arith))

write_chunked_loop-chunks :
    (fuel : ℕ) (out rem : List ℕ)
    → length rem < fuel
    → write_chunked_loop fuel out rem ≡ out ++ chunks 8 rem
unfolding write_chunked_loop
write_chunked_loop-chunks zero out rem h = absurd (omega arith)
write_chunked_loop-chunks (suc fuel) out rem h = elim (Bool-cases (leb 8 (length rem))) [
  | inl full ↦
      rw (full, chunks_full rem (leb→le _ _ full))
        (write_chunked_loop-chunks fuel (out ++ take 8 rem ++ 0xff ∷ []) (drop 8 rem)
            (omega (arith, length-drop 8 rem, leb→le _ _ full))
          ∙ rw (
            append_assoc out (take 8 rem) (0xff ∷ []),
            append_assoc out (take 8 rem ++ 0xff ∷ []) (chunks 8 (drop 8 rem)),
          ))
  | inr part ↦
      rw (part, chunks_part 8 rem (leb→gt _ _ part))
        (let marker : 0xff - (8 - length rem) ≡ 0xf7 + length rem =
            omega (arith, leb→gt _ _ part) in
          rw marker)
]

pub write_chunked-chunks :
    (out contents : List ℕ) → write_chunked out contents ≡ out ++ chunks 8 contents
unfolding write_chunked
write_chunked-chunks out contents =
    write_chunked_loop-chunks (length contents + 1) out contents (omega arith)
