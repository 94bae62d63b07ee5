-- ===== src/Keys/RoundTrip/Framing.antt =====
-- Reading framed strings back.
use acetone.Prelude.{
  ℕ, zero, suc, ◌+◌, ◌-◌, ◌≤◌, ◌<◌, ◌≡◌, refl, ◌∙◌, List, [], ◌∷◌, ◌++◌, arith, false,
}
use acetone.Prelude.{
  append_assoc, length, length-append, take, drop, replicate, take-append, drop-append, leb,
  Bool-cases, inl, inr, leb→le, leb→gt, ge→ltb, le→leb, lt→ltb, take-append-drop, length-take,
  length-drop, length-replicate, ◌==◌, if◌then◌else◌,
}
use acetone.Prelude.Result.{ok}
use acetone.Keys.Read.{
  read_u8, read_array, any_nonzero, last_group, read_chunked_loop, read_chunked,
}
use acetone.Keys.Encoding.{chunks, length-le-chunks}
use acetone.Keys.Accepts.{chunks_full, chunks_part}

length-le : (xs ys : List ℕ) → length xs ≤ length xs + length ys
length-le xs ys = omega arith

-- `read_array` splits off a front of the right length.
pub read_array_front :
    (n : ℕ) (front rest : List ℕ)
    → length front ≡ n
    → read_array n (front ++ rest) ≡ ok (front, rest)
unfolding read_array
read_array_front n front rest e =
    rw (← e, take-append, drop-append, length-append, ge→ltb _ _ (length-le front rest))

-- One round of the loop.
round :
    (f marker : ℕ) (out group rest : List ℕ)
    → length group ≡ 8
    → read_chunked_loop (suc f) out (group ++ marker ∷ rest) ≡ (
        if marker == 0xff
        then read_chunked_loop f (out ++ group) rest
        else last_group out marker group rest)
unfolding read_chunked_loop read_u8
round f marker out group rest e = rw (read_array_front 8 group (marker ∷ rest) e)

any_nonzero-replicate : (k : ℕ) → any_nonzero (replicate k 0) ≡ false
unfolding any_nonzero
any_nonzero-replicate zero = refl
any_nonzero-replicate (suc k) = any_nonzero-replicate k

last_group_part :
    (out part rest : List ℕ)
    → length part < 8
    → last_group out (0xf7 + length part) (part ++ replicate (8 - length part) 0) rest
      ≡ ok (out ++ part, rest)
unfolding last_group
last_group_part out part rest h =
    let meaningful : 0xf7 + length part - 0xf7 ≡ length part = omega arith in
    rw (
      meaningful,
      take-append,
      drop-append,
      any_nonzero-replicate,
      le→leb 0xf7 (0xf7 + length part) (omega arith),
      lt→ltb (0xf7 + length part) 0xff (omega arith),
    )

read_last :
    (f : ℕ) (out s rest : List ℕ)
    → length s < 8
    → read_chunked_loop
        (suc f)
        out
        ((s ++ (replicate (8 - length s) 0 ++ (0xff - (8 - length s)) ∷ [])) ++ rest)
      ≡ ok (out ++ s, rest)
read_last f out s rest h =
    let zeros : List ℕ = replicate (8 - length s) 0 in
    let marker : 0xff - (8 - length s) ≡ 0xf7 + length s = omega arith in
    let last : ((0xf7 + length s) == 0xff) ≡ false = ground arith in
    rw
      (
        marker,
        append_assoc s (zeros ++ (0xf7 + length s) ∷ []) rest,
        append_assoc zeros ((0xf7 + length s) ∷ []) rest,
        ← append_assoc s zeros ((0xf7 + length s) ∷ rest),
      )
      (round f (0xf7 + length s) out (s ++ zeros) rest
          (omega (arith, length-append s zeros, length-replicate {0} {A = ℕ} (8 - length s) 0))
        ∙ rw last (last_group_part out s rest h))

pub read_chunked_loop-chunks :
    (f : ℕ) (out s rest : List ℕ)
    → length s < f
    → read_chunked_loop f out (chunks 8 s ++ rest) ≡ ok (out ++ s, rest)
read_chunked_loop-chunks zero out s rest h = absurd (omega arith)
read_chunked_loop-chunks (suc f) out s rest h = elim (Bool-cases (leb 8 (length s))) [
  | inl full ↦ rw (chunks_full s (leb→le _ _ full)) (
      rw
        (
          append_assoc (take 8 s ++ 0xff ∷ []) (chunks 8 (drop 8 s)) rest,
          append_assoc (take 8 s) (0xff ∷ []) (chunks 8 (drop 8 s) ++ rest),
        )
        (round f 0xff out (take 8 s) (chunks 8 (drop 8 s) ++ rest)
            (omega (arith, length-take 8 s, leb→le _ _ full))
          ∙ read_chunked_loop-chunks f (out ++ take 8 s) (drop 8 s) rest
              (omega (arith, length-drop 8 s, leb→le _ _ full))
          ∙ rw (append_assoc out (take 8 s) (drop 8 s), take-append-drop)))
  | inr part ↦ rw (chunks_part 8 s (leb→gt _ _ part)) (read_last f out s rest (leb→gt _ _ part))
]

pub read_chunked-chunks : (s rest : List ℕ) → read_chunked (chunks 8 s ++ rest) ≡ ok (s, rest)
unfolding read_chunked
read_chunked-chunks s rest =
    read_chunked_loop-chunks _ [] s rest
      (omega (arith, length-append (chunks 8 s) rest, length-le-chunks 8 s))
