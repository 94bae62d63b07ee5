-- ===== src/Keys/Strict/Framing.antt =====
-- Successful reads of framed strings, taken apart.
use acetone.Prelude.{
  ℕ, zero, suc, ◌+◌, ◌-◌, ◌≤◌, ◌<◌, ◌≡◌, refl, sym, ◌∙◌, ap, subst, List, [], ◌∷◌, ◌++◌, arith,
  false,
}
use acetone.Prelude.{
  append_assoc, length, length-append, length-take, length-drop, take, drop, replicate,
  take-append-drop, take-append, drop-append, All-take, All-append, ◌==◌, ==_iff, if◌then◌else◌,
  Bool-cases, inl, inr,
}
use acetone.Prelude.Bytes.{IsByte, IsBytes}
use acetone.Prelude.Result.{ok, bind_parts}
use acetone.Keys.Read.{
  read_u8, read_array, any_nonzero, last_group, read_chunked_loop, read_chunked,
}
use acetone.Keys.Encoding.{chunks}
use acetone.Keys.Accepts.{chunks_full, chunks_part}
use acetone.Keys.Strict.Bodies.{IsBytes-split, read_array_ok}

-- The framed string `s` stands at the front of the input, and `q` is `s` behind `out`, and the rest.
pub record ChunksRead (out input : List ℕ) (q : List ℕ × List ℕ) : Type 0 where
  pub text : List ℕ
  pub joined : q.0 ≡ out ++ text
  pub split : input ≡ chunks 8 text ++ q.1
  pub bytes : IsBytes text
  pub rest : IsBytes q.1

zeros_of : (bs : List ℕ) → any_nonzero bs ≡ false → bs ≡ replicate (length bs) 0
unfolding any_nonzero
zeros_of [] h = refl
zeros_of (zero ∷ bs) h = ap (λ t. 0 ∷ t) (zeros_of bs h)
zeros_of (suc b ∷ bs) h = absurd (ground arith)

pub read_u8_ok : (input : List ℕ) (q : ℕ × List ℕ) → read_u8 input ≡ ok q → input ≡ q.0 ∷ q.1
unfolding read_u8
read_u8_ok [] q e = cc
read_u8_ok (b ∷ bs) q e = cc

-- A group of eight with its marker, and more.
group_then_chunks :
    (group text : List ℕ)
    → length group ≡ 8
    → chunks 8 (group ++ text) ≡ group ++ (0xff ∷ chunks 8 text)
group_then_chunks group text e =
    chunks_full (group ++ text) (omega (arith, length-append group text))
    ∙ rw (← e, take-append, drop-append, append_assoc)

-- A last group, padded to eight, with its marker.
chunks_last :
    (text rest : List ℕ)
    → length text < 8
    → chunks 8 text ++ rest ≡ (text ++ replicate (8 - length text) 0) ++ (0xf7 + length text) ∷ rest
chunks_last text rest h =
    let zeros : List ℕ = replicate (8 - length text) 0 in
    let marker : 0xff - (8 - length text) ≡ 0xf7 + length text = omega arith in
    rw (
      chunks_part 8 text h,
      marker,
      append_assoc text (zeros ++ (0xf7 + length text) ∷ []) rest,
      append_assoc zeros ((0xf7 + length text) ∷ []) rest,
      ← append_assoc text zeros ((0xf7 + length text) ∷ rest),
    )

LastGroup : List ℕ → ℕ → List ℕ → List ℕ → List ℕ × List ℕ → Type 0
LastGroup out marker group rest q =
    (0xf7 ≤ marker)
    × (marker < 0xff)
    × (any_nonzero (drop (marker - 0xf7) group) ≡ false)
    × (q ≡ (out ++ take (marker - 0xf7) group, rest))

last_group_facts :
    (out : List ℕ) (marker : ℕ) (group rest : List ℕ) (q : List ℕ × List ℕ)
    → last_group out marker group rest ≡ ok q
    → LastGroup out marker group rest q
unfolding last_group LastGroup
last_group_facts out marker group rest q h = ground arith

padded :
    (n : ℕ) (group : List ℕ)
    → length group ≡ 8
    → n ≤ 8
    → any_nonzero (drop n group) ≡ false
    → take n group ++ replicate (8 - length (take n group)) 0 ≡ group
padded n group e small blank =
    let room : 8 - length (take n group) ≡ length (drop n group) =
      omega (arith, length-take n group, length-drop n group) in
    rw (room, ← zeros_of (drop n group) blank) (take-append-drop n group)

last_group_ok :
    (out : List ℕ) (marker : ℕ) (group rest : List ℕ) (q : List ℕ × List ℕ)
    → length group ≡ 8
    → IsBytes group
    → IsBytes rest
    → last_group out marker group rest ≡ ok q
    → ChunksRead out (group ++ (marker ∷ rest)) q
unfolding LastGroup
last_group_ok out marker group rest q e hg hr h =
    let (low, high, blank, same) = last_group_facts out marker group rest q h in
    let n = marker - 0xf7 in
    let len : length (take n group) ≡ n = omega (arith, length-take n group) in
    let count : 0xf7 + length (take n group) ≡ marker = omega arith in
    subst (ChunksRead out (group ++ (marker ∷ rest))) (sym same) record {
      text = take n group;
      joined = refl;
      split = sym (
          chunks_last (take n group) rest (omega arith)
          ∙ rw (count, padded n group e (omega arith) blank));
      bytes = All-take IsByte n group hg;
      rest = hr;
    }

-- What a round has read, and what is left to do.
round_ok :
    (f : ℕ) (out input : List ℕ) (q : List ℕ × List ℕ)
    → read_chunked_loop (suc f) out input ≡ ok q
    → (group : List ℕ) × (marker : ℕ) × (rest : List ℕ) × (input ≡ group ++ (marker ∷ rest))
      × (length group ≡ 8)
      × ((if marker == 0xff
            then read_chunked_loop f (out ++ group) rest
            else last_group out marker group rest)
          ≡ ok q)
unfolding read_chunked_loop
round_ok f out input q e =
    let (p, e1, e2) = bind_parts (read_array 8 input) _ e in
    let (r, e3, e4) = bind_parts (read_u8 p.1) _ e2 in
    let (split, len) = read_array_ok 8 input p e1 in
    (p.0, r.0, r.1, rw (read_u8_ok p.1 r e3) at split, len, e4)

-- A full group before a framed string.
extend :
    (out group rest : List ℕ) (q : List ℕ × List ℕ)
    → length group ≡ 8
    → IsBytes group
    → ChunksRead (out ++ group) rest q
    → ChunksRead out (group ++ (0xff ∷ rest)) q
extend out group rest q len bytes c = record {
  text = group ++ c.text;
  joined = c.joined ∙ append_assoc out group c.text;
  split =
      rw (c.split, group_then_chunks group c.text len)
        (sym (append_assoc group (0xff ∷ chunks 8 c.text) q.1));
  bytes = All-append IsByte group c.text bytes c.bytes;
  rest = c.rest;
}

pub read_chunked_loop_ok :
    (f : ℕ) (out input : List ℕ) (q : List ℕ × List ℕ)
    → IsBytes input
    → read_chunked_loop f out input ≡ ok q
    → ChunksRead out input q
read_chunked_loop_ok zero out input q h e = unfold read_chunked_loop in cc
read_chunked_loop_ok (suc f) out input q h e =
    let (group, marker, rest, split, len, e') = round_ok f out input q e in
    let (hg, hr) = IsBytes-split group (marker ∷ rest) (rw split at h) in
    elim (Bool-cases (marker == 0xff)) [
      | inl full ↦
          subst (λ t. ChunksRead out t q) (sym (split ∙ rw ((==_iff marker 0xff).0 full)))
            (extend out group rest q len hg
              (read_chunked_loop_ok f (out ++ group) rest q hr.1 (rw full at e')))
      | inr last ↦
          subst (λ t. ChunksRead out t q) (sym split)
            (last_group_ok out marker group rest q len hg hr.1 (rw last at e'))
    ]

pub read_chunked_ok :
    (input : List ℕ) (q : List ℕ × List ℕ)
    → IsBytes input
    → read_chunked input ≡ ok q
    → (input ≡ chunks 8 q.0 ++ q.1) × IsBytes q.0 × IsBytes q.1
unfolding read_chunked
read_chunked_ok input q h e =
    let c = read_chunked_loop_ok (length input + 1) [] input q h e in
    (rw c.joined c.split, rw c.joined c.bytes, c.rest)
