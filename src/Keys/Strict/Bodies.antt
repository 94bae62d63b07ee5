-- ===== src/Keys/Strict/Bodies.antt =====
-- Successful reads of the fixed-width and the framed bodies, taken apart.
use acetone.Prelude.{ℕ, ◌*◌, ◌^◌, ◌<◌, ◌≡◌, refl, sym, ◌∙◌, subst, List, [], ◌∷◌, ◌++◌, arith}
use acetone.Prelude.{
  length, length-take, take-append-drop, ltb, ltb→ge, Bool-cases, inl, inr, bit_xor,
}
use acetone.Prelude.Int.{
  ℤ, IsSigned, biased, flip-biased, xor-xor, xor-lt, to_unsigned-signed, to_signed,
  to_signed-IsSigned,
}
use acetone.Prelude.Bytes.{IsBytes, be_bytes, from_be, be_bytes-from_be, from_be-lt}
use acetone.Prelude.Result.{ok, bind_parts}
use acetone.Keys.Read.{unflip_sign_i64, read_array, read_i64}

pub IsBytes-split : (xs ys : List ℕ) → IsBytes (xs ++ ys) → IsBytes xs × IsBytes ys
IsBytes-split [] ys h = (tt, h)
IsBytes-split (x ∷ xs) ys (p, h) = let (a, b) = IsBytes-split xs ys h in ((p, a), b)

pub read_array_ok :
    (n : ℕ) (input : List ℕ) (q : List ℕ × List ℕ)
    → read_array n input ≡ ok q
    → (input ≡ q.0 ++ q.1) × (length q.0 ≡ n)
unfolding read_array
read_array_ok n input q h = elim (Bool-cases (ltb (length input) n)) [
  | inl short ↦ absurd (cc (short, h))
  | inr long ↦ ground (arith, take-append-drop n input, length-take n input, ltb→ge _ _ long)
]

rebias : (k u : ℕ) → u < 2 * 2 ^ k → biased k (to_signed k (bit_xor u (2 ^ k))) ≡ u
rebias k u h =
    let w = bit_xor u (2 ^ k) in
    sym (flip-biased k (to_signed k w) (to_signed-IsSigned k w (xor-lt k u h)))
    ∙ rw (to_unsigned-signed k w (xor-lt k u h)) (xor-xor k u h)

-- A front of `n` bytes is the word that its signed reading stands for.
pub word_of_front :
    (k n : ℕ) (front : List ℕ)
    → 2 * 2 ^ k ≡ 256 ^ n
    → length front ≡ n
    → IsBytes front
    → let z = to_signed k (bit_xor (from_be 0 front) (2 ^ k)) in
      (be_bytes n (biased k z) ≡ front) × IsSigned k z
word_of_front k n front fits e h =
    let u = from_be 0 front in
    let small : u < 2 * 2 ^ k = rw (fits, ← e) (omega (arith, from_be-lt front 0 h)) in
    (
      rw (rebias k u small, ← e) (be_bytes-from_be front h),
      to_signed-IsSigned k _ (xor-lt k u small),
    )

-- A signed word, and what is left of the input.
pub record WordRead (k n : ℕ) (input : List ℕ) (q : ℤ × List ℕ) : Type 0 where
  pub split : input ≡ be_bytes n (biased k q.0) ++ q.1
  pub signed : IsSigned k q.0
  pub rest : IsBytes q.1

pub word_read :
    (k n : ℕ) (input : List ℕ) (p : List ℕ × List ℕ)
    → 2 * 2 ^ k ≡ 256 ^ n
    → IsBytes input
    → read_array n input ≡ ok p
    → WordRead k n input (to_signed k (bit_xor (from_be 0 p.0) (2 ^ k)), p.1)
word_read k n input p fits h e =
    let (split, len) = read_array_ok n input p e in
    let (front, rest) = IsBytes-split p.0 p.1 (rw split at h) in
    let (same, signed) = word_of_front k n p.0 fits len front in
    record { split = rw same split; signed = signed; rest = rest }

pub read_i64_ok :
    (input : List ℕ) (q : ℤ × List ℕ)
    → IsBytes input
    → read_i64 input ≡ ok q
    → WordRead 63 8 input q
unfolding unflip_sign_i64
read_i64_ok input q h e =
    let (p, e', e'') = bind_parts (read_array 8 input) _ e in
    subst (WordRead 63 8 input) (cc e'') (word_read 63 8 input p refl h e')

-- An unsigned word.
pub unsigned_read :
    (n : ℕ) (input : List ℕ) (p : List ℕ × List ℕ)
    → IsBytes input
    → read_array n input ≡ ok p
    → (input ≡ be_bytes n (from_be 0 p.0) ++ p.1) × (from_be 0 p.0 < 256 ^ n) × IsBytes p.1
unsigned_read n input p h e =
    let (split, len) = read_array_ok n input p e in
    let (front, rest) = IsBytes-split p.0 p.1 (rw split at h) in
    (
      rw (← len, be_bytes-from_be p.0 front) split,
      rw (← len) (omega (arith, from_be-lt p.0 0 front)),
      rest,
    )
