-- ===== src/Prolly/Node/Frames.antt =====
-- The frames of a node's encoding: words and byte strings behind one another.
use acetone.Prelude.{ℕ, ◌^◌, ◌<◌, ◌≡◌, refl, sym, ap, subst, ◌∙◌, false, [], ◌∷◌, ◌++◌, arith}
use acetone.Prelude.{
  ltb, ltb→ge, ge→ltb, Bool-cases, inl, inr, length, length-append, length-take, take-append,
  drop-append, take-append-drop, All-take, All-drop,
}
use acetone.Prelude.Bytes.{
  IsBytes, be_bytes, from_be, length-be_bytes, from_be-be_bytes, be_bytes-from_be, from_be-lt,
}
use acetone.Prelude.Result.{ok, bind_parts, ◌>>=◌}
use acetone.Prolly.Types.{Bytes, Prolly}
use acetone.Prolly.Node.{take_bytes, take_u8, take_u32}

-- A byte string in front of more.
pub take_bytes-append : (x rest : Bytes) → take_bytes (length x) (x ++ rest) ≡ ok (x, rest)
unfolding take_bytes
take_bytes-append x rest =
    let fits : ltb (length (x ++ rest)) (length x) ≡ false =
      ge→ltb _ _ (omega (arith, length-append x rest)) in
    rw (fits, take-append x rest, drop-append x rest) refl

pub take_u32-be_bytes :
    (n : ℕ) (rest : Bytes) → n < 2 ^ 32 → take_u32 (be_bytes 4 n ++ rest) ≡ ok (n, rest)
unfolding take_u32
take_u32-be_bytes n rest h =
    let read : take_bytes 4 (be_bytes 4 n ++ rest) ≡ ok (be_bytes 4 n, rest) =
      rw (length-be_bytes 4 n) at (take_bytes-append (be_bytes 4 n) rest) in
    rw (read, from_be-be_bytes 4 n (omega arith)) refl

pub take_u8-cons : (b : ℕ) (rest : Bytes) → take_u8 (b ∷ rest) ≡ ok (b, rest)
unfolding take_u8
take_u8-cons b rest =
    let read : take_bytes 1 (b ∷ rest) ≡ ok (b ∷ [], rest) = take_bytes-append (b ∷ []) rest in
    rw read (unfold from_be in ap (λ n. ok (n, rest)) (omega arith))

-- What a successful read has read.
abbrev pub Took : ℕ → Bytes → Bytes × Bytes → Type 0
Took n chunk q = (chunk ≡ q.0 ++ q.1) × (length q.0 ≡ n) × IsBytes q.0 × IsBytes q.1

abbrev pub TookWord : ℕ → Bytes → ℕ × Bytes → Type 0
TookWord width chunk q = (chunk ≡ be_bytes width q.0 ++ q.1) × (q.0 < 256 ^ width) × IsBytes q.1

pub ok_injective : {A : Type 0} {a b : A} → ◌≡◌ {A = Prolly A} (ok a) (ok b) → a ≡ b
ok_injective e = cc

pub take_bytes-Took :
    (n : ℕ) (chunk : Bytes) (q : Bytes × Bytes)
    → IsBytes chunk
    → take_bytes n chunk ≡ ok q
    → Took n chunk q
unfolding take_bytes
take_bytes-Took n chunk q h e = elim (Bool-cases (ltb (length chunk) n)) [
  | inl short ↦ cc (rw short at e)
  | inr long ↦ subst (Took n chunk) (ok_injective (rw long at e)) (
    sym (take-append-drop n chunk),
    omega (arith, length-take n chunk, ltb→ge _ _ long),
    All-take _ n chunk h,
    All-drop _ n chunk h,
  )
]

word_took :
    (width : ℕ) (chunk : Bytes) (q : ℕ × Bytes)
    → IsBytes chunk
    → (take_bytes width chunk >>= λ (b, rest). ok (from_be 0 b, rest)) ≡ ok q
    → TookWord width chunk q
word_took width chunk q h e =
    let (word, read, final) = bind_parts (take_bytes width chunk) _ e in
    let (split, exact, bytes_word, bytes_rest) = take_bytes-Took width chunk word h read in
    let back : be_bytes width (from_be 0 word.0) ≡ word.0 =
      rw exact at (be_bytes-from_be word.0 bytes_word) in
    subst (TookWord width chunk) (ok_injective final) (
      split ∙ ap (λ x. x ++ word.1) (sym back),
      omega (arith, rw exact at (from_be-lt word.0 0 bytes_word)),
      bytes_rest,
    )

pub take_u32-TookWord :
    (chunk : Bytes) (q : ℕ × Bytes) → IsBytes chunk → take_u32 chunk ≡ ok q → TookWord 4 chunk q
unfolding take_u32
take_u32-TookWord chunk q h e = word_took 4 chunk q h e

pub take_u8-TookWord :
    (chunk : Bytes) (q : ℕ × Bytes) → IsBytes chunk → take_u8 chunk ≡ ok q → TookWord 1 chunk q
unfolding take_u8
take_u8-TookWord chunk q h e = word_took 1 chunk q h e

-- A word of one byte is the byte.
pub be_bytes-byte : (b : ℕ) → b < 256 → be_bytes 1 b ≡ b ∷ []
unfolding be_bytes
be_bytes-byte b h = ap (λ n. n ∷ []) (omega arith)
