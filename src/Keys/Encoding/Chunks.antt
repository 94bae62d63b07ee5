-- ===== src/Keys/Encoding/Chunks.antt =====
-- The framing of byte strings, written out byte by byte, and its order.
use acetone.Prelude.{ℕ, zero, suc, ◌+◌, ◌-◌, ◌≤◌, ◌<◌, ◌≡◌, List, [], ◌∷◌, ◌++◌, arith}
use acetone.Prelude.{
  length, length-append, length-replicate, replicate, lt, then_with, then_assoc, All-append,
}
use acetone.Prelude.Bytes.{bytes_cmp, bytes_cmp-swap, IsByte, IsBytes}

-- `room` more bytes fit the current group. A full group is followed by another, if only an empty one.
unfoldable pub chunks : ℕ → List ℕ → List ℕ
chunks zero [] = 0xff ∷ (replicate 8 0 ++ 0xf7 ∷ [])
chunks (suc room) [] = replicate (suc room) 0 ++ (0xff - suc room) ∷ []
chunks zero (b ∷ bs) = 0xff ∷ b ∷ chunks 7 bs
chunks (suc room) (b ∷ bs) = b ∷ chunks room bs

markers_after_zeros :
    (k m n : ℕ) (r s : List ℕ)
    → m < n
    → bytes_cmp ((replicate k 0 ++ m ∷ []) ++ r) ((replicate k 0 ++ n ∷ []) ++ s) ≡ lt
unfolding bytes_cmp
markers_after_zeros zero m n r s h = ground arith
markers_after_zeros (suc k) m n r s h = markers_after_zeros k m n r s h

-- Padding with a marker below the one that the other side would have sorts first.
zeros_below_chunks :
    (k m : ℕ) (bs r s : List ℕ)
    → m + k < 0xff
    → bytes_cmp ((replicate k 0 ++ m ∷ []) ++ r) (chunks k bs ++ s) ≡ lt
unfolding bytes_cmp chunks
zeros_below_chunks zero m [] r s h = ground arith
zeros_below_chunks zero m (b ∷ bs) r s h = ground arith
zeros_below_chunks (suc k) m [] r s h = markers_after_zeros k m (0xff - suc k) r s (omega arith)
zeros_below_chunks (suc k) m (zero ∷ bs) r s h = zeros_below_chunks k m bs r s (omega arith)
zeros_below_chunks (suc k) m (suc b ∷ bs) r s h = ground arith

-- Padding against itself: what follows decides.
padding_order :
    (k m : ℕ) (r s : List ℕ)
    → bytes_cmp ((replicate k 0 ++ m ∷ []) ++ r) ((replicate k 0 ++ m ∷ []) ++ s) ≡ bytes_cmp r s
unfolding bytes_cmp
padding_order zero m r s = ground arith
padding_order (suc k) m r s = padding_order k m r s

end_before_more :
    (k b : ℕ) (bs r s : List ℕ) → k ≤ 8 → bytes_cmp (chunks k [] ++ r) (chunks k (b ∷ bs) ++ s) ≡ lt
unfolding bytes_cmp chunks
end_before_more zero zero bs r s h = zeros_below_chunks 7 0xf7 bs r s (omega arith)
end_before_more zero (suc b) bs r s h = ground arith
end_before_more (suc k) zero bs r s h = zeros_below_chunks k (0xff - suc k) bs r s (omega arith)
end_before_more (suc k) (suc b) bs r s h = ground arith

-- Framed strings compare as the strings do, and equal ones leave it to what follows.
pub bytes_cmp-chunks :
    (k : ℕ) (xs ys r s : List ℕ)
    → k ≤ 8
    → bytes_cmp (chunks k xs ++ r) (chunks k ys ++ s) ≡ then_with (bytes_cmp xs ys) (bytes_cmp r s)
unfolding bytes_cmp chunks
bytes_cmp-chunks zero [] [] r s h = padding_order 8 0xf7 r s
bytes_cmp-chunks (suc k) [] [] r s h = padding_order (suc k) (0xff - suc k) r s
bytes_cmp-chunks k [] (y ∷ ys) r s h = end_before_more k y ys r s h
bytes_cmp-chunks k (x ∷ xs) [] r s h = ground (
  arith,
  bytes_cmp-swap (chunks k [] ++ s) (chunks k (x ∷ xs) ++ r),
  end_before_more k x xs s r h,
)
bytes_cmp-chunks zero (x ∷ xs) (y ∷ ys) r s h =
    rw (then_assoc, bytes_cmp-chunks 7 xs ys r s (omega arith))
bytes_cmp-chunks (suc k) (x ∷ xs) (y ∷ ys) r s h =
    rw (then_assoc, bytes_cmp-chunks k xs ys r s (omega arith))

replicate-IsBytes : (k : ℕ) → IsBytes (replicate k 0)
replicate-IsBytes zero = tt
replicate-IsBytes (suc k) = (omega arith, replicate-IsBytes k)

pub chunks-IsBytes : (k : ℕ) (bs : List ℕ) → IsBytes bs → IsBytes (chunks k bs)
unfolding chunks
chunks-IsBytes zero [] h = omega arith
chunks-IsBytes (suc k) [] h =
    (omega arith, All-append IsByte _ _ (replicate-IsBytes k) (omega arith))
chunks-IsBytes zero (b ∷ bs) (hb, hbs) = (omega arith, (hb, chunks-IsBytes 7 bs hbs))
chunks-IsBytes (suc k) (b ∷ bs) (hb, hbs) = (hb, chunks-IsBytes k bs hbs)

pub length-chunks : (k : ℕ) (bs : List ℕ) → k + 1 ≤ length (chunks k bs)
unfolding chunks
length-chunks zero [] = omega arith
length-chunks (suc k) [] =
    omega
      (arith, length-append (replicate k 0) ((0xff - suc k) ∷ []), length-replicate {0} {A = ℕ} k 0)
length-chunks zero (b ∷ bs) = omega arith
length-chunks (suc k) (b ∷ bs) = omega (arith, length-chunks k bs)

pub length-le-chunks : (k : ℕ) (bs : List ℕ) → length bs ≤ length (chunks k bs)
unfolding chunks
length-le-chunks zero [] = omega arith
length-le-chunks (suc k) [] = omega arith
length-le-chunks zero (b ∷ bs) = omega (arith, length-le-chunks 7 bs)
length-le-chunks (suc k) (b ∷ bs) = omega (arith, length-le-chunks k bs)
