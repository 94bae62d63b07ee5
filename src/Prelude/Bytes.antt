-- ===== src/Prelude/Bytes.antt =====
-- Byte strings: the order of slices, and big-endian words (`to_be_bytes`, `from_be_bytes`).
use Prim.Native.Nat.{ℕ, zero, suc, ◌+◌, ◌*◌, ◌/◌, ◌%◌, ◌^◌, ◌≤◌, ◌<◌, compare, Ordering}
use mathlib.Core.Path.{◌≡◌, refl, ◌∙◌}
use mathlib.Core.List.{List, [], ◌∷◌, ◌++◌, append_assoc, append-nil}
use native.Mathlib.Omega.{arith}
use native.Mathlib.Nat.{pow-suc, add-zero, zero-add}
use acetone.Prelude.Tests.{then_with, then_assoc, compare_by_digit, swap, compare_self}
use acetone.Prelude.Lists.{length, length-append, All, All-append}

abbrev pub IsByte : ℕ → Type 0
IsByte b = b < 256

abbrev pub IsBytes : List ℕ → Type 0
IsBytes bs = All IsByte bs

-- `Ord` of byte slices: lexicographic, a proper prefix first.
unfoldable pub bytes_cmp : List ℕ → List ℕ → Ordering
bytes_cmp [] [] = Ordering.eq
bytes_cmp [] (y ∷ ys) = Ordering.lt
bytes_cmp (x ∷ xs) [] = Ordering.gt
bytes_cmp (x ∷ xs) (y ∷ ys) = then_with (compare x y) (bytes_cmp xs ys)

pub bytes_cmp_self : (xs : List ℕ) → bytes_cmp xs xs ≡ Ordering.eq
unfolding bytes_cmp
bytes_cmp_self [] = refl
bytes_cmp_self (x ∷ xs) = rw (compare_self x) (bytes_cmp_self xs)

pub bytes_cmp-swap : (xs ys : List ℕ) → bytes_cmp ys xs ≡ swap (bytes_cmp xs ys)
unfolding bytes_cmp
bytes_cmp-swap [] [] = refl
bytes_cmp-swap [] (y ∷ ys) = refl
bytes_cmp-swap (x ∷ xs) [] = refl
bytes_cmp-swap (x ∷ xs) (y ∷ ys) = ground (arith, bytes_cmp-swap xs ys)

pub eq_of_bytes_cmp : (xs ys : List ℕ) → bytes_cmp xs ys ≡ Ordering.eq → xs ≡ ys
unfolding bytes_cmp
eq_of_bytes_cmp [] [] h = refl
eq_of_bytes_cmp [] (y ∷ ys) h = cc
eq_of_bytes_cmp (x ∷ xs) [] h = cc
eq_of_bytes_cmp (x ∷ xs) (y ∷ ys) h = ground (arith, eq_of_bytes_cmp xs ys)

pub bytes_cmp_trans :
    (xs ys zs : List ℕ)
    → bytes_cmp xs ys ≡ Ordering.lt
    → bytes_cmp ys zs ≡ Ordering.lt
    → bytes_cmp xs zs ≡ Ordering.lt
unfolding bytes_cmp
bytes_cmp_trans [] [] zs p q = cc
bytes_cmp_trans [] (y ∷ ys) [] p q = cc
bytes_cmp_trans [] (y ∷ ys) (z ∷ zs) p q = refl
bytes_cmp_trans (x ∷ xs) [] zs p q = cc
bytes_cmp_trans (x ∷ xs) (y ∷ ys) [] p q = cc
bytes_cmp_trans (x ∷ xs) (y ∷ ys) (z ∷ zs) p q = ground (arith, bytes_cmp_trans xs ys zs)

-- The last `n` bytes of a word, most significant first.
unfoldable pub be_bytes : ℕ → ℕ → List ℕ
be_bytes zero x = []
be_bytes (suc n) x = be_bytes n (x / 256) ++ (x % 256 ∷ [])

unfoldable pub from_be : ℕ → List ℕ → ℕ
from_be acc [] = acc
from_be acc (b ∷ bs) = from_be (acc * 256 + b) bs

pub length-be_bytes : (n x : ℕ) → length (be_bytes n x) ≡ n
unfolding be_bytes
length-be_bytes zero x = refl
length-be_bytes (suc n) x =
    omega (arith, length-append (be_bytes n (x / 256)) (x % 256 ∷ []), length-be_bytes n (x / 256))

pub be_bytes-IsBytes : (n x : ℕ) → IsBytes (be_bytes n x)
unfolding be_bytes
be_bytes-IsBytes zero x = tt
be_bytes-IsBytes (suc n) x =
    All-append IsByte (be_bytes n (x / 256)) _ (be_bytes-IsBytes n (x / 256)) (omega arith)

div_below : (n x : ℕ) → x < 256 ^ suc n → x / 256 < 256 ^ n
div_below n x h = omega (arith, pow-suc 256 n)

-- Big-endian words compare as numbers, whatever follows them.
pub bytes_cmp-be_bytes :
    (n x y : ℕ) (r s : List ℕ)
    → x < 256 ^ n
    → y < 256 ^ n
    → bytes_cmp (be_bytes n x ++ r) (be_bytes n y ++ s) ≡ then_with (compare x y) (bytes_cmp r s)
unfolding be_bytes bytes_cmp
bytes_cmp-be_bytes zero x y r s hx hy = ground arith
bytes_cmp-be_bytes (suc n) x y r s hx hy =
    rw
      (
        append_assoc (be_bytes n (x / 256)) (x % 256 ∷ []) r,
        append_assoc (be_bytes n (y / 256)) (y % 256 ∷ []) s,
      )
      (bytes_cmp-be_bytes n (x / 256) (y / 256) (x % 256 ∷ r) (y % 256 ∷ s) (div_below n x hx)
          (div_below n y hy)
        ∙ rw (compare_by_digit x y, then_assoc))

pub from_be-append :
    (acc : ℕ) (xs ys : List ℕ) → from_be acc (xs ++ ys) ≡ from_be (from_be acc xs) ys
unfolding from_be
from_be-append acc [] ys = refl
from_be-append acc (x ∷ xs) ys = from_be-append (acc * 256 + x) xs ys

pub from_be-be_bytes : (n x : ℕ) → x < 256 ^ n → from_be 0 (be_bytes n x) ≡ x
unfolding from_be be_bytes
from_be-be_bytes zero x h = omega arith
from_be-be_bytes (suc n) x h =
    from_be-append 0 (be_bytes n (x / 256)) (x % 256 ∷ [])
    ∙ rw (from_be-be_bytes n (x / 256) (div_below n x h)) (omega arith)

be_bytes_snoc :
    (m acc b : ℕ) → IsByte b → be_bytes (suc m) (acc * 256 + b) ≡ be_bytes m acc ++ (b ∷ [])
unfolding be_bytes
be_bytes_snoc m acc b h =
    let quotient : (acc * 256 + b) / 256 ≡ acc = omega arith in
    let digit : (acc * 256 + b) % 256 ≡ b = omega arith in rw (quotient, digit)

be_bytes-from_be_acc :
    (m acc : ℕ) (bs : List ℕ)
    → IsBytes bs
    → be_bytes (m + length bs) (from_be acc bs) ≡ be_bytes m acc ++ bs
unfolding from_be
be_bytes-from_be_acc m acc [] h = rw (add-zero, append-nil)
be_bytes-from_be_acc m acc (b ∷ bs) (hb, hbs) =
    let shift : m + suc (length bs) ≡ suc m + length bs = omega arith in
    rw shift (
      be_bytes-from_be_acc (suc m) (acc * 256 + b) bs hbs
      ∙ rw (be_bytes_snoc m acc b hb) (append_assoc (be_bytes m acc) (b ∷ []) bs))

pub be_bytes-from_be : (bs : List ℕ) → IsBytes bs → be_bytes (length bs) (from_be 0 bs) ≡ bs
be_bytes-from_be bs h = rw zero-add at (be_bytes-from_be_acc 0 0 bs h) ∙ (unfold be_bytes in refl)

pub scale_digit : (acc b p : ℕ) → IsByte b → (acc * 256 + b + 1) * p ≤ (acc + 1) * (256 * p)
scale_digit acc b p h = grind arith

pub from_be-lt : (bs : List ℕ) (acc : ℕ) → IsBytes bs → from_be acc bs < (acc + 1) * 256 ^ length bs
unfolding from_be
from_be-lt [] acc h = omega arith
from_be-lt (b ∷ bs) acc (hb, hbs) =
    rw (pow-suc 256 (length bs))
      (omega (arith, scale_digit acc b (256 ^ length bs) hb, from_be-lt bs (acc * 256 + b) hbs))

pub pow_positive : (n : ℕ) → 1 ≤ 256 ^ n
pow_positive zero = omega arith
pow_positive (suc n) = omega (arith, pow-suc 256 n, pow_positive n)
