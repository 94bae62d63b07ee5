-- ===== src/Cbor/Order.antt =====
-- The byte order of heads is the order of their values.
use acetone.Prelude.{by_order}
use acetone.Prelude.{
  ℕ, ◌+◌, ◌*◌, ◌^◌, ◌<◌, ◌≡◌, ◌⊎◌, inl, inr, refl, sym, List, ◌++◌, arith, lt, eq, gt,
}
use acetone.Prelude.{compare, then_with, compare_self}
use acetone.Prelude.Bytes.{bytes_cmp, be_bytes, bytes_cmp-be_bytes}
use acetone.Cbor.Heads.{code, width, head}

code-lt : (x y : ℕ) → code x < code y → x < y
unfolding code
code-lt x y h = ground arith

code-width : (x y : ℕ) → code x ≡ code y → (width x ≡ width y)
unfolding code width
code-width x y h = ground arith

width-bounds :
    (x y : ℕ)
    → x < 2 ^ 64
    → y < 2 ^ 64
    → code x ≡ code y
    → ((x < 256 ^ width x) × (y < 256 ^ width y)) ⊎ ((x ≡ y) × (width x ≡ 0) × (width y ≡ 0))
unfolding width code
width-bounds x y hx hy h = ground arith

same_code :
    (x y : ℕ) (r s : List ℕ)
    → x < 2 ^ 64
    → y < 2 ^ 64
    → code x ≡ code y
    → bytes_cmp (be_bytes (width x) x ++ r) (be_bytes (width y) y ++ s)
      ≡ then_with (compare x y) (bytes_cmp r s)
unfolding be_bytes
same_code x y r s hx hy same = elim (width-bounds x y hx hy same) [
  | inl (bx, by) ↦
      let widths : width x ≡ width y = code-width x y same in
      let by' : y < 256 ^ width x = rw (sym widths) at by in
      rw (sym widths) (bytes_cmp-be_bytes (width x) x y r s bx by')
  | inr (equal, none_follows, none_follows') ↦
      rw (none_follows, none_follows') (rw (equal, compare_self y) refl)
]

pub bytes_cmp-head :
    (major x y : ℕ) (r s : List ℕ)
    → x < 2 ^ 64
    → y < 2 ^ 64
    → bytes_cmp (head major x ++ r) (head major y ++ s) ≡ then_with (compare x y) (bytes_cmp r s)
unfolding bytes_cmp head
bytes_cmp-head major x y r s hx hy =
    by_order (compare (code x) (code y))
      (λ h.
        let below : code x < code y = ground arith in
        let first : compare (major * 32 + code x) (major * 32 + code y) ≡ lt = ground arith in
        let whole : compare x y ≡ lt = ground (arith, code-lt x y below) in rw (first, whole) refl)
      (λ h.
        let same : code x ≡ code y = ground arith in
        let first : compare (major * 32 + code x) (major * 32 + code y) ≡ eq = ground arith in
        rw first (same_code x y r s hx hy same))
      (λ h.
        let above : code y < code x = ground arith in
        let first : compare (major * 32 + code x) (major * 32 + code y) ≡ gt = ground arith in
        let whole : compare x y ≡ gt = ground (arith, code-lt y x above) in rw (first, whole) refl)
