-- ===== src/Cbor/Strict.antt =====
-- The readers of heads take nothing but the shortest head.
use acetone.Prelude.{
  ℕ, ◌+◌, ◌*◌, ◌/◌, ◌^◌, ◌≤◌, ◌<◌, ◌≡◌, refl, sym, ap, subst, ◌∙◌, true, false, List, [], ◌∷◌, ◌++◌,
  arith, by_test,
}
use acetone.Prelude.{
  bit_and, ltb, leb, ◌==◌, ==_iff, length, take-append-drop, length-take, All-take, ltb→ge, leb→le,
  ge→ltb, lt→ltb, le→leb, gt→leb,
}
use acetone.Prelude.Bits.{and_31}
use acetone.Prelude.Bytes.{IsBytes, be_bytes, from_be, be_bytes-from_be, from_be-lt}
use acetone.Prelude.Result.{ok, bind_parts, ensure_passed, refuse_passed}
use acetone.Cbor.{
  Read, read_u8, read_exact, read_be_u64, read_wide, shift_in, read_head_value, read_head,
}
use acetone.Cbor.Heads.{code, width, head, shift_in-from_be}

ok_injective : {A : Type 0} {a b : A} → ◌≡◌ {A = Read A} (ok a) (ok b) → a ≡ b
ok_injective e = cc

-- The bytes of a value in `w` bytes, in front of what is left.
abbrev pub WideRead : ℕ → ℕ → List ℕ → ℕ × List ℕ → Type 0
WideRead w least input q = (input ≡ be_bytes w q.0 ++ q.1) × (least ≤ q.0) × (q.0 < 256 ^ w)

pub read_exact-parts :
    (n : ℕ) (input : List ℕ) (q : List ℕ × List ℕ)
    → IsBytes input
    → read_exact n input ≡ ok q
    → (input ≡ q.0 ++ q.1) × (length q.0 ≡ n) × IsBytes q.0
unfolding read_exact
read_exact-parts n input q h e =
    by_test (ltb (length input) n) (λ short. cc (rw short at e))
      (λ long.
        subst (λ p. (input ≡ p.0 ++ p.1) × (length p.0 ≡ n) × IsBytes p.0)
          (ok_injective (rw long at e))
          (
            sym (take-append-drop n input),
            omega (arith, length-take n input, ltb→ge _ _ long),
            All-take _ n input h,
          ))

wide_read :
    (w least : ℕ) (input : List ℕ) (word : List ℕ × List ℕ) (value : ℕ × List ℕ)
    → input ≡ word.0 ++ word.1
    → ◌≡◌ {A = ℕ × List ℕ} (shift_in 0 word.0, word.1) value
    → shift_in 0 word.0 ≡ from_be 0 word.0
    → be_bytes w (from_be 0 word.0) ≡ word.0
    → from_be 0 word.0 < 256 ^ w
    → least ≤ value.0
    → WideRead w least input value
wide_read w least input word value split same number back bound enough =
    let number' : from_be 0 word.0 ≡ value.0 = sym number ∙ ap (λ p. p.0) same in
    (
      split
          ∙ (ap (λ b. b ++ word.1) (sym back)
              ∙ (ap (λ n. be_bytes w n ++ word.1) number'
                  ∙ ap (λ r. be_bytes w value.0 ++ r) (ap (λ p. p.1) same))),
      enough,
      rw number' at bound,
    )

pub read_wide-WideRead :
    (w least : ℕ) (input : List ℕ) (q : ℕ × List ℕ)
    → IsBytes input
    → 256 ^ w ≤ 2 ^ 64
    → read_wide w least input ≡ ok q
    → WideRead w least input q
unfolding read_wide read_be_u64
read_wide-WideRead w least input q h room e =
    let (value, run, e1) = bind_parts (read_be_u64 w input) _ e in
    let (enough, e2) = refuse_passed (ltb value.0 least) _ _ q e1 in
    let (word, run', e3) = bind_parts (read_exact w input) _ run in
    let (split, exact, bytes) = read_exact-parts w input word h run' in
    let same : ◌≡◌ {A = ℕ × List ℕ} (shift_in 0 word.0, word.1) value = ok_injective e3 in
    let number : shift_in 0 word.0 ≡ from_be 0 word.0 =
      shift_in-from_be 0 word.0 bytes (rw exact (omega (arith, room))) in
    let back : be_bytes w (from_be 0 word.0) ≡ word.0 =
      rw exact at (be_bytes-from_be word.0 bytes) in
    let bound : from_be 0 word.0 < 256 ^ w =
      omega (arith, rw exact at (from_be-lt word.0 0 bytes)) in
    subst (WideRead w least input) (ok_injective e2)
      (wide_read w least input word value split same number back bound (ltb→ge _ _ enough))

abbrev pub HeadRead : ℕ → List ℕ → ℕ × List ℕ → Type 0
HeadRead ai input q = (q.0 < 2 ^ 64) × (code q.0 ≡ ai) × (input ≡ be_bytes (width q.0) q.0 ++ q.1)

arm_24 : (input : List ℕ) (q : ℕ × List ℕ) → WideRead 1 24 input q → HeadRead 24 input q
unfolding code width
arm_24 input q (split, least, bound) =
    let a : ltb q.0 24 ≡ false = ge→ltb _ _ least in
    let b : leb q.0 0xff ≡ true = le→leb _ _ (omega (arith, bound)) in
    (omega (arith, bound), rw (a, b) refl, rw (a, b) split)

arm_25 : (input : List ℕ) (q : ℕ × List ℕ) → WideRead 2 0x100 input q → HeadRead 25 input q
unfolding code width
arm_25 input q (split, least, bound) =
    let a : ltb q.0 24 ≡ false = ge→ltb _ _ (omega (arith, least)) in
    let b : leb q.0 0xff ≡ false = gt→leb _ _ (omega (arith, least)) in
    let c : leb q.0 0xffff ≡ true = le→leb _ _ (omega (arith, bound)) in
    (omega (arith, bound), rw (a, b, c) refl, rw (a, b, c) split)

arm_26 : (input : List ℕ) (q : ℕ × List ℕ) → WideRead 4 0x1_0000 input q → HeadRead 26 input q
unfolding code width
arm_26 input q (split, least, bound) =
    let a : ltb q.0 24 ≡ false = ge→ltb _ _ (omega (arith, least)) in
    let b : leb q.0 0xff ≡ false = gt→leb _ _ (omega (arith, least)) in
    let c : leb q.0 0xffff ≡ false = gt→leb _ _ (omega (arith, least)) in
    let d : leb q.0 0xffff_ffff ≡ true = le→leb _ _ (omega (arith, bound)) in
    (omega (arith, bound), rw (a, b, c, d) refl, rw (a, b, c, d) split)

arm_27 : (input : List ℕ) (q : ℕ × List ℕ) → WideRead 8 0x1_0000_0000 input q → HeadRead 27 input q
unfolding code width
arm_27 input q (split, least, bound) =
    let a : ltb q.0 24 ≡ false = ge→ltb _ _ (omega (arith, least)) in
    let b : leb q.0 0xff ≡ false = gt→leb _ _ (omega (arith, least)) in
    let c : leb q.0 0xffff ≡ false = gt→leb _ _ (omega (arith, least)) in
    let d : leb q.0 0xffff_ffff ≡ false = gt→leb _ _ (omega (arith, least)) in
    (omega (arith, bound), rw (a, b, c, d) refl, rw (a, b, c, d) split)

pub read_head_value-HeadRead :
    (ai : ℕ) (input : List ℕ) (q : ℕ × List ℕ)
    → IsBytes input
    → read_head_value ai input ≡ ok q
    → HeadRead ai input q
unfolding read_head_value code width be_bytes
read_head_value-HeadRead ai input q h e =
    by_test (leb ai 23)
      (λ a.
        let small : ltb ai 24 ≡ true = lt→ltb _ _ (omega (arith, leb→le _ _ a)) in
        subst (HeadRead ai input) (ok_injective (rw a at e))
          (omega (arith, leb→le _ _ a), rw small refl, rw small refl))
      (λ a.
        by_test (ai == 24)
          (λ b.
            subst (λ n. HeadRead n input q) (sym ((==_iff ai 24).0 b))
              (arm_24 input q (read_wide-WideRead 1 24 input q h (omega arith) (rw (a, b) at e))))
          (λ b.
            by_test (ai == 25)
              (λ c.
                subst (λ n. HeadRead n input q) (sym ((==_iff ai 25).0 c))
                  (arm_25 input q
                    (read_wide-WideRead 2 0x100 input q h (omega arith) (rw (a, b, c) at e))))
              (λ c.
                by_test (ai == 26)
                  (λ d.
                    subst (λ n. HeadRead n input q) (sym ((==_iff ai 26).0 d))
                      (arm_26 input q (
                        read_wide-WideRead 4 0x1_0000 input q h (omega arith)
                          (rw (a, b, c, d) at e))))
                  (λ d.
                    by_test (ai == 27)
                      (λ f.
                        subst (λ n. HeadRead n input q) (sym ((==_iff ai 27).0 f))
                          (arm_27 input q (
                            read_wide-WideRead 8 0x1_0000_0000 input q h (omega arith)
                              (rw (a, b, c, d, f) at e))))
                      (λ f.
                        by_test (leb ai 30) (λ g. cc (rw (a, b, c, d, f, g) at e))
                          (λ g. cc (rw (a, b, c, d, f, g) at e)))))))

pub read_head-exact :
    (major : ℕ) (input : List ℕ) (q : ℕ × List ℕ)
    → IsBytes input
    → read_head major input ≡ ok q
    → (q.0 < 2 ^ 64) × (input ≡ head major q.0 ++ q.1)
unfolding read_head read_u8 head
read_head-exact major [] q h e = cc
read_head-exact major (ib ∷ rest) q (hb, h) e =
    let (same, e1) = ensure_passed (ib / 2 ^ 5 == major) _ _ q e in
    let (small, low, split) = read_head_value-HeadRead (bit_and ib 0x1f) rest q h e1 in
    let first : ib ≡ major * 32 + code q.0 =
      omega (arith, (==_iff (ib / 2 ^ 5) major).0 same, low, and_31 ib) in
    (small, rw first (ap (λ r. (major * 32 + code q.0) ∷ r) split))
