-- ===== src/Cbor/Total.antt =====
-- The readers of cbor.rs run out of no fuel.
use acetone.Prelude.{ℕ, ◌/◌, ◌^◌, ◌≢◌, List, [], ◌∷◌, arith, bit_and}
use acetone.Prelude.{leb, ◌==◌}
use acetone.Prelude.Result.{ok, out_of_fuel, ensure, bind_runs, if_runs}
use acetone.Cbor.{
  Read, read_u8, read_exact, read_be_u64, read_wide, read_head_value, read_head, to_i64,
  unsigned_to_i64, negative_to_i64, read_i64, unsupported, unexpected_major_type,
}

pub ok_runs : {A : Type 0} (value : A) → ◌≢◌ {A = Read A} (ok value) out_of_fuel
ok_runs value = λ e. cc

pub read_u8_runs : (input : List ℕ) → read_u8 input ≢ out_of_fuel
unfolding read_u8
read_u8_runs [] = λ e. cc
read_u8_runs (b ∷ bs) = λ e. cc

pub read_exact_runs : (n : ℕ) (input : List ℕ) → read_exact n input ≢ out_of_fuel
unfolding read_exact
read_exact_runs n input = λ e. ground arith

pub read_be_u64_runs : (w : ℕ) (input : List ℕ) → read_be_u64 w input ≢ out_of_fuel
unfolding read_be_u64
read_be_u64_runs w input = bind_runs (read_exact w input) _ (read_exact_runs w input) (λ p _ e. cc)

read_wide_runs : (w least : ℕ) (input : List ℕ) → read_wide w least input ≢ out_of_fuel
unfolding read_wide
read_wide_runs w least input =
    bind_runs (read_be_u64 w input) _ (read_be_u64_runs w input) (λ p _ e. ground arith)

pub read_head_value_runs : (ai : ℕ) (input : List ℕ) → read_head_value ai input ≢ out_of_fuel
unfolding read_head_value
read_head_value_runs ai input =
    if_runs (leb ai 23) _ _ (λ _ e. cc)
      λ _.
        if_runs (ai == 24) _ _ (λ _. read_wide_runs 1 24 input)
          λ _.
            if_runs (ai == 25) _ _ (λ _. read_wide_runs 2 (2 ^ 8) input)
              λ _.
                if_runs (ai == 26) _ _ (λ _. read_wide_runs 4 (2 ^ 16) input)
                  λ _.
                    if_runs (ai == 27) _ _ (λ _. read_wide_runs 8 (2 ^ 32) input)
                      λ _. if_runs (leb ai 30) _ _ (λ _ e. cc) (λ _ e. cc)

pub read_head_runs : (major : ℕ) (input : List ℕ) → read_head major input ≢ out_of_fuel
unfolding read_head
read_head_runs major input = bind_runs (read_u8 input) _ (read_u8_runs input) λ p _.
    bind_runs (ensure (p.0 / 2 ^ 5 == major) (unsupported unexpected_major_type)) _
      (λ e. ground arith) (λ _ _. read_head_value_runs (bit_and p.0 0x1f) p.1)

pub to_i64_runs : (major v : ℕ) → to_i64 major v ≢ out_of_fuel
unfolding unsigned_to_i64 negative_to_i64
to_i64_runs major v = λ e. ground arith

pub read_i64_runs : (input : List ℕ) → read_i64 input ≢ out_of_fuel
unfolding read_i64
read_i64_runs input = bind_runs (read_u8 input) _ (read_u8_runs input) λ p _.
    bind_runs (read_head_value (bit_and p.0 0x1f) p.1) _ (read_head_value_runs _ p.1)
      λ r _. bind_runs (to_i64 (p.0 / 2 ^ 5) r.0) _ (to_i64_runs (p.0 / 2 ^ 5) r.0) (λ n _ e. cc)
