-- ===== src/Keys/Total.antt =====
-- The decoder ends on every input: its fuel is enough.
use acetone.Prelude.{ℕ, zero, suc, ◌+◌, ◌*◌, ◌≤◌, ◌<◌, ◌≡◌, ◌≢◌, List, [], ◌∷◌, ◌++◌, arith}
use acetone.Prelude.{length, length-append, length-drop, ltb, ◌==◌}
use acetone.Prelude.Bytes.{IsBytes}
use acetone.Prelude.Result.{ok, out_of_fuel, bind_runs, if_runs, refuse_runs}
use acetone.Keys.Tag
use acetone.Keys.Read.{
  read_u8, peek_u8, read_array, read_i64, last_group, read_chunked_loop, read_chunked, read_scalar,
  read_int, read_float, read_string, read_bytes, read_date, read_time, read_date_time,
  read_duration, depth_exceeded, read_element, read_elements, decode_key_loop, decode_key,
}
use acetone.Keys.Encoding.{encoding}
use acetone.Keys.RoundTrip.{length-encoding_pos}
use acetone.Keys.Strict.{read_element-Exact}
use acetone.Model.{Value}

read_array_runs : (n : ℕ) (input : List ℕ) → read_array n input ≢ out_of_fuel
unfolding read_array
read_array_runs n input = λ e. ground arith

last_group_runs :
    (out : List ℕ) (marker : ℕ) (group rest : List ℕ)
    → last_group out marker group rest ≢ out_of_fuel
unfolding last_group
last_group_runs out marker group rest = λ e. ground arith

read_u8_runs : (input : List ℕ) → read_u8 input ≢ out_of_fuel
unfolding read_u8
read_u8_runs [] = λ e. cc
read_u8_runs (b ∷ bs) = λ e. cc

read_u8_shrinks :
    (input : List ℕ) (q : ℕ × List ℕ) → read_u8 input ≡ ok q → length q.1 < length input
unfolding read_u8
read_u8_shrinks [] q e = cc
read_u8_shrinks (b ∷ bs) q e = ground arith

read_array_shrinks :
    (n : ℕ) (input : List ℕ) (q : List ℕ × List ℕ)
    → read_array n input ≡ ok q
    → length q.1 ≤ length input
unfolding read_array
read_array_shrinks n input q e = ground (arith, length-drop n input)

read_chunked_loop_runs :
    (f : ℕ) (out input : List ℕ) → length input < f → read_chunked_loop f out input ≢ out_of_fuel
unfolding read_chunked_loop
read_chunked_loop_runs zero out input h = absurd (omega arith)
read_chunked_loop_runs (suc f) out input h =
    bind_runs (read_array 8 input) _ (read_array_runs 8 input) λ p e.
      bind_runs (read_u8 p.1) _ (read_u8_runs p.1) λ r e'.
        if_runs (r.0 == 0xff) _ _
          (λ _.
            read_chunked_loop_runs f (out ++ p.0) r.1
              (omega (arith, read_array_shrinks 8 input p e, read_u8_shrinks p.1 r e')))
          (λ _. last_group_runs out r.0 p.0 r.1)

read_chunked_runs : (input : List ℕ) → read_chunked input ≢ out_of_fuel
unfolding read_chunked
read_chunked_runs input = read_chunked_loop_runs (length input + 1) [] input (omega arith)

read_i64_runs : (input : List ℕ) → read_i64 input ≢ out_of_fuel
read_i64_runs input = bind_runs (read_array 8 input) _ (read_array_runs 8 input) (λ p _ e. cc)

read_float_runs : (input : List ℕ) → read_float input ≢ out_of_fuel
unfolding read_float
read_float_runs input =
    bind_runs (read_array 8 input) _ (read_array_runs 8 input) (λ p _ e. ground arith)

read_string_runs : (input : List ℕ) → read_string input ≢ out_of_fuel
unfolding read_string
read_string_runs input =
    bind_runs (read_chunked input) _ (read_chunked_runs input) (λ p _ e. ground arith)

read_bytes_runs : (input : List ℕ) → read_bytes input ≢ out_of_fuel
unfolding read_bytes
read_bytes_runs input = bind_runs (read_chunked input) _ (read_chunked_runs input) (λ p _ e. cc)

read_int_runs : (input : List ℕ) → read_int input ≢ out_of_fuel
unfolding read_int
read_int_runs input = bind_runs (read_i64 input) _ (read_i64_runs input) (λ p _ e. cc)

read_date_runs : (input : List ℕ) → read_date input ≢ out_of_fuel
unfolding read_date
read_date_runs input = bind_runs (read_i64 input) _ (read_i64_runs input) (λ p _ e. cc)

read_time_runs : (input : List ℕ) → read_time input ≢ out_of_fuel
unfolding read_time
read_time_runs input =
    bind_runs (read_array 8 input) _ (read_array_runs 8 input) (λ p _ e. ground arith)

read_date_time_runs : (input : List ℕ) → read_date_time input ≢ out_of_fuel
unfolding read_date_time
read_date_time_runs input =
    bind_runs (read_i64 input) _ (read_i64_runs input)
      λ p _. bind_runs (read_array 2 p.1) _ (read_array_runs 2 p.1) (λ r _ e. ground arith)

read_duration_runs : (input : List ℕ) → read_duration input ≢ out_of_fuel
unfolding read_duration
read_duration_runs input = bind_runs (read_i64 input) _ (read_i64_runs input) λ p _.
    bind_runs (read_i64 p.1) _ (read_i64_runs p.1)
      λ r _. bind_runs (read_i64 r.1) _ (read_i64_runs r.1) (λ t _ e. cc)

read_scalar_runs : (tag : ℕ) (input : List ℕ) → read_scalar tag input ≢ out_of_fuel
unfolding read_scalar
read_scalar_runs tag input =
    if_runs (tag == Tag.null) _ _ (λ _ e. cc)
      λ _.
        if_runs (tag == Tag.bool_false) _ _ (λ _ e. cc)
          λ _.
            if_runs (tag == Tag.bool_true) _ _ (λ _ e. cc)
              λ _.
                if_runs (tag == Tag.int) _ _ (λ _. read_int_runs input)
                  λ _.
                    if_runs (tag == Tag.float) _ _ (λ _. read_float_runs input)
                      λ _.
                        if_runs (tag == Tag.string) _ _ (λ _. read_string_runs input)
                          λ _.
                            if_runs (tag == Tag.bytes) _ _ (λ _. read_bytes_runs input)
                              λ _.
                                if_runs (tag == Tag.date) _ _ (λ _. read_date_runs input)
                                  λ _.
                                    if_runs (tag == Tag.time) _ _ (λ _. read_time_runs input)
                                      λ _.
                                        if_runs (tag == Tag.date_time) _ _
                                          (λ _. read_date_time_runs input)
                                          λ _.
                                            if_runs (tag == Tag.duration) _ _
                                              (λ _. read_duration_runs input) (λ _ e. cc)

-- An element takes a byte at least.
read_element_shrinks :
    (f d : ℕ) (input : List ℕ) (q : Value × List ℕ)
    → IsBytes input
    → read_element f d input ≡ ok q
    → (length q.1 < length input) × IsBytes q.1
read_element_shrinks f d input q h e =
    let x = read_element-Exact f d input q h e in
    (rw x.split (omega (arith, length-append (encoding q.0) q.1, length-encoding_pos q.0)), x.rest)

read_element_empty : (f d : ℕ) → read_element (suc f) d [] ≢ out_of_fuel
unfolding read_element read_u8
read_element_empty f d = λ e. ground arith

mutual
  unfolding read_element read_u8 peek_u8

  read_element_runs :
      (f d : ℕ) (input : List ℕ)
      → IsBytes input
      → 2 * length input < f
      → read_element f d input ≢ out_of_fuel
  read_element_runs zero d input h enough = absurd (omega arith)
  read_element_runs (suc f) d [] h enough = read_element_empty f d
  read_element_runs (suc f) d (tag ∷ rest) h enough =
      refuse_runs (ltb Tag.max_depth d) depth_exceeded _ (
        if_runs (tag == Tag.list) _ _
          (λ _.
            bind_runs (read_elements f (d + 1) rest) _
              (read_elements_runs f (d + 1) rest h.1 (omega arith)) (λ p _ e. cc))
          (λ _. read_scalar_runs tag rest))

  read_elements_runs :
      (f d : ℕ) (input : List ℕ)
      → IsBytes input
      → 2 * length input + 1 < f
      → read_elements f d input ≢ out_of_fuel
  read_elements_runs zero d input h enough = absurd (omega arith)
  read_elements_runs (suc f) d [] h enough = λ e. cc
  read_elements_runs (suc f) d (b ∷ bs) h enough =
      if_runs (b == Tag.list_end) _ _ (λ _ e. cc)
        λ _.
          bind_runs (read_element f d (b ∷ bs)) _ (read_element_runs f d (b ∷ bs) h (omega arith))
            λ p e.
              let (shorter, rest) = read_element_shrinks f d (b ∷ bs) p h e in
              bind_runs (read_elements f d p.1) _ (read_elements_runs f d p.1 rest (omega arith))
                (λ r _ e. cc)

decode_key_loop_runs :
    (f : ℕ) (input : List ℕ)
    → IsBytes input
    → length input ≤ f
    → decode_key_loop f input ≢ out_of_fuel
unfolding decode_key_loop
decode_key_loop_runs f [] h enough = λ e. cc
decode_key_loop_runs zero (b ∷ bs) h enough = absurd (omega arith)
decode_key_loop_runs (suc f) (b ∷ bs) h enough =
    bind_runs (read_element (2 * length (b ∷ bs) + 1) 0 (b ∷ bs)) _
      (read_element_runs _ 0 (b ∷ bs) h (omega arith))
      λ p e.
        let (shorter, rest) = read_element_shrinks (2 * length (b ∷ bs) + 1) 0 (b ∷ bs) p h e in
        bind_runs (decode_key_loop f p.1) _ (decode_key_loop_runs f p.1 rest (omega arith))
          (λ vs _ e. cc)

pub decode_key_runs : (input : List ℕ) → IsBytes input → decode_key input ≢ out_of_fuel
unfolding decode_key
decode_key_runs input h = decode_key_loop_runs (length input) input h (omega arith)
