-- ===== src/Keys/Tests.antt =====
-- Concrete keys, and the theorems at them.
use acetone.Prelude.{ℕ, ◌^◌, ◌≡◌, ◌≢◌, ◌⊎◌, refl, true, List, [], ◌∷◌, ◌++◌, arith, lt}
use acetone.Prelude.Int.{negsuc}
use acetone.Prelude.Bytes.{bytes_cmp, be_bytes, from_be}
use acetone.Prelude.Result.{ok, err, out_of_fuel}
use acetone.Keys.Cmp.{key_cmp}
use acetone.Keys.Write.{
  KeyEncodeError, nan_not_permitted, wrote, failed, encode_key_into, encode_key, encode_list_prefix,
  write_element, write_chunked_loop,
}
use acetone.Keys.Read.{
  decode_key, decode_key_loop, read_element, read_u8, peek_u8, read_scalar, read_array, read_int,
  read_string, read_chunked, read_chunked_loop, last_group, any_nonzero, unflip_sign_i64,
  unexpected_end, unknown_tag,
}
use acetone.Keys.Encoding.{encodings, AreKeys}
use acetone.Keys.RoundTrip.{normals}
use acetone.Keys.Contract.{
  encode_key_order, decode_key-encode_key, encode_key-decode_key, encode_key_into_outcome,
  decode_key-ne-out_of_fuel, encode_list_prefix_lem, append,
}
use acetone.Model.{is_nan, is_zero, is_utf8, AreValues}
use acetone.Model.{Values, null, bool, int, float, string, bytes, list, nil, cons}

-- (-1, "hi", [true, -0.0]) and (-1, "hi!", [])
abbrev sample : Values
sample = cons (int (negsuc 0)) (
    cons (string (104 ∷ 105 ∷ [])) (cons (list (cons (bool true) (cons (float (2 ^ 63)) nil))) nil))

abbrev longer : Values
longer = cons (int (negsuc 0)) (cons (string (104 ∷ 105 ∷ 33 ∷ [])) (cons (list nil) nil))

abbrev sample_bytes : List ℕ
sample_bytes =
    4 ∷ 0x7f ∷ 0xff ∷ 0xff ∷ 0xff ∷ 0xff ∷ 0xff ∷ 0xff ∷ 0xff ∷ 6 ∷ 104 ∷ 105 ∷ 0 ∷ 0 ∷ 0 ∷ 0 ∷ 0
    ∷ 0 ∷ 0xf9 ∷ 12 ∷ 3 ∷ 5 ∷ 0x80 ∷ 0 ∷ 0 ∷ 0 ∷ 0 ∷ 0 ∷ 0 ∷ 0 ∷ 0 ∷ []

abbrev longer_bytes : List ℕ
longer_bytes =
    4 ∷ 0x7f ∷ 0xff ∷ 0xff ∷ 0xff ∷ 0xff ∷ 0xff ∷ 0xff ∷ 0xff ∷ 6 ∷ 104 ∷ 105 ∷ 33 ∷ 0 ∷ 0 ∷ 0 ∷ 0
    ∷ 0 ∷ 0xfa ∷ 12 ∷ 0 ∷ []

sample_encodes : encode_key sample ≡ ok sample_bytes
unfolding encode_key write_element write_chunked_loop be_bytes is_nan is_zero
sample_encodes = refl

longer_encodes : encode_key longer ≡ ok longer_bytes
unfolding encode_key write_element write_chunked_loop be_bytes
longer_encodes = refl

nan_refused : encode_key (cons (float 0x7ff8_0000_0000_0000) nil) ≡ err nan_not_permitted
unfolding encode_key encode_key_into write_element is_nan
nan_refused = refl

sample_values : AreValues sample
unfolding is_utf8
sample_values = (omega arith, ((omega arith, refl), ((tt, (omega arith, tt)), tt)))

longer_values : AreValues longer
unfolding is_utf8
longer_values = (omega arith, ((omega arith, refl), (tt, tt)))

sample_decodes : decode_key longer_bytes ≡ ok longer
unfolding decode_key decode_key_loop read_element read_u8 peek_u8 read_scalar read_array read_int
    read_string read_chunked read_chunked_loop last_group any_nonzero unflip_sign_i64 from_be
    is_utf8
sample_decodes = refl

-- A byte string that ends inside an element, and one that begins with no tag.
cut_short : decode_key (12 ∷ []) ≡ err unexpected_end
unfolding decode_key decode_key_loop read_element read_u8 peek_u8
cut_short = refl

no_tag : decode_key (0x0d ∷ []) ≡ err (unknown_tag 0x0d)
unfolding decode_key decode_key_loop read_element read_u8 read_scalar
no_tag = refl

encode_key_order_example : bytes_cmp sample_bytes longer_bytes ≡ key_cmp sample longer
encode_key_order_example =
    encode_key_order sample longer sample_bytes longer_bytes sample_values longer_values
      sample_encodes longer_encodes

sample_before_longer : key_cmp sample longer ≡ lt
unfolding key_cmp bytes_cmp
sample_before_longer = refl

decode_key-encode_key_example : decode_key sample_bytes ≡ ok (normals sample)
decode_key-encode_key_example =
    decode_key-encode_key sample sample_bytes sample_values sample_encodes

encode_key-decode_key_example : AreValues longer × (encode_key longer ≡ ok longer_bytes)
encode_key-decode_key_example =
    encode_key-decode_key longer_bytes longer (omega arith) sample_decodes

encode_key_into_outcome_example :
    (AreKeys 0 sample × (encode_key_into (9 ∷ []) sample ≡ wrote ((9 ∷ []) ++ encodings sample)))
    ⊎ ((¬ AreKeys 0 sample)
        × (e : KeyEncodeError) × (part : List ℕ) × (encode_key_into (9 ∷ []) sample
            ≡ failed e ((9 ∷ []) ++ part)))
encode_key_into_outcome_example = encode_key_into_outcome (9 ∷ []) sample sample_values

decode_key-ne-out_of_fuel_example : decode_key (12 ∷ []) ≢ out_of_fuel
decode_key-ne-out_of_fuel_example = decode_key-ne-out_of_fuel (12 ∷ []) (omega arith)

abbrev one_two : Values
one_two = append (cons (bytes (1 ∷ [])) nil) (cons null nil)

abbrev prefix_bytes : List ℕ
prefix_bytes = 12 ∷ 7 ∷ 1 ∷ 0 ∷ 0 ∷ 0 ∷ 0 ∷ 0 ∷ 0 ∷ 0 ∷ 0xf8 ∷ []

prefix_encodes : encode_list_prefix (cons (bytes (1 ∷ [])) nil) ≡ ok prefix_bytes
unfolding encode_list_prefix write_element write_chunked_loop
prefix_encodes = refl

list_encodes : encode_key (cons (list one_two) nil) ≡ ok (prefix_bytes ++ (1 ∷ 0 ∷ []))
unfolding encode_key encode_key_into write_element write_chunked_loop append
list_encodes = refl

encode_list_prefix_lem_example :
    (rest : List ℕ) × (prefix_bytes ++ (1 ∷ 0 ∷ []) ≡ prefix_bytes ++ rest)
unfolding append
encode_list_prefix_lem_example =
    encode_list_prefix_lem (cons (bytes (1 ∷ [])) nil) (cons null nil) prefix_bytes
      (prefix_bytes ++ (1 ∷ 0 ∷ [])) (omega arith) (omega arith) prefix_encodes list_encodes
