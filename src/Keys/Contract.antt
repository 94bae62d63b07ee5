-- ===== src/Keys/Contract.antt =====
-- What keys.rs promises to the layers above it.
use acetone.Prelude.{
  ℕ, ◌≡◌, ◌≢◌, ◌⊎◌, inl, inr, refl, ◌∙◌, ap, List, [], ◌∷◌, ◌++◌, append_assoc, append-nil,
}
use acetone.Prelude.Bytes.{bytes_cmp, IsBytes}
use acetone.Prelude.Result.{ok, out_of_fuel}
use acetone.Keys.Tag
use acetone.Keys.Cmp.{key_cmp}
use acetone.Keys.Write.{
  KeyEncodeError, wrote, failed, encode_key_into, encode_key, encode_list_prefix, finish,
}
use acetone.Keys.Read.{decode_key}
use acetone.Keys.Encoding.{encoding, encodings, AreKeys}
use acetone.Keys.Order.{tuple_order}
use acetone.Keys.Accepts.{write_elements-Outcome, encode_key_outcome}
use acetone.Keys.RoundTrip.{normals, decode_key-encodings}
use acetone.Keys.Strict.{decode_key-ExactTuple}
use acetone.Keys.Total.{decode_key_runs}
use acetone.Model.{AreValues, Values, list, nil, cons}

-- An accepted tuple is written as promised, and only a tuple of keys is accepted.
pub accepted :
    (vs : Values) (x : List ℕ)
    → AreValues vs
    → encode_key vs ≡ ok x
    → AreKeys 0 vs × (x ≡ encodings vs)
accepted vs x h e = elim (encode_key_outcome vs h) [
  | inl (keys, code) ↦ (keys, cc (e, code))
  | inr (refused, error, code) ↦ absurd (cc (e, code))
]

-- For any two tuples of Rust values that `encode_key` accepts, comparing the encoded byte strings
-- gives exactly the logical order `key_cmp` of the tuples.
pub encode_key_order :
    (vs ws : Values) (x y : List ℕ)
    → AreValues vs
    → AreValues ws
    → encode_key vs ≡ ok x
    → encode_key ws ≡ ok y
    → bytes_cmp x y ≡ key_cmp vs ws
encode_key_order vs ws x y hv hw ev ew =
    rw ((accepted vs x hv ev).1, (accepted ws y hw ew).1) (tuple_order vs ws hv hw)

-- `decode_key` reads an encoded tuple of Rust values back, with -0.0 turned into 0.0 and nothing
-- else changed.
pub decode_key-encode_key :
    (vs : Values) (x : List ℕ)
    → AreValues vs
    → encode_key vs ≡ ok x
    → decode_key x ≡ ok (normals vs)
decode_key-encode_key vs x h e =
    let (keys, code) = accepted vs x h e in rw code (decode_key-encodings vs h keys)

-- `decode_key` is strict: a byte string that it accepts is exactly the one that `encode_key` writes
-- for the tuple returned, which is a tuple of valid Rust values.
pub encode_key-decode_key :
    (x : List ℕ) (vs : Values)
    → IsBytes x
    → decode_key x ≡ ok vs
    → AreValues vs × (encode_key vs ≡ ok x)
encode_key-decode_key x vs h e =
    let (code, values, keys) = decode_key-ExactTuple x vs h e in
    (
      values,
      elim (encode_key_outcome vs values) [
        | inl (_, written) ↦ rw code written
        | inr (refused, _, _) ↦ absurd (refused keys)
      ],
    )

-- `encode_key_into` on any tuple of Rust values: if every value may stand in a key (no NaN, times
-- and offsets in range, nesting within the limit) it appends the encoding to the buffer; otherwise
-- it fails, and the buffer still begins with what it held.
pub encode_key_into_outcome :
    (out : List ℕ) (vs : Values)
    → AreValues vs
    → (AreKeys 0 vs × (encode_key_into out vs ≡ wrote (out ++ encodings vs)))
      ⊎ ((¬ AreKeys 0 vs)
          × (e : KeyEncodeError) × (part : List ℕ) × (encode_key_into out vs
              ≡ failed e (out ++ part)))
unfolding encode_key_into
encode_key_into_outcome out vs h = write_elements-Outcome vs out 0 h

-- On every byte string `decode_key` comes to an end, with a tuple or with an error of its own.
pub decode_key-ne-out_of_fuel : (x : List ℕ) → IsBytes x → decode_key x ≢ out_of_fuel
decode_key-ne-out_of_fuel = decode_key_runs

-- The elements of one list behind those of another.
unfoldable pub append : Values → Values → Values
append nil ws = ws
append (cons v vs) ws = cons v (append vs ws)

pub encodings-append : (vs ws : Values) → encodings (append vs ws) ≡ encodings vs ++ encodings ws
unfolding append encodings
encodings-append nil ws = refl
encodings-append (cons v vs) ws =
    rw (encodings-append vs ws, append_assoc (encoding v) (encodings vs) (encodings ws))

pub prefix_code :
    (elems : Values) (p : List ℕ)
    → AreValues elems
    → encode_list_prefix elems ≡ ok p
    → p ≡ Tag.list ∷ encodings elems
unfolding encode_list_prefix
prefix_code elems p h e = elim (write_elements-Outcome elems (Tag.list ∷ []) 1 h) [
  | inl (keys, code) ↦ cc (e, ap finish code)
  | inr (refused, error, part, code) ↦ absurd (cc (e, ap finish code))
]

-- Each encoded list whose first elements are `elems` starts with the bytes of `encode_list_prefix`.
pub encode_list_prefix_lem :
    (elems more : Values) (p x : List ℕ)
    → AreValues elems
    → AreValues (append elems more)
    → encode_list_prefix elems ≡ ok p
    → encode_key (cons (list (append elems more)) nil) ≡ ok x
    → (rest : List ℕ) × (x ≡ p ++ rest)
unfolding encoding
encode_list_prefix_lem elems more p x he h ep ex = (
  (encodings more ++ Tag.list_end ∷ []),
  (accepted (cons (list (append elems more)) nil) x (h, tt) ex).1
      ∙ rw (append-nil, prefix_code elems p he ep, encodings-append elems more)
          (ap (λ t. Tag.list ∷ t)
            (append_assoc (encodings elems) (encodings more) (Tag.list_end ∷ []))),
)
