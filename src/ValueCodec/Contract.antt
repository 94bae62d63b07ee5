-- ===== src/ValueCodec/Contract.antt =====
-- What values.rs promises to the layers above it.
use acetone.Prelude.{ap, ℕ, ◌≡◌, ◌≢◌, ◌⊎◌, inl, inr, List, ◌++◌, []}
use acetone.Prelude.Bytes.{IsBytes}
use acetone.Prelude.Result.{ok, err, out_of_fuel}
use acetone.ValueCodec.Write.{
  ValueEncodeError, encode_value, encode_value_into, wrote, failed, finish,
}
use acetone.ValueCodec.Read.{decode_value}
use acetone.ValueCodec.Item.{item, IsItem, IsSized}
use acetone.ValueCodec.Accepts.{write_value-Outcome}
use acetone.ValueCodec.Canonical.{canonical}
use acetone.ValueCodec.RoundTrip.{decode_value-item}
use acetone.ValueCodec.Strict.{decode_value-Exact}
use acetone.ValueCodec.Total.{decode_value_runs}
use acetone.Model.{Value, IsValue}

-- `encode_value_into` appends the item of a Rust value exactly when its times of day and offsets are
-- in range and no list in it is nested deeper than 128, and otherwise fails, with what the buffer held
-- before still in front of what was written until then.
pub encode_value_into_outcome :
    (out : List ℕ) (v : Value)
    → IsValue v
    → IsSized v
    → (IsItem 0 v × (encode_value_into out v ≡ wrote (out ++ item v)))
      ⊎ ((¬ IsItem 0 v)
          × (e : ValueEncodeError) × (rest : List ℕ) × (encode_value_into out v
              ≡ failed e (out ++ rest)))
unfolding encode_value_into
encode_value_into_outcome out v h z = write_value-Outcome v out 0 h z

-- The same of `encode_value`, on its own buffer.
pub encode_value_outcome :
    (v : Value)
    → IsValue v
    → IsSized v
    → (IsItem 0 v × (encode_value v ≡ ok (item v)))
      ⊎ ((¬ IsItem 0 v) × (e : ValueEncodeError) × (encode_value v ≡ err e))
unfolding encode_value
encode_value_outcome v h z = elim (encode_value_into_outcome [] v h z) [
  | inl (good, written) ↦ inl (good, ap finish written)
  | inr (bad, e, _, stopped) ↦ inr (bad, e, ap finish stopped)
]

accepted :
    (v : Value) (x : List ℕ)
    → IsValue v
    → IsSized v
    → encode_value v ≡ ok x
    → IsItem 0 v × (x ≡ item v)
accepted v x h z e = elim (encode_value_outcome v h z) [
  | inl (good, code) ↦ (good, cc (e, code))
  | inr (refused, error, code) ↦ absurd (cc (e, code))
]

-- `decode_value` reads a Rust value that `encode_value` accepts back, with each NaN turned into the
-- canonical one and nothing else changed, the sign of zero neither.
pub decode_value-encode_value :
    (v : Value) (x : List ℕ)
    → IsValue v
    → IsSized v
    → encode_value v ≡ ok x
    → decode_value x ≡ ok (canonical v)
decode_value-encode_value v x h z e =
    let (good, code) = accepted v x h z e in rw code (decode_value-item v h z good)

-- `decode_value` is strict: a byte string that it accepts is exactly the one that `encode_value`
-- writes for the value returned, which is a valid Rust value.
pub encode_value-decode_value :
    (x : List ℕ) (v : Value)
    → IsBytes x
    → decode_value x ≡ ok v
    → IsValue v × IsSized v × (encode_value v ≡ ok x)
encode_value-decode_value x v h e =
    let (code, value, sized, good) = decode_value-Exact x v h e in
    (
      value,
      sized,
      elim (encode_value_outcome v value sized) [
        | inl (_, written) ↦ rw code written
        | inr (refused, _, _) ↦ absurd (refused good)
      ],
    )

-- `decode_value` never runs out of the fuel that the model gives it: on every byte string it ends
-- with a value or an error.
pub decode_value-ne-out_of_fuel : (x : List ℕ) → IsBytes x → decode_value x ≢ out_of_fuel
decode_value-ne-out_of_fuel x h = decode_value_runs x h
