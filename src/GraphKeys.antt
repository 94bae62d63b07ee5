-- ===== src/GraphKeys.antt =====
-- crates/acetone-model/src/graph_keys.rs: the keys of the maps of nodes, edges and index entries, on
-- the key encoding. An accessor of a struct is the field of its record.
pub mod Node
pub mod Edge
pub mod Index
pub mod Successor
pub mod Range
pub mod Identity
pub mod NodeCodec
pub mod EdgeCodec
pub mod IndexCodec
pub mod Prefixes
mod Tests
use acetone.Prelude.{ℕ, Bool, true, false, List, [], ◌∷◌, Option, none, some}
use acetone.Prelude.Result.{Result, ok, err, out_of_fuel, refuse, ◌>>◌}
use acetone.Keys.Write.{KeyEncodeError}
use acetone.Keys.Read.{KeyDecodeError}
use acetone.Model.{Value, Values, null, float, string, list, nil, cons, is_nan}
use Prim.Native.String.{String}

pub data GraphKeyError : Type 0 where
  empty_name : String → GraphKeyError
  empty_key_tuple : GraphKeyError
  null_key_value : GraphKeyError
  non_scalar : String → GraphKeyError
  nan_key_value : String → GraphKeyError
  encode_error : KeyEncodeError → GraphKeyError
  decode_error : KeyDecodeError → GraphKeyError
  shape : String → GraphKeyError

abbrev pub Keyed {ℓ} : Type ℓ → Type ℓ
Keyed A = Result GraphKeyError A

-- `From<KeyEncodeError>` and `From<KeyDecodeError>`, as `?` applies them.
abbrev pub from_encode {ℓ} : {A : Type ℓ} → Result KeyEncodeError A → Keyed A
from_encode (ok value) = ok value
from_encode (err error) = err (encode_error error)
from_encode out_of_fuel = out_of_fuel

abbrev pub from_decode {ℓ} : {A : Type ℓ} → Result KeyDecodeError A → Keyed A
from_decode (ok value) = ok value
from_decode (err error) = err (decode_error error)
from_decode out_of_fuel = out_of_fuel

-- `is_empty` of texts, and `matches!(v, Value::Null)`.
abbrev pub is_empty {ℓ} : {A : Type ℓ} → List A → Bool
is_empty [] = true
is_empty (b ∷ bs) = false

abbrev pub is_nil : Values → Bool
is_nil nil = true
is_nil (cons v vs) = false

abbrev pub is_null : Value → Bool
is_null null = true
is_null _ = false

-- The patterns `Value::List(items)` and `Value::String(text)` of a `let … else`.
abbrev pub as_list : Value → String → Keyed Values
as_list (list items) message = ok items
as_list _ message = err (shape message)

abbrev pub as_string : Value → String → Keyed (List ℕ)
as_string (string text) message = ok text
as_string _ message = err (shape message)

unfoldable pub check_scalar : Value → String → Keyed (Unit {0})
check_scalar (list items) context = err (non_scalar context)
check_scalar (float x) context = refuse (is_nan x) (nan_key_value context)
check_scalar _ context = ok tt
