-- ===== src/ValueCodec/Canonical.antt =====
-- What a value is read back as.
use acetone.Prelude.{if◌then◌else◌}
use acetone.ValueCodec.Floats.{canonical_nan_bits}
use acetone.Model.{is_nan}
use acetone.Model.{Value, Values, float, list, nil, cons}

-- What a value decodes to: each NaN is the canonical one.
unfoldable mutual
  pub canonical : Value → Value
  canonical (float x) = float (if is_nan x then canonical_nan_bits else x)
  canonical (list vs) = list (canonicals vs)
  canonical v = v

  pub canonicals : Values → Values
  canonicals nil = nil
  canonicals (cons v vs) = cons (canonical v) (canonicals vs)
