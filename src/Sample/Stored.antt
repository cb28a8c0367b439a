-- ===== src/Sample/Stored.antt =====
-- A field as the store keeps it: the JSON object of its struct tags, `value` and `reason` left out
-- where they are nil and "". The state is written as it is.
use cluster_recorder.Prelude.{
  ◌≡◌, refl, sym, true, String, arith, eq_iff, str_eq, Option, none, some, if◌then◌else◌, [], ◌∷◌,
}
use cluster_recorder.Dict.{Dict}
use cluster_recorder.Sample.{Field, equal, validate}
use cluster_recorder.Sample.Equal.{equal_iff}
use cluster_recorder.Sample.State.{FieldState}
use cluster_recorder.Sample.Encoding.{
  Json, Value, marshal, unmarshal, marshal-unmarshal, is_nil, IsExact,
}

pub record FieldDoc : Type 0 where
  pub state : FieldState
  pub value : Option Json
  pub reason : Option String

encode_value : Value → Option Json
encode_value v = if is_nil v then none else some (marshal v)

decode_value : Option Json → Value
decode_value none = Value.null
decode_value (some j) = unmarshal j

-- json.Marshal of a Field.
unfoldable pub encode : Field → FieldDoc
unfolding encode_value
encode f = record {
  state = f.state;
  value = encode_value f.value;
  reason = if str_eq f.reason "" then none else some f.reason;
}

decode_reason : Option String → String
decode_reason none = ""
decode_reason (some r) = r

-- json.Unmarshal into a Field.
unfoldable pub decode : FieldDoc → Field
unfolding decode_value decode_reason
decode d = record { state = d.state; value = decode_value d.value; reason = decode_reason d.reason }

marshal-decode_value :
    (v : Value) → IsExact (marshal v) → marshal (decode_value (encode_value v)) ≡ marshal v
unfolding marshal unmarshal is_nil encode_value decode_value
marshal-decode_value Value.null h = refl
marshal-decode_value (Value.boolean b) h = refl
marshal-decode_value (Value.int n) h = marshal-unmarshal (marshal (Value.int n)) h
marshal-decode_value (Value.float64 n) h = marshal-unmarshal (marshal (Value.float64 n)) h
marshal-decode_value (Value.text s) h = refl
marshal-decode_value (Value.texts ss) h = marshal-unmarshal (marshal (Value.texts ss)) h
marshal-decode_value (Value.list vs) h = marshal-unmarshal (marshal (Value.list vs)) h

is_nil-decode_value : (v : Value) → is_nil (decode_value (encode_value v)) ≡ is_nil v
unfolding marshal unmarshal is_nil encode_value decode_value
is_nil-decode_value Value.null = refl
is_nil-decode_value v = refl

-- A field that comes back from storage is equal to the one that was stored, though its numbers
-- have become floats and its string slices slices of any; a number above 2^53 would lose digits.
pub equal-decode-encode :
    (f : Field) → IsExact (marshal f.value) → equal f (decode (encode f)) ≡ true
unfolding encode decode
equal-decode-encode f h =
    (equal_iff f (decode (encode f))).1 (refl, λ _. sym (marshal-decode_value f.value h))

-- It is as valid as it was.
pub validate-decode-encode : (f : Field) → validate (decode (encode f)) ≡ validate f
unfolding validate encode decode
validate-decode-encode f = ground (arith, is_nil-decode_value f.value)

-- Storing it a second time writes the same object.
pub encode-decode-encode :
    (f : Field) → IsExact (marshal f.value) → encode (decode (encode f)) ≡ encode f
unfolding encode decode
encode-decode-encode f h =
    ground (arith, is_nil-decode_value f.value, marshal-decode_value f.value h, eq_iff f.reason "")

unfoldable pub encode_fields : Dict Field → Dict FieldDoc
encode_fields [] = []
encode_fields ((k, f) ∷ m) = (k, encode f) ∷ encode_fields m

unfoldable pub decode_fields : Dict FieldDoc → Dict Field
decode_fields [] = []
decode_fields ((k, d) ∷ m) = (k, decode d) ∷ decode_fields m
