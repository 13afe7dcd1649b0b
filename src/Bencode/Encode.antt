-- ===== src/Bencode/Encode.antt =====
-- src-tauri/crates/oxidebt-bencode/src/encode.rs. The buffer that the source writes to is passed
-- on as `buf`; `none` is `EncodeError::UnsortedKeys`, the only error there.
pub mod Print
use rbitt.Prelude.{
  Bool, true, false, Option, none, some, [], ◌∷◌, ◌++◌, Bytes, if◌then◌else◌, length,
}
use rbitt.Prelude.Int.{ℤ}
use rbitt.Bencode.Text.{format_usize, format_i64}
use rbitt.Bencode.Value.{
  Value, Items, Fields, bytes, integer, list, dict, no_items, item, no_fields, field, unsorted,
}

infixl 5 ◌>>=◌
abbrev pub ◌>>=◌ {ℓ κ} : {A : Type ℓ} {B : Type κ} → Option A → (A → Option B) → Option B
none >>= f = none
some a >>= f = f a

unfoldable pub encode_bytes : Bytes → Bytes → Bytes
encode_bytes b buf = ((buf ++ format_usize (length b)) ++ b':' ∷ []) ++ b

unfoldable pub encode_integer : ℤ → Bytes → Bytes
encode_integer i buf = ((buf ++ b'i' ∷ []) ++ format_i64 i) ++ b'e' ∷ []

-- `encode_items` and `encode_fields` are the loops of `encode_list` and `encode_dict`.
unfoldable mutual
  pub encode_value : Value → Bytes → Option Bytes
  encode_value (bytes b) buf = some (encode_bytes b buf)
  encode_value (integer i) buf = some (encode_integer i buf)
  encode_value (list xs) buf = do
    buf' ← encode_items xs (buf ++ b'l' ∷ [])
    some (buf' ++ b'e' ∷ [])
  encode_value (dict fs) buf = do
    buf' ← encode_fields fs none (buf ++ b'd' ∷ [])
    some (buf' ++ b'e' ∷ [])

  pub encode_items : Items → Bytes → Option Bytes
  encode_items no_items buf = some buf
  encode_items (item v xs) buf = do buf' ← encode_value v buf; encode_items xs buf'

  pub encode_fields : Fields → Option Bytes → Bytes → Option Bytes
  encode_fields no_fields prev_key buf = some buf
  encode_fields (field key v fs) prev_key buf =
      if unsorted prev_key key
      then none
      else do buf' ← encode_value v (encode_bytes key buf); encode_fields fs (some key) buf'

unfoldable pub encode : Value → Option Bytes
unfolding encode_value
encode v = encode_value v []
