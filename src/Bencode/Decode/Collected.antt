-- ===== src/Bencode/Decode/Collected.antt =====
-- src-tauri/crates/oxidebt-bencode/src/decode.rs: what the loops of the decoder have collected so far
-- can be encoded.
use rbitt.Prelude.{ℕ, ◌≡◌, ap, ◌∙◌, false, Option, none, some, Bytes}
use rbitt.Bencode.Value.{
  Value, Items, Fields, no_items, item, no_fields, field, insert, push, unsorted,
}
use rbitt.Bencode.Value.Order.{push_field, insert-push_field, push_field-Ascends, Ascends}
use rbitt.Bencode.Encodable.{FitsBytes, IsEncodable, IsEncodableItems, IsEncodableFields}

pub push-IsEncodable :
    (depth : ℕ) (xs : Items) (v : Value)
    → IsEncodableItems depth xs
    → IsEncodable depth v
    → IsEncodableItems depth (push xs v)
unfolding IsEncodable push
push-IsEncodable depth no_items v h hv = (hv, tt)
push-IsEncodable depth (item w xs) v h hv = (h.0, push-IsEncodable depth xs v h.1 hv)

push_field-IsEncodable :
    (depth : ℕ) (prev : Option Bytes) (fs : Fields) (last : Option Bytes) (k : Bytes) (v : Value)
    → IsEncodableFields depth prev fs
    → Ascends prev fs last
    → unsorted last k ≡ false
    → FitsBytes depth k
    → IsEncodable depth v
    → IsEncodableFields depth prev (push_field fs k v)
unfolding IsEncodable push_field
push_field-IsEncodable depth prev no_fields last k v h asc fresh hk hv =
    (ap (λ l. unsorted l k) asc ∙ fresh, hk, hv, tt)
push_field-IsEncodable depth prev (field j w fs) last k v h asc fresh hk hv =
    (h.0, h.1, h.2, push_field-IsEncodable depth (some j) fs last k v h.3 asc.1 fresh hk hv)

-- The state of `dict_loop`.
pub record Collected (depth : ℕ) (entries : Fields) (last_key : Option Bytes) : Type 0 where
  pub fine : IsEncodableFields depth none entries
  pub ascending : Ascends none entries last_key

pub Collected-insert :
    (depth : ℕ) (entries : Fields) (last_key : Option Bytes) (k : Bytes) (v : Value)
    → Collected depth entries last_key
    → unsorted last_key k ≡ false
    → FitsBytes depth k
    → IsEncodable depth v
    → Collected depth (insert k v entries) (some k)
Collected-insert depth entries last_key k v s fresh hk hv =
    rw (insert-push_field none entries last_key k v s.ascending fresh) (record {
      fine = push_field-IsEncodable depth none entries last_key k v s.fine s.ascending fresh hk hv;
      ascending = push_field-Ascends none entries last_key k v s.ascending fresh;
    })
