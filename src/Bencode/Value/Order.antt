-- ===== src/Bencode/Value/Order.antt =====
-- A key behind all others is inserted last.
use rbitt.Prelude.{◌≡◌, refl, sym, ap, ◌∙◌, true, false, Option, none, some, Bytes, arith}
use rbitt.Prelude.Lex.{lex_lt, lex_lt_trans, lex_lt-asym}
use rbitt.Bencode.Value.{
  Value, Items, Fields, no_items, item, no_fields, field, unsorted, insert, push,
}

-- The keys ascend from behind `prev`, and the last of them, or else `prev`, is `last`.
abbrev pub Ascends : Option Bytes → Fields → Option Bytes → Type 0
Ascends prev no_fields last = prev ≡ last
Ascends prev (field k v fs) last = (unsorted prev k ≡ false) × Ascends (some k) fs last

-- The entries with one more behind them.
unfoldable pub push_field : Fields → Bytes → Value → Fields
push_field no_fields key value = field key value no_fields
push_field (field k v fs) key value = field k v (push_field fs key value)

unsorted_trans :
    (a b c : Bytes)
    → unsorted (some a) b ≡ false
    → unsorted (some b) c ≡ false
    → unsorted (some a) c ≡ false
unsorted_trans a b c h k = ground (arith, lex_lt_trans a b c)

before_last :
    (k : Bytes) (fs : Fields) (last : Option Bytes) (key : Bytes)
    → Ascends (some k) fs last
    → unsorted last key ≡ false
    → lex_lt k key ≡ true
before_last k no_fields last key h u = ground (arith, ap (λ l. unsorted l key) h)
before_last k (field j w fs) last key h u =
    ground (arith, before_last j fs last key h.1 u, lex_lt_trans k j key)

-- A key that exceeds the last one is inserted behind all entries.
pub insert-push_field :
    (prev : Option Bytes) (fs : Fields) (last : Option Bytes) (key : Bytes) (value : Value)
    → Ascends prev fs last
    → unsorted last key ≡ false
    → insert key value fs ≡ push_field fs key value
unfolding insert push_field
insert-push_field prev no_fields last key value h u = refl
insert-push_field prev (field k v fs) last key value h u = ground (
  arith,
  before_last k fs last key h.1 u,
  lex_lt-asym k key,
  insert-push_field (some k) fs last key value h.1 u,
)

pub push_field-Ascends :
    (prev : Option Bytes) (fs : Fields) (last : Option Bytes) (key : Bytes) (value : Value)
    → Ascends prev fs last
    → unsorted last key ≡ false
    → Ascends prev (push_field fs key value) (some key)
unfolding push_field
push_field-Ascends prev no_fields last key value h u = (ap (λ l. unsorted l key) h ∙ u, refl)
push_field-Ascends prev (field k v fs) last key value h u =
    (h.0, push_field-Ascends (some k) fs last key value h.1 u)

-- Entries inserted one after the other, and items pushed one after the other.
unfoldable pub insert_all : Fields → Fields → Fields
insert_all acc no_fields = acc
insert_all acc (field k v fs) = insert_all (insert k v acc) fs

concat : Fields → Fields → Fields
concat no_fields gs = gs
concat (field k v fs) gs = field k v (concat fs gs)

concat-push_field :
    (fs : Fields) (key : Bytes) (value : Value) (gs : Fields)
    → concat (push_field fs key value) gs ≡ concat fs (field key value gs)
unfolding concat push_field
concat-push_field no_fields key value gs = refl
concat-push_field (field k v fs) key value gs =
    ap (λ t. field k v t) (concat-push_field fs key value gs)

concat-no_fields : (fs : Fields) → concat fs no_fields ≡ fs
unfolding concat
concat-no_fields no_fields = refl
concat-no_fields (field k v fs) = ap (λ t. field k v t) (concat-no_fields fs)

-- Sorted entries that are inserted in their order behind sorted entries stand behind them.
insert_all-concat :
    (acc fs : Fields) (last end : Option Bytes)
    → Ascends none acc last
    → Ascends last fs end
    → insert_all acc fs ≡ concat acc fs
unfolding insert_all
insert_all-concat acc no_fields last end h k = sym (concat-no_fields acc)
insert_all-concat acc (field key v fs) last end h k =
    rw (insert-push_field none acc last key v h k.0) (
      insert_all-concat (push_field acc key v) fs (some key) end
        (push_field-Ascends none acc last key v h k.0) k.1
      ∙ concat-push_field acc key v fs)

pub insert_all-eq :
    (fs : Fields) (end : Option Bytes) → Ascends none fs end → insert_all no_fields fs ≡ fs
unfolding concat
insert_all-eq fs end h = insert_all-concat no_fields fs none end refl h

-- Items pushed one after the other.
unfoldable pub push_all : Items → Items → Items
push_all acc no_items = acc
push_all acc (item v xs) = push_all (push acc v) xs

join : Items → Items → Items
join no_items ys = ys
join (item v xs) ys = item v (join xs ys)

join-push : (xs : Items) (v : Value) (ys : Items) → join (push xs v) ys ≡ join xs (item v ys)
unfolding join push
join-push no_items v ys = refl
join-push (item w xs) v ys = ap (λ t. item w t) (join-push xs v ys)

join-no_items : (xs : Items) → join xs no_items ≡ xs
unfolding join
join-no_items no_items = refl
join-no_items (item v xs) = ap (λ t. item v t) (join-no_items xs)

push_all-join : (acc xs : Items) → push_all acc xs ≡ join acc xs
unfolding push_all
push_all-join acc no_items = sym (join-no_items acc)
push_all-join acc (item v xs) = push_all-join (push acc v) xs ∙ join-push acc v xs

pub push_all-eq : (xs : Items) → push_all no_items xs ≡ xs
unfolding join
push_all-eq xs = push_all-join no_items xs
