-- ===== src/Nimiq/Wire.antt =====
-- backend/internal/infrastructure/nimiq/rpc/client.go: what the JSON-RPC client reads from the
-- node. The split of a JSON text into fields is encoding/json's, a parameter; a field is its raw
-- text, and is `none` when it is absent.
use nim_near.Prelude.{
  ℕ, ℤ, ◌^◌, Bool, not, ◌&&◌, Option, none, some, List, [], ◌∷◌, reverse, Text, codes, text_eq,
  trim_space, is_empty, if◌then◌else◌, ◌==◌, ltb,
}
use mathlib.Core.Option.{bind}
use nim_near.Money.Decimal.{value}
use nim_near.Money.Amounts.{all_digits}
use nim_near.Nimiq.Verifier.{Transaction, Block}

-- `if err != nil { return err }` between two steps of a decoder.
infixl 5 ◌>>=◌
abbrev pub ◌>>=◌ : {A B : Type 0} → Option A → (A → Option B) → Option B
step >>= next = bind step next

unfoldable pub trim_quotes_left : Text → Text
trim_quotes_left [] = []
trim_quotes_left (c ∷ s) = if c == 34 then trim_quotes_left s else c ∷ s

-- strings.Trim(value, "\"")
unfoldable pub trim_quotes : Text → Text
unfolding trim_quotes_left
trim_quotes s = reverse (trim_quotes_left (reverse (trim_quotes_left s)))

-- strconv.ParseUint(s, 10, 64)
unfoldable pub parse_uint64 : Text → Option ℕ
parse_uint64 s =
    if not (is_empty s) && all_digits s && ltb (value s 0) (2 ^ 64) then some (value s 0) else none

-- uint64Value.UnmarshalJSON: `none` is its error.
unfoldable pub unmarshal_uint64 : Text → Option ℕ
unfolding trim_quotes trim_space text_eq parse_uint64
unmarshal_uint64 raw =
    let s = trim_quotes (trim_space raw) in
    if is_empty s then some 0 else if text_eq s (codes "null") then some 0 else parse_uint64 s

-- A field of the struct that the data does not have keeps its zero.
unfoldable pub uint64_field : Option Text → Option ℕ
uint64_field none = some 0
uint64_field (some raw) = unmarshal_uint64 raw

-- The fields of Transaction, before UnmarshalJSON.
pub record TransactionFields : Type 0 where
  pub hash : Text
  pub block_number : Option Text
  pub timestamp : Option Text
  pub from : Text
  pub to : Text
  pub from_type : Option Text
  pub to_type : Option Text
  pub value : Option Text
  pub flags : Option Text
  pub sender_data : Text
  pub recipient_data : Text
  pub network_id : Option Text
  pub execution_result : Option Bool

unfoldable pub transaction_of_fields : TransactionFields → Option Transaction
unfolding uint64_field
transaction_of_fields f = do
  block_number ← uint64_field f.block_number
  timestamp ← uint64_field f.timestamp
  from_type ← uint64_field f.from_type
  to_type ← uint64_field f.to_type
  value ← uint64_field f.value
  flags ← uint64_field f.flags
  network_id ← uint64_field f.network_id
  some (record {
    hash = f.hash;
    block_number = block_number;
    timestamp = timestamp;
    from = f.from;
    to = f.to;
    from_type = from_type;
    to_type = to_type;
    value = value;
    flags = flags;
    sender_data = f.sender_data;
    recipient_data = f.recipient_data;
    network_id = network_id;
    execution_result = f.execution_result;
  })

pub record BlockFields : Type 0 where
  pub batch : Option Text
  pub network : Text
  pub block_type : Text

unfoldable pub block_of_fields : BlockFields → Option Block
unfolding uint64_field
block_of_fields f = do
  batch ← uint64_field f.batch
  some (record { batch = batch; network = f.network; block_type = f.block_type })

pub record AccountFields : Type 0 where
  pub address : Text
  pub balance : Option Text
  pub account_type : Text

pub record Account : Type 0 where
  pub address : Text
  pub balance : ℕ
  pub account_type : Text

unfoldable pub account_of_fields : AccountFields → Option Account
unfolding uint64_field
account_of_fields f = do
  balance ← uint64_field f.balance
  some (record { address = f.address; balance = balance; account_type = f.account_type })

unfoldable pub transactions_of_fields : List TransactionFields → Option (List Transaction)
transactions_of_fields [] = some []
transactions_of_fields (f ∷ fs) = do
  tx ← transaction_of_fields f
  rest ← transactions_of_fields fs
  some (tx ∷ rest)

-- The member `error` of a response.
pub record RpcFailure : Type 0 where
  pub code : ℤ
  pub message : Text

-- responseEnvelope: the raw text of result.data, and the error.
pub record ResponseEnvelope : Type 0 where
  pub result : Option Text
  pub failure : Option RpcFailure

-- encoding/json, of the types above: `none` is its error. A list may be null.
pub record Json : Type 0 where
  pub envelope : Text → Option ResponseEnvelope
  pub transaction : Text → Option TransactionFields
  pub transactions : Text → Option (Option (List TransactionFields))
  pub block : Text → Option BlockFields
  pub account : Text → Option AccountFields
