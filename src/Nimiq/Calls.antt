-- ===== src/Nimiq/Calls.antt =====
-- backend/internal/infrastructure/nimiq/rpc/client.go: the calls of Client, and the client as the
-- node of a verifier.
use nim_near.Prelude.{
  ℕ, ℤ, Bool, true, false, Option, none, some, List, [], ◌∷◌, Text, codes, trim_space, is_empty,
  if◌then◌else◌, ◌==◌, ltb, positive_part,
}
use nim_near.Nimiq.Verifier.{Transaction, Block, Reply, answer, missing, failed, Rpc}
use nim_near.Nimiq.Wire.{
  unmarshal_uint64, transaction_of_fields, transactions_of_fields, block_of_fields,
  account_of_fields, Account, TransactionFields, Json, ◌>>=◌,
}
use nim_near.Nimiq.Client.{
  RpcError, transaction_not_found, address_required, Answered, got, lost, Param, text, number, flag,
  null, Http, Client, do_call,
}

-- json.Unmarshal into each type of the client, with its UnmarshalJSON.
module _ (json : Json) where
  unfoldable pub decode_transaction : Text → Option Transaction
  decode_transaction raw = do fields ← json.transaction raw; transaction_of_fields fields

  unfoldable pub decode_block : Text → Option Block
  decode_block raw = do fields ← json.block raw; block_of_fields fields

  unfoldable pub decode_account : Text → Option Account
  decode_account raw = do fields ← json.account raw; account_of_fields fields

  unfoldable pub list_of_fields : Option (List TransactionFields) → Option (List Transaction)
  list_of_fields none = some []
  list_of_fields (some fields) = transactions_of_fields fields

  -- A null list is answered as an empty one.
  unfoldable pub decode_transactions : Text → Option (List Transaction)
  decode_transactions raw = do fields ← json.transactions raw; list_of_fields fields

-- The Boolean of getBlockByNumber asks for a block without its transactions.
unfoldable pub get_transaction_by_hash : Http → Option Client → Text → Answered Transaction
get_transaction_by_hash http c hash =
    do_call (decode_transaction http.json) http c (codes "getTransactionByHash") (text hash ∷ [])

unfoldable pub get_block_by_number : Http → Option Client → ℕ → Answered Block
get_block_by_number http c n =
    do_call (decode_block http.json) http c (codes "getBlockByNumber") (number n ∷ flag false ∷ [])

unfoldable pub get_batch_number : Http → Option Client → Answered ℕ
get_batch_number http c = do_call unmarshal_uint64 http c (codes "getBatchNumber") []

unfoldable pub get_account_by_address : Http → Option Client → Text → Answered Account
get_account_by_address http c address =
    if is_empty (trim_space address)
    then lost address_required
    else do_call (decode_account http.json) http c (codes "getAccountByAddress") (text address ∷ [])

unfoldable pub get_balance : Http → Option Client → Text → Answered ℕ
get_balance http c address = elim (get_account_by_address http c address) [
  | got account ↦ got account.balance
  | lost e ↦ lost e
]

-- DefaultTransactionLimit for a limit that is not positive, MaxTransactionLimit for a larger one.
unfoldable pub transaction_limit : ℤ → ℕ
transaction_limit max =
    let asked = positive_part max in
    let limit = if asked == 0 then 50 else asked in if ltb 500 limit then 500 else limit

unfoldable pub start_param : Text → Param
unfolding trim_space
start_param start_at = if is_empty (trim_space start_at) then null else text (trim_space start_at)

unfoldable pub get_transactions_by_address :
    Http → Option Client → Text → ℤ → Text → Answered (List Transaction)
get_transactions_by_address http c address max start_at =
    if is_empty (trim_space address)
    then lost address_required
    else do_call (decode_transactions http.json) http c (codes "getTransactionsByAddress")
        (text address ∷ number (transaction_limit max) ∷ start_param start_at ∷ [])

-- errors.Is(err, ErrTransactionNotFound)
abbrev pub is_not_found : RpcError → Bool
is_not_found transaction_not_found = true
is_not_found e = false

-- What the verifier tells apart: the value, that error, and `err != nil`.
unfoldable pub reply_of : {A : Type 0} → Answered A → Reply A
reply_of (got a) = answer a
reply_of (lost e) = if is_not_found e then missing else failed

-- The client as the RPCClient of a verifier.
unfoldable pub client_rpc : Http → Option Client → Rpc
client_rpc http c = record {
  get_transaction_by_hash = λ hash. reply_of (get_transaction_by_hash http c hash);
  get_block_by_number = λ n. reply_of (get_block_by_number http c n);
  get_batch_number = reply_of (get_batch_number http c);
}
