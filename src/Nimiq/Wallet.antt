-- ===== src/Nimiq/Wallet.antt =====
-- backend/internal/infrastructure/nimiq/rpc/wallet_reader.go: the node as the AccountReader of the
-- wallet use case.
use nim_near.Prelude.{
  ℕ, ℤ, Option, none, some, List, [], Text, codes, if◌then◌else◌, ◌==◌, Bool, Result, ok, err,
  Error, coded, internal, nimiq_rpc_unavailable, nimiq_rpc_timeout, nimiq_rpc_authentication_failed,
  nimiq_rpc_error,
}
use mathlib.Core.List.{map}
use nim_near.Nimiq.Verifier.{Transaction}
use nim_near.Nimiq.Wire.{Account}
use nim_near.Nimiq.Client.{
  RpcError, timed_out, authentication_failed, unavailable, Answered, got, lost, Http, Client,
}
use nim_near.Nimiq.Calls.{get_account_by_address, get_transactions_by_address}

-- Transaction of the wallet use case.
pub record WalletTransaction : Type 0 where
  pub hash : Text
  pub block_number : ℕ
  pub timestamp : ℕ
  pub from : Text
  pub to : Text
  pub value : ℕ
  pub network_id : ℕ
  pub network : Text
  pub execution_result : Option Bool

-- NetworkNameForID
unfoldable pub network_name_for_id : ℕ → Text
network_name_for_id id =
    if id == 24 then codes "MainAlbatross" else if id == 5 then codes "TestAlbatross" else []

unfoldable pub wallet_transaction : Transaction → WalletTransaction
wallet_transaction tx = record {
  hash = tx.hash;
  block_number = tx.block_number;
  timestamp = tx.timestamp;
  from = tx.from;
  to = tx.to;
  value = tx.value;
  network_id = tx.network_id;
  network = network_name_for_id tx.network_id;
  execution_result = tx.execution_result;
}

-- mapWalletRPCError
unfoldable pub map_wallet_rpc_error : RpcError → Error
map_wallet_rpc_error timed_out = coded internal nimiq_rpc_timeout
map_wallet_rpc_error authentication_failed = coded internal nimiq_rpc_authentication_failed
map_wallet_rpc_error unavailable = coded internal nimiq_rpc_unavailable
map_wallet_rpc_error e = coded internal nimiq_rpc_error

unfoldable pub wallet_answer : {A B : Type 0} → (A → B) → Answered A → Result B
wallet_answer convert (got a) = ok (convert a)
wallet_answer convert (lost e) = err (map_wallet_rpc_error e)

-- GetAccountByAddress of a WalletReader; the client is `none` for a nil reader.
unfoldable pub wallet_account : Http → Option Client → Text → Result Account
wallet_account http none address = err (coded internal nimiq_rpc_unavailable)
wallet_account http (some c) address =
    wallet_answer (λ account. account) (get_account_by_address http (some c) address)

-- GetTransactionsByAddress of a WalletReader.
unfoldable pub wallet_transactions :
    Http → Option Client → Text → ℤ → Text → Result (List WalletTransaction)
wallet_transactions http none address max start_at = err (coded internal nimiq_rpc_unavailable)
wallet_transactions http (some c) address max start_at =
    wallet_answer (map wallet_transaction)
      (get_transactions_by_address http (some c) address max start_at)
