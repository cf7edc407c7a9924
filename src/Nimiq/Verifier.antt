-- ===== src/Nimiq/Verifier.antt =====
-- backend/internal/infrastructure/nimiq/rpc/client.go: NimiqVerifier. The RPC node and the resolver
-- of verified addresses are interfaces of the code and parameters here.
use nim_near.Prelude.{
  pos, ℕ, ℤ, to_uint64, positive_part, Bool, false, not, ◌&&◌, Option, none, some, List, Text,
  codes, text_eq, trim_space, to_lower, to_upper, remove_spaces, is_empty, if◌then◌else◌, ◌==◌, leb,
  any, exists,
}
use nim_near.Store.{Purchase}
use nim_near.Nimiq.Network.{same_environment, network_id_matches}

pub record Transaction : Type 0 where
  pub hash : Text
  pub block_number : ℕ
  pub timestamp : ℕ
  pub from : Text
  pub to : Text
  pub from_type : ℕ
  pub to_type : ℕ
  pub value : ℕ
  pub flags : ℕ
  pub sender_data : Text
  pub recipient_data : Text
  pub network_id : ℕ
  pub execution_result : Option Bool

pub record Block : Type 0 where
  pub batch : ℕ
  pub network : Text
  pub block_type : Text

-- A call of the node: its answer, ErrTransactionNotFound, or any other error.
pub data Reply (A : Type 0) : Type 0 where
  answer : A → Reply A
  missing failed : Reply A

-- RPCClient
pub record Rpc : Type 0 where
  pub get_transaction_by_hash : Text → Reply Transaction
  pub get_block_by_number : ℕ → Reply Block
  pub get_batch_number : Reply ℕ

-- SenderResolver: `none` is an error.
abbrev pub Resolver : Type 0
Resolver = ℕ → Option (List Text)

pub data Outcome : Type 0 where
  not_found not_final confirmed invalid : Outcome

-- An outcome, or an error that the caller may retry.
pub data Verdict : Type 0 where
  outcome : Outcome → Verdict
  unreachable : Verdict

pub record Transfer : Type 0 where
  pub transaction_hash : Text
  pub recipient : Text
  pub amount_lunas : ℤ
  pub payer_user_id : ℕ

pub record Verifier : Type 0 where
  pub rpc : Option Rpc
  pub merchant : Text
  pub network : Text
  pub senders : Option Resolver

-- strings.ToUpper(strings.ReplaceAll(strings.TrimSpace(address), " ", ""))
unfoldable pub normalize_address : Text → Text
unfolding to_upper remove_spaces trim_space
normalize_address address = to_upper (remove_spaces (trim_space address))

-- strings.EqualFold, on ASCII texts.
unfoldable pub equal_fold : Text → Text → Bool
unfolding text_eq to_lower
equal_fold s t = text_eq (to_lower s) (to_lower t)

unfoldable pub any_address : Text → List Text → Bool
any_address sender addresses = any (λ a. text_eq (normalize_address a) sender) addresses

-- `none` is the error of the resolver.
unfoldable pub sender_matches_verified_identity : Option Resolver → ℕ → Text → Option Bool
sender_matches_verified_identity none user from = some false
sender_matches_verified_identity (some resolver) user from =
    if user == 0 then some false else (elim (resolver user) [
      | none ↦ none
      | some addresses ↦ some (
          not (is_empty (normalize_address from)) && any_address (normalize_address from) addresses)
    ])

-- transfer.AmountLunas <= 0
abbrev pub not_positive : ℤ → Bool
not_positive z = positive_part z == 0

-- The long condition of VerifyTransfer, negated, but for the sender.
unfoldable pub is_basic_payment : Text → Transfer → Transaction → Bool
is_basic_payment network transfer tx =
    text_eq (normalize_address tx.to) (normalize_address transfer.recipient)
    && not (not_positive transfer.amount_lunas)
    && to_uint64 transfer.amount_lunas == tx.value
    && tx.from_type == 0
    && tx.to_type == 0
    && tx.flags == 0
    && is_empty (trim_space tx.sender_data)
    && is_empty (trim_space tx.recipient_data)
    && network_id_matches network tx.network_id
    && not (tx.block_number == 0)
    && exists (λ b. b) tx.execution_result

-- The check of the including block, negated.
unfoldable pub is_micro_block : Text → Block → Bool
is_micro_block network block =
    same_environment block.network network
    && equal_fold block.block_type (codes "micro")
    && not (block.batch == 0)

-- Macro-block finality: the current batch is later than the batch of the block.
unfoldable pub check_finality : Reply ℕ → Block → Verdict
check_finality (answer batch) block =
    if leb batch block.batch then outcome not_final else outcome confirmed
check_finality missing block = unreachable
check_finality failed block = unreachable

unfoldable pub check_block : Rpc → Text → Reply Block → Verdict
check_block rpc network (answer block) =
    if is_micro_block network block
    then check_finality rpc.get_batch_number block
    else outcome invalid
check_block rpc network missing = unreachable
check_block rpc network failed = unreachable

unfoldable pub check_payment : Rpc → Text → Transfer → Transaction → Option Bool → Verdict
check_payment rpc network transfer tx none = unreachable
check_payment rpc network transfer tx (some matched) =
    if matched && is_basic_payment network transfer tx
    then check_block rpc network (rpc.get_block_by_number tx.block_number)
    else outcome invalid

-- `tx.Hash != "" && !strings.EqualFold(tx.Hash, transfer.TransactionHash)`
abbrev pub is_other_hash : Transfer → Transaction → Bool
is_other_hash transfer tx =
    not (is_empty tx.hash) && not (equal_fold tx.hash transfer.transaction_hash)

unfoldable pub check_transaction :
    Rpc → Option Resolver → Text → Transfer → Reply Transaction → Verdict
check_transaction rpc senders network transfer missing = outcome not_found
check_transaction rpc senders network transfer failed = unreachable
check_transaction rpc senders network transfer (answer tx) =
    if is_other_hash transfer tx
    then outcome invalid
    else check_payment rpc network transfer tx
        (sender_matches_verified_identity senders transfer.payer_user_id tx.from)

-- `v == nil` is a use case without a verifier, which never calls it.
unfoldable pub verify_transfer : Verifier → Transfer → Verdict
verify_transfer v transfer = elim v.rpc [
  | none ↦ outcome not_found
  | some rpc ↦
      if is_empty (trim_space transfer.transaction_hash)
      then outcome not_found
      else check_transaction rpc v.senders v.network transfer
          (rpc.get_transaction_by_hash transfer.transaction_hash)
]

-- Verify: the transfer of a purchase goes to the merchant.
unfoldable pub verify_purchase : Verifier → Purchase → Verdict
verify_purchase v p = elim p.transaction_hash [
  | none ↦ outcome not_found
  | some h ↦ verify_transfer v (record {
    transaction_hash = h;
    recipient = v.merchant;
    amount_lunas = pos p.amount_lunas;
    payer_user_id = p.user_id;
  })
]

unfoldable pub new_verifier : Option Rpc → Text → Text → Option Resolver → Verifier
new_verifier rpc merchant network senders = record {
  rpc = rpc;
  merchant = normalize_address merchant;
  network = trim_space network;
  senders = senders;
}
