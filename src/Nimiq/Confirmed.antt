-- ===== src/Nimiq/Confirmed.antt =====
-- What a confirmed transfer means: exactly which facts about the chain the verifier requires.
use nim_near.Prelude.{
  ℕ, ℤ, pos, negsuc, ◌<◌, ◌^◌, ◌≡◌, ◌↔◌, ◌≢◌, refl, true, false, Option, none, some, List, [], ◌∷◌,
  Text, text_eq, text_eq_iff, trim_space, is_empty, codes, arith, any, Bool-cases, inl, inr, Some,
}
use nim_near.Nimiq.Network.{same_environment, network_id_matches}
use nim_near.Nimiq.Verifier.{
  Transaction, Block, Reply, answer, missing, failed, Rpc, Resolver, confirmed, outcome, Transfer,
  Verifier, normalize_address, equal_fold, any_address, sender_matches_verified_identity,
  is_basic_payment, is_micro_block, check_finality, check_block, check_payment, is_other_hash,
  check_transaction, verify_transfer,
}

-- A plain, executed transfer of exactly the amount to the recipient, on this network.
pub record IsPayment (network : Text) (t : Transfer) (tx : Transaction) : Type 0 where
  pub right_recipient : normalize_address tx.to ≡ normalize_address t.recipient
  pub right_amount : t.amount_lunas ≡ pos tx.value
  pub positive : tx.value ≢ 0
  pub from_basic : tx.from_type ≡ 0
  pub to_basic : tx.to_type ≡ 0
  pub no_flags : tx.flags ≡ 0
  pub no_sender_data : is_empty (trim_space tx.sender_data) ≡ true
  pub no_recipient_data : is_empty (trim_space tx.recipient_data) ≡ true
  pub right_network : network_id_matches network tx.network_id ≡ true
  pub included : tx.block_number ≢ 0
  pub executed : tx.execution_result ≡ some true

-- The sender is one of the addresses that the payer has verified.
pub record IsSentBy (senders : Option Resolver) (payer : ℕ) (from : Text) : Type 0 where
  pub resolver : Resolver
  pub addresses : List Text
  pub configured : senders ≡ some resolver
  pub payer_known : payer ≢ 0
  pub resolved : resolver payer ≡ some addresses
  pub sender_written : is_empty (normalize_address from) ≡ false
  pub verified : Some (λ a. normalize_address a ≡ normalize_address from) addresses

-- A micro block of this network, in a batch that a later one has closed.
pub record IsFinal (rpc : Rpc) (network : Text) (number : ℕ) : Type 0 where
  pub block : Block
  pub batch : ℕ
  pub found : rpc.get_block_by_number number ≡ answer block
  pub right_network : same_environment block.network network ≡ true
  pub micro : equal_fold block.block_type (codes "micro") ≡ true
  pub batched : block.batch ≢ 0
  pub current : rpc.get_batch_number ≡ answer batch
  pub closed : block.batch < batch

pub record IsPaid (v : Verifier) (t : Transfer) : Type 0 where
  pub rpc : Rpc
  pub tx : Transaction
  pub connected : v.rpc ≡ some rpc
  pub hash_written : is_empty (trim_space t.transaction_hash) ≡ false
  pub known : rpc.get_transaction_by_hash t.transaction_hash ≡ answer tx
  pub right_hash : is_other_hash t tx ≡ false
  pub sender : IsSentBy v.senders t.payer_user_id tx.from
  pub payment : IsPayment v.network t tx
  pub final : IsFinal rpc v.network tx.block_number

-- An amount of Go's type int64.
abbrev pub IsInt64 : ℤ → Type 0
IsInt64 (pos n) = n < 2 ^ 63
IsInt64 (negsuc n) = n < 2 ^ 63

module _ (network : Text) (t : Transfer) (tx : Transaction) (fits : IsInt64 t.amount_lunas) where
  is_basic_payment-IsPayment : is_basic_payment network t tx ≡ true → IsPayment network t tx
  unfolding is_basic_payment
  is_basic_payment-IsPayment h =
      ground (arith, text_eq_iff (normalize_address tx.to) (normalize_address t.recipient))

  IsPayment-is_basic_payment : IsPayment network t tx → is_basic_payment network t tx ≡ true
  unfolding is_basic_payment
  IsPayment-is_basic_payment p =
      ground (arith, text_eq_iff (normalize_address tx.to) (normalize_address t.recipient))

any_address-Some :
    (from : Text) (rest : List Text)
    → any_address from rest ≡ true
    → Some (λ a. normalize_address a ≡ from) rest
unfolding any_address any
any_address-Some from [] h = cc
any_address-Some from (a ∷ rest) h = elim (Bool-cases (text_eq (normalize_address a) from)) [
  | inl e ↦ inl ((text_eq_iff _ _).0 e)
  | inr e ↦ inr (any_address-Some from rest (ground arith))
]

Some-any_address :
    (from : Text) (rest : List Text)
    → Some (λ a. normalize_address a ≡ from) rest
    → any_address from rest ≡ true
unfolding any_address any
Some-any_address from [] h = elim h [ ]
Some-any_address from (a ∷ rest) (inl e) =
    ground (arith, (text_eq_iff (normalize_address a) from).1 e)
Some-any_address from (a ∷ rest) (inr h) = ground (arith, Some-any_address from rest h)

-- The stages, from the last to the first: what each needs to answer `confirmed`.
module _ (rpc : Rpc) (network : Text) where
  check_finality-closed :
      (r : Reply ℕ) (block : Block)
      → check_finality r block ≡ outcome confirmed
      → (batch : ℕ) × (r ≡ answer batch) × (block.batch < batch)
  unfolding check_finality
  check_finality-closed (answer batch) block h = (batch, refl, ground arith)
  check_finality-closed missing block h = cc
  check_finality-closed failed block h = cc

  check_block-IsFinal :
      (number : ℕ) (r : Reply Block)
      → rpc.get_block_by_number number ≡ r
      → check_block rpc network r ≡ outcome confirmed
      → IsFinal rpc network number
  unfolding check_block is_micro_block
  check_block-IsFinal number (answer block) e h =
      let micro : is_micro_block network block ≡ true = ground arith in
      let (batch, current, closed) =
        check_finality-closed rpc.get_batch_number block (ground arith) in
      record {
        block = block;
        batch = batch;
        found = e;
        right_network = ground arith;
        micro = ground arith;
        batched = ground arith;
        current = current;
        closed = closed;
      }
  check_block-IsFinal number missing e h = cc
  check_block-IsFinal number failed e h = cc

  IsFinal-check_block :
      (number : ℕ)
      → IsFinal rpc network number
      → check_block rpc network (rpc.get_block_by_number number) ≡ outcome confirmed
  unfolding check_block is_micro_block check_finality
  IsFinal-check_block number f = rw (f.found, check_block) (ground (arith, f.current))

resolved-IsSentBy :
    (resolver : Resolver) (payer : ℕ) (from : Text) (found : Option (List Text))
    → resolver payer ≡ found
    → sender_matches_verified_identity (some resolver) payer from ≡ some true
    → IsSentBy (some resolver) payer from
unfolding sender_matches_verified_identity
resolved-IsSentBy resolver payer from none e h = ground arith
resolved-IsSentBy resolver payer from (some addresses) e h = record {
  resolver = resolver;
  addresses = addresses;
  configured = refl;
  payer_known = ground arith;
  resolved = e;
  sender_written = ground arith;
  verified = any_address-Some (normalize_address from) addresses (ground arith);
}

sender-IsSentBy :
    (senders : Option Resolver) (payer : ℕ) (from : Text)
    → sender_matches_verified_identity senders payer from ≡ some true
    → IsSentBy senders payer from
unfolding sender_matches_verified_identity
sender-IsSentBy none payer from h = cc
sender-IsSentBy (some resolver) payer from h =
    resolved-IsSentBy resolver payer from (resolver payer) refl h

module _ (senders : Option Resolver) (payer : ℕ) (from : Text) where
  IsSentBy-sender :
      IsSentBy senders payer from → sender_matches_verified_identity senders payer from ≡ some true
  unfolding sender_matches_verified_identity
  IsSentBy-sender s =
      rw s.configured (
        ground
          (arith, s.resolved, Some-any_address (normalize_address from) s.addresses s.verified))

module _ (v : Verifier) (t : Transfer) (fits : IsInt64 t.amount_lunas) where
  check_transaction-IsPaid :
      (rpc : Rpc) (r : Reply Transaction)
      → v.rpc ≡ some rpc
      → is_empty (trim_space t.transaction_hash) ≡ false
      → rpc.get_transaction_by_hash t.transaction_hash ≡ r
      → check_transaction rpc v.senders v.network t r ≡ outcome confirmed
      → IsPaid v t
  unfolding check_transaction check_payment
  check_transaction-IsPaid rpc missing c w e h = cc
  check_transaction-IsPaid rpc failed c w e h = cc
  check_transaction-IsPaid rpc (answer tx) c w e h = record {
    rpc = rpc;
    tx = tx;
    connected = c;
    hash_written = w;
    known = e;
    right_hash = ground arith;
    sender = sender-IsSentBy v.senders t.payer_user_id tx.from (ground arith);
    payment = is_basic_payment-IsPayment v.network t tx fits (ground arith);
    final = check_block-IsFinal rpc v.network tx.block_number _ refl (ground arith);
  }

  connected-IsPaid :
      (o : Option Rpc) → v.rpc ≡ o → verify_transfer v t ≡ outcome confirmed → IsPaid v t
  unfolding verify_transfer
  connected-IsPaid none e h = ground arith
  connected-IsPaid (some rpc) e h =
      check_transaction-IsPaid rpc (rpc.get_transaction_by_hash t.transaction_hash) e (ground arith)
        refl (ground arith)

  IsPaid-verify_transfer : IsPaid v t → verify_transfer v t ≡ outcome confirmed
  unfolding verify_transfer check_transaction check_payment
  IsPaid-verify_transfer p = ground (
    arith,
    p.connected,
    p.known,
    IsSentBy-sender v.senders t.payer_user_id p.tx.from p.sender,
    IsPayment-is_basic_payment v.network t p.tx fits p.payment,
    IsFinal-check_block p.rpc v.network p.tx.block_number p.final,
  )

  -- The verifier answers `confirmed` exactly when the node knows, under the hash, a plain executed
  -- transfer of exactly the amount to the recipient, from an address that the payer has verified,
  -- in a micro block of the configured network whose batch is closed by a later one. The amount is
  -- taken in the range of int64.
  pub verify_transfer_confirmed_iff : (verify_transfer v t ≡ outcome confirmed) ↔ IsPaid v t
  verify_transfer_confirmed_iff = (connected-IsPaid v.rpc refl, IsPaid-verify_transfer)
