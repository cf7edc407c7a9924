-- ===== src/Nimiq/Outcomes.antt =====
-- The outcomes of the verifier by what the node has answered.
use nim_near.Prelude.{
  ℕ, ◌≡◌, ◌≢◌, refl, inl, inr, Bool, false, ◌&&◌, Option, none, some, Text, trim_space, is_empty,
  arith, Bool-cases,
}
use nim_near.Nimiq.Verifier.{
  Transaction, Block, Reply, answer, missing, failed, Rpc, Outcome, not_found, invalid, Resolver,
  outcome, Transfer, Verifier, check_finality, check_block, check_payment, check_transaction,
  is_micro_block, is_basic_payment, is_other_hash, sender_matches_verified_identity,
  verify_transfer,
}

-- A transaction that the node reports is never "not found".
check_finality-found : (r : Reply ℕ) (block : Block) → check_finality r block ≢ outcome not_found
unfolding check_finality
check_finality-found (answer batch) block h = ground arith
check_finality-found missing block h = cc
check_finality-found failed block h = cc

check_block-found :
    (rpc : Rpc) (network : Text) (r : Reply Block) → check_block rpc network r ≢ outcome not_found
unfolding check_block
check_block-found rpc network (answer block) h =
    ground (arith, check_finality-found rpc.get_batch_number block)
check_block-found rpc network missing h = cc
check_block-found rpc network failed h = cc

check_payment-found :
    (rpc : Rpc) (network : Text) (t : Transfer) (tx : Transaction) (matched : Option Bool)
    → check_payment rpc network t tx matched ≢ outcome not_found
unfolding check_payment
check_payment-found rpc network t tx none h = cc
check_payment-found rpc network t tx (some b) h =
    ground (arith, check_block-found rpc network (rpc.get_block_by_number tx.block_number))

pub check_transaction-found :
    (rpc : Rpc) (senders : Option Resolver) (network : Text) (t : Transfer) (tx : Transaction)
    → check_transaction rpc senders network t (answer tx) ≢ outcome not_found
unfolding check_transaction
check_transaction-found rpc senders network t tx h = ground (
  arith,
  check_payment-found rpc network t tx
      (sender_matches_verified_identity senders t.payer_user_id tx.from),
)

-- An outcome other than `invalid` needs the block and the current batch.
check_finality-batch :
    (r : Reply ℕ) (block : Block) (o : Outcome)
    → check_finality r block ≡ outcome o
    → (n : ℕ) × (r ≡ answer n)
unfolding check_finality
check_finality-batch (answer batch) block o h = (batch, refl)
check_finality-batch missing block o h = cc
check_finality-batch failed block o h = cc

check_block-located :
    (rpc : Rpc) (network : Text) (r : Reply Block) (o : Outcome)
    → o ≢ invalid
    → check_block rpc network r ≡ outcome o
    → (found : Block) × (n : ℕ) × (r ≡ answer found) × (rpc.get_batch_number ≡ answer n)
unfolding check_block
check_block-located rpc network (answer block) o w h =
    elim (Bool-cases (is_micro_block network block)) [
      | inl e ↦
          let (n, current) =
            check_finality-batch rpc.get_batch_number block o (ground (arith, e, h)) in
          (block, n, refl, current)
      | inr e ↦ absurd (w (ground (arith, e, h)))
    ]
check_block-located rpc network missing o w h = cc
check_block-located rpc network failed o w h = cc

-- The block and the batch of a transaction, as the verifier asks for them.
abbrev pub IsLocated : Rpc → ℕ → Type 0
IsLocated rpc height =
    (block : Block) × (n : ℕ) × (rpc.get_block_by_number height ≡ answer block)
    × (rpc.get_batch_number ≡ answer n)

check_payment-IsLocated :
    (rpc : Rpc) (network : Text) (t : Transfer) (tx : Transaction) (matched : Option Bool)
    (o : Outcome)
    → o ≢ invalid
    → check_payment rpc network t tx matched ≡ outcome o
    → IsLocated rpc tx.block_number
unfolding check_payment
check_payment-IsLocated rpc network t tx none o w h = cc
check_payment-IsLocated rpc network t tx (some b) o w h =
    elim (Bool-cases (b && is_basic_payment network t tx)) [
      | inl e ↦
          check_block-located rpc network (rpc.get_block_by_number tx.block_number) o w
            (ground (arith, e, h))
      | inr e ↦ absurd (w (ground (arith, e, h)))
    ]

pub check_transaction-IsLocated :
    (rpc : Rpc) (senders : Option Resolver) (network : Text) (t : Transfer) (tx : Transaction)
    (o : Outcome)
    → o ≢ invalid
    → check_transaction rpc senders network t (answer tx) ≡ outcome o
    → IsLocated rpc tx.block_number
unfolding check_transaction
check_transaction-IsLocated rpc senders network t tx o w h =
    elim (Bool-cases (is_other_hash t tx)) [
      | inl e ↦ absurd (w (ground (arith, e, h)))
      | inr e ↦
          check_payment-IsLocated rpc network t tx
            (sender_matches_verified_identity senders t.payer_user_id tx.from) o w
            (ground (arith, e, h))
    ]

pub missing-not_found :
    (rpc : Rpc) (v : Verifier) (t : Transfer) (o : Outcome)
    → check_transaction rpc v.senders v.network t missing ≡ outcome o
    → o ≡ not_found
unfolding check_transaction
missing-not_found rpc v t o h = ground (arith, h)

pub failed-unreachable :
    (rpc : Rpc) (v : Verifier) (t : Transfer) (o : Outcome)
    → check_transaction rpc v.senders v.network t failed ≢ outcome o
unfolding check_transaction
failed-unreachable rpc v t o h = cc

pub verify_transfer-connected :
    (v : Verifier) (rpc : Rpc) (t : Transfer)
    → v.rpc ≡ some rpc
    → is_empty (trim_space t.transaction_hash) ≡ false
    → verify_transfer v t
      ≡ check_transaction rpc v.senders v.network t (rpc.get_transaction_by_hash t.transaction_hash)
unfolding verify_transfer
verify_transfer-connected v rpc t connected written = rw (connected, written) refl
