-- ===== src/Tests/Nimiq.antt =====
-- A transfer that the verifier confirms, one that it refuses, and one that it cannot settle yet.
use nim_near.Prelude.{trim_space, any, ℕ, pos, ◌≡◌, ◌↔◌, refl, true, some, [], ◌∷◌, codes, arith}
use nim_near.Nimiq.Network.{network_id_matches, same_environment}
use nim_near.Nimiq.Verifier.{
  check_transaction, equal_fold, check_payment, sender_matches_verified_identity, normalize_address,
  any_address, is_basic_payment, check_block, is_micro_block, check_finality, Transaction, Block,
  answer, confirmed, not_final, outcome, Transfer, Verifier, verify_transfer,
}
use nim_near.Nimiq.Confirmed.{IsPaid, verify_transfer_confirmed_iff}

abbrev pub a_transaction : Transaction
a_transaction = record {
  hash = codes "ab";
  block_number = 12;
  timestamp = 1700000000000;
  from = codes "nq 11";
  to = codes "NQ07";
  from_type = 0;
  to_type = 0;
  value = 500;
  flags = 0;
  sender_data = [];
  recipient_data = [];
  network_id = 24;
  execution_result = some true;
}

abbrev pub a_block : Block
a_block = record { batch = 4; network = codes "MainAlbatross"; block_type = codes "micro" }

abbrev pub a_verifier : ℕ → Verifier
a_verifier batch = record {
  rpc = some (record {
    get_transaction_by_hash = λ _. answer a_transaction;
    get_block_by_number = λ _. answer a_block;
    get_batch_number = answer batch;
  });
  merchant = codes "NQ07";
  network = codes "mainnet";
  senders = some (λ _. some (codes "NQ11" ∷ []));
}

abbrev pub a_transfer : Transfer
a_transfer = record {
  transaction_hash = codes "ab";
  recipient = codes "NQ07";
  amount_lunas = pos 500;
  payer_user_id = 2;
}

verify_confirmed : verify_transfer (a_verifier 5) a_transfer ≡ outcome confirmed
unfolding verify_transfer trim_space check_transaction equal_fold check_payment
    sender_matches_verified_identity normalize_address any_address any is_basic_payment
    network_id_matches check_block is_micro_block same_environment check_finality
verify_confirmed = refl

verify_not_final : verify_transfer (a_verifier 4) a_transfer ≡ outcome not_final
unfolding verify_transfer trim_space check_transaction equal_fold check_payment
    sender_matches_verified_identity normalize_address any_address any is_basic_payment
    network_id_matches check_block is_micro_block same_environment check_finality
verify_not_final = refl

verify_transfer_confirmed_iff_example :
    (verify_transfer (a_verifier 5) a_transfer ≡ outcome confirmed)
    ↔ IsPaid (a_verifier 5) a_transfer
verify_transfer_confirmed_iff_example =
    verify_transfer_confirmed_iff (a_verifier 5) a_transfer (omega arith)
