-- ===== src/Nimiq/Heard.antt =====
-- A verifier over the JSON-RPC client: what the node must have answered for an outcome.
use nim_near.Prelude.{
  ℕ, ◌≡◌, refl, sym, ◌∙◌, subst, false, some, [], ◌∷◌, codes, trim_space, is_empty, arith,
}
use nim_near.Nimiq.Verifier.{
  Transaction, Block, answer, Outcome, not_found, not_final, confirmed, invalid, outcome, Transfer,
  Verifier, check_transaction, verify_transfer,
}
use nim_near.Nimiq.Wire.{unmarshal_uint64}
use nim_near.Nimiq.Client.{
  Answered, got, lost, transaction_not_found, text, number, flag, Http, Client,
}
use nim_near.Nimiq.Read.{IsUnknown, IsAnswer, do_call-IsUnknown, do_call-IsAnswer}
use nim_near.Nimiq.Calls.{
  decode_transaction, decode_block, get_transaction_by_hash, get_block_by_number, get_batch_number,
  reply_of, client_rpc,
}
use nim_near.Nimiq.Outcomes.{
  IsLocated, check_transaction-found, check_transaction-IsLocated, missing-not_found,
  failed-unreachable, verify_transfer-connected,
}

reply_of-answer : {A : Type 0} (r : Answered A) (a : A) → reply_of r ≡ answer a → r ≡ got a
unfolding reply_of
reply_of-answer (got b) a h = ground (arith, h)
reply_of-answer (lost e) a h = ground (arith, h)

-- The node answers the question for the block of a transaction, and the one for the current batch.
pub record IsLocatedByHttp (http : Http) (c : Client) (block_number : ℕ) : Type 0 where
  pub block : Block
  pub batch : ℕ
  pub block_answered :
      IsAnswer
        (decode_block http.json)
        http
        c
        (codes "getBlockByNumber")
        (number block_number ∷ flag false ∷ [])
        block
  pub batch_answered : IsAnswer unmarshal_uint64 http c (codes "getBatchNumber") [] batch

IsLocated-IsLocatedByHttp :
    (http : Http) (c : Client) (n : ℕ)
    → IsLocated (client_rpc http (some c)) n
    → IsLocatedByHttp http c n
unfolding get_block_by_number get_batch_number reply_of client_rpc
IsLocated-IsLocatedByHttp http c n (block, batch, b, k) = record {
  block = block;
  batch = batch;
  block_answered = do_call-IsAnswer _ http c _ _ block (reply_of-answer _ block b);
  batch_answered = do_call-IsAnswer _ http c _ _ batch (reply_of-answer _ batch k);
}

-- The node answers the question for the transaction.
abbrev pub IsTransactionByHttp : Http → Client → Transfer → Transaction → Type 0
IsTransactionByHttp http c t tx =
    IsAnswer (decode_transaction http.json) http c (codes "getTransactionByHash")
      (text t.transaction_hash ∷ []) tx

-- What each outcome rests on.
abbrev pub IsHeard : Http → Client → Transfer → Outcome → Type 0
IsHeard http c t not_found =
    IsUnknown http c (codes "getTransactionByHash") (text t.transaction_hash ∷ [])
IsHeard http c t invalid = (tx : Transaction) × IsTransactionByHttp http c t tx
IsHeard http c t not_final =
    (tx : Transaction) × IsTransactionByHttp http c t tx × IsLocatedByHttp http c tx.block_number
IsHeard http c t confirmed =
    (tx : Transaction) × IsTransactionByHttp http c t tx × IsLocatedByHttp http c tx.block_number

module _ (v : Verifier) (http : Http) (c : Client) (t : Transfer) where
  reported-IsHeard :
      (tx : Transaction) (o : Outcome)
      → IsTransactionByHttp http c t tx
      → check_transaction (client_rpc http (some c)) v.senders v.network t (answer tx) ≡ outcome o
      → IsHeard http c t o
  reported-IsHeard tx not_found e h =
      absurd (check_transaction-found (client_rpc http (some c)) v.senders v.network t tx h)
  reported-IsHeard tx invalid e h = (tx, e)
  reported-IsHeard tx not_final e h = (
    tx,
    e,
    IsLocated-IsLocatedByHttp http c tx.block_number (
        check_transaction-IsLocated (client_rpc http (some c)) v.senders v.network t tx not_final
          (λ k. cc) h),
  )
  reported-IsHeard tx confirmed e h = (
    tx,
    e,
    IsLocated-IsLocatedByHttp http c tx.block_number (
        check_transaction-IsLocated (client_rpc http (some c)) v.senders v.network t tx confirmed
          (λ k. cc) h),
  )

  answered-IsHeard :
      (r : Answered Transaction) (o : Outcome)
      → get_transaction_by_hash http (some c) t.transaction_hash ≡ r
      → check_transaction (client_rpc http (some c)) v.senders v.network t (reply_of r) ≡ outcome o
      → IsHeard http c t o
  unfolding get_transaction_by_hash reply_of
  answered-IsHeard (got tx) o e h = reported-IsHeard tx o (do_call-IsAnswer _ http c _ _ tx e) h
  answered-IsHeard (lost transaction_not_found) o e h =
      subst (IsHeard http c t) (sym (missing-not_found (client_rpc http (some c)) v t o h))
        (do_call-IsUnknown _ http c _ _ e)
  answered-IsHeard (lost other) o e h =
      absurd (failed-unreachable (client_rpc http (some c)) v t o h)

  -- A verifier over the JSON-RPC client reaches an outcome, for a hash that is not blank, only by
  -- responses of the node with a status from 200 to 299: `not_found` if the node says that it does
  -- not find the transaction, `invalid` if it answers with a transaction, `not_final` and
  -- `confirmed` if it answers with the transaction, the block of the transaction and the current
  -- batch.
  pub verify_transfer-IsHeard :
      (o : Outcome)
      → v.rpc ≡ some (client_rpc http (some c))
      → is_empty (trim_space t.transaction_hash) ≡ false
      → verify_transfer v t ≡ outcome o
      → IsHeard http c t o
  unfolding client_rpc
  verify_transfer-IsHeard o connected written h =
      answered-IsHeard (get_transaction_by_hash http (some c) t.transaction_hash) o refl
        (sym (verify_transfer-connected v (client_rpc http (some c)) t connected written) ∙ h)
