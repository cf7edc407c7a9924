-- ===== src/Tests/Rpc.antt =====
-- A scripted node behind the JSON-RPC client: the verifier over it, its errors, and the probe.
use mathlib.Core.Option.{bind}
use nim_near.Prelude.{
  ℕ, ◌≡◌, refl, true, false, none, some, [], ◌∷◌, Text, codes, text_eq, pos, negsuc, if◌then◌else◌,
  err, coded, internal, nimiq_rpc_timeout, trim_space, trim_left, any, to_lower,
}
use nim_near.Hub.Rooms.{split_first, strip_prefix}
use nim_near.Gateway.Statements.{trim_slashes}
use nim_near.Nimiq.Network.{network_id_matches, same_environment}
use nim_near.Nimiq.Verifier.{
  Verifier, not_found, confirmed, outcome, unreachable, verify_transfer, check_transaction,
  equal_fold, check_payment, sender_matches_verified_identity, normalize_address, any_address,
  is_basic_payment, check_block, is_micro_block, check_finality,
}
use nim_near.Nimiq.Wire.{
  Json, trim_quotes, trim_quotes_left, parse_uint64, unmarshal_uint64, uint64_field,
  transaction_of_fields, block_of_fields, TransactionFields,
}
use nim_near.Nimiq.Client.{
  refused, response, Http, Client, got, lost, authentication_failed, timed_out, http_status,
  new_client, trim_right_slashes, limit_reader, says_not_found, decode_data, decode_envelope,
  read_response, do_call, classify_rpc_transport_error,
}
use nim_near.Nimiq.Calls.{
  decode_transaction, decode_block, get_transaction_by_hash, get_block_by_number, get_batch_number,
  get_account_by_address, reply_of, client_rpc, transaction_limit,
}
use nim_near.Nimiq.Heard.{IsHeard, verify_transfer-IsHeard}
use nim_near.Nimiq.Uint64.{quoted, uint64, unmarshal_uint64-format_int}
use nim_near.Nimiq.Health.{check_health, is_fresh, Health}
use nim_near.Nimiq.Wallet.{wallet_account, wallet_answer, map_wallet_rpc_error}
use nim_near.Tests.Nimiq.{a_transfer}
use nim_near.Money.Decimal.{format_int, value}
use nim_near.Money.Amounts.{all_digits}

abbrev some_fields : TransactionFields
some_fields = record {
  hash = codes "ab";
  block_number = some (codes "12");
  timestamp = none;
  from = codes "nq 11";
  to = codes "NQ07";
  from_type = some (codes "0");
  to_type = some (codes "0");
  value = some (codes "\"500\"");
  flags = some (codes "0");
  sender_data = [];
  recipient_data = [];
  network_id = some (codes "24");
  execution_result = some true;
}

-- Bodies stand for what they decode to: a body that starts with `?` is an error of the node.
abbrev node_json : Json
node_json = record {
  envelope = λ body.
      if text_eq body (codes "?Not Found")
      then some (record {
        result = none;
        failure = some (record { code = negsuc 31999; message = codes "Transaction Not Found" });
      })
      else some (record { result = some body; failure = none });
  transaction = λ _. some some_fields;
  transactions = λ _. some none;
  block = λ _. some (record {
    batch = some (codes "4");
    network = codes "MainAlbatross";
    block_type = codes "micro";
  });
  account = λ _. none;
}

-- The node answers every call with one status and one body.
abbrev node : ℕ → Text → Http
node status body = record { post = λ _ _ _ _. response status body; json = node_json }

abbrev slow : Http
slow = record {
  post = λ _ _ _ _.
      refused
        (record { is_deadline = true; is_canceled = false; net_timeout = none; timeout = none });
  json = node_json;
}

abbrev a_client : Client
a_client = record { endpoint = codes "http://node"; username = []; password = [] }

abbrev over : Http → Verifier
over http = record {
  rpc = some (client_rpc http (some a_client));
  merchant = codes "NQ07";
  network = codes "mainnet";
  senders = some (λ _. some (codes "NQ11" ∷ []));
}

confirmed_by_http : verify_transfer (over (node 200 (codes "5"))) a_transfer ≡ outcome confirmed
unfolding verify_transfer trim_space trim_left check_transaction equal_fold to_lower check_payment
    sender_matches_verified_identity normalize_address any_address any is_basic_payment
    network_id_matches check_block is_micro_block same_environment check_finality client_rpc
    get_transaction_by_hash get_block_by_number get_batch_number reply_of do_call read_response
    limit_reader decode_envelope decode_data decode_transaction decode_block transaction_of_fields
    block_of_fields uint64_field unmarshal_uint64 trim_quotes trim_quotes_left parse_uint64 text_eq
    all_digits value bind
confirmed_by_http = refl

not_found_by_http :
    verify_transfer (over (node 200 (codes "?Not Found"))) a_transfer ≡ outcome not_found
unfolding verify_transfer trim_space trim_left check_transaction client_rpc get_transaction_by_hash
    reply_of do_call read_response limit_reader decode_envelope says_not_found split_first
    strip_prefix to_lower text_eq
not_found_by_http = refl

-- An error status, a refused password and a timeout leave the transfer open.
open_by_http :
    (verify_transfer (over (node 500 (codes "5"))) a_transfer ≡ unreachable)
    × (verify_transfer (over (node 403 (codes "5"))) a_transfer ≡ unreachable)
    × (verify_transfer (over slow) a_transfer ≡ unreachable)
unfolding verify_transfer trim_space trim_left check_transaction client_rpc get_transaction_by_hash
    reply_of do_call read_response limit_reader classify_rpc_transport_error
open_by_http = (refl, refl, refl)

verify_transfer-IsHeard_example : IsHeard (node 200 (codes "5")) a_client a_transfer confirmed
unfolding trim_space trim_left
verify_transfer-IsHeard_example =
    verify_transfer-IsHeard (over (node 200 (codes "5"))) (node 200 (codes "5")) a_client a_transfer
      confirmed refl refl confirmed_by_http

errors_by_http :
    (get_batch_number (node 401 []) (some a_client) ≡ lost authentication_failed)
    × (get_batch_number (node 404 []) (some a_client) ≡ lost (http_status 404))
    × (get_batch_number slow (some a_client) ≡ lost timed_out)
    × (get_batch_number (node 200 (codes "17")) (some a_client) ≡ got 17)
    × (wallet_account slow (some a_client) (codes "NQ07") ≡ err (coded internal nimiq_rpc_timeout))
unfolding get_batch_number get_account_by_address do_call read_response limit_reader decode_envelope
    decode_data unmarshal_uint64 trim_quotes trim_quotes_left parse_uint64 text_eq all_digits value
    trim_space trim_left classify_rpc_transport_error wallet_account wallet_answer
    map_wallet_rpc_error
errors_by_http = (refl, refl, refl, refl, refl)

-- NewClient takes the credentials out of the endpoint.
client_of_url :
    new_client
      (λ _.
        some (record { user = some (codes "rpc", codes "pw"); anonymous = codes "http://node/" }))
      (codes " http://rpc:pw@node/ ")
    ≡ record { endpoint = codes "http://node"; username = codes "rpc"; password = codes "pw" }
unfolding new_client trim_right_slashes trim_slashes trim_space trim_left
client_of_url = refl

limits :
    (transaction_limit (negsuc 0) ≡ 50)
    × (transaction_limit (pos 0) ≡ 50)
    × (transaction_limit (pos 500) ≡ 500)
    × (transaction_limit (pos 501) ≡ 500)
unfolding transaction_limit
limits = (refl, refl, refl, refl)

-- The probe at 10 is answered again until its 20 seconds have passed.
abbrev probed : Health
probed = record {
  client = a_client;
  ttl = 20000000;
  checked_at = some 10;
  failure = some timed_out;
}

cached_probe :
    (check_health (node 200 (codes "17")) probed 20000009 20000010 ≡ (probed, some timed_out))
    × (check_health (node 200 (codes "17")) probed 20000010 20000011
        ≡ (record probed { checked_at = some 20000011; failure = none }, none))
unfolding check_health is_fresh get_batch_number do_call read_response limit_reader decode_envelope
    decode_data unmarshal_uint64 trim_quotes trim_quotes_left parse_uint64 text_eq all_digits value
    trim_space trim_left
cached_probe = (refl, refl)

unmarshal_uint64-format_int_example :
    (unmarshal_uint64 (format_int 9007199254740991) ≡ uint64 9007199254740991)
    × (unmarshal_uint64 (quoted (format_int 9007199254740991)) ≡ uint64 9007199254740991)
unmarshal_uint64-format_int_example = unmarshal_uint64-format_int 9007199254740991
