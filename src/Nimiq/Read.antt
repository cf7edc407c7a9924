-- ===== src/Nimiq/Read.antt =====
-- What a call of the JSON-RPC client has read when it gives a value, or ErrTransactionNotFound.
use nim_near.Prelude.{
  ℕ, ◌≤◌, ◌<◌, ◌≡◌, ◌≢◌, refl, ap, sym, ◌∙◌, inl, inr, Bool, true, false, ◌||◌, Option, none, some,
  List, Text, is_empty, ◌==◌, leb, ltb, arith, Bool-cases, Option-cases,
}
use nim_near.Nimiq.Verifier.{failed}
use nim_near.Nimiq.Wire.{ResponseEnvelope, RpcFailure, Json}
use nim_near.Nimiq.Client.{
  got, lost, transaction_not_found, Param, Exchange, response, refused, unmarshallable,
  invalid_request, unread, Http, Client, body_limit, limit_reader, says_not_found, basic_auth,
  classify_rpc_transport_error, TransportError, decode_data, decode_envelope, read_response,
  do_call,
}
use nim_near.Nimiq.Calls.{reply_of}

-- A response with a status from 200 to 299 whose body, up to the limit, is an envelope.
pub record IsResponse (json : Json) (x : Exchange) (envelope : ResponseEnvelope) : Type 0 where
  pub status : ℕ
  pub body : Text
  pub received : x ≡ response status body
  pub from_200 : 200 ≤ status
  pub below_300 : status < 300
  pub decoded : json.envelope (limit_reader body_limit body) ≡ some envelope

-- The node says that it does not find what a call asks for.
pub record IsUnknown (http : Http) (c : Client) (method : Text) (params : List Param) : Type 0 where
  pub envelope : ResponseEnvelope
  pub failure : RpcFailure
  pub heard : IsResponse http.json (http.post c.endpoint (basic_auth c) method params) envelope
  pub failed_with : envelope.failure ≡ some failure
  pub said : says_not_found failure ≡ true

-- Whether a status is read as a success.
abbrev is_refused : ℕ → Bool
is_refused status = status == 401 || status == 403

abbrev is_error : ℕ → Bool
is_error status = ltb status 200 || leb 300 status

module _ {A : Type 0} (decode : Text → Option A) (json : Json) where
  -- The envelope that a call has read.
  abbrev IsRead : Exchange → Type 0
  IsRead x =
      (envelope : ResponseEnvelope) × IsResponse json x envelope
      × (read_response decode json x ≡ decode_envelope decode envelope)

  success-IsRead :
      (status : ℕ) (body : Text)
      → is_refused status ≡ false
      → is_error status ≡ false
      → reply_of (read_response decode json (response status body)) ≢ failed
      → IsRead (response status body)
  unfolding read_response reply_of
  success-IsRead status body fair fine h =
      elim (Option-cases (json.envelope (limit_reader body_limit body))) [
        | inl e ↦ absurd (h (rw (fair, fine, e) refl))
        | inr (envelope, e) ↦ (
          envelope,
          record {
            status = status;
            body = body;
            received = refl;
            from_200 = ground arith;
            below_300 = ground arith;
            decoded = e;
          },
          rw (fair, fine, e) refl,
        )
      ]

  refused-failed : (e : TransportError) → reply_of (read_response decode json (refused e)) ≡ failed
  unfolding read_response reply_of classify_rpc_transport_error
  refused-failed e = ground arith

  read_response-IsRead : (x : Exchange) → reply_of (read_response decode json x) ≢ failed → IsRead x
  unfolding read_response reply_of
  read_response-IsRead unmarshallable h = absurd (h refl)
  read_response-IsRead invalid_request h = absurd (h refl)
  read_response-IsRead (refused e) h = absurd (h (refused-failed e))
  read_response-IsRead unread h = absurd (h refl)
  read_response-IsRead (response status body) h = elim (Bool-cases (is_refused status)) [
    | inl e ↦ absurd (h (rw e refl))
    | inr fair ↦ elim (Bool-cases (is_error status)) [
      | inl e ↦ absurd (h (rw (fair, e) refl))
      | inr fine ↦ success-IsRead status body fair fine h
    ]
  ]

configured-read_response :
    {A : Type 0} (decode : Text → Option A) (http : Http) (c : Client) (method : Text)
    (params : List Param)
    → is_empty c.endpoint ≡ false
    → do_call decode http (some c) method params
      ≡ read_response decode http.json (http.post c.endpoint (basic_auth c) method params)
unfolding do_call
configured-read_response decode http c method params e = rw e refl

-- A call that gives a value or ErrTransactionNotFound has read an envelope, and answers by it.
pub do_call-IsRead :
    {A : Type 0} (decode : Text → Option A) (http : Http) (c : Client) (method : Text)
    (params : List Param)
    → reply_of (do_call decode http (some c) method params) ≢ failed
    → (is_empty c.endpoint ≡ false)
      × ((envelope : ResponseEnvelope) × IsResponse http.json
            (http.post c.endpoint (basic_auth c) method params)
            envelope
          × (do_call decode http (some c) method params ≡ decode_envelope decode envelope))
unfolding do_call reply_of
do_call-IsRead decode http c method params h = elim (Bool-cases (is_empty c.endpoint)) [
  | inl e ↦ absurd (h (rw e refl))
  | inr e ↦
      let same = configured-read_response decode http c method params e in
      let (envelope, heard, answered) =
        read_response-IsRead decode http.json _ (λ k. h (ap reply_of same ∙ k)) in
      (e, (envelope, heard, same ∙ answered))
]

decode_data-got :
    {A : Type 0} (decode : Text → Option A) (found : Option Text) (a : A)
    → decode_data decode found ≡ got a
    → (raw : Text) × (found ≡ some raw) × (decode raw ≡ some a)
unfolding decode_data
decode_data-got decode none a h = cc
decode_data-got decode (some raw) a h = elim (Option-cases (decode raw)) [
  | inl e ↦ ground (arith, e, h)
  | inr (b, e) ↦ (raw, refl, ground (arith, e, h))
]

decode_data-known :
    {A : Type 0} (decode : Text → Option A) (found : Option Text)
    → decode_data decode found ≢ lost transaction_not_found
unfolding decode_data
decode_data-known decode none h = cc
decode_data-known decode (some raw) h = ground (arith, h, Option-cases (decode raw))

missing-answered : {A : Type 0} → reply_of {A = A} (lost transaction_not_found) ≢ failed
unfolding reply_of
missing-answered h = cc

envelope-unknown :
    {A : Type 0} (decode : Text → Option A) (envelope : ResponseEnvelope)
    → decode_envelope decode envelope ≡ lost transaction_not_found
    → (failure : RpcFailure) × (envelope.failure ≡ some failure) × (says_not_found failure ≡ true)
unfolding decode_envelope
envelope-unknown decode envelope h = elim (Option-cases envelope.failure) [
  | inl e ↦ absurd (decode_data-known decode envelope.result (ground (arith, e, h)))
  | inr (failure, e) ↦ (failure, e, ground (arith, e, h))
]

-- A call gives ErrTransactionNotFound only if the node says so.
pub do_call-IsUnknown :
    {A : Type 0} (decode : Text → Option A) (http : Http) (c : Client) (method : Text)
    (params : List Param)
    → do_call decode http (some c) method params ≡ lost transaction_not_found
    → IsUnknown http c method params
do_call-IsUnknown {A} decode http c method params h =
    let (set, (envelope, heard, answered)) =
      do_call-IsRead decode http c method params
        (λ k. missing-answered {A = A} (sym (ap reply_of h) ∙ k)) in
    let (failure, failed_with, said) = envelope-unknown decode envelope (sym answered ∙ h) in
    record {
      envelope = envelope;
      failure = failure;
      heard = heard;
      failed_with = failed_with;
      said = said;
    }

-- The node answers a call with `a`: its response has the data of `a` and no error.
pub record IsAnswer {A : Type 0} (decode : Text → Option A) (http : Http) (c : Client)
    (method : Text) (params : List Param) (a : A) : Type 0 where
  pub envelope : ResponseEnvelope
  pub raw : Text
  pub heard : IsResponse http.json (http.post c.endpoint (basic_auth c) method params) envelope
  pub no_failure : envelope.failure ≡ none
  pub written : envelope.result ≡ some raw
  pub read : decode raw ≡ some a

envelope-got :
    {A : Type 0} (decode : Text → Option A) (envelope : ResponseEnvelope) (a : A)
    → decode_envelope decode envelope ≡ got a
    → (envelope.failure ≡ none)
      × ((raw : Text) × (envelope.result ≡ some raw) × (decode raw ≡ some a))
unfolding decode_envelope
envelope-got decode envelope a h = elim (Option-cases envelope.failure) [
  | inl e ↦ (e, decode_data-got decode envelope.result a (ground (arith, e, h)))
  | inr (failure, e) ↦ ground (arith, e, h)
]

got-answered : {A : Type 0} (a : A) → reply_of (got a) ≢ failed
unfolding reply_of
got-answered a h = cc

-- A call gives a value only if the node answers with it.
pub do_call-IsAnswer :
    {A : Type 0} (decode : Text → Option A) (http : Http) (c : Client) (method : Text)
    (params : List Param) (a : A)
    → do_call decode http (some c) method params ≡ got a
    → IsAnswer decode http c method params a
do_call-IsAnswer decode http c method params a h =
    let (set, (envelope, heard, answered)) =
      do_call-IsRead decode http c method params (λ k. got-answered a (sym (ap reply_of h) ∙ k)) in
    let (none_failed, (raw, written, read)) = envelope-got decode envelope a (sym answered ∙ h) in
    record {
      envelope = envelope;
      raw = raw;
      heard = heard;
      no_failure = none_failed;
      written = written;
      read = read;
    }
