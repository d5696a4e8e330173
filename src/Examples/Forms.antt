-- ===== src/Examples/Forms.antt =====
-- Codecs of requests and of responses, which read back as protobuf does.
use loopix_messaging.Prelude.{
  ℕ, ◌≤◌, ◌≡◌, refl, List, [], ◌∷◌, Option, none, some, Bytes, Result, ok, err, ◌>>=◌, arith,
  length, drop, library, ok_injective, some_injective, Option-cases, inl, inr, ◌==◌, if◌then◌else◌,
}
use loopix_messaging.Messages.{ClientConfig, Codec, ReadsBack}
use loopix_messaging.Rpc.Requests.{
  Request, send, fetch, clients, details, flush, unset, non_empty, received, Response, exception,
  sent, fetched, recipients, own_details, flushed,
}
use loopix_messaging.Examples.Codecs.{
  pack, unpack, unpack-pack, client_config_fields, read_client_config, read_client_config-fields,
}

-- A codec that fails on the messages that have no fields.
module _ {M : Type 0} (fields : M → Option (List Bytes)) (read : List Bytes → Option M) where
  abbrev written : Option (List Bytes) → Result Bytes
  written none = err (library 0)
  written (some fs) = ok (pack fs)

  abbrev found : Option M → Result M
  found none = err (library 0)
  found (some m) = ok m

  abbrev partial_codec : Codec M
  partial_codec = record {
    marshal = λ m. written (fields m);
    unmarshal = λ b. found (read (unpack b));
  }

  partial_codec-ReadsBack :
      (as_read : M → M)
      → ((m : M) (fs : List Bytes) → fields m ≡ some fs → read fs ≡ some (as_read m))
      → ReadsBack as_read partial_codec
  partial_codec-ReadsBack as_read back m b h = elim (Option-cases (fields m)) [
    | inl nothing ↦ cc (rw nothing at h)
    | inr (fs, there) ↦
        rw (← ok_injective (pack fs) b (rw there at h), unpack-pack fs, back m fs there) refl
  ]

-- A message that is nil is written as one that is empty.
abbrev bytes_of : Option Bytes → Bytes
bytes_of none = []
bytes_of (some message) = message

abbrev bytes_read : Bytes → Option Bytes
bytes_read [] = none
bytes_read (x ∷ message) = some (x ∷ message)

bytes_read-bytes_of : (message : Option Bytes) → bytes_read (bytes_of message) ≡ non_empty message
bytes_read-bytes_of none = refl
bytes_read-bytes_of (some []) = refl
bytes_read-bytes_of (some (x ∷ message)) = refl

abbrev send_fields : Bytes → Option ClientConfig → List Bytes
send_fields m (some c) = (6 ∷ []) ∷ m ∷ (1 ∷ []) ∷ client_config_fields c
send_fields m none = (6 ∷ []) ∷ m ∷ []

-- A request to send that is nil cannot be written.
abbrev request_fields : Request → Option (List Bytes)
request_fields (send (some r)) = some (send_fields (bytes_of r.message) r.recipient)
request_fields (send none) = none
request_fields fetch = some ((1 ∷ []) ∷ [])
request_fields clients = some ((2 ∷ []) ∷ [])
request_fields details = some ((3 ∷ []) ∷ [])
request_fields flush = some ((4 ∷ []) ∷ [])
request_fields unset = some ((5 ∷ []) ∷ [])

abbrev plain_request : ℕ → Option Request
plain_request t =
    if t == 1
    then some fetch
    else if t == 2
    then some clients
    else if t == 3
    then some details
    else if t == 4
    then some flush
    else some unset

abbrev with_recipient : Bytes → Option ClientConfig → Option Request
with_recipient m none = none
with_recipient m (some c) =
    some (send (some (record { message = bytes_read m; recipient = some c })))

abbrev read_request : List Bytes → Option Request
read_request ((t ∷ []) ∷ []) = plain_request t
read_request (kind ∷ m ∷ []) =
    some (send (some (record { message = bytes_read m; recipient = none })))
read_request (kind ∷ m ∷ there ∷ fs) = with_recipient m (read_client_config fs)
read_request _ = none

abbrev pub demo_requests : Codec Request
demo_requests = partial_codec request_fields read_request

pub demo_requests-ReadsBack : ReadsBack received demo_requests
demo_requests-ReadsBack = partial_codec-ReadsBack request_fields read_request received back
  where
    sent_back :
        (m : Option Bytes) (c : Option ClientConfig)
        → read_request (send_fields (bytes_of m) c)
          ≡ some (send (some (record { message = non_empty m; recipient = c })))
    sent_back m none = rw bytes_read-bytes_of refl
    sent_back m (some c) = rw (read_client_config-fields c, bytes_read-bytes_of m) refl

    back :
        (m : Request) (fs : List Bytes)
        → request_fields m ≡ some fs
        → read_request fs ≡ some (received m)
    back (send none) fs h = cc
    back (send (some r)) fs h = rw (← some_injective _ fs h) (sent_back r.message r.recipient)
    back fetch fs h = rw (← some_injective _ fs h) refl
    back clients fs h = rw (← some_injective _ fs h) refl
    back details fs h = rw (← some_injective _ fs h) refl
    back flush fs h = rw (← some_injective _ fs h) refl
    back unset fs h = rw (← some_injective _ fs h) refl

abbrev response_fields : Response → Option (List Bytes)
response_fields (exception text) = some ((1 ∷ text) ∷ [])
response_fields sent = some ((2 ∷ []) ∷ [])
response_fields (fetched messages) = some ((3 ∷ []) ∷ messages)
response_fields (recipients found) = none
response_fields (own_details d) = some ((5 ∷ []) ∷ client_config_fields d)
response_fields flushed = some ((6 ∷ []) ∷ [])

abbrev own_of : Option ClientConfig → Option Response
own_of none = none
own_of (some d) = some (own_details d)

abbrev response_of : ℕ → Bytes → List Bytes → Option Response
response_of t text rest =
    if t == 1
    then some (exception text)
    else if t == 2
    then some sent
    else if t == 3
    then some (fetched rest)
    else if t == 5
    then own_of (read_client_config rest)
    else some flushed

abbrev read_response : List Bytes → Option Response
read_response ((t ∷ text) ∷ rest) = response_of t text rest
read_response _ = none

abbrev pub demo_responses : Codec Response
demo_responses = partial_codec response_fields read_response

pub demo_responses-ReadsBack : ReadsBack (λ r. r) demo_responses
demo_responses-ReadsBack = partial_codec-ReadsBack response_fields read_response (λ r. r) back
  where
    back :
        (m : Response) (fs : List Bytes) → response_fields m ≡ some fs → read_response fs ≡ some m
    back (exception text) fs h = rw (← some_injective _ fs h) refl
    back sent fs h = rw (← some_injective _ fs h) refl
    back (fetched messages) fs h = rw (← some_injective _ fs h) refl
    back (recipients found) fs h = cc
    back (own_details d) fs h = rw (← some_injective _ fs h, read_client_config-fields d) refl
    back flushed fs h = rw (← some_injective _ fs h) refl

pack-long : (f : Bytes) (fs : List Bytes) → 1 ≤ length (pack (f ∷ fs))
pack-long [] fs = omega arith
pack-long (x ∷ f) fs = omega arith

-- No response is written as no bytes.
pub demo_responses-long :
    (r : Response) (b : Bytes) → demo_responses.marshal r ≡ ok b → 1 ≤ length b
demo_responses-long (exception text) b h = rw (← ok_injective _ b h) (pack-long (1 ∷ text) [])
demo_responses-long sent b h = rw (← ok_injective _ b h) (pack-long (2 ∷ []) [])
demo_responses-long (fetched messages) b h = rw (← ok_injective _ b h) (pack-long (3 ∷ []) messages)
demo_responses-long (recipients found) b h = cc
demo_responses-long (own_details d) b h =
    rw (← ok_injective _ b h) (pack-long (5 ∷ []) (client_config_fields d))
demo_responses-long flushed b h = rw (← ok_injective _ b h) (pack-long (6 ∷ []) [])

-- Another form of the same messages, behind a first byte.
abbrev pub other_form : {M : Type 0} → Codec M → Codec M
other_form c = record {
  marshal = λ m. c.marshal m >>= λ b. ok (b'{' ∷ b);
  unmarshal = λ b. c.unmarshal (drop 1 b);
}
