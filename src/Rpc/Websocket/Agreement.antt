-- ===== src/Rpc/Websocket/Agreement.antt =====
-- The websocket server serves what the TCP server does (client/rpc/websocket/websocket_server.go).
use loopix_messaging.Prelude.{
  ℕ, suc, List, [], ◌∷◌, Bytes, ok, ◌>>=◌, deref, ◌≡◌, ◌≢◌, refl, ap, All, Option-cases, ◌⊎◌, inl,
  inr, map, ◌==◌, if◌then◌else◌, length, ◌≤◌, arith,
}
use loopix_messaging.Messages.{Codec}
use loopix_messaging.Rpc.Requests.{
  Request, send, fetch, clients, details, flush, unset, Response, Moment, Served, Setting,
}
use loopix_messaging.Rpc.Tcp
use loopix_messaging.Rpc.Tcp.Serving.{answer_all}
use loopix_messaging.Rpc.Websocket.{
  read_message, max_message_size, text_message, binary_message, handle_request,
  handle_binary_mix_request, handle_text_mix_request, handle_mix_request, serve_mix_client,
}

-- The codec of the messages of a type.
abbrev pub form : {M : Type 0} → Codec M → Codec M → ℕ → Codec M
form d json_d typ = if typ == text_message then json_d else d

-- The messages are the values in the forms of their types.
abbrev pub AreForms : {M : Type 0} → Codec M → Codec M → List (ℕ × Bytes) → List (ℕ × M) → Type 0
AreForms d json_d [] [] = Unit
AreForms d json_d [] (m ∷ ms) = ⊥
AreForms d json_d (b ∷ bs) [] = ⊥
AreForms d json_d ((t, b) ∷ bs) ((typ, m) ∷ ms) =
    (t ≡ typ) × ((form d json_d t).marshal m ≡ ok b) × AreForms d json_d bs ms

-- The messages are read as the values, in the forms of their types.
abbrev pub AreRead : {M : Type 0} → Codec M → Codec M → List (ℕ × Bytes) → List (ℕ × M) → Type 0
AreRead d json_d [] [] = Unit
AreRead d json_d [] (m ∷ ms) = ⊥
AreRead d json_d (b ∷ bs) [] = ⊥
AreRead d json_d ((t, b) ∷ bs) ((typ, m) ∷ ms) =
    (t ≡ typ) × ((form d json_d t).unmarshal b ≡ ok m) × AreRead d json_d bs ms

read_message-short :
    (limit typ : ℕ) (message : Bytes)
    → length message ≤ limit
    → read_message limit (ok (typ, message)) ≡ ok (typ, message)
unfolding read_message
read_message-short limit typ message h = ground arith

module _ (g : Setting) where
  handle_request-tcp :
      (env : Moment) (req : Request) (s : Served)
      → req ≢ flush
      → handle_request g env req s ≡ Tcp.handle_request g env req s
  unfolding handle_request Tcp.handle_request
  handle_request-tcp env (send r) s h = refl
  handle_request-tcp env fetch s h = refl
  handle_request-tcp env clients s h = refl
  handle_request-tcp env details s h = refl
  handle_request-tcp env flush s h = absurd (h refl)
  handle_request-tcp env unset s h = refl

  module _ (requests json_requests : Codec Request)
      (responses json_responses : Codec Response) where
    handle_mix_request-tcp :
        (env : Moment) (typ : ℕ) (b : Bytes) (req : Request) (s : Served)
        → (typ ≡ binary_message) ⊎ (typ ≡ text_message)
        → req ≢ flush
        → (form requests json_requests typ).unmarshal b ≡ ok req
        → handle_mix_request g requests json_requests responses json_responses env typ b s ≡ (
          (deref (Tcp.handle_request g env req s).0 >>= λ r.
              (form responses json_responses typ).marshal r >>= λ v. ok (typ, v)),
          (Tcp.handle_request g env req s).1,
        )
    unfolding handle_mix_request handle_binary_mix_request handle_text_mix_request
    handle_mix_request-tcp env typ b req s (inl e) other got =
        let read : requests.unmarshal b ≡ ok req = rw e at got in
        rw (e, handle_binary_mix_request, read, handle_request-tcp env req s other) refl
    handle_mix_request-tcp env typ b req s (inr e) other got =
        let read : json_requests.unmarshal b ≡ ok req = rw e at got in
        rw (e, handle_text_mix_request, read, handle_request-tcp env req s other) refl

    -- A response that can be written in the form of either type.
    abbrev pub HasForms : Response → Type 0
    HasForms r = (typ : ℕ) → (b : Bytes) × ((form responses json_responses typ).marshal r ≡ ok b)

    module _ (moments : ℕ → Moment) where
      -- A websocket on which messages of at most 2048 bytes come, in the binary and in the JSON
      -- form in any mix, that are read as requests other than a flush, serves these as the TCP
      -- server does: the client is left in the same state, and the replies are the responses that a
      -- TCP connection would get, in their order, each in the form of its request, where these
      -- responses have both forms and every reply can be written.
      pub serve_mix_client-answer_all :
          (i : ℕ) (msgs : List (ℕ × Bytes)) (asked : List (ℕ × Request)) (s : Served)
          → All (λ m. length m.1 ≤ max_message_size) msgs
          → AreRead requests json_requests msgs asked
          → All (λ q. ((q.0 ≡ binary_message) ⊎ (q.0 ≡ text_message)) × (q.1 ≢ flush)) asked
          → All HasForms (answer_all g moments i (map (λ q. q.1) asked) s).responses
          → let tcp = answer_all g moments i (map (λ q. q.1) asked) s in
            let web =
              serve_mix_client g requests json_requests responses json_responses max_message_size
                moments
                (λ j. ok tt)
                i
                (map ok msgs)
                s in
            (web.served ≡ tcp.served)
            × ((answered : List (ℕ × Response)) × (map (λ q. q.1) answered ≡ tcp.responses)
                × AreForms responses json_responses web.replies answered)
      unfolding serve_mix_client answer_all
      serve_mix_client-answer_all i [] [] s short forms plain made = (refl, ([], refl, tt))
      serve_mix_client-answer_all i [] (q ∷ asked) s short forms plain made = absurd forms
      serve_mix_client-answer_all i (m ∷ msgs) [] s short forms plain made = absurd forms
      serve_mix_client-answer_all i ((t, b) ∷ msgs) ((typ, req) ∷ asked) s (fits, short)
            (e, got, forms) ((kind, other), plain) made =
          let whole = read_message-short max_message_size t b fits in
          let step = handle_mix_request-tcp (moments i) t b req s (rw e kind) other got in
          elim (Option-cases (Tcp.handle_request g (moments i) req s).0) [
            | inl nothing ↦
                rw (serve_mix_client, answer_all, whole, step, nothing, step) (refl, ([], refl, tt))
            | inr (r, given) ↦
                let (first, later) = rw (answer_all, given) at made in
                let (same, (answered, all, replies)) =
                  serve_mix_client-answer_all (suc i) msgs asked
                    (Tcp.handle_request g (moments i) req s).1 short forms plain later in
                rw (serve_mix_client, answer_all, whole, step, given, (first t).1, step)
                  (same, ((t, r) ∷ answered, ap (◌∷◌ r) all, (refl, (first t).1, replies)))
          ]
