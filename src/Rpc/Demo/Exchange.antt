-- ===== src/Rpc/Demo/Exchange.antt =====
-- What the program of client/rpc/client/main.go and the TCP server exchange for a request.
use loopix_messaging.Prelude.{
  ℕ, zero, suc, drop, ◌+◌, ◌≤◌, ◌≡◌, refl, sym, ap, ◌∙◌, [], ◌∷◌, ◌++◌, Option, none, some, Bytes,
  Error, ok, ◌>>=◌, length, arith, length-append, append-nil, Result-cases, Option-cases, inl, inr,
  ok_injective, some_injective, bind_inverse, library, ◌⊎◌, must,
}
use loopix_messaging.Client
use loopix_messaging.Messages.{Codec, ReadsBack}
use loopix_messaging.Rpc.{
  bare, left, write_proto_message, read_proto_message, encode_byte_slice, encode_big_endian_len,
}
use loopix_messaging.Rpc.Framing.{
  Fits, length-encode_big_endian_len, read_proto_message-write_proto_message,
}
use loopix_messaging.Rpc.Requests.{
  Request, flush, received, SendRequest, Response, sent, exception, flushed, Moment, Served,
  Setting, handle_send_message,
}
use loopix_messaging.Rpc.Tcp.{Writer, closed, handle_request, handle_requests, handle_responses}
use loopix_messaging.Rpc.Tcp.Serving.{answer_all, handle_requests-write_all}
use loopix_messaging.Rpc.Tcp.Answers.{handle_responses-flushed}
use loopix_messaging.Rpc.Demo.{Link, still_open, write_own_proto_message, serve, read_response, ask}

drop_all : (n : ℕ) (xs : Bytes) → length xs ≤ n → drop n xs ≡ []
drop_all zero [] h = refl
drop_all zero (x ∷ xs) h = absurd (omega arith)
drop_all (suc n) [] h = refl
drop_all (suc n) (x ∷ xs) h = drop_all n xs (omega arith)

left_all :
    (extra len : ℕ) (rest : Bytes) → 1 ≤ len → length rest ≤ extra → left (bare extra) len rest ≡ []
left_all extra zero rest h all = absurd (omega arith)
left_all extra (suc len) rest h all = drop_all extra rest all

frame_long :
    {M : Type 0} (c : Codec M) (m : M) (b : Bytes) → write_proto_message c m ≡ ok b → 8 ≤ length b
unfolding write_proto_message encode_byte_slice
frame_long c m b h =
    let (body, made, same) = bind_inverse (c.marshal m) _ b h in
    rw (← ok_injective _ _ same) (
      omega (
        arith,
        length-append (encode_big_endian_len (length body)) body,
        length-encode_big_endian_len (length body),
      ))

-- What a request to send is answered with.
pub send_response :
    (g : Setting) (env : Moment) (request : Option SendRequest) (s : Served) (r : Response)
    → (handle_send_message g env request s).0 ≡ some r
    → (r ≡ sent) ⊎ ((e : Error) × (r ≡ exception (g.text e)))
unfolding handle_send_message
send_response g env none s r h = inl (sym (some_injective sent r h))
send_response g env (some request) s r h = elim (Option-cases request.message) [
  | inl nothing ↦ inl (sym (some_injective sent r (rw (handle_send_message, nothing) at h)))
  | inr (message, there) ↦ elim (Option-cases request.recipient) [
    | inl nothing ↦
        inl (sym (some_injective sent r (rw (handle_send_message, there, nothing) at h)))
    | inr (recipient, known) ↦
        elim (Result-cases
          (Client.send_message g.library g.wire env.random g.encoding env.now env.topology env.read
            s.client message recipient).0) [
              | inl (packet, made) ↦
                  inl (
                    sym (some_injective sent r (rw (handle_send_message, there, known, made) at h)))
              | inr (inl (e, failed)) ↦ inr (
                e,
                sym (
                    some_injective (exception (g.text e)) r
                      (rw (handle_send_message, there, known, failed) at h)),
              )
              | inr (inr failed) ↦ cc (rw (handle_send_message, there, known, failed) at h)
            ]
  ]
]

pub own_write :
    (c : Codec Request) (req : Request) → write_own_proto_message c req ≡ write_proto_message c req
unfolding write_own_proto_message write_proto_message encode_byte_slice
own_write c req = refl

abbrev pub nothing_written : Writer
nothing_written = record { written = []; pending = [] }

abbrev pub link : Bytes → Served → ℕ → Link
link incoming s i = record {
  outgoing = [];
  incoming = incoming;
  writer = nothing_written;
  served = s;
  round = i;
}

module _ (g : Setting) (requests : Codec Request) (responses : Codec Response)
    (moments : ℕ → Moment) (spill : Bytes → ℕ) (swallows : ℕ → ℕ)
    (law : ReadsBack received requests) (flush_fits : Fits requests flush)
    (flushed_fits : Fits responses flushed) where
  -- What the server makes of a request and a request to flush.
  serve_pair :
      (req : Request) (s : Served) (i : ℕ) (incoming first second : Bytes)
      → Fits requests req
      → write_proto_message requests req ≡ ok first
      → write_proto_message requests flush ≡ ok second
      → serve g requests responses moments spill swallows
          (record (link incoming s i) { outgoing = ([] ++ first) ++ second })
        ≡ (let session = answer_all g moments i (received req ∷ flush ∷ []) s in
            still_open session.ending >>= λ _.
            handle_responses responses (λ b. ok tt) spill session.responses nothing_written >>= λ w.
            ok
              (record (link (incoming ++ w.written) session.served (i + length session.responses)) {
                writer = record { written = []; pending = w.pending };
              }))
  unfolding serve
  serve_pair req s i incoming first second fits wrote wrote_flush =
      let out = ([] ++ first) ++ second in
      let (stream, all, same) =
        handle_requests-write_all g requests moments (λ j. 8) law (suc (length out)) i
          (req ∷ flush ∷ []) s (λ j. omega arith) (fits, (flush_fits, tt))
          (omega (
            arith,
            length-append first second,
            frame_long requests req first wrote,
            frame_long requests flush second wrote_flush,
          )) in
      let is : out ≡ stream =
        ap (λ v. first ++ v) (sym (append-nil second))
        ∙ ok_injective _ _ (rw (← all, wrote, wrote_flush) refl) in
      let same' : handle_requests g requests moments (λ j. 8) (suc (length out)) i out s
          ≡ answer_all g moments i (received req ∷ flush ∷ []) s =
        ap (λ v. handle_requests g requests moments (λ j. 8) (suc (length out)) i v s) is ∙ same in
      rw (serve, same') refl

  -- A pair of requests to which the server has a response: the program has written them, and the
  -- server leaves the response and the one to the flush behind what was there.
  asked :
      (req : Request) (s : Served) (i : ℕ) (incoming : Bytes) (r : Response)
      → Fits requests req
      → Fits responses r
      → (handle_request g (moments i) (received req) s).0 ≡ some r
      → (frame : Bytes) × (rest : Bytes) × (write_proto_message responses r ≡ ok frame)
        × (write_proto_message responses flushed ≡ ok rest)
        × (ask g requests responses moments spill swallows
              (write_proto_message requests req)
              (link incoming s i)
            ≡ (must (
                  read_proto_message responses
                    (bare (swallows (i + 2)))
                    8
                    (incoming ++ (frame ++ rest)))
                >>= λ p.
                    ok (p.0, link p.1 (handle_request g (moments i) (received req) s).1 (i + 2))))
  unfolding read_response write_proto_message answer_all handle_request
  asked req s i incoming r (b, made, small) (rb, rmade, rsmall) given =
      let (fb, fmade, fsmall) = flush_fits in
      let (ffb, ffmade, ffsmall) = flushed_fits in
      let served = (handle_request g (moments i) (received req) s).1 in
      let pair =
        serve_pair req s i incoming (encode_byte_slice b) (encode_byte_slice fb) (b, made, small)
          (rw made refl) (rw fmade refl) in
      let all : answer_all g moments i (received req ∷ flush ∷ []) s
          ≡ record { responses = r ∷ flushed ∷ []; served = served; ending = closed (library 0) } =
        rw (answer_all, given) refl in
      let (frames, wrote, done) =
        handle_responses-flushed responses (λ x. ok tt) spill (r ∷ []) nothing_written (λ x. refl)
          ((rb, rmade, rsmall), tt) flushed_fits in
      let same : encode_byte_slice rb ++ encode_byte_slice ffb ≡ frames =
        ap (λ v. encode_byte_slice rb ++ v) (sym (append-nil (encode_byte_slice ffb)))
        ∙ ok_injective _ _ (rw (← wrote, rmade, ffmade) refl) in
      let left : serve g requests responses moments spill swallows (record (link incoming s i) {
        outgoing = ([] ++ encode_byte_slice b) ++ encode_byte_slice fb;
      })
          ≡ ok (link (incoming ++ (encode_byte_slice rb ++ encode_byte_slice ffb)) served (i + 2)) =
        pair ∙ rw (all, done, same) refl in
      (
        encode_byte_slice rb,
        encode_byte_slice ffb,
        rw rmade refl,
        rw ffmade refl,
        rw (made, fmade, left) refl,
      )

  -- The first of two frames is read, and the buffer that is thrown away takes the second.
  read_first :
      (r : Response) (extra : ℕ) (frame rest : Bytes)
      → ReadsBack (λ x. x) responses
      → ((b : Bytes) → responses.marshal r ≡ ok b → 1 ≤ length b)
      → length rest ≤ extra
      → Fits responses r
      → write_proto_message responses r ≡ ok frame
      → read_proto_message responses (bare extra) 8 (frame ++ rest) ≡ ok (r, [])
  read_first r extra frame rest response_law tagged whole (b, made, small) wrote =
      let (written, same, got) =
        read_proto_message-write_proto_message responses (λ x. x) response_law (bare extra) 8 r b
          rest (omega arith) made small in
      rw
        (
          ok_injective _ _ (sym wrote ∙ same),
          got,
          left_all extra (length b) rest (tagged b made) whole,
        )
        refl

  -- With nothing to be read before it, the response is the one to the request, and nothing is to be
  -- read after it.
  pub answered :
      (req : Request) (s : Served) (i : ℕ) (r : Response)
      → ReadsBack (λ x. x) responses
      → ((b : Bytes) → responses.marshal r ≡ ok b → 1 ≤ length b)
      → ((j : ℕ) (frame : Bytes)
          → write_proto_message responses flushed ≡ ok frame
          → length frame ≤ swallows j)
      → Fits requests req
      → Fits responses r
      → (handle_request g (moments i) (received req) s).0 ≡ some r
      → ask g requests responses moments spill swallows
          (write_proto_message requests req)
          (link [] s i)
        ≡ ok (r, link [] (handle_request g (moments i) (received req) s).1 (i + 2))
  answered req s i r response_law tagged whole fits r_fits given =
      let (frame, rest, wrote, flushed_is, same) = asked req s i [] r fits r_fits given in
      same
      ∙ rw
          (read_first r (swallows (i + 2)) frame rest response_law tagged
            (whole (i + 2) rest flushed_is) r_fits wrote)
          refl
