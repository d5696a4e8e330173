-- ===== src/Rpc/Tcp/Serving.antt =====
-- The reading of requests from a TCP connection (client/rpc/tcpsocket/tcpsocket_server.go).
use loopix_messaging.Prelude.{
  ℕ, zero, suc, ◌≤◌, ◌<◌, ◌≡◌, ◌≢◌, refl, List, [], ◌∷◌, ◌++◌, Bytes, some, none, Result, ok,
  Result-cases, Option-cases, inl, inr, All, length, take, drop, arith, Bool, copy_to, library,
  guard, short_buffer, map, ◌>>=◌,
}
use loopix_messaging.Messages.{Codec, ReadsBack}
use loopix_messaging.Rpc.{buffered, read_proto_message, from_big_endian}
use loopix_messaging.Rpc.Framing.{write_all, Fits, read_proto_message-write_proto_message}
use loopix_messaging.Rpc.Requests.{Request, received, Moment, Served, Setting}
use loopix_messaging.Rpc.Tcp.{running, closed, crashed, Session, handle_request, handle_requests}

length-drop {ℓ} : {A : Type ℓ} (n : ℕ) (xs : List A) → length (drop n xs) ≤ length xs
length-drop zero xs = omega arith
length-drop (suc n) [] = omega arith
length-drop (suc n) (x ∷ xs) = omega (arith, length-drop n xs)

-- What the guards and the decoding after the length leave is part of what there was.
shorter_after :
    {M : Type 0} (big missing : Bool) (r : Result M) (left : Bytes) (bound : ℕ) (m : M)
    (rest : Bytes)
    → length left ≤ bound
    → ◌≡◌ {A = Result (M × Bytes)}
        (guard big short_buffer >>= λ _. guard missing (library 1) >>= λ _. r >>= λ v. ok (v, left))
        (ok (m, rest))
    → length rest ≤ bound
shorter_after big missing r left bound m rest h e = ground arith

read_proto_message-shorter :
    {M : Type 0} (c : Codec M) (chunk : ℕ) (stream : Bytes) (m : M) (rest : Bytes)
    → 0 < chunk
    → read_proto_message c buffered chunk stream ≡ ok (m, rest)
    → length rest < length stream
unfolding read_proto_message
read_proto_message-shorter c chunk [] m rest h e = ground arith
read_proto_message-shorter c zero (x ∷ stream) m rest h e = absurd (omega arith)
read_proto_message-shorter c (suc chunk) (x ∷ stream) m rest h e =
    let got = take chunk (take 7 stream) in
    let first = drop (length got) stream in
    let len = from_big_endian (copy_to 8 (x ∷ got)) in
    omega (
      arith,
      shorter_after _ _ _ (drop len first) (length stream) m rest
          (omega (arith, length-drop len first, length-drop (length got) stream)) e,
    )

module _ (g : Setting) (moments : ℕ → Moment) where
  -- What a list of requests comes to: each is handled in turn, and the connection is closed at the
  -- end.
  unfoldable pub answer_all : ℕ → List Request → Served → Session
  answer_all i [] s = record { responses = []; served = s; ending = closed (library 0) }
  answer_all i (req ∷ reqs) s =
      let (response, s') = handle_request g (moments i) req s in
      elim response [
        | none ↦ record { responses = []; served = s'; ending = crashed }
        | some answer ↦
            let session = answer_all (suc i) reqs s' in
            record session { responses = answer ∷ session.responses }
      ]

module _ (g : Setting) (c : Codec Request) (moments : ℕ → Moment) (chunks : ℕ → ℕ) where
  -- Where every `Read` gives some byte, the loop over the requests of a connection ends within one
  -- round more than the connection gives bytes: with an error that closes the connection, or with a
  -- panic.
  pub handle_requests-ends :
      (fuel i : ℕ) (stream : Bytes) (s : Served)
      → ((j : ℕ) → 0 < chunks j)
      → length stream < fuel
      → (handle_requests g c moments chunks fuel i stream s).ending ≢ running
  unfolding handle_requests
  handle_requests-ends zero i stream s some_byte h = absurd (omega arith)
  handle_requests-ends (suc fuel) i stream s some_byte h =
      elim (Result-cases (read_proto_message c buffered (chunks i) stream)) [
        | inl ((req, rest), got) ↦
            let shorter =
              read_proto_message-shorter c (chunks i) stream req rest (some_byte i) got in
            let ends =
              handle_requests-ends fuel (suc i) rest (handle_request g (moments i) req s).1
                some_byte (omega arith) in
            elim (Option-cases (handle_request g (moments i) req s).0) [
              | inl nothing ↦ rw (handle_requests, got, nothing) (λ same. cc)
              | inr (answer, given) ↦ rw (handle_requests, got, given) ends
            ]
        | inr (inl (e, failed)) ↦ rw (handle_requests, failed) (λ same. cc)
        | inr (inr failed) ↦ rw (handle_requests, failed) (λ same. cc)
      ]

  module _ (law : ReadsBack received c) where
    -- Requests of at most 1 MB that a client writes to a connection are answered as the list that
    -- they are, but for an empty message to send, which is answered as a request without a message:
    -- in their order, each in the state that the one before left, until the end of the stream or a
    -- panic, where one `Read` gives a whole length and there is a round for each and one more.
    pub handle_requests-write_all :
        (fuel i : ℕ) (reqs : List Request) (s : Served)
        → ((j : ℕ) → 8 ≤ chunks j)
        → All (Fits c) reqs
        → length reqs < fuel
        → (stream : Bytes) × (write_all c reqs ≡ ok stream)
          × (handle_requests g c moments chunks fuel i stream s
              ≡ answer_all g moments i (map received reqs) s)
    unfolding handle_requests answer_all read_proto_message
    handle_requests-write_all zero i reqs s whole fit h = absurd (omega arith)
    handle_requests-write_all (suc fuel) i [] s whole fit h = ([], refl, refl)
    handle_requests-write_all (suc fuel) i (req ∷ reqs) s whole ((b, made, small), fit) h =
        let (rest, wrote, same) =
          handle_requests-write_all fuel (suc i) reqs
            (handle_request g (moments i) (received req) s).1 whole fit (omega arith) in
        let (first, framed, got) =
          read_proto_message-write_proto_message c received law buffered (chunks i) req b rest
            (whole i) made small in
        (
          first ++ rest,
          rw (framed, wrote) refl,
          elim (Option-cases (handle_request g (moments i) (received req) s).0) [
            | inl nothing ↦ rw (handle_requests, got, nothing, answer_all) refl
            | inr (answer, given) ↦ rw (handle_requests, got, given, same, answer_all) refl
          ],
        )
