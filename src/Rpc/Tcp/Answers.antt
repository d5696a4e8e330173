-- ===== src/Rpc/Tcp/Answers.antt =====
-- The writing of responses to a TCP connection (client/rpc/tcpsocket/tcpsocket_server.go).
use loopix_messaging.Prelude.{
  ℕ, zero, suc, ◌≡◌, refl, sym, ap, ◌∙◌, List, [], ◌∷◌, ◌++◌, Bytes, Result, ok, take, drop, All,
  append_assoc, append-nil,
}
use loopix_messaging.Messages.{Codec}
use loopix_messaging.Rpc.{write_proto_message, encode_byte_slice}
use loopix_messaging.Rpc.Requests.{Response, flushed}
use loopix_messaging.Rpc.Tcp.{
  put, flush_after, Writer, write, flush_writer, after_response, handle_responses,
}
use loopix_messaging.Rpc.Framing.{write_all, Fits}

take-drop {ℓ} : {A : Type ℓ} (n : ℕ) (xs : List A) → take n xs ++ drop n xs ≡ xs
take-drop zero xs = refl
take-drop (suc n) [] = refl
take-drop (suc n) (x ∷ xs) = ap (◌∷◌ x) (take-drop n xs)

module _ (spill : Bytes → ℕ) where
  -- Nothing that is written is lost or put in another order.
  written-write :
      (b x : Bytes) (w : Writer)
      → (write spill b w).written ++ ((write spill b w).pending ++ x)
        ≡ w.written ++ (w.pending ++ (b ++ x))
  unfolding write
  written-write b x w =
      let held = w.pending ++ b in
      append_assoc w.written (take (spill held) held) (drop (spill held) held ++ x)
      ∙ (ap (λ v. w.written ++ v)
          (sym (append_assoc (take (spill held) held) (drop (spill held) held) x)
            ∙ (ap (λ v. v ++ x) (take-drop (spill held) held) ∙ append_assoc w.pending b x)))

written-after_response :
    (resp : Response) (x : Bytes) (w : Writer)
    → (after_response resp w).written ++ ((after_response resp w).pending ++ x)
      ≡ w.written ++ (w.pending ++ x)
unfolding after_response flush_writer
written-after_response flushed x w = append_assoc w.written w.pending x
written-after_response _ x w = refl

put_ok :
    (conn : Bytes → Result (Unit {0})) (b : Bytes)
    → ((x : Bytes) → conn x ≡ ok tt)
    → put conn b ≡ ok tt
put_ok conn [] takes = refl
put_ok conn (x ∷ b) takes = takes (x ∷ b)

flush_after_ok :
    (conn : Bytes → Result (Unit {0})) (resp : Response) (w : Writer)
    → ((x : Bytes) → conn x ≡ ok tt)
    → flush_after conn resp w ≡ ok tt
flush_after_ok conn flushed w takes = put_ok conn w.pending takes
flush_after_ok conn _ w takes = refl

module _ (c : Codec Response) (conn : Bytes → Result (Unit {0})) (spill : Bytes → ℕ) where
  write_proto_message-Fits :
      (resp : Response) → Fits c resp → (b : Bytes) × (write_proto_message c resp ≡ ok b)
  unfolding write_proto_message
  write_proto_message-Fits resp (b, made, small) = (encode_byte_slice b, rw made refl)

  -- On a connection that takes what is written, where the last response is the one to a flush, all
  -- that the server has written to a connection is on it: what was held before, and the responses
  -- in their order, each behind its length. How much of it went out before the flush makes no
  -- difference.
  pub handle_responses-flushed :
      (resps : List Response) (w : Writer)
      → ((x : Bytes) → conn x ≡ ok tt)
      → All (Fits c) resps
      → Fits c flushed
      → (frames : Bytes) × (write_all c (resps ++ (flushed ∷ [])) ≡ ok frames)
        × (handle_responses c conn spill (resps ++ (flushed ∷ [])) w
            ≡ ok (record { written = w.written ++ (w.pending ++ frames); pending = [] }))
  unfolding handle_responses after_response flush_writer
  handle_responses-flushed [] w takes fit last =
      let (b, made) = write_proto_message-Fits flushed last in
      (
        b ++ [],
        rw made refl,
        rw
            (
              made,
              put_ok conn (take (spill (w.pending ++ b)) (w.pending ++ b)) takes,
              flush_after_ok conn flushed (write spill b w) takes,
            )
            (ap (λ v. ok (record { written = v; pending = [] }))
              (ap (λ v. (write spill b w).written ++ v) (sym (append-nil (write spill b w).pending))
                ∙ written-write spill b [] w)),
      )
  handle_responses-flushed (resp ∷ resps) w takes (fits, fit) last =
      let (b, made) = write_proto_message-Fits resp fits in
      let (frames, wrote, same) =
        handle_responses-flushed resps (after_response resp (write spill b w)) takes fit last in
      (
        b ++ frames,
        rw (made, wrote) refl,
        rw
            (
              made,
              put_ok conn (take (spill (w.pending ++ b)) (w.pending ++ b)) takes,
              flush_after_ok conn resp (write spill b w) takes,
              same,
              written-after_response resp frames (write spill b w),
              written-write spill b frames w,
            )
            refl,
      )
