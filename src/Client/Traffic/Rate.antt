-- ===== src/Client/Traffic/Rate.antt =====
-- How much the loop over the outgoing queue sends (client/client.go).
use loopix_messaging.Prelude.{
  exponential_parameter, ℕ, suc, ◌≤◌, ◌≡◌, ◌≢◌, refl, ap, ◌∙◌, List, [], ◌∷◌, ◌++◌, Bytes, Bool,
  true, false, Result, ok, err, Result-cases, Bool-cases, inl, inr, length, All, arith,
  append_assoc, if◌then◌else◌,
}
use loopix_messaging.Messages.{Float64}
use loopix_messaging.Wire.{Wire}
use loopix_messaging.Helpers.{Random, random_exponential}
use loopix_messaging.Sphinx.Library.{Library}
use loopix_messaging.Client.Config.{Debug}
use loopix_messaging.Client.Traffic.{
  running, crashed, Round, real, cover, SendCall, Run, Choice, halting, idle, take_real, select,
  ended, send_to_provider, answers, delay_before_continue, sends, after_delay, send_and, send_cover,
  control_out_queue,
}
use loopix_messaging.Client.Traffic.Queue.{reals, answered_reals, select-cases}

delay_before_continue-positive :
    (r : Random) (draw : ℕ) (rate : Float64)
    → r.le_zero rate ≡ false
    → delay_before_continue r draw rate ≡ ok tt
unfolding delay_before_continue random_exponential
delay_before_continue-positive r draw rate h = rw h refl

delay_before_continue-nonpositive :
    (r : Random) (draw : ℕ) (rate : Float64)
    → r.le_zero rate ≡ true
    → delay_before_continue r draw rate ≡ err exponential_parameter
unfolding delay_before_continue random_exponential
delay_before_continue-nonpositive r draw rate h = rw h refl

select-take_real :
    (round : Round) (p : Bytes) (left : List Bytes)
    → round.halts ≡ false
    → select round (p ∷ left) ≡ take_real p left
unfolding select
select-take_real round p left h = rw h refl

answers-sends :
    (wire : Wire) (round : Round) (p : Bytes)
    → answers wire round p ≡ true
    → sends wire round p ≡ true
answers-sends wire round p h = elim (Result-cases (send_to_provider wire round p)) [
  | inl (response, e) ↦ rw (sends, e) refl
  | inr (inl (x, e)) ↦ rw (sends, e) refl
  | inr (inr e) ↦ cc (rw (answers, e) at h)
]

-- The packet of the queue that a `select` takes.
abbrev pub chosen : Choice → List Bytes
chosen halting = []
chosen idle = []
chosen (take_real p left) = p ∷ []

-- The loop is over, with at most `n` calls of `send`.
abbrev pub HasEnded : ℕ → Run → Type 0
HasEnded n run = (length run.calls ≤ n) × (run.ending ≢ running)

HasEnded-after_delay :
    (r : Random) (draw : ℕ) (rate : Float64) (waiting : List Bytes) (rounds : List Round)
    (next : Run)
    → r.le_zero rate ≡ true
    → HasEnded 0 (after_delay r draw rate waiting rounds next)
unfolding after_delay
HasEnded-after_delay r draw rate waiting rounds next h =
    rw (after_delay, delay_before_continue-nonpositive r draw rate h) (omega arith, λ same. cc)

HasEnded-or_crash :
    (answered : Bool) (call : SendCall) (waiting : List Bytes) (rounds : List Round) (next : Run)
    → HasEnded 0 next
    → let rest = if answered then next else ended crashed waiting rounds in
      HasEnded 1 (record rest { calls = call ∷ rest.calls })
HasEnded-or_crash true call waiting rounds next (few, over) = (omega (arith, few), over)
HasEnded-or_crash false call waiting rounds next h = (omega arith, λ same. cc)

HasEnded-send_cover :
    (wire : Wire) (debug : Debug) (round : Round) (made : Result Bytes) (rounds : List Round)
    (next : Run)
    → HasEnded 0 next
    → HasEnded 1 (send_cover wire debug round made rounds next)
unfolding send_cover send_and
HasEnded-send_cover wire debug round made rounds next h =
    elim (Bool-cases debug.rate_compliant_cover_messages_disabled) [
      | inl off ↦ rw (send_cover, off) (omega (arith, h.0), h.1)
      | inr on ↦ elim (Result-cases made) [
        | inl (packet, e) ↦
            rw (send_cover, on, e)
              (HasEnded-or_crash (sends wire round packet)
                (record { out = cover packet; answered = answers wire round packet }) [] rounds next
                h)
        | inr (inl (x, e)) ↦ rw (send_cover, on, e) (omega arith, λ same. cc)
        | inr (inr e) ↦ rw (send_cover, on, e) (omega arith, λ same. cc)
      ]
    ]

calls-after_delay :
    (r : Random) (draw : ℕ) (rate : Float64) (waiting : List Bytes) (rounds : List Round)
    (next : Run)
    → r.le_zero rate ≡ true
    → (after_delay r draw rate waiting rounds next).calls ≡ []
unfolding after_delay
calls-after_delay r draw rate waiting rounds next h =
    rw (after_delay, delay_before_continue-nonpositive r draw rate h) refl

calls-or_crash :
    (returns : Bool) (waiting : List Bytes) (rounds : List Round) (next : Run)
    → next.calls ≡ []
    → (if returns then next else ended crashed waiting rounds).calls ≡ []
calls-or_crash true waiting rounds next h = h
calls-or_crash false waiting rounds next h = refl

reals-send_cover :
    (wire : Wire) (debug : Debug) (round : Round) (made : Result Bytes) (rounds : List Round)
    (next : Run)
    → next.calls ≡ []
    → reals (send_cover wire debug round made rounds next).calls ≡ []
unfolding send_cover send_and
reals-send_cover wire debug round made rounds next h =
    elim (Bool-cases debug.rate_compliant_cover_messages_disabled) [
      | inl off ↦ rw (send_cover, off) (ap reals h)
      | inr on ↦ elim (Result-cases made) [
        | inl (packet, e) ↦
            rw (send_cover, on, e)
              (ap reals (calls-or_crash (sends wire round packet) [] rounds next h))
        | inr (inl (x, e)) ↦ rw (send_cover, on, e) refl
        | inr (inr e) ↦ rw (send_cover, on, e) refl
      ]
    ]

-- If the loop goes on after the rounds, it has called `send` `n` times.
abbrev pub HasSent : ℕ → Run → Type 0
HasSent n run = run.ending ≡ running → length run.calls ≡ n

HasSent-after_delay :
    (r : Random) (draw : ℕ) (rate : Float64) (waiting : List Bytes) (rounds : List Round)
    (next : Run) (n : ℕ)
    → HasSent n next
    → HasSent n (after_delay r draw rate waiting rounds next)
unfolding after_delay
HasSent-after_delay r draw rate waiting rounds next n h =
    elim (Result-cases (delay_before_continue r draw rate)) [
      | inl (done, e) ↦ rw (after_delay, e) h
      | inr (inl (x, e)) ↦ rw (after_delay, e) (λ same. cc)
      | inr (inr e) ↦ rw (after_delay, e) (λ same. cc)
    ]

HasSent-or_crash :
    (answered : Bool) (call : SendCall) (waiting : List Bytes) (rounds : List Round) (next : Run)
    (n : ℕ)
    → HasSent n next
    → let rest = if answered then next else ended crashed waiting rounds in
      HasSent (suc n) (record rest { calls = call ∷ rest.calls })
HasSent-or_crash true call waiting rounds next n h same = ap suc (h same)
HasSent-or_crash false call waiting rounds next n h same = cc

HasSent-send_cover :
    (wire : Wire) (debug : Debug) (round : Round) (made : Result Bytes) (rounds : List Round)
    (next : Run) (n : ℕ)
    → debug.rate_compliant_cover_messages_disabled ≡ false
    → HasSent n next
    → HasSent (suc n) (send_cover wire debug round made rounds next)
unfolding send_cover send_and
HasSent-send_cover wire debug round made rounds next n on h = elim (Result-cases made) [
  | inl (packet, e) ↦
      rw (send_cover, on, e)
        (HasSent-or_crash (sends wire round packet)
          (record { out = cover packet; answered = answers wire round packet }) [] rounds next n h)
  | inr (inl (x, e)) ↦ rw (send_cover, on, e) (λ same. cc)
  | inr (inr e) ↦ rw (send_cover, on, e) (λ same. cc)
]

module _ (lib : Library) (wire : Wire) (r : Random) (debug : Debug) where
  control_out_queue-step :
      (round : Round) (rounds : List Round) (p : Bytes) (front back : List Bytes)
      → r.le_zero debug.message_sending_rate ≡ false
      → round.halts ≡ false
      → answers wire round p ≡ true
      → let next = control_out_queue lib wire r debug rounds (front ++ (back ++ round.arrivals)) in
        control_out_queue lib wire r debug (round ∷ rounds) ((p ∷ front) ++ back)
        ≡ record next { calls = record { out = real p; answered = true } ∷ next.calls }
  unfolding control_out_queue after_delay send_and
  control_out_queue-step round rounds p front back rate goes_on answered =
      rw
        (
          control_out_queue,
          select-take_real round p ((front ++ back) ++ round.arrivals) goes_on,
          answered,
          answers-sends wire round p answered,
          after_delay,
          delay_before_continue-positive r round.draw debug.message_sending_rate rate,
          append_assoc front back round.arrivals,
        )
        refl

  -- Where the sending rate is positive, and in no round the loop is halted or a call of `send` fails
  -- or panics, the loop sends all the packets that wait at the front of the queue, each with a
  -- response, and calls `send` with them before any other of the queue, within as many rounds as
  -- there are such packets.
  pub control_out_queue-sends :
      (rounds : List Round) (front back : List Bytes)
      → r.le_zero debug.message_sending_rate ≡ false
      → All (λ round. (round.halts ≡ false) × ((p : Bytes) → answers wire round p ≡ true)) rounds
      → length front ≤ length rounds
      → let calls = (control_out_queue lib wire r debug rounds (front ++ back)).calls in
        ((later : List Bytes) × (answered_reals calls ≡ front ++ later))
        × ((later : List Bytes) × (reals calls ≡ front ++ later))
  unfolding control_out_queue after_delay send_and
  control_out_queue-sends rounds [] back rate steady h =
      let calls = (control_out_queue lib wire r debug rounds back).calls in
      ((answered_reals calls, refl), (reals calls, refl))
  control_out_queue-sends [] (p ∷ front) back rate steady h = absurd (omega arith)
  control_out_queue-sends (round ∷ rounds) (p ∷ front) back rate ((goes_on, answered), steady) h =
      let ((later, same), (next, called)) =
        control_out_queue-sends rounds front (back ++ round.arrivals) rate steady (omega arith) in
      let step = control_out_queue-step round rounds p front back rate goes_on (answered p) in
      (
        (later, ap (λ run. answered_reals run.calls) step ∙ ap (◌∷◌ p) same),
        (next, ap (λ run. reals run.calls) step ∙ ap (◌∷◌ p) called),
      )

  -- Where the sending rate is zero or negative, the loop ends in its first round. It has called
  -- `send` at most once, and of the queue with exactly what the `select` of that round took: the
  -- first packet that waits, or none.
  pub control_out_queue-nonpositive :
      (round : Round) (rounds : List Round) (waiting : List Bytes)
      → r.le_zero debug.message_sending_rate ≡ true
      → let run = control_out_queue lib wire r debug (round ∷ rounds) waiting in
        HasEnded 1 run × (reals run.calls ≡ chosen (select round (waiting ++ round.arrivals)))
  unfolding control_out_queue after_delay send_and send_cover
  control_out_queue-nonpositive round rounds waiting rate =
      let over = HasEnded-after_delay r round.draw debug.message_sending_rate in
      let none_called = calls-after_delay r round.draw debug.message_sending_rate in
      elim (select-cases round (waiting ++ round.arrivals)) [
        | inl e ↦ rw (control_out_queue, e) ((omega arith, λ same. cc), refl)
        | inr (inl (e, empty)) ↦
            rw (control_out_queue, e)
              (
                HasEnded-send_cover wire debug round _ rounds _ (over [] rounds _ rate),
                reals-send_cover wire debug round _ rounds _ (none_called [] rounds _ rate),
              )
        | inr (inr (p, left, e, shape)) ↦
            rw (control_out_queue, e, send_and)
              (
                HasEnded-or_crash (sends wire round p)
                    (record { out = real p; answered = answers wire round p }) left rounds _
                    (over left rounds _ rate),
                ap (λ calls. p ∷ reals calls)
                    (calls-or_crash (sends wire round p) left rounds _
                      (none_called left rounds _ rate)),
              )
      ]

  -- Where cover messages are not disabled, a loop that goes on has called `send` once in each round,
  -- with a real packet or one for cover: how often does not depend on what the queue holds.
  pub control_out_queue-HasSent :
      (rounds : List Round) (waiting : List Bytes)
      → debug.rate_compliant_cover_messages_disabled ≡ false
      → HasSent (length rounds) (control_out_queue lib wire r debug rounds waiting)
  unfolding control_out_queue send_and
  control_out_queue-HasSent [] waiting on = λ same. refl
  control_out_queue-HasSent (round ∷ rounds) waiting on =
      elim (select-cases round (waiting ++ round.arrivals)) [
        | inl e ↦ rw (control_out_queue, e) (λ same. cc)
        | inr (inl (e, empty)) ↦
            rw (control_out_queue, e)
              (HasSent-send_cover wire debug round _ rounds _ (length rounds) on (
                HasSent-after_delay r round.draw debug.message_sending_rate [] rounds _
                  (length rounds) (control_out_queue-HasSent rounds [] on)))
        | inr (inr (p, left, e, shape)) ↦
            rw (control_out_queue, e, send_and)
              (HasSent-or_crash (sends wire round p)
                (record { out = real p; answered = answers wire round p }) left rounds _
                (length rounds)
                (HasSent-after_delay r round.draw debug.message_sending_rate left rounds _
                  (length rounds) (control_out_queue-HasSent rounds left on)))
      ]
