-- ===== src/Client/Traffic/Queue.antt =====
-- The order in which the outgoing queue is served (client/client.go).
use loopix_messaging.Prelude.{
  ℕ, ◌≡◌, refl, sym, ap, ◌∙◌, List, [], ◌∷◌, ◌++◌, Bytes, Bool, true, false, Result, Result-cases,
  Bool-cases, inl, inr, append_assoc, ◌⊎◌, ◌&&◌, if◌then◌else◌,
}
use loopix_messaging.Messages.{Float64}
use loopix_messaging.Wire.{Wire}
use loopix_messaging.Helpers.{Random}
use loopix_messaging.Sphinx.Library.{Library}
use loopix_messaging.Client.Config.{Debug}
use loopix_messaging.Client.Traffic.{
  crashed, Round, Outgoing, real, cover, SendCall, Run, halting, idle, take_real, select,
  all_arrivals, ended, delay_before_continue, sends, after_delay, send_and, send_cover,
  control_out_queue,
}

abbrev pub real_of : Outgoing → List Bytes
real_of (real packet) = packet ∷ []
real_of (cover packet) = []

-- The packets of the queue that `send` was called with, whether it failed or not.
abbrev pub reals : List SendCall → List Bytes
reals [] = []
reals (call ∷ calls) = real_of call.out ++ reals calls

-- Those of them for which `send` returned a response.
abbrev pub answered_reals : List SendCall → List Bytes
answered_reals [] = []
answered_reals (call ∷ calls) =
    (if call.answered then real_of call.out else []) ++ answered_reals calls

-- All the packets of a run, those that `send` was called with before those that wait.
abbrev pub contents : Run → List Bytes
contents run = reals run.calls ++ run.waiting

contents_or_crash :
    (answered : Bool) (waiting : List Bytes) (rounds : List Round) (next : Run)
    → contents next ≡ waiting ++ all_arrivals rounds
    → contents (if answered then next else ended crashed waiting rounds)
      ≡ waiting ++ all_arrivals rounds
contents_or_crash true waiting rounds next h = h
contents_or_crash false waiting rounds next h = refl

pub select-cases :
    (round : Round) (waiting : List Bytes)
    → (select round waiting ≡ halting)
      ⊎ (((select round waiting ≡ idle) × (waiting ≡ []))
          ⊎ ((p : Bytes) × (left : List Bytes) × (select round waiting ≡ take_real p left)
              × (waiting ≡ p ∷ left)))
unfolding select
select-cases round [] = elim (Bool-cases round.halts) [
  | inl e ↦ inl (rw (select, e) refl)
  | inr e ↦ inr (inl (rw (select, e) refl, refl))
]
select-cases round (p ∷ left) = elim (Bool-cases (round.halts && round.prefers_halt)) [
  | inl e ↦ inl (rw (select, e) refl)
  | inr e ↦ inr (inr (p, left, rw (select, e) refl, refl))
]

module _ (wire : Wire) (r : Random) where
  contents-after_delay :
      (draw : ℕ) (rate : Float64) (waiting : List Bytes) (rounds : List Round) (next : Run)
      → contents next ≡ waiting ++ all_arrivals rounds
      → contents (after_delay r draw rate waiting rounds next) ≡ waiting ++ all_arrivals rounds
  unfolding after_delay
  contents-after_delay draw rate waiting rounds next h =
      elim (Result-cases (delay_before_continue r draw rate)) [
        | inl (done, e) ↦ rw (after_delay, e) h
        | inr (inl (x, e)) ↦ rw (after_delay, e) refl
        | inr (inr e) ↦ rw (after_delay, e) refl
      ]

  contents-send_real :
      (round : Round) (packet : Bytes) (waiting : List Bytes) (rounds : List Round) (next : Run)
      → contents next ≡ waiting ++ all_arrivals rounds
      → contents (send_and wire round packet (real packet) waiting rounds next)
        ≡ packet ∷ (waiting ++ all_arrivals rounds)
  unfolding send_and
  contents-send_real round packet waiting rounds next h =
      ap (◌∷◌ packet) (contents_or_crash (sends wire round packet) waiting rounds next h)

  contents-send_cover :
      (debug : Debug) (round : Round) (made : Result Bytes) (rounds : List Round) (next : Run)
      → contents next ≡ all_arrivals rounds
      → contents (send_cover wire debug round made rounds next) ≡ all_arrivals rounds
  unfolding send_cover send_and
  contents-send_cover debug round made rounds next h =
      elim (Bool-cases debug.rate_compliant_cover_messages_disabled) [
        | inl off ↦ rw (send_cover, off) h
        | inr on ↦ elim (Result-cases made) [
          | inl (packet, e) ↦
              rw (send_cover, on, e) (contents_or_crash (sends wire round packet) [] rounds next h)
          | inr (inl (x, e)) ↦ rw (send_cover, on, e) refl
          | inr (inr e) ↦ rw (send_cover, on, e) refl
        ]
      ]

module _ (lib : Library) (wire : Wire) (r : Random) where
  -- However the loop over the outgoing queue ends, the packets of the queue that it has called
  -- `send` with, in the order of the calls, and then those that wait are the packets that waited at
  -- first and then those that came, in the order in which they came. So each leaves the queue for
  -- one call of `send`, in its turn; where that call fails the packet is not among those that wait.
  pub control_out_queue_fifo :
      (debug : Debug) (rounds : List Round) (waiting : List Bytes)
      → contents (control_out_queue lib wire r debug rounds waiting)
        ≡ waiting ++ all_arrivals rounds
  unfolding control_out_queue
  control_out_queue_fifo debug [] waiting = refl
  control_out_queue_fifo debug (round ∷ rounds) waiting =
      elim (select-cases round (waiting ++ round.arrivals)) [
        | inl e ↦
            rw (control_out_queue, e) (append_assoc waiting round.arrivals (all_arrivals rounds))
        | inr (inl (e, empty)) ↦
            rw (control_out_queue, e)
              (contents-send_cover wire r debug round _ rounds _ (
                  contents-after_delay wire r round.draw debug.message_sending_rate [] rounds _
                    (control_out_queue_fifo debug rounds []))
                ∙ (ap (λ v. v ++ all_arrivals rounds) (sym empty)
                    ∙ append_assoc waiting round.arrivals (all_arrivals rounds)))
        | inr (inr (p, left, e, shape)) ↦
            rw (control_out_queue, e)
              (contents-send_real wire r round p left rounds _ (
                  contents-after_delay wire r round.draw debug.message_sending_rate left rounds _
                    (control_out_queue_fifo debug rounds left))
                ∙ (ap (λ v. v ++ all_arrivals rounds) (sym shape)
                    ∙ append_assoc waiting round.arrivals (all_arrivals rounds)))
      ]
