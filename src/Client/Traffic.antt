-- ===== src/Client/Traffic.antt =====
-- client/client.go: the goroutines that send and fetch on their own. The calls of `send` reach the
-- provider; the sleep after a call is not shown.
pub mod Queue
pub mod Rate
use loopix_messaging.Prelude.{
  ℕ, ◌^◌, zero, suc, List, [], ◌∷◌, ◌++◌, Bool, true, false, not, ◌&&◌, ◌||◌, Bytes, Error, Result,
  ok, err, panic, ◌>>=◌, ltb, if◌then◌else◌,
}
use loopix_messaging.Messages.{Float64, ProviderResponse}
use loopix_messaging.Wire.{Wire}
use loopix_messaging.Helpers.{Random, random_exponential}
use loopix_messaging.Sphinx.Library.{Library}
use loopix_messaging.Client.{
  NetClient, Exchange, send, create_loop_cover_message, get_messages_from_provider,
}
use loopix_messaging.Client.Config.{Debug}

-- How a goroutine stands: it goes on, it has returned, with an error or none, or it has panicked.
pub data Ending : Type 0 where
  running halted crashed : Ending
  failed : Error → Ending

-- What the outside gives in a round of a loop: the client as it is then, the packets that callers
-- of `SendMessage` have come to wait with, whether `haltedCh` is closed, which of two ready cases
-- the `select` takes, what the connection answers, the random bytes of a packet and the number of
-- the random draw.
pub record Round : Type 0 where
  pub client : NetClient
  pub arrivals : List Bytes
  pub halts : Bool
  pub prefers_halt : Bool
  pub exchange : Exchange
  pub read : Result Bytes
  pub draw : ℕ

-- A packet that `send` was called with: one of the queue, or one that was made for cover.
pub data Outgoing : Type 0 where
  real cover : Bytes → Outgoing

-- A call of `send`, and whether it returned a response and no error.
pub record SendCall : Type 0 where
  pub out : Outgoing
  pub answered : Bool

-- What a loop leaves: its calls of `send`, and the packets of the callers that still wait. The
-- queue is a channel without a buffer, and its callers are served in the order in which they came.
pub record Run : Type 0 where
  pub calls : List SendCall
  pub waiting : List Bytes
  pub ending : Ending

-- The case that a `select` takes.
pub data Choice : Type 0 where
  halting idle : Choice
  take_real : Bytes → List Bytes → Choice

unfoldable pub select : Round → List Bytes → Choice
select round [] = if round.halts then halting else idle
select round (p ∷ waiting) =
    if round.halts && round.prefers_halt then halting else take_real p waiting

abbrev pub all_arrivals : List Round → List Bytes
all_arrivals [] = []
all_arrivals (round ∷ rounds) = round.arrivals ++ all_arrivals rounds

-- `f > 0.0` on bit patterns: neither a zero, nor negative, nor NaN.
unfoldable pub is_positive : Float64 → Bool
is_positive f = ltb 0 f && not (ltb 9218868437227405312 f)

-- The loop ends, while the callers come all the same.
abbrev pub ended : Ending → List Bytes → List Round → Run
ended ending waiting rounds = record {
  calls = [];
  waiting = waiting ++ all_arrivals rounds;
  ending = ending;
}

module _ (r : Random) where
  unfoldable pub delay_before_continue : ℕ → Float64 → Result (Unit {0})
  delay_before_continue draw rate_param = do delay_sec ← random_exponential r draw rate_param; ok tt

  -- The end of a round: the delay, and then `next`, or an end.
  unfoldable pub after_delay : ℕ → Float64 → List Bytes → List Round → Run → Run
  unfolding delay_before_continue
  after_delay draw rate waiting rounds next = elim (delay_before_continue draw rate) [
    | ok done ↦ next
    | err e ↦ ended (failed e) waiting rounds
    | panic ↦ ended crashed waiting rounds
  ]

module _ (wire : Wire) where
  -- `send` to the client's provider.
  abbrev pub send_to_provider : Round → Bytes → Result ProviderResponse
  send_to_provider round packet =
      send wire round.exchange packet round.client.core.provider.host
        round.client.core.provider.port

  -- Whether it returns, with a response or with an error.
  abbrev pub sends : Round → Bytes → Bool
  sends round packet = elim (send_to_provider round packet) [ panic ↦ false | _ ↦ true ]

  -- Whether it returns a response.
  abbrev pub answers : Round → Bytes → Bool
  answers round packet = elim (send_to_provider round packet) [ ok response ↦ true | _ ↦ false ]

  -- A packet that `send` is called with, and then the rest of the round. An error is only logged,
  -- and the packet does not come back to the queue.
  unfoldable pub send_and : Round → Bytes → Outgoing → List Bytes → List Round → Run → Run
  send_and round packet out waiting rounds next =
      let rest = if sends round packet then next else ended crashed waiting rounds in
      record rest { calls = record { out = out; answered = answers round packet } ∷ rest.calls }

  -- The `default` case of the `select`, on the cover packet that is made, or the error. Nobody
  -- waits.
  unfoldable pub send_cover : Debug → Round → Result Bytes → List Round → Run → Run
  unfolding send_and
  send_cover debug round made rounds next =
      if debug.rate_compliant_cover_messages_disabled then next else elim made [
        | ok packet ↦ send_and round packet (cover packet) [] rounds next
        | err e ↦ ended (failed e) [] rounds
        | panic ↦ ended crashed [] rounds
      ]

module _ (lib : Library) (wire : Wire) (r : Random) where
  module _ (debug : Debug) where
    -- The loop over the rounds; `waiting` is who waits before the first.
    unfoldable pub control_out_queue : List Round → List Bytes → Run
    unfolding select after_delay send_and send_cover
    control_out_queue [] waiting = ended running waiting []
    control_out_queue (round ∷ rounds) waiting = elim (select round (waiting ++ round.arrivals)) [
      | halting ↦ ended halted (waiting ++ round.arrivals) rounds
      | take_real packet left ↦ send_and wire round packet (real packet) left rounds (
          after_delay r round.draw debug.message_sending_rate left rounds
            (control_out_queue rounds left))
      | idle ↦
          send_cover wire debug round (create_loop_cover_message lib wire r round.read round.client)
            rounds
            (after_delay r round.draw debug.message_sending_rate [] rounds
              (control_out_queue rounds []))
    ]

    -- The stream of cover traffic: an error of `send` ends it. It has no queue.
    unfoldable pub run_loop_cover_traffic_stream : List Round → List Outgoing × Ending
    unfolding delay_before_continue
    run_loop_cover_traffic_stream [] = ([], running)
    run_loop_cover_traffic_stream (round ∷ rounds) =
        let (sent, ending) = run_loop_cover_traffic_stream rounds in
        if round.halts
        then ([], halted)
        else elim (create_loop_cover_message lib wire r round.read round.client) [
          | ok packet ↦
              elim (do
                response ←
                    send wire round.exchange packet round.client.core.provider.host
                      round.client.core.provider.port
                delay_before_continue r round.draw debug.loop_cover_traffic_rate) [
                  | ok done ↦ (cover packet ∷ sent, ending)
                  | err e ↦ (cover packet ∷ [], failed e)
                  | panic ↦ (cover packet ∷ [], crashed)
                ]
          | err e ↦ ([], failed e)
          | panic ↦ ([], crashed)
        ]

    -- The loop that fetches, over the client that it changes. Errors are logged; after one of the
    -- fetching there is no delay.
    unfoldable pub control_messaging_fetching : List Round → NetClient → NetClient × Ending
    control_messaging_fetching [] c = (c, running)
    control_messaging_fetching (round ∷ rounds) c =
        if round.halts
        then (c, halted)
        else elim (get_messages_from_provider wire round.exchange c) [
          | ok c' ↦ control_messaging_fetching rounds c'
          | err e ↦ control_messaging_fetching rounds c
          | panic ↦ (c, crashed)
        ]

-- The goroutines that `startTraffic` starts.
pub record Started : Type 0 where
  pub out_queue : Bool
  pub loop_cover : Bool
  pub fetching : Bool

unfoldable pub start_traffic : Debug → Started
unfolding is_positive
start_traffic debug = record {
  out_queue = true;
  loop_cover = is_positive debug.loop_cover_traffic_rate;
  fetching = is_positive debug.fetch_message_rate;
}
