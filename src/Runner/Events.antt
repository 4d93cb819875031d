-- ===== src/Runner/Events.antt =====
-- backend/internal/runner/sse.go: the events of a run over the publication and subscription of
-- Redis. The goroutine of a subscription is a step on its buffer, one for each signal that its
-- `select` takes.
use sentinel_api_platform.Prelude.{
  String, Bool, true, false, ltb, List, [], ◌∷◌, ◌++◌, length, if◌then◌else◌,
}
use Prim.Native.String
use sentinel_api_platform.Effects.{Result, ok, err, Call, ◌>>=◌, map_err, wrap}
use sentinel_api_platform.Runner.Orchestrator.{RunEvent}

abbrev pub channel_of : String → String
channel_of run_id = String.◌++◌ "run:events:" run_id

-- `marshal` and `unmarshal` are those of encoding/json.
pub publish :
    {S : Type 0}
    → (RunEvent → Result String)
    → (String → String → Call S (Unit {0}))
    → RunEvent
    → Call S (Unit {0})
publish marshal publish_text evt = do
  text ← map_err (wrap "marshal event: ") (λ s. (marshal evt, s))
  publish_text (channel_of evt.run_id) text

-- What comes before the goroutine: the confirmation of Redis.
pub subscribe : {S : Type 0} → (String → Call S (Unit {0})) → String → Call S (Unit {0})
subscribe receive run_id = map_err (wrap "subscribe confirm: ") (receive (channel_of run_id))

-- What the `select` takes: the end of the context, a tick of the ticker, a text that was published,
-- or the end of Redis's channel.
pub data Signal : Type 0 where
  context_done : Signal
  tick : Signal
  message : String → Signal
  hang_up : Signal

-- The buffered channel, and whether the goroutine still runs; it closes the channel at its end.
pub record Feed : Type 0 where
  pub buffer : List RunEvent
  pub is_open : Bool

abbrev pub heartbeat : String → RunEvent
heartbeat run_id = record {
  kind = "heartbeat";
  run_id = run_id;
  total = 0;
  passed = 0;
  failed = 0;
  errored = 0;
  skipped = 0;
  status = "";
}

-- A send that drops the event where the buffer of 16 is full
abbrev pub offer : RunEvent → List RunEvent → List RunEvent
offer evt buffer = if ltb (length buffer) 16 then buffer ++ (evt ∷ []) else buffer

module _ (unmarshal : String → Result RunEvent) (run_id : String) where
  -- A text that cannot be read is skipped.
  abbrev pub offer_text : Result RunEvent → List RunEvent → List RunEvent
  offer_text (ok evt) buffer = offer evt buffer
  offer_text (err e) buffer = buffer

  unfoldable pub react_open : Signal → List RunEvent → Feed
  react_open context_done buffer = record { buffer = buffer; is_open = false }
  react_open tick buffer = record { buffer = offer (heartbeat run_id) buffer; is_open = true }
  react_open (message text) buffer = record {
    buffer = offer_text (unmarshal text) buffer;
    is_open = true;
  }
  react_open hang_up buffer = record { buffer = buffer; is_open = false }

  -- After its end the goroutine takes no signal.
  unfoldable pub react : Signal → Feed → Feed
  react signal feed = if feed.is_open then react_open signal feed.buffer else feed
