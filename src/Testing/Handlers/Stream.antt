-- ===== src/Testing/Handlers/Stream.antt =====
-- `Stream` of backend/internal/api/test_run.go, which copies the events of a run to the client,
-- together with the goroutine that fills its channel. The headers of the answer are left out.
mod Tests
pub mod Lists
pub mod Turns
pub mod Laws
use sentinel_api_platform.Prelude.{
  ℕ, String, Bool, true, false, ◌==◌, Option, none, some, List, [], ◌∷◌, ◌++◌, if◌then◌else◌,
}
use Prim.Native.String
use sentinel_api_platform.Errs.Mapper.{Failure, fail, write_error}
use sentinel_api_platform.Effects.{Result, ok, err, Call}
use sentinel_api_platform.Http.{Request}
use sentinel_api_platform.Runner.Orchestrator.{RunEvent}
use sentinel_api_platform.Runner.Events.{Signal, Feed, subscribe, react}

-- What comes before the loop: a failure, or the loop.
pub data Opening : Type 0 where
  refused : Failure → Opening
  streams : Opening

abbrev pub opening : (ℕ → String) → Bool → Result (Unit {0}) → Opening
opening driver can_flush (err e) = refused (write_error driver e)
opening driver can_flush (ok _) =
    if can_flush then streams else refused (fail 500 50000 "streaming not supported")

-- `receive` confirms a subscription at the broker, which is `none` where there is none.
pub open_stream :
    {S : Type 0}
    → Option (String → Call S (Unit {0}))
    → (ℕ → String)
    → Bool
    → Request
    → S
    → Opening × S
open_stream none driver can_flush r s = (refused (fail 501 50100 "SSE not configured"), s)
open_stream (some receive) driver can_flush r s =
    let (done, s') = subscribe receive (r.param "runId") s in (opening driver can_flush done, s')

-- The loop with the channel that it reads, what it has written, and whether it has returned.
pub record Stream : Type 0 where
  pub feed : Feed
  pub frames : List String
  pub is_over : Bool

-- A step of the goroutine, or the loop's next receive.
pub data Action : Type 0 where
  signal : Signal → Action
  receive : Action

-- `encode` is the text of an event by `json.Marshal`.
module _ (unmarshal : String → Result RunEvent) (encode : RunEvent → String) (run_id : String) where
  pub frame : RunEvent → String
  frame evt = String.◌++◌ "data: " (String.◌++◌ (encode evt) "\n\n")

  -- A receive waits at an empty channel that is open, and ends the loop at one that is closed.
  pub receive_from : Feed → List RunEvent → List String → Stream
  receive_from feed [] frames = record {
    feed = feed;
    frames = frames;
    is_over = if feed.is_open then false else true;
  }
  receive_from feed (evt ∷ buffer) frames = record {
    feed = record { buffer = buffer; is_open = feed.is_open };
    frames = frames ++ (frame evt ∷ []);
    is_over = evt.kind == "complete";
  }

  pub act : Action → Stream → Stream
  act (signal sig) s = record s { feed = react unmarshal run_id sig s.feed }
  act receive s = if s.is_over then s else receive_from s.feed s.feed.buffer s.frames

  pub run : List Action → Stream → Stream
  run [] s = s
  run (a ∷ actions) s = run actions (act a s)

  abbrev pub subscribed : Stream
  subscribed = record {
    feed = record { buffer = []; is_open = true };
    frames = [];
    is_over = false;
  }
