-- ===== src/Testing/Handlers/Stream/Turns.antt =====
-- What one step of the goroutine or of the loop does to the events that are kept.
use sentinel_api_platform.Prelude.{
  ◌+◌, ◌≤◌, ◌≡◌, refl, sym, ap, ◌∙◌, ◌⊎◌, inl, inr, String, Bool, true, false, ltb, List, [], ◌∷◌,
  ◌++◌, map, length, Bool-cases, arith, if◌then◌else◌,
}
use mathlib.Core.List.{append_assoc}
use mathlib.Core.Path.{subst}
use sentinel_api_platform.Effects.{Result, ok, err, Result-cases}
use sentinel_api_platform.Runner.Orchestrator.{RunEvent}
use sentinel_api_platform.Runner.Events.{
  Signal, context_done, tick, message, hang_up, heartbeat, offer, react_open, react,
}
use sentinel_api_platform.Testing.Handlers.Stream.{
  Stream, Action, signal, receive, frame, receive_from, act,
}
use sentinel_api_platform.Testing.Handlers.Stream.Lists.{append_nil, map-append, length-snoc}

module _ (unmarshal : String → Result RunEvent) (encode : RunEvent → String) (run_id : String) where
  -- The events that an action brings to an open feed, and whether it leaves the feed open.
  abbrev pub read_event : Result RunEvent → List RunEvent
  read_event (ok evt) = evt ∷ []
  read_event (err e) = []

  abbrev pub brought : Action → List RunEvent
  brought (signal tick) = heartbeat run_id ∷ []
  brought (signal (message text)) = read_event (unmarshal text)
  brought _ = []

  abbrev pub is_end : Action → Bool
  is_end (signal context_done) = true
  is_end (signal hang_up) = true
  is_end _ = false

  -- The events that reach the goroutine before its end: heartbeats, and the texts that can be read.
  abbrev pub arrived : List Action → List RunEvent
  arrived [] = []
  arrived (a ∷ actions) = let rest = arrived actions in if is_end a then [] else brought a ++ rest

  -- What is written, and what waits to be.
  abbrev pub kept : Stream → List String
  kept s = s.frames ++ map (frame unmarshal encode run_id) s.feed.buffer

  -- One action at an open feed that does not end it: what it brings is kept, or it is dropped
  -- where the buffer is full.
  pub record Turn (a : Action) (s t : Stream) : Type 0 where
    pub still_open : t.feed.is_open ≡ true
    pub grown : length t.feed.buffer ≤ length s.feed.buffer + length (brought a)
    pub outcome :
        (kept t ≡ kept s ++ map (frame unmarshal encode run_id) (brought a))
        ⊎ ((kept t ≡ kept s) × (16 ≤ length s.feed.buffer) × (1 ≤ length (brought a)))

  offer-cases :
      (evt : RunEvent) (buffer : List RunEvent)
      → (offer evt buffer ≡ buffer ++ (evt ∷ []))
        ⊎ ((offer evt buffer ≡ buffer) × (16 ≤ length buffer))
  offer-cases evt buffer = elim (Bool-cases (ltb (length buffer) 16)) [
    | inl room ↦ inl (rw room refl)
    | inr full ↦ inr (rw full refl, ground arith)
  ]

  -- a send of an event, in one of the two ways
  offered-Turn :
      (a : Action) (evt : RunEvent) (s : Stream)
      → brought a ≡ evt ∷ []
      → Turn a s (record s { feed = record { buffer = offer evt s.feed.buffer; is_open = true } })
  offered-Turn a evt s h =
      let F = frame unmarshal encode run_id in
      elim (offer-cases evt s.feed.buffer) [
        | inl e ↦ rw e (record {
          still_open = refl;
          grown = rw h (let n = length-snoc s.feed.buffer evt in ground arith);
          outcome = inl (
              rw h (
                ap (λ ys. s.frames ++ ys) (map-append F s.feed.buffer (evt ∷ []))
                ∙ sym (append_assoc s.frames (map F s.feed.buffer) (F evt ∷ []))));
        })
        | inr (e, full) ↦ rw e (record {
          still_open = refl;
          grown = ground arith;
          outcome = inr (refl, full, rw h (ground arith));
        })
      ]

  same-Turn :
      (a : Action) (s t : Stream)
      → brought a ≡ []
      → t.feed.is_open ≡ true
      → length t.feed.buffer ≤ length s.feed.buffer
      → kept t ≡ kept s
      → Turn a s t
  same-Turn a s t h still_open fewer same = record {
    still_open = still_open;
    grown = rw h (ground arith);
    outcome = inl (rw h (same ∙ sym (append_nil (kept s))));
  }

  receive_from-kept :
      (s : Stream) (buffer : List RunEvent)
      → s.feed.buffer ≡ buffer
      → let t = receive_from unmarshal encode run_id s.feed buffer s.frames in
        (t.feed.is_open ≡ s.feed.is_open)
        × (length t.feed.buffer ≤ length s.feed.buffer)
        × (kept t ≡ kept s)
  unfolding receive_from
  receive_from-kept s [] h = (refl, ground arith, refl)
  receive_from-kept s (evt ∷ buffer) h =
      let F = frame unmarshal encode run_id in
      (
        refl,
        rw h (ground arith),
        append_assoc s.frames (F evt ∷ []) (map F buffer) ∙ ap (λ b. s.frames ++ map F b) (sym h),
      )

  pub act-receive-kept :
      (s : Stream)
      → let t = act unmarshal encode run_id receive s in
        (t.feed.is_open ≡ s.feed.is_open)
        × (length t.feed.buffer ≤ length s.feed.buffer)
        × (kept t ≡ kept s)
  unfolding act
  act-receive-kept s = elim (Bool-cases s.is_over) [
    | inl over ↦ rw over (refl, ground arith, refl)
    | inr reading ↦ rw reading (receive_from-kept s s.feed.buffer refl)
  ]

  pub act-signal-open :
      (sig : Signal) (s : Stream)
      → s.feed.is_open ≡ true
      → act unmarshal encode run_id (signal sig) s
        ≡ record s { feed = react_open unmarshal run_id sig s.feed.buffer }
  unfolding act react
  act-signal-open sig s h =
      ap
        (λ b. record s {
          feed = if b then react_open unmarshal run_id sig s.feed.buffer else s.feed;
        })
        h

  pub act-signal-closed :
      (sig : Signal) (s : Stream)
      → s.feed.is_open ≡ false
      → act unmarshal encode run_id (signal sig) s ≡ s
  unfolding act react
  act-signal-closed sig s h =
      ap
        (λ b. record s {
          feed = if b then react_open unmarshal run_id sig s.feed.buffer else s.feed;
        })
        h

  pub act-Turn :
      (a : Action) (s : Stream)
      → s.feed.is_open ≡ true
      → is_end a ≡ false
      → Turn a s (act unmarshal encode run_id a s)
  unfolding react_open
  act-Turn (signal context_done) s h going = ground arith
  act-Turn (signal hang_up) s h going = ground arith
  act-Turn (signal tick) s h going =
      subst (Turn (signal tick) s) (sym (act-signal-open tick s h))
        (offered-Turn (signal tick) (heartbeat run_id) s refl)
  act-Turn (signal (message text)) s h going =
      subst (Turn (signal (message text)) s) (sym (act-signal-open (message text) s h))
        (elim (Result-cases (unmarshal text)) [
          | inl (evt, e) ↦ rw e (offered-Turn (signal (message text)) evt s (rw e refl))
          | inr (why, e) ↦
              rw e (same-Turn (signal (message text)) s _ (rw e refl) refl (ground arith) refl)
        ])
  act-Turn receive s h going =
      let (open_same, fewer, same) = act-receive-kept s in
      same-Turn receive s (act unmarshal encode run_id receive s) refl (open_same ∙ h) fewer same

  -- What an action leaves that brings nothing, or comes after the end: no event more is kept.
  abbrev pub Ended : Stream → Stream → Type 0
  Ended s t =
      (t.feed.is_open ≡ false) × (length t.feed.buffer ≤ length s.feed.buffer) × (kept t ≡ kept s)

  pub act-closed :
      (a : Action) (s : Stream) → s.feed.is_open ≡ false → Ended s (act unmarshal encode run_id a s)
  act-closed (signal sig) s h =
      subst (Ended s) (sym (act-signal-closed sig s h)) (h, ground arith, refl)
  act-closed receive s h =
      let (open_same, fewer, same) = act-receive-kept s in (open_same ∙ h, fewer, same)

  pub act-end :
      (a : Action) (s : Stream)
      → s.feed.is_open ≡ true
      → is_end a ≡ true
      → Ended s (act unmarshal encode run_id a s)
  unfolding react_open
  act-end (signal context_done) s going h =
      subst (Ended s) (sym (act-signal-open context_done s going)) (refl, ground arith, refl)
  act-end (signal hang_up) s going h =
      subst (Ended s) (sym (act-signal-open hang_up s going)) (refl, ground arith, refl)
  act-end (signal tick) s going h = ground arith
  act-end (signal (message text)) s going h = ground arith
  act-end receive s going h = ground arith
