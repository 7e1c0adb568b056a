-- ===== src/Bpf/Session.antt =====
-- From the ring buffer to the statistics, live and through a recording. (The callbacks of the commands
-- also set the class of an event, which the aggregator does not read.)
use kernel_scope.Prelude.{
  ℕ, ◌+◌, ◌/◌, ◌≡◌, refl, arith, List, [], ◌∷◌, map, length, take, fold, some, All, u64, min,
  String, true, ap, ◌∙◌, ◌<◌, take_all, u64_mod, length-append, ◌*◌, ◌≤◌, inl, inr,
}
use kernel_scope.Prelude.Int.{ℤ}
use kernel_scope.Prelude.Bytes.{IsByte}
use kernel_scope.Event.{Event}
use kernel_scope.Errors.{ok}
use kernel_scope.Decoder.Layout.{decode_event-IsEvent}
use kernel_scope.Ksr.{Padding, header_size}
use kernel_scope.Ksr.RoundTrip.{IsPadding}
use kernel_scope.Ksr.Recorder
use kernel_scope.Ksr.Replay
use kernel_scope.Ksr.Replay.{Callback, call, replay, stopped, reading}
use kernel_scope.Ksr.Replay.Recorded.{IsRecord, events}
use kernel_scope.Ksr.Replay.Steps.{frame_size, length-frame}
use kernel_scope.Ksr.Recorder.{frame}
use kernel_scope.Ksr.Recorder.Appends.{frames}
use kernel_scope.Ksr.Session.{
  recorded, ready, header, length-header, recorded-content, replay-recorded,
}
use kernel_scope.Aggregator.{Aggregator, empty, process_event, after}
use kernel_scope.Bpf.Collector.{Collector, poll}
use kernel_scope.Bpf.Collector.Delivery.{decoded, poll-Delivered}

-- The recorded events, each with the padding of its object.
abbrev pub padded : Padding → List Event → List (Padding × Event)
padded p evs = map (λ ev. (p, ev)) evs

pub events-padded : (p : Padding) (evs : List Event) → events (padded p evs) ≡ evs
events-padded p [] = refl
events-padded p (ev ∷ evs) = ap (◌∷◌ ev) (events-padded p evs)

length-padded : (p : Padding) (evs : List Event) → length (padded p evs) ≡ length evs
length-padded p [] = refl
length-padded p (ev ∷ evs) = omega (arith, length-padded p evs)

-- The events of byte strings are in range.
decoded-IsRecord :
    (p : Padding) (raws : List (List ℕ))
    → IsPadding p
    → All (All IsByte) raws
    → All IsRecord (padded p (decoded raws))
decoded-IsRecord p [] hp h = tt
decoded-IsRecord p (raw ∷ raws) hp h = elim (decode_event-IsEvent raw h.0) [
  | inl (short, e) ↦ rw e (decoded-IsRecord p raws hp h.1)
  | inr (ev, enough, e, v) ↦ rw e ((hp, v), decoded-IsRecord p raws hp h.1)
]

length-frames_records :
    (rs : List (Padding × Event)) → All IsRecord rs → length (frames rs) ≡ length rs * frame_size
length-frames_records [] h = omega arith
length-frames_records ((p, ev) ∷ rs) h = omega (
  arith,
  length-frames_records rs h.1,
  length-append (frame p ev) (frames rs),
  length-frame p ev h.0.0 h.0.1,
)

length-events : (rs : List (Padding × Event)) → length (events rs) ≡ length rs
length-events [] = refl
length-events ((p, ev) ∷ rs) = omega (arith, length-events rs)

fold-call :
    (evs : List Event) (a : Aggregator)
    → fold (call (some process_event)) a evs ≡ fold process_event a evs
unfolding call
fold-call [] a = refl
fold-call (ev ∷ evs) a = fold-call evs (process_event a ev)

-- A whole recording, as it is replayed into an aggregator.
pub replay-whole :
    (monotonic_ns wall_clock_ns : ℕ) (path reason : String) (blank : Event)
    (rs : List (Padding × Event))
    → All IsRecord rs
    → replay
        (some process_event)
        blank
        (Replay.open_path
          (some (recorded (ready monotonic_ns wall_clock_ns) path rs Recorder.fresh).disk.content)
          reason
          path
          Replay.new_source).0
        empty
      ≡ stopped ok (reading (some process_event) blank [] (u64 (length rs))) (after (events rs))
replay-whole m w path reason blank rs h =
    let content = (recorded (ready m w) path rs Recorder.fresh).disk.content in
    let size : length content ≤ header_size + length rs * frame_size =
      rw (recorded-content m w path rs) (
        omega (
          arith,
          length-append (header m w) (frames rs),
          length-header m w,
          length-frames_records rs h,
        )) in
    let whole : take (header_size + length rs * frame_size) content ≡ content =
      take_all _ content size in
    let rounds : length rs * frame_size / frame_size ≡ length rs = omega arith in
    let all : min (length rs) (length rs) ≡ length rs = omega arith in
    let every : take (length rs) (events rs) ≡ events rs =
      take_all (length rs) (events rs) (omega (arith, length-events rs)) in
    rw (whole, rounds, all, every, fold-call) at
      (replay-recorded (some process_event) blank m w path reason rs (length rs * frame_size) empty
        h).1

-- What a poll hands to the aggregator live is what replaying a recording of the same events gives it:
-- both end in the aggregator after the decoded events, for any records of the ring buffer, and replay
-- reports no error. The collector is started, and the recording is made on a device that stores
-- everything.
pub live-replay :
    (raws : List (List ℕ)) (answer : ℤ) (message : String) (c : Collector Aggregator) (p : Padding)
    (monotonic_ns wall_clock_ns : ℕ) (path reason : String) (blank : Event)
    → c.callback ≡ some process_event
    → c.rb ≡ true
    → c.running ≡ true
    → c.received < u64_mod
    → c.decode_errors < u64_mod
    → IsPadding p
    → All (All IsByte) raws
    → ((poll raws answer message c empty).0.1 ≡ after (decoded raws))
      × (replay
            (some process_event)
            blank
            (Replay.open_path
              (some
                (recorded
                  (ready monotonic_ns wall_clock_ns)
                  path
                  (padded p (decoded raws))
                  Recorder.fresh).disk.content)
              reason
              path
              Replay.new_source).0
            empty
          ≡ stopped ok
              (reading (some process_event) blank [] (u64 (length (decoded raws))))
              (after (decoded raws)))
live-replay raws answer message c p m w path reason blank cb rb running small small' hp h = (
  (poll-Delivered raws answer message c empty rb running small small').0
      ∙ ap (λ f. fold (call f) empty (decoded raws)) cb
      ∙ fold-call (decoded raws) empty,
  rw (events-padded p (decoded raws), length-padded p (decoded raws)) at
      (replay-whole m w path reason blank (padded p (decoded raws)) (decoded-IsRecord p raws hp h)),
)
