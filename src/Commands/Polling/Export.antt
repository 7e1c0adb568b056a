-- ===== src/Commands/Polling/Export.antt =====
-- A recorded session that is replayed is the session exported live.
use Prim.Native.String.{String}
use kernel_scope.Prelude.{
  ℕ, ◌≡◌, refl, arith, ltb, ◌<◌, if◌then◌else◌, Bool-cases, true, not, List, [], ◌∷◌, Option, some,
  none, inl, inr, All, All-append,
}
use kernel_scope.Prelude.Int.{is_negative}
use kernel_scope.Prelude.Bytes.{IsByte}
use kernel_scope.Errors.{Status, ok, err, make_error}
use kernel_scope.Event.{Event}
use kernel_scope.Ksr.{Padding}
use kernel_scope.Ksr.RoundTrip.{IsPadding}
use kernel_scope.Ksr.Recorder
use kernel_scope.Ksr.Recorder.{Recorder}
use kernel_scope.Ksr.Replay.{Callback}
use kernel_scope.Ksr.Session.{recorded, ready}
use kernel_scope.Aggregator.{empty}
use kernel_scope.Bpf.Loader
use kernel_scope.Bpf.Loader.{BpfLoader, ringbuf_fd}
use kernel_scope.Bpf.Collector
use kernel_scope.Bpf.Collector.{Collector, start, set_callback}
use kernel_scope.Bpf.Collector.Delivery.{decoded}
use kernel_scope.Commands.{Config, setup_bpf, aggregate, expired}
use kernel_scope.Commands.Polling.{
  Turn, Exit, failed, finished, running, or_fail, and_finally, Live, collect, record_to, run_record,
  run_export,
}
use kernel_scope.Commands.Polling.Rounds.{polled, prepend, handed, outcome, poll_loop-handed}
use kernel_scope.Commands.Polling.Recorded.{fold-record_to, replayed, replayed_file, opened-ok}

-- The records of a turn are bytes.
abbrev pub HasBytes : Turn → Type 0
HasBytes r = All (All IsByte) r.records

abbrev pub PolledBytes : Option (List (List ℕ)) → Type 0
PolledBytes none = Unit {0}
PolledBytes (some raws) = All (All IsByte) raws

polled-PolledBytes :
    (t0 duration : ℕ) (turns : List Turn)
    → All HasBytes turns
    → PolledBytes (polled t0 duration turns)
polled-PolledBytes t0 duration [] h = tt
polled-PolledBytes t0 duration (r ∷ rs) h = elim (Bool-cases r.shutdown) [
  | inl down ↦ simp down tt
  | inr up ↦ elim (Bool-cases (expired t0 duration r.later)) [
    | inl over ↦ simp (up, over) h.0
    | inr on_time ↦
        simp (up, on_time) (joined (polled t0 duration rs) (polled-PolledBytes t0 duration rs h.1))
  ]
]
  where
    joined : (o : Option (List (List ℕ))) → PolledBytes o → PolledBytes (prepend r.records o)
    joined none hs = tt
    joined (some later) hs = All-append (All IsByte) r.records later h.0 hs

-- What stands between a setup and the loop.
abbrev pub gate {ℓ} : {S : Type ℓ} → Live → BpfLoader → Exit S → Exit S
gate v l rest =
    if is_negative (ringbuf_fd l)
    then failed "invalid ring buffer fd"
    else if not v.created
    then failed "ring_buffer__new() failed"
    else rest

collect-handed {ℓ} :
    {S : Type ℓ} (v : Live) (duration : ℕ) (callback : Callback S) (l : BpfLoader) (s : S)
    → outcome (collect v duration callback l s)
      ≡ gate v l (handed callback s (polled v.t0 duration v.turns))
unfolding collect start set_callback Collector.new or_fail and_finally make_error
collect-handed v duration callback l s = elim (Bool-cases (is_negative (ringbuf_fd l))) [
  | inl bad ↦ simp bad refl
  | inr good ↦ elim (Bool-cases v.created) [
    | inr missing ↦ simp (good, missing) refl
    | inl made ↦
        simp (good, made)
          (poll_loop-handed v.t0 duration v.turns _ s refl refl (omega arith) (omega arith))
  ]
]

module _ (reason : String) (blank : Event) (cfg : Config) where
  replayed-or_fail :
      (status : Status) (e : Exit Recorder)
      → replayed reason blank cfg (or_fail status e) ≡ or_fail status (replayed reason blank cfg e)
  unfolding replayed or_fail
  replayed-or_fail ok e = refl
  replayed-or_fail (err f) e = refl

  replayed-gate :
      (v : Live) (l : BpfLoader) (e : Exit Recorder)
      → replayed reason blank cfg (and_finally Recorder.close (gate v l e))
        ≡ gate v l (replayed reason blank cfg (and_finally Recorder.close e))
  unfolding replayed and_finally
  replayed-gate v l e = elim (Bool-cases (is_negative (ringbuf_fd l))) [
    | inl bad ↦ simp bad refl
    | inr good ↦ elim (Bool-cases v.created) [
      | inr missing ↦ simp (good, missing) refl
      | inl made ↦ simp (good, made) refl
    ]
  ]

  close-outcome :
      (e : Exit (Collector Recorder × Recorder))
      → and_finally (λ (cs : Collector Recorder × Recorder). Recorder.close cs.1) e
        ≡ and_finally Recorder.close (outcome e)
  unfolding and_finally
  close-outcome (failed message) = refl
  close-outcome (finished cs) = refl
  close-outcome running = refl

  replayed-handed :
      (monotonic_ns wall_clock_ns : ℕ) (path : String) (p : Padding) (o : Option (List (List ℕ)))
      → IsPadding p
      → PolledBytes o
      → replayed reason blank cfg (
          and_finally Recorder.close (
            handed
              (record_to p)
              (Recorder.open_path (ready monotonic_ns wall_clock_ns) path Recorder.fresh).0
              o))
        ≡ handed aggregate empty o
  unfolding and_finally recorded
  replayed-handed m w path p none hp h = unfold replayed in refl
  replayed-handed m w path p (some raws) hp h =
      rw (fold-record_to p (decoded raws)) (replayed_file m w path reason blank p cfg raws hp h)

-- A session that is recorded, on a device that stores everything, and replayed gives the very
-- aggregator that run_export hands to the exporter on the same session, whatever the ring buffer holds
-- in each turn and wherever the loop ends; where the setup or the collector fails, or the loop is not
-- over, both are in that case, with one message. The duration is not 0, for which run_export takes the window.
pub run_record-run_export :
    (v : Live) (p : Padding) (monotonic_ns wall_clock_ns : ℕ) (reason : String) (blank : Event)
    (cfg : Config)
    → 0 < cfg.duration_sec
    → IsPadding p
    → All HasBytes v.turns
    → replayed reason blank cfg (run_record v (ready monotonic_ns wall_clock_ns) p cfg)
      ≡ run_export v cfg
unfolding run_record run_export or_fail
run_record-run_export v p m w reason blank cfg pos hp h =
    let (l, status) = setup_bpf v.setup cfg Loader.new in
    let opened = Recorder.open_path (ready m w) cfg.record_file Recorder.fresh in
    let timed : ltb 0 cfg.duration_sec ≡ true = ground arith in
    let o = polled v.t0 cfg.duration_sec v.turns in
    let bytes = polled-PolledBytes v.t0 cfg.duration_sec v.turns h in
    rw
      (
        timed,
        opened-ok m w cfg.record_file,
        replayed-or_fail reason blank cfg status,
        close-outcome reason blank cfg,
        collect-handed v cfg.duration_sec (record_to p) l opened.0,
        collect-handed v cfg.duration_sec aggregate l empty,
        replayed-gate reason blank cfg v l,
        replayed-handed reason blank cfg m w cfg.record_file p o hp bytes,
      )
      refl
