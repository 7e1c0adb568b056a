-- ===== src/Commands/Polling/Recorded.antt =====
-- A recorded session that is replayed, against the same session exported live.
use Prim.Native.String.{String}
use kernel_scope.Prelude.{
  ℕ, ◌≡◌, ◌==◌, ==_iff, refl, true, List, [], ◌∷◌, fold, some, inl, inr, All, map, length, ap, ◌∙◌,
  sym,
}
use kernel_scope.Prelude.Bytes.{IsByte}
use kernel_scope.Errors.{Status, ok}
use kernel_scope.Event.{Event, EventType, LatencyClass}
use kernel_scope.Event.Valid.{IsEvent, IsLatencyClass}
use kernel_scope.Classification.{SyscallGroup, syscall_group, classify_group, classify_event}
use kernel_scope.Decoder.Layout.{decode_event-IsEvent}
use kernel_scope.Ksr.{Padding}
use kernel_scope.Ksr.RoundTrip.{IsPadding}
use kernel_scope.Ksr.Recorder
use kernel_scope.Ksr.Recorder.{Recorder, Opening, write_event}
use kernel_scope.Ksr.Recorder.Appends.{write_all, frames}
use kernel_scope.Ksr.Replay
use kernel_scope.Ksr.Replay.{Callback, call, ReplaySource, replay, stopped, reading}
use kernel_scope.Ksr.Replay.Recorded.{IsRecord}
use kernel_scope.Ksr.Session.{recorded, ready, header, recorded-content, open_path-header}
use kernel_scope.Aggregator.{Aggregator, empty, process_event}
use kernel_scope.Bpf.Collector.Delivery.{decoded}
use kernel_scope.Bpf.Session.{padded, events-padded, replay-whole}
use kernel_scope.Commands.{Config, classified, aggregate}
use kernel_scope.Commands.Polling.{
  Exit, failed, finished, running, or_fail, and_finally, record_to, run_replay, after_replay,
}

group-IsLatencyClass : (g : SyscallGroup) → IsLatencyClass (classify_group g)
unfolding classify_group
group-IsLatencyClass SyscallGroup.file_io = tt
group-IsLatencyClass SyscallGroup.sync = tt
group-IsLatencyClass SyscallGroup.network = tt
group-IsLatencyClass SyscallGroup.lock = tt
group-IsLatencyClass _ = tt

classified-IsEvent : (ev : Event) → IsEvent ev → IsEvent (classified ev)
unfolding classify_event
classified-IsEvent ev v = record {
  timestamp_ns = v.timestamp_ns;
  pid = v.pid;
  tid = v.tid;
  comm_length = v.comm_length;
  comm_bytes = v.comm_bytes;
  cpu = v.cpu;
  type = v.type;
  classification = of_type ev.type;
  duration_ns = v.duration_ns;
  syscall_id = v.syscall_id;
  user_stack_id = v.user_stack_id;
  kern_stack_id = v.kern_stack_id;
  flags = v.flags;
}
  where
    of_type :
        (t : EventType)
        → IsLatencyClass (elim t [
          | EventType.offcpu_slice ↦ LatencyClass.off_cpu
          | EventType.syscall_slow ↦ classify_group (syscall_group ev.syscall_id)
          | _ ↦ LatencyClass.unknown
        ])
    of_type EventType.offcpu_slice = tt
    of_type EventType.syscall_slow = group-IsLatencyClass (syscall_group ev.syscall_id)
    of_type _ = tt

-- The records that the callback of run_record makes.
abbrev pub records_of : Padding → List Event → List (Padding × Event)
records_of p evs = padded p (map classified evs)

records_of-IsRecord :
    (p : Padding) (raws : List (List ℕ))
    → IsPadding p
    → All (All IsByte) raws
    → All IsRecord (records_of p (decoded raws))
records_of-IsRecord p [] hp h = tt
records_of-IsRecord p (raw ∷ raws) hp h = elim (decode_event-IsEvent raw h.0) [
  | inl (short, e) ↦ rw e (records_of-IsRecord p raws hp h.1)
  | inr (ev, enough, e, v) ↦ rw e ((hp, classified-IsEvent ev v), records_of-IsRecord p raws hp h.1)
]

pub fold-record_to :
    (p : Padding) (evs : List Event) (rec : Recorder)
    → fold (call (record_to p)) rec evs ≡ write_all (records_of p evs) rec
unfolding call write_all
fold-record_to p [] rec = refl
fold-record_to p (ev ∷ evs) rec = fold-record_to p evs (write_event p (classified ev) rec).0

fold-classified :
    (evs : List Event) (a : Aggregator)
    → fold process_event a (map classified evs) ≡ fold (call aggregate) a evs
unfolding call
fold-classified [] a = refl
fold-classified (ev ∷ evs) a = fold-classified evs (process_event a (classified ev))

pub opened-ok :
    (monotonic_ns wall_clock_ns : ℕ) (path : String)
    → (Recorder.open_path (ready monotonic_ns wall_clock_ns) path Recorder.fresh).1 ≡ ok
unfolding Recorder.open_path
opened-ok m w path =
    let bytes = header m w in
    let same : (length bytes == length bytes) ≡ true = (==_iff _ _).1 refl in rw same refl

-- What run_replay makes of the file that a recording leaves.
unfoldable pub replayed : String → Event → Config → Exit Recorder → Exit Aggregator
replayed reason blank cfg (failed message) = failed message
replayed reason blank cfg running = running
replayed reason blank cfg (finished rec) =
    and_finally (λ (sa : ReplaySource × Aggregator). sa.1)
      (run_replay (some rec.disk.content) reason blank cfg)

run_replay-stopped :
    (file : List ℕ) (reason : String) (blank : Event) (cfg : Config) (src' : ReplaySource)
    (agg : Aggregator)
    → (Replay.open_path (some file) reason cfg.replay_file Replay.new_source).1 ≡ ok
    → replay
        (some process_event)
        blank
        (Replay.open_path (some file) reason cfg.replay_file Replay.new_source).0
        empty
      ≡ stopped ok src' agg
    → run_replay (some file) reason blank cfg ≡ finished (Replay.close src', agg)
unfolding run_replay or_fail after_replay
run_replay-stopped file reason blank cfg src' agg opens ends = rw (opens, ends) refl

recorded-opens :
    (monotonic_ns wall_clock_ns : ℕ) (path reason : String) (rs : List (Padding × Event))
    → (Replay.open_path
        (some (recorded (ready monotonic_ns wall_clock_ns) path rs Recorder.fresh).disk.content)
        reason
        path
        Replay.new_source).1
      ≡ ok
recorded-opens m w path reason rs = rw (recorded-content m w path rs) (
    ap (λ (o : ReplaySource × Status). o.1)
      (open_path-header m w (frames rs) reason path Replay.new_source))

-- The file of the given events.
pub replayed_file :
    (monotonic_ns wall_clock_ns : ℕ) (path reason : String) (blank : Event) (p : Padding)
    (cfg : Config) (raws : List (List ℕ))
    → IsPadding p
    → All (All IsByte) raws
    → replayed reason blank cfg (
        finished (
          recorded
            (ready monotonic_ns wall_clock_ns)
            path
            (records_of p (decoded raws))
            Recorder.fresh))
      ≡ finished (fold (call aggregate) empty (decoded raws))
unfolding replayed and_finally
replayed_file m w path reason blank p cfg raws hp h =
    let rs = records_of p (decoded raws) in
    let whole =
      replay-whole m w cfg.replay_file reason blank rs (records_of-IsRecord p raws hp h) in
    let same_file = recorded-content m w path rs ∙ sym (recorded-content m w cfg.replay_file rs) in
    rw
      (
        same_file,
        run_replay-stopped _ reason blank cfg _ _ (recorded-opens m w cfg.replay_file reason rs)
            whole,
        events-padded p (map classified (decoded raws)),
      )
      (ap finished (fold-classified (decoded raws) empty))
