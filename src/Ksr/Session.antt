-- ===== src/Ksr/Session.antt =====
-- A recording from the opening of the file to its replay.
use Prim.Native.String.{String}
use kernel_scope.Prelude.{
  ℕ, ◌+◌, ◌≡◌, refl, arith, List, [], ◌++◌, length, take, length-append, some, u64, All, fold,
  append_assoc, drop-append_exact, ltb, le→ltb, false, take_all, min, take-append_ge, ◌/◌, ◌==◌,
  true, ==_iff,
}
use kernel_scope.Prelude.Bytes.{length-le_bytes, take-le_bytes, le_value-le_bytes}
use kernel_scope.Event.{Event}
use kernel_scope.Errors.{ok}
use kernel_scope.Ksr.{
  Padding, make_header, header_bytes, header_object, header_size, validate_header,
}
use kernel_scope.Ksr.Recorder
use kernel_scope.Ksr.Recorder.{Recorder, Opening}
use kernel_scope.Ksr.Recorder.Appends.{frames, write_all, write_all_stored}
use kernel_scope.Ksr.Replay
use kernel_scope.Ksr.Replay.{Callback, stopped, call, replay, reading, ReplaySource}
use kernel_scope.Ksr.Replay.Steps.{frame_size}
use kernel_scope.Ksr.Replay.Recorded.{IsRecord, events, replay-take-frames}

module _ (monotonic_ns wall_clock_ns : ℕ) where
  abbrev pub header : List ℕ
  header = header_bytes (make_header monotonic_ns wall_clock_ns)

  pub length-header : length header ≡ header_size
  unfolding header_bytes make_header
  length-header = simp (length-append, length-le_bytes)

  header-valid : (rest : List ℕ) → validate_header (header_object (header ++ rest)) ≡ true
  unfolding header_bytes make_header header_object validate_header
  header-valid rest = simp (append_assoc, take-le_bytes, le_value-le_bytes 4 1 (omega arith))

  -- A file that begins with a fresh header is accepted, and what follows the header is left to read.
  pub open_path-header :
      (rest : List ℕ) (reason path : String) (src : ReplaySource)
      → Replay.open_path (some (header ++ rest)) reason path src
        ≡ (record src { file = some rest }, ok)
  unfolding Replay.open_path
  open_path-header rest reason path src =
      let long : ltb (length (header ++ rest)) header_size ≡ false =
        le→ltb _ header_size (omega (arith, length-append header rest, length-header)) in
      rw (long, header-valid rest, drop-append_exact header rest header_size length-header)

-- The calls that run_record makes on a recorder: open, one write_event for each event, close.
unfoldable pub recorded : Opening → String → List (Padding × Event) → Recorder → Recorder
recorded o path rs r = Recorder.close (write_all rs (Recorder.open_path o path r).0)

-- A device that stores everything.
abbrev pub ready : ℕ → ℕ → Opening
ready monotonic_ns wall_clock_ns = record {
  answers = some [];
  reason = "";
  monotonic_ns = monotonic_ns;
  wall_clock_ns = wall_clock_ns;
}

-- On a device that stores everything, the file holds the header and the frames of all events in
-- order, every event is counted (modulo 2^64), and the recorder is closed.
pub recorded-content :
    (monotonic_ns wall_clock_ns : ℕ) (path : String) (rs : List (Padding × Event))
    → recorded (ready monotonic_ns wall_clock_ns) path rs Recorder.fresh ≡ record {
      file = false;
      disk = record {
        content = header_bytes (make_header monotonic_ns wall_clock_ns) ++ frames rs;
        answers = [];
      };
      events_written = u64 (length rs);
    }
unfolding recorded Recorder.open_path Recorder.close Recorder.fresh
recorded-content m w path rs =
    let bytes = header m w in
    let same : (length bytes == length bytes) ≡ true = (==_iff _ _).1 refl in
    let whole : take (length bytes) bytes ≡ bytes = take_all (length bytes) bytes (omega arith) in
    let start : 0 + length rs ≡ length rs = omega arith in
    rw (same, whole) (rw (write_all_stored rs bytes 0, start))

module _ {ℓ} {S : Type ℓ} (callback : Callback S) (blank : Event) where
  -- What was recorded comes back. A recording on a device that stores everything, cut at any point
  -- behind its header, is opened and replayed with no error: exactly the events whose frames are
  -- whole are handed to the callback, in the order of recording. With k at the length of all frames
  -- that is every event.
  pub replay-recorded :
      (monotonic_ns wall_clock_ns : ℕ) (path reason : String) (rs : List (Padding × Event)) (k : ℕ)
      (s : S)
      → All IsRecord rs
      → ((Replay.open_path
            (some (
              take
                (header_size + k)
                (recorded (ready monotonic_ns wall_clock_ns) path rs Recorder.fresh).disk.content))
            reason
            path
            Replay.new_source).1
          ≡ ok)
        × (replay callback blank
              (Replay.open_path
                (some (
                  take
                    (header_size + k)
                    (recorded
                      (ready monotonic_ns wall_clock_ns)
                      path
                      rs
                      Recorder.fresh).disk.content))
                reason
                path
                Replay.new_source).0
              s
            ≡ stopped ok
                (reading callback blank [] (u64 (min (k / frame_size) (length rs))))
                (fold (call callback) s (take (k / frame_size) (events rs))))
  unfolding Replay.new_source
  replay-recorded m w path reason rs k s h =
      let cut : take (header_size + k) (header m w ++ frames rs)
          ≡ header m w ++ take k (frames rs) =
        take-append_ge (header_size + k) k (header m w) (frames rs)
          (omega (arith, length-header m w)) in
      rw (recorded-content m w path rs, cut, open_path-header m w (take k (frames rs)) reason path)
        (refl, replay-take-frames callback blank rs k s h)
