-- ===== src/Ksr/Replay/Steps.antt =====
-- Single rounds of the loop of replay.
use kernel_scope.Prelude.{
  ℕ, suc, ◌+◌, ◌≤◌, ◌≡◌, arith, List, ◌++◌, length, length-append, ltb, le→ltb, u64, if◌then◌else◌,
  false, append_assoc, take-append_exact, drop-append_exact,
}
use kernel_scope.Prelude.Bytes.{
  le_value, le_bytes, take-le_bytes, drop-le_bytes, le_value-le_bytes, length-le_bytes,
}
use kernel_scope.Event.{Event}
use kernel_scope.Event.Valid.{IsEvent}
use kernel_scope.Ksr.{Padding, serialize_event, deserialize_event, event_size}
use kernel_scope.Ksr.RoundTrip.{
  IsPadding, length-serialize_event, deserialize_event-serialize_event,
}
use kernel_scope.Ksr.Recorder.{frame}
use kernel_scope.Ksr.Replay.{Callback, call, replay_loop, max_event_size}

abbrev pub frame_size : ℕ
frame_size = 92

-- A frame is the size of an event, and the event.
pub frame-sized :
    (p : Padding) (ev : Event)
    → IsPadding p
    → IsEvent ev
    → frame p ev ≡ le_bytes 4 event_size ++ serialize_event p ev
unfolding frame
frame-sized p ev hp he = rw (length-serialize_event p ev hp he)

pub length-frame :
    (p : Padding) (ev : Event) → IsPadding p → IsEvent ev → length (frame p ev) ≡ frame_size
length-frame p ev hp he = rw (frame-sized p ev hp he) (
    omega (
      arith,
      length-append (le_bytes 4 event_size) (serialize_event p ev),
      length-le_bytes 4 event_size,
      length-serialize_event p ev hp he,
    ))

module _ {ℓ} {S : Type ℓ} (callback : Callback S) (blank : Event) where
  -- A payload behind a size field that tells its length, with more behind it.
  pub sized_round :
      (fuel n : ℕ) (payload rest : List ℕ) (replayed : ℕ) (s : S)
      → length payload ≡ n
      → n ≤ max_event_size
      → replay_loop callback blank (suc fuel) (le_bytes 4 n ++ (payload ++ rest)) replayed s ≡ (
          let d = deserialize_event payload blank in
          replay_loop callback blank fuel rest
            (if d.0 then u64 (replayed + 1) else replayed)
            (if d.0 then call callback s d.1 else s))
  unfolding replay_loop
  sized_round fuel n payload rest replayed s l small =
      let size : le_value (le_bytes 4 n) ≡ n = le_value-le_bytes 4 n (omega arith) in
      let long : ltb (length (le_bytes 4 n ++ (payload ++ rest))) 4 ≡ false =
        le→ltb _ 4
          (omega (arith, length-append (le_bytes 4 n) (payload ++ rest), length-le_bytes 4 n)) in
      let fits : ltb max_event_size n ≡ false = le→ltb max_event_size n small in
      let whole : ltb (length (payload ++ rest)) n ≡ false =
        le→ltb _ n (omega (arith, length-append payload rest)) in
      rw (
        long,
        take-le_bytes,
        drop-le_bytes,
        size,
        fits,
        whole,
        take-append_exact payload rest n l,
        drop-append_exact payload rest n l,
      )

  -- A round on the frame of an event hands the event to the callback and counts it.
  pub frame_round :
      (fuel : ℕ) (p : Padding) (ev : Event) (rest : List ℕ) (replayed : ℕ) (s : S)
      → IsPadding p
      → IsEvent ev
      → replay_loop callback blank (suc fuel) (frame p ev ++ rest) replayed s
        ≡ replay_loop callback blank fuel rest (u64 (replayed + 1)) (call callback s ev)
  frame_round fuel p ev rest replayed s hp he = rw (
    frame-sized p ev hp he,
    append_assoc,
    sized_round fuel event_size (serialize_event p ev) rest replayed s
        (length-serialize_event p ev hp he) (omega arith),
    deserialize_event-serialize_event p ev hp he blank,
  )
