-- ===== src/Bpf/Collector/Delivery.antt =====
-- What the ring buffer's records become.
use kernel_scope.Prelude.{
  ℕ, ◌+◌, ◌≡◌, refl, arith, List, [], ◌∷◌, length, fold, Option, some, none, u64, u64_mod, ◌<◌,
  true, false, Bool, String, suc, ◌&&◌, ◌||◌, not, if◌then◌else◌, sym,
}
use kernel_scope.Prelude.Int.{ℤ, is_negative, int_eq}
use mathlib.Core.Path.{subst}
use kernel_scope.Errors.{ErrorCode, Status, ok, err, make_error}
use kernel_scope.Event.{Event}
use kernel_scope.Decoder.{decode_event}
use kernel_scope.Ksr.Replay.{call}
use kernel_scope.Bpf.Collector.{
  Collector, eintr, deliver, handle_all, poll, events_received, events_lost,
}

-- The events of the records that decode_event accepts.
abbrev pub entered : Option Event → List Event → List Event
entered none evs = evs
entered (some ev) evs = ev ∷ evs

abbrev pub decoded : List (List ℕ) → List Event
decoded [] = []
decoded (raw ∷ raws) = entered (decode_event raw) (decoded raws)

-- How many records decode_event refuses.
abbrev pub refusal : Option Event → ℕ
refusal none = 1
refusal (some ev) = 0

abbrev pub refused : List (List ℕ) → ℕ
refused [] = 0
refused (raw ∷ raws) = refusal (decode_event raw) + refused raws

pub length-decoded : (raws : List (List ℕ)) → length (decoded raws) + refused raws ≡ length raws
length-decoded [] = refl
length-decoded (raw ∷ raws) = one (decode_event raw) (length-decoded raws)
  where
    one :
        (o : Option Event)
        → length (decoded raws) + refused raws ≡ length raws
        → length (entered o (decoded raws)) + (refusal o + refused raws) ≡ suc (length raws)
    one none h = omega (arith, h)
    one (some ev) h = omega (arith, h)

module _ {ℓ} {S : Type ℓ} where
  -- What a list of records leaves of a collector and of the state that its callback acts on.
  abbrev pub Delivered : List (List ℕ) → Collector S → S → Collector S × S → Type ℓ
  Delivered raws c s (c', s') =
      (s' ≡ fold (call c.callback) s (decoded raws))
      × (events_received c' ≡ u64 (c.received + length (decoded raws)))
      × (events_lost c' ≡ u64 (c.decode_errors + refused raws))
      × (c'.callback ≡ c.callback)
      × (c'.rb ≡ c.rb)
      × (c'.running ≡ c.running)

  handle_all-Delivered :
      (raws : List (List ℕ)) (c : Collector S) (s : S)
      → c.received < u64_mod
      → c.decode_errors < u64_mod
      → Delivered raws c s (handle_all raws c s)
  unfolding handle_all events_received events_lost
  handle_all-Delivered [] c s small small' = (refl, omega arith, omega arith, refl, refl, refl)
  handle_all-Delivered (raw ∷ raws) c s small small' =
      after (decode_event raw) (λ c' s' h h'. handle_all-Delivered raws c' s' h h')
    where
      after :
          (o : Option Event)
          → ((c' : Collector S) (s' : S)
              → c'.received < u64_mod
              → c'.decode_errors < u64_mod
              → Delivered raws c' s' (handle_all raws c' s'))
          → (let d = handle_all raws (deliver o c s).0 (deliver o c s).1 in
              (d.1 ≡ fold (call c.callback) s (entered o (decoded raws)))
              × (events_received d.0 ≡ u64 (c.received + length (entered o (decoded raws))))
              × (events_lost d.0 ≡ u64 (c.decode_errors + (refusal o + refused raws)))
              × (d.0.callback ≡ c.callback)
              × (d.0.rb ≡ c.rb)
              × (d.0.running ≡ c.running))
      after none rest =
          let h =
            rest (record c { decode_errors = u64 (c.decode_errors + 1) }) s small (omega arith) in
          (h.0, omega (arith, h.1), omega (arith, h.2), h.3, h.4, h.5)
      after (some ev) rest =
          let h =
            rest (record c { received = u64 (c.received + 1) }) (call c.callback s ev) (omega arith)
              small' in
          (h.0, omega (arith, h.1), omega (arith, h.2), h.3, h.4, h.5)

  -- A poll of a started collector hands the events of all records that decode_event accepts to the
  -- callback, in the order of the ring buffer, counts them, and counts the others as lost (both modulo
  -- 2^64), whatever the poll answers; and it stays started.
  pub poll-Delivered :
      (raws : List (List ℕ)) (answer : ℤ) (message : String) (c : Collector S) (s : S)
      → c.rb ≡ true
      → c.running ≡ true
      → c.received < u64_mod
      → c.decode_errors < u64_mod
      → Delivered raws c s (poll raws answer message c s).0
  unfolding poll
  poll-Delivered raws answer message c s rb running small small' =
      subst (Delivered raws c s)
        (sym
          (started c.rb c.running (is_negative answer && not (int_eq.beq answer eintr)) rb running))
        (handle_all-Delivered raws c s small small')
    where
      started :
          (b r fails : Bool)
          → b ≡ true
          → r ≡ true
          → (let outcome : (Collector S × S) × Status =
                if not b || not r
                then ((c, s), ok)
                else if fails
                then (handle_all raws c s, err (make_error ErrorCode.bpf_map_error message))
                else (handle_all raws c s, ok) in
              outcome.0)
            ≡ handle_all raws c s
      started false r fails h k = absurd (ground (arith, h))
      started true false fails h k = absurd (ground (arith, k))
      started true true true h k = refl
      started true true false h k = refl
