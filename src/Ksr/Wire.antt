-- ===== src/Ksr/Wire.antt =====
-- The wire format of the ring buffer and the recording format lay an event out alike.
use kernel_scope.Prelude.{
  ℕ, ◌≡◌, refl, List, length, take, drop-drop, ltb, if◌then◌else◌, Bool-cases, inl, inr, some, none,
  ◌∷◌, [], ap, suc, zero,
}
use kernel_scope.Event.{Event}
use kernel_scope.Event.Valid.{IsEvent}
use kernel_scope.Decoder.{decode_event}
use kernel_scope.Ksr.{Padding, serialize_event, deserialize_event}
use kernel_scope.Ksr.RoundTrip.{IsPadding, deserialize_event-serialize_event}

take-take {ℓ} : {A : Type ℓ} (n : ℕ) (xs : List A) → take n (take n xs) ≡ take n xs
take-take zero xs = refl
take-take (suc n) [] = refl
take-take (suc n) (x ∷ xs) = ap (◌∷◌ x) (take-take n xs)

-- On every input, of any length, `decode_event` and `deserialize_event` accept alike, and read the
-- same event.
pub decode_event-deserialize_event :
    (raw : List ℕ) (old : Event)
    → decode_event raw
      ≡ (if (deserialize_event raw old).0 then some (deserialize_event raw old).1 else none)
unfolding decode_event deserialize_event
decode_event-deserialize_event raw old = elim (Bool-cases (ltb (length raw) 88)) [
  | inl short ↦ rw short
  | inr enough ↦ rw enough (simp (drop-drop, take-take))
]

-- What the recorder wrote for an event is what the ring buffer would have carried for it.
pub decode_event-serialize_event :
    (p : Padding) (ev : Event)
    → IsPadding p
    → IsEvent ev
    → decode_event (serialize_event p ev) ≡ some ev
decode_event-serialize_event p ev hp he = rw (
  decode_event-deserialize_event (serialize_event p ev) ev,
  deserialize_event-serialize_event p ev hp he ev,
)
