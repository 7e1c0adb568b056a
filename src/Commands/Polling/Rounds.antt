-- ===== src/Commands/Polling/Rounds.antt =====
-- What the polling loop hands to a callback, and a recorded session against a live one.
use kernel_scope.Prelude.{
  ℕ, ◌<◌, ◌≡◌, refl, arith, if◌then◌else◌, Bool-cases, true, List, [], ◌∷◌, ◌++◌, fold, fold-append,
  Option, some, none, inl, inr, u64_mod, ap, ◌∙◌, sym,
}
use kernel_scope.Event.{Event}
use kernel_scope.Decoder.{decode_event}
use kernel_scope.Ksr.Replay.{Callback, call}
use kernel_scope.Bpf.Collector.{Collector, poll, events_received, events_lost}
use kernel_scope.Bpf.Collector.Delivery.{decoded, entered, poll-Delivered, Delivered}
use kernel_scope.Commands.{expired}
use kernel_scope.Commands.Polling.{Turn, Exit, finished, running, and_finally, poll_turn, poll_loop}

abbrev pub prepend : List (List ℕ) → Option (List (List ℕ)) → Option (List (List ℕ))
prepend raws none = none
prepend raws (some later) = some (raws ++ later)

-- The records that a loop polls before it ends, or `none` where the turns do not end it.
abbrev pub polled : ℕ → ℕ → List Turn → Option (List (List ℕ))
polled t0 duration [] = none
polled t0 duration (r ∷ rs) =
    if r.shutdown
    then some []
    else if expired t0 duration r.later
    then some r.records
    else prepend r.records (polled t0 duration rs)

decoded-append :
    (raws later : List (List ℕ)) → decoded (raws ++ later) ≡ decoded raws ++ decoded later
decoded-append [] later = refl
decoded-append (raw ∷ raws) later = one (decode_event raw) (decoded-append raws later)
  where
    one :
        (o : Option Event)
        → decoded (raws ++ later) ≡ decoded raws ++ decoded later
        → entered o (decoded (raws ++ later)) ≡ entered o (decoded raws) ++ decoded later
    one none h = h
    one (some ev) h = ap (◌∷◌ ev) h

module _ {ℓ} {S : Type ℓ} where
  -- The callback has the events of the polled records, in order.
  abbrev pub handed : Callback S → S → Option (List (List ℕ)) → Exit S
  handed callback s none = running
  handed callback s (some raws) = finished (fold (call callback) s (decoded raws))

  handed-prepend :
      (callback : Callback S) (s : S) (raws : List (List ℕ)) (o : Option (List (List ℕ)))
      → handed callback s (prepend raws o)
        ≡ handed callback (fold (call callback) s (decoded raws)) o
  handed-prepend callback s raws none = refl
  handed-prepend callback s raws (some later) = rw (decoded-append raws later, fold-append) refl

  -- The state that a loop leaves of what its callback acts on.
  abbrev pub outcome : Exit (Collector S × S) → Exit S
  outcome e = and_finally (λ (cs : Collector S × S). cs.1) e

  -- A loop of a started collector.
  pub poll_loop-handed :
      (t0 duration : ℕ) (turns : List Turn) (c : Collector S) (s : S)
      → c.rb ≡ true
      → c.running ≡ true
      → c.received < u64_mod
      → c.decode_errors < u64_mod
      → outcome (poll_loop t0 duration turns (c, s))
        ≡ handed c.callback s (polled t0 duration turns)
  unfolding poll_loop poll_turn and_finally events_received events_lost
  poll_loop-handed t0 duration [] c s rb on small small' = refl
  poll_loop-handed t0 duration (r ∷ rs) c s rb on small small' =
      let (c', s') = poll_turn r (c, s) in
      let d : Delivered r.records c s (poll r.records r.answer r.message c s).0 =
        poll-Delivered r.records r.answer r.message c s rb on small small' in
      let (end, received, lost, same, rb', on') = d in
      let rest =
        poll_loop-handed t0 duration rs c' s' (rb' ∙ rb) (on' ∙ on) (omega (arith, received))
          (omega (arith, lost)) in
      let moved : handed c'.callback s' (polled t0 duration rs)
          ≡ handed c.callback (fold (call c.callback) s (decoded r.records))
              (polled t0 duration rs) =
        rw (same, end) refl in
      elim (Bool-cases r.shutdown) [
        | inl down ↦ simp down refl
        | inr up ↦ elim (Bool-cases (expired t0 duration r.later)) [
          | inl over ↦ simp (up, over) (ap finished end)
          | inr on_time ↦
              simp (up, on_time)
                (rest ∙ moved ∙ sym (handed-prepend c.callback s r.records (polled t0 duration rs)))
        ]
      ]
