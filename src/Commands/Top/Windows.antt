-- ===== src/Commands/Top/Windows.antt =====
-- The loop by what it is for: each screen shows the events of its window.
use kernel_scope.Prelude.{
  ℕ, ◌+◌, ◌≡◌, ◌<◌, refl, arith, leb, if◌then◌else◌, Bool, true, false, List, [], ◌∷◌, ◌++◌, fold,
  fold-append, length, sub64, u64, u64_mod, ap, ◌∙◌, sym,
}
use kernel_scope.Event.{Event}
use kernel_scope.Ksr.Replay.{call}
use kernel_scope.Aggregator
use kernel_scope.Aggregator.{Aggregator, process_event, after}
use kernel_scope.Bpf.Collector.{poll, events_received, events_lost}
use kernel_scope.Bpf.Collector.Delivery.{decoded, refused, Delivered, poll-Delivered}
use kernel_scope.Commands.{Config, aggregate, expired}
use kernel_scope.Commands.Aggregate.{fold-aggregate}
use kernel_scope.Commands.Polling.{Exit, finished, running}
use kernel_scope.Commands.Top.{
  Round, Screen, TopState, window_over, draw, roll, poll_round, round, top_loop,
}

-- What the loop is for: it keeps the events of the open window, and how many records were received and
-- lost in all.
pub record View (A X : Type 0) : Type 0 where
  pub since : List Event
  pub received : ℕ
  pub lost : ℕ
  pub t0 : ℕ
  pub last_draw : ℕ
  pub screens : List (Screen A)
  pub extra : X

module _ {A X : Type 0} where
  abbrev pub take_in : Round → View A X → View A X
  take_in r v = record v {
    since = v.since ++ decoded r.records;
    received = u64 (v.received + length (decoded r.records));
    lost = u64 (v.lost + refused r.records);
  }

  abbrev pub renew : Config → ℕ → View A X → View A X
  renew cfg now v = if window_over cfg now v.t0 then record v { since = []; t0 = now } else v

  -- A state of the loop is a view of it.
  pub record IsView (s : TopState A X) (v : View A X) : Type 0 where
    pub agg : s.agg ≡ after v.since
    pub received : s.collector.received ≡ v.received
    pub lost : s.collector.decode_errors ≡ v.lost
    pub t0 : s.t0 ≡ v.t0
    pub last_draw : s.last_draw ≡ v.last_draw
    pub screens : s.screens ≡ v.screens
    pub extra : s.extra ≡ v.extra
    pub rb : s.collector.rb ≡ true
    pub on : s.collector.running ≡ true
    pub callback : s.collector.callback ≡ aggregate
    pub received_range : s.collector.received < u64_mod
    pub lost_range : s.collector.decode_errors < u64_mod

  abbrev pub IsViewOf : Exit (TopState A X) → Exit (View A X) → Type 0
  IsViewOf (finished s) (finished v) = IsView s v
  IsViewOf running running = Unit {0}
  IsViewOf _ _ = ⊥

  poll_round-IsView :
      (r : Round) (s : TopState A X) (v : View A X)
      → IsView s v
      → IsView (poll_round r s) (take_in r v)
  unfolding poll_round events_received events_lost
  poll_round-IsView r s v same =
      let d : Delivered r.records s.collector s.agg
          (poll r.records r.answer r.message s.collector s.agg).0 =
        poll-Delivered r.records r.answer r.message s.collector s.agg same.rb same.on
          same.received_range same.lost_range in
      let (end, received, lost, callback, rb, on) = d in
      record {
        agg =
            end
            ∙ ap (λ f. fold (call f) s.agg (decoded r.records)) same.callback
            ∙ fold-aggregate (decoded r.records) s.agg
            ∙ ap (λ a. fold process_event a (decoded r.records)) same.agg
            ∙ sym (fold-append process_event _ v.since (decoded r.records));
        received = omega (arith, received, same.received);
        lost = omega (arith, lost, same.lost);
        t0 = same.t0;
        last_draw = same.last_draw;
        screens = same.screens;
        extra = same.extra;
        rb = rb ∙ same.rb;
        on = on ∙ same.on;
        callback = callback ∙ same.callback;
        received_range = omega (arith, received);
        lost_range = omega (arith, lost);
      }

  roll-IsView :
      (cfg : Config) (now : ℕ) (s : TopState A X) (v : View A X)
      → IsView s v
      → IsView (roll cfg now s) (renew cfg now v)
  unfolding roll Aggregator.reset Aggregator.empty
  roll-IsView cfg now s v same =
      tested (window_over cfg now s.t0) (window_over cfg now v.t0)
        (ap (window_over cfg now) same.t0)
    where
      tested :
          (b b' : Bool)
          → b ≡ b'
          → IsView
              (if b then record s { agg = Aggregator.reset s.agg; t0 = now } else s)
              (if b' then record v { since = []; t0 = now } else v)
      tested true false e = absurd (ground (arith, e))
      tested false true e = absurd (ground (arith, e))
      tested false false e = same
      tested true true e = record {
        agg = refl;
        received = same.received;
        lost = same.lost;
        t0 = refl;
        last_draw = same.last_draw;
        screens = same.screens;
        extra = same.extra;
        rb = same.rb;
        on = same.on;
        callback = same.callback;
        received_range = same.received_range;
        lost_range = same.lost_range;
      }

module _ {A X : Type 0} (show : Aggregator → X → A × X) where
  abbrev pub present : ℕ → View A X → View A X
  present now v =
      let (rows, extra) = show (after v.since) v.extra in
      let screen : Screen A = record { rows = rows; received = v.received; lost = v.lost } in
      if leb 1_000_000_000 (sub64 now v.last_draw)
      then record v { screens = v.screens ++ screen ∷ []; last_draw = now; extra = extra }
      else v

  abbrev pub view_round : Config → Round → View A X → View A X
  view_round cfg r v = renew cfg r.now (present r.now (take_in r v))

  abbrev pub view_loop : Config → List Round → View A X → Exit (View A X)
  view_loop cfg [] v = running
  view_loop cfg (r ∷ rs) v =
      if r.shutdown
      then finished v
      else if expired (view_round cfg r v).t0 cfg.duration_sec r.later
      then finished (view_round cfg r v)
      else view_loop cfg rs (view_round cfg r v)

  draw-IsView :
      (now : ℕ) (s : TopState A X) (v : View A X)
      → IsView s v
      → IsView (draw show now s) (present now v)
  unfolding draw events_received events_lost
  draw-IsView now s v same = tested (due s.last_draw) (due v.last_draw) (ap due same.last_draw)
    where
      due : ℕ → Bool
      due last_draw = leb 1_000_000_000 (sub64 now last_draw)

      shown : show s.agg s.extra ≡ show (after v.since) v.extra
      shown = rw (same.agg, same.extra) refl

      screen : Screen A
      screen = record {
        rows = (show s.agg s.extra).0;
        received = s.collector.received;
        lost = s.collector.decode_errors;
      }

      viewed : Screen A
      viewed = record {
        rows = (show (after v.since) v.extra).0;
        received = v.received;
        lost = v.lost;
      }

      same_screen : screen ≡ viewed
      same_screen = rw (same.agg, same.extra, same.received, same.lost) refl

      tested :
          (b b' : Bool)
          → b ≡ b'
          → IsView
              (if b
                then record s {
                  screens = s.screens ++ screen ∷ [];
                  last_draw = now;
                  extra = (show s.agg s.extra).1;
                }
                else s)
              (if b'
                then record v {
                  screens = v.screens ++ viewed ∷ [];
                  last_draw = now;
                  extra = (show (after v.since) v.extra).1;
                }
                else v)
      tested true false e = absurd (ground (arith, e))
      tested false true e = absurd (ground (arith, e))
      tested false false e = same
      tested true true e = record {
        agg = same.agg;
        received = same.received;
        lost = same.lost;
        t0 = same.t0;
        last_draw = refl;
        screens = rw (same.screens, same_screen) refl;
        extra = ap (λ (rx : A × X). rx.1) shown;
        rb = same.rb;
        on = same.on;
        callback = same.callback;
        received_range = same.received_range;
        lost_range = same.lost_range;
      }

  -- The loop refines its view: it ends when the view ends, and every screen has shown what the rows are
  -- of exactly the events that were received since the window began, in order, with the numbers of all
  -- records received and lost before it. The collector is started, and its callback is that of the tables.
  pub top_loop-IsViewOf :
      (cfg : Config) (rs : List Round) (s : TopState A X) (v : View A X)
      → IsView s v
      → IsViewOf (top_loop show cfg rs s) (view_loop cfg rs v)
  unfolding top_loop round
  top_loop-IsViewOf cfg [] s v same = tt
  top_loop-IsViewOf cfg (r ∷ rs) s v same =
      let next : IsView (round show cfg r s) (view_round cfg r v) =
        roll-IsView cfg r.now _ _ (draw-IsView r.now _ _ (poll_round-IsView r s v same)) in
      either _ _ r.shutdown (over (round show cfg r s).t0) (over (view_round cfg r v).t0)
        (ap over next.t0) same next
        (top_loop-IsViewOf cfg rs (round show cfg r s) (view_round cfg r v) next)
    where
      over : ℕ → Bool
      over t0 = expired t0 cfg.duration_sec r.later

      either :
          {s s' : TopState A X} {v v' : View A X} (e : Exit (TopState A X)) (e' : Exit (View A X))
          (down b b' : Bool)
          → b ≡ b'
          → IsView s v
          → IsView s' v'
          → IsViewOf e e'
          → IsViewOf
              (if down then finished s else if b then finished s' else e)
              (if down then finished v else if b' then finished v' else e')
      either e e' true b b' same_end now next later = now
      either e e' false true true same_end now next later = next
      either e e' false false false same_end now next later = later
      either e e' false true false same_end now next later = absurd (ground (arith, same_end))
      either e e' false false true same_end now next later = absurd (ground (arith, same_end))
