-- ===== src/Commands/Top/Endless.antt =====
-- When the duration ends the loop of run_top and its siblings.
use kernel_scope.Prelude.{
  ℕ, ◌+◌, ◌*◌, ◌≤◌, ◌<◌, ◌≡◌, arith, Bool-cases, false, List, [], ◌∷◌, u64_mod, u32_mod, inl, inr,
}
use kernel_scope.Commands.{Config, expired}
use kernel_scope.Aggregator.{Aggregator}
use kernel_scope.Commands.Polling.{Exit, running}
use kernel_scope.Commands.Top.{
  Round, TopState, draw, roll, window_over, poll_round, round, top_loop,
}

abbrev pub IsRunning : {S : Type 0} → Exit S → Type 0
IsRunning running = Unit {0}
IsRunning _ = ⊥

-- A clock that does not run backwards, read twice in each round, less than `pause` apart; and no
-- request to shut down.
abbrev pub Ticks : ℕ → ℕ → List Round → Type 0
Ticks pause t [] = Unit {0}
Ticks pause t (r ∷ rs) =
    (r.shutdown ≡ false)
    × (t ≤ r.now)
    × (r.now ≤ r.later)
    × (r.later < r.now + pause)
    × (r.later < u64_mod)
    × Ticks pause r.later rs

module _ {A X : Type 0} (show : Aggregator → X → A × X) where
  draw-t0 : (now : ℕ) (s : TopState A X) → (draw show now s).t0 ≡ s.t0
  unfolding draw
  draw-t0 now s = ground arith

  window_open :
      (cfg : Config) (now t0 : ℕ)
      → 0 < cfg.window_sec
      → cfg.window_sec < u32_mod
      → t0 ≤ now
      → now < u64_mod
      → window_over cfg now t0 ≡ false
      → now < t0 + cfg.window_sec * 1_000_000_000
  unfolding window_over
  window_open cfg now t0 pos small order range h = ground (arith, h)

  -- The window that is open after a round began less than its length ago.
  abbrev Began : Config → ℕ → ℕ → Type 0
  Began cfg now t0 = (t0 ≤ now) × (now < t0 + cfg.window_sec * 1_000_000_000)

  roll-Began :
      (cfg : Config) (now : ℕ) (s : TopState A X)
      → 0 < cfg.window_sec
      → cfg.window_sec < u32_mod
      → s.t0 ≤ now
      → now < u64_mod
      → Began cfg now (roll cfg now s).t0
  unfolding roll
  roll-Began cfg now s pos small order range = elim (Bool-cases (window_over cfg now s.t0)) [
    | inl over ↦ simp over (omega arith, omega arith)
    | inr still ↦ simp still (order, window_open cfg now s.t0 pos small order range still)
  ]

  round-Began :
      (cfg : Config) (r : Round) (s : TopState A X)
      → 0 < cfg.window_sec
      → cfg.window_sec < u32_mod
      → s.t0 ≤ r.now
      → r.now < u64_mod
      → Began cfg r.now (round show cfg r s).t0
  unfolding round poll_round
  round-Began cfg r s pos small order range =
      let same = draw-t0 r.now (poll_round r s) in
      roll-Began cfg r.now (draw show r.now (poll_round r s)) pos small (omega (arith, same, order))
        range

  not_expired :
      (t0 duration later : ℕ)
      → duration < u32_mod
      → t0 ≤ later
      → later < u64_mod
      → later < t0 + duration * 1_000_000_000
      → expired t0 duration later ≡ false
  unfolding expired
  not_expired t0 duration later small order range h = ground arith

  -- With a window that is shorter than the duration, by more than the time between the two readings of
  -- the clock in a round, the loop of run_top and its siblings does not end by itself, however many rounds it makes: each
  -- window that is over sets the start that the duration is counted from.
  pub top_loop-IsRunning :
      (cfg : Config) (pause t : ℕ) (rs : List Round) (s : TopState A X)
      → 0 < cfg.window_sec
      → cfg.duration_sec < u32_mod
      → cfg.window_sec * 1_000_000_000 + pause ≤ cfg.duration_sec * 1_000_000_000
      → s.t0 ≤ t
      → Ticks pause t rs
      → IsRunning (top_loop show cfg rs s)
  unfolding top_loop
  top_loop-IsRunning cfg pause t [] s pos small longer order ticks = tt
  top_loop-IsRunning cfg pause t (r ∷ rs) s pos small longer order
        (up, after_t, after_now, quick, range, rest) =
      let began = round-Began cfg r s pos (omega arith) (omega arith) (omega arith) in
      let on =
        not_expired (round show cfg r s).t0 cfg.duration_sec r.later small (omega (arith, began))
          range (omega (arith, began)) in
      rw (up, on)
        (top_loop-IsRunning cfg pause r.later rs (round show cfg r s) pos small longer
          (omega (arith, began)) rest)
