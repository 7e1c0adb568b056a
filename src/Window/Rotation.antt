-- ===== src/Window/Rotation.antt =====
-- When windows end.
use kernel_scope.Prelude.{
  ℕ, ◌+◌, ◌*◌, ◌≤◌, ◌<◌, ◌≡◌, refl, arith, true, false, ◌↔◌, u64_mod, u32_mod,
}
use kernel_scope.Window.{WindowManager, new, should_rotate, rotate, reset}

-- The window that a rotation at `start` opens is due exactly from `start` plus the duration on, for
-- every later reading of a clock that does not run backwards; a rotation at 0 opens none.
pub should_rotate-rotate :
    (w : WindowManager) (start now : ℕ)
    → 0 < start
    → start ≤ now
    → now < u64_mod
    → (should_rotate (rotate w start) now ≡ true) ↔ (start + w.window_duration_ns ≤ now)
unfolding should_rotate rotate
should_rotate-rotate w start now pos order range = (λ h. ground arith, λ h. ground arith)

-- The difference to a reading before the start of the window wraps around: the window is due at once,
-- if its duration is at most 2^64 less the distance back.
pub should_rotate-backwards :
    (w : WindowManager) (start now : ℕ)
    → now < start
    → start < u64_mod
    → start + w.window_duration_ns ≤ now + u64_mod
    → should_rotate (rotate w start) now ≡ true
unfolding should_rotate rotate
should_rotate-backwards w start now order range gap = ground arith

-- A new manager and a reset one never ask for a rotation.
pub should_rotate-idle :
    (w : WindowManager) (window_sec max_windows now : ℕ)
    → (should_rotate (new window_sec max_windows) now ≡ false)
      × (should_rotate (reset w) now ≡ false)
unfolding should_rotate new reset
should_rotate-idle w window_sec max_windows now = (refl, refl)

-- The duration of a manager does not wrap for any uint32_t number of seconds.
pub new-duration :
    (window_sec max_windows : ℕ)
    → window_sec < u32_mod
    → (new window_sec max_windows).window_duration_ns ≡ window_sec * 1_000_000_000
unfolding new
new-duration window_sec max_windows h = omega arith
