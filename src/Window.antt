-- ===== src/Window.antt =====
-- The window manager: src/core/windows.hpp and src/core/windows.cpp.
pub mod Rotation
use kernel_scope.Prelude.{ℕ, ◌+◌, ◌*◌, leb, ◌==◌, if◌then◌else◌, Bool, false, u32, u64, sub64}

pub record WindowManager : Type 0 where
  pub window_duration_ns : ℕ
  pub window_start_ns : ℕ
  pub max_windows : ℕ
  pub window_count : ℕ

unfoldable pub new : ℕ → ℕ → WindowManager
new window_sec max_windows = record {
  window_duration_ns = u64 (window_sec * 1_000_000_000);
  window_start_ns = 0;
  max_windows = max_windows;
  window_count = 0;
}

unfoldable pub should_rotate : WindowManager → ℕ → Bool
should_rotate w current_ns =
    if w.window_start_ns == 0
    then false
    else leb w.window_duration_ns (sub64 current_ns w.window_start_ns)

unfoldable pub rotate : WindowManager → ℕ → WindowManager
rotate w current_ns = record w {
  window_start_ns = current_ns;
  window_count = u32 (w.window_count + 1);
}

unfoldable pub reset : WindowManager → WindowManager
reset w = record w { window_start_ns = 0; window_count = 0 }
