-- ===== src/Tracer/Filters/Names.antt =====
-- Which names the filter by name accepts.
use kernel_scope.Prelude.{
  ℕ, ◌≡◌, ◌≢◌, refl, arith, if◌then◌else◌, Bool, true, false, List, [], ◌∷◌, length, ◌↔◌, ◌⊎◌, inl,
}
use kernel_scope.Event.{until_nul}
use kernel_scope.Bpf.Loader.{Rodata}
use kernel_scope.Tracer.Filters.{same_name, is_unset, filter_comm}

-- The loop compares the two strings up to their NULs.
same_name-until_nul :
    (ts cs : List ℕ)
    → length ts ≡ length cs
    → (same_name ts cs ≡ true) ↔ (until_nul ts ≡ until_nul cs)
unfolding same_name until_nul
same_name-until_nul [] [] h = (λ e. refl, λ e. refl)
same_name-until_nul [] (c ∷ cs) h = absurd (omega arith)
same_name-until_nul (t ∷ ts) [] h = absurd (omega arith)
same_name-until_nul (t ∷ ts) (c ∷ cs) h =
    ground (arith, same_name-until_nul ts cs (omega (arith, h)))

unset-until_nul : (ts : List ℕ) → is_unset ts ≡ true → until_nul ts ≡ []
unfolding until_nul
unset-until_nul [] h = refl
unset-until_nul (t ∷ ts) h = ground (arith, h)

set-until_nul : (ts : List ℕ) → is_unset ts ≡ false → until_nul ts ≢ []
unfolding until_nul
set-until_nul [] h e = absurd (ground (arith, h))
set-until_nul (t ∷ ts) h e = ground (arith, h, e)

-- The filter by name accepts exactly the tasks whose name is that of the options, up to the first NUL,
-- and all tasks if the options give none.
pub filter_comm-until_nul :
    (r : Rodata) (comm : List ℕ)
    → length r.target_comm ≡ length comm
    → (filter_comm r comm ≡ true)
      ↔ ((until_nul r.target_comm ≡ []) ⊎ (until_nul r.target_comm ≡ until_nul comm))
unfolding filter_comm
filter_comm-until_nul r comm h = split (is_unset r.target_comm) refl
  where
    split :
        (b : Bool)
        → is_unset r.target_comm ≡ b
        → ((if b then true else same_name r.target_comm comm) ≡ true)
          ↔ ((until_nul r.target_comm ≡ []) ⊎ (until_nul r.target_comm ≡ until_nul comm))
    split true e = (λ x. inl (unset-until_nul r.target_comm e), λ x. refl)
    split false e =
        ground (arith, same_name-until_nul r.target_comm comm h, set-until_nul r.target_comm e)
