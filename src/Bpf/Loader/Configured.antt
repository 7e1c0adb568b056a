-- ===== src/Bpf/Loader/Configured.antt =====
-- What configuring the loader leaves in the skeleton.
use kernel_scope.Prelude.{
  ℕ, ◌+◌, ◌-◌, ◌≡◌, arith, List, [], ◌∷◌, ◌++◌, length, take, drop, length-append, length-take,
  length-drop, min, drop-drop, zero, suc, ◌∙◌,
}
use kernel_scope.Symbols.ProcMaps.{is_empty}
use kernel_scope.Bpf.Loader.{write_comm, task_comm_len}

-- An array of 16 characters that ends in a NUL.
abbrev pub IsTerminated : List ℕ → Type 0
IsTerminated comm = (length comm ≡ task_comm_len) × (drop 15 comm ≡ 0 ∷ [])

drop-append_ge {ℓ} :
    {A : Type ℓ} (k n : ℕ) (xs ys : List A) → k ≡ length xs + n → drop k (xs ++ ys) ≡ drop n ys
drop-append_ge k n [] ys h = let e : k ≡ n = omega arith in rw e
drop-append_ge zero n (x ∷ xs) ys h = absurd (omega arith)
drop-append_ge (suc k) n (x ∷ xs) ys h = drop-append_ge k n xs ys (omega arith)

-- However long the name is, the array of the skeleton keeps its length and its last NUL.
pub write_comm-IsTerminated :
    (comm old : List ℕ) → IsTerminated old → IsTerminated (write_comm comm old)
unfolding write_comm is_empty
write_comm-IsTerminated [] old h = h
write_comm-IsTerminated (c ∷ cs) old h =
    let k : ℕ = min (length (c ∷ cs)) 15 in
    let front : length (take k (c ∷ cs)) ≡ k = omega (arith, length-take k (c ∷ cs)) in
    let total : k + (15 - k) ≡ 15 = omega arith in
    (
      omega (arith, front, h.0, length-append (take k (c ∷ cs)) (drop k old), length-drop k old),
      drop-append_ge 15 (15 - k) (take k (c ∷ cs)) (drop k old) (omega (arith, front))
          ∙ rw total at (drop-drop (15 - k) k old)
          ∙ h.1,
    )
