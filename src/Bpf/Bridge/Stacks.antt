-- ===== src/Bpf/Bridge/Stacks.antt =====
-- What is left of a stack, and how many keys are counted.
use kernel_scope.Prelude.{
  ℕ, zero, suc, ◌+◌, ◌≡◌, ◌≢◌, refl, arith, ◌==◌, List, [], ◌∷◌, ◌++◌, length, replicate, Option,
  some, none, Bool-cases, inl, inr, u32, ◌<◌, ap, ==_iff, u32_mod,
}
use kernel_scope.Bpf.Bridge.{before, pop_zeros, TaskKey, count_keys}

-- The last address, if there is one, is not 0.
abbrev pub EndsIn : List ℕ → Type 0
EndsIn [] = Unit {0}
EndsIn (addr ∷ []) = addr ≢ 0
EndsIn (addr ∷ next ∷ rest) = EndsIn (next ∷ rest)

abbrev pub Popped : List ℕ → List ℕ → Type 0
Popped addrs left = (n : ℕ) × EndsIn left × (addrs ≡ left ++ replicate n 0)

before-Popped :
    (addr : ℕ) (addrs left : List ℕ) → Popped addrs left → Popped (addr ∷ addrs) (before addr left)
unfolding before
before-Popped addr addrs [] (n, e, h) = elim (Bool-cases (addr == 0)) [
  | inl null ↦ rw null (suc n, tt, rw ((==_iff addr 0).0 null) (ap (◌∷◌ 0) h))
  | inr given ↦ rw given (n, ground arith, ap (◌∷◌ addr) h)
]
before-Popped addr addrs (next ∷ rest) (n, e, h) = (n, e, ap (◌∷◌ addr) h)

-- What the loop leaves are the addresses without the zeros at their end, and with no other change.
pub pop_zeros-Popped : (addrs : List ℕ) → Popped addrs (pop_zeros addrs)
unfolding pop_zeros
pop_zeros-Popped [] = (0, tt, refl)
pop_zeros-Popped (addr ∷ addrs) =
    before-Popped addr addrs (pop_zeros addrs) (pop_zeros-Popped addrs)

-- The chain of keys that bpf_map_get_next_key answers, from a key on, to the end.
abbrev pub Chain : (TaskKey → Option TaskKey) → TaskKey → List TaskKey → Type 0
Chain next key [] = next key ≡ none
Chain next key (k ∷ ks) = (next key ≡ some k) × Chain next k ks

-- If the chain of keys ends, the loop ends and counts the keys of the chain, modulo 2^32.
pub count_keys-Chain :
    (next : TaskKey → Option TaskKey) (key : TaskKey) (ks : List TaskKey) (fuel count : ℕ)
    → Chain next key ks
    → length ks < fuel
    → count < u32_mod
    → count_keys fuel next key count ≡ some (u32 (count + length ks))
unfolding count_keys
count_keys-Chain next key ks zero count h f small = absurd (omega arith)
count_keys-Chain next key [] (suc fuel) count h f small =
    let same : u32 (count + 0) ≡ count = omega arith in rw (count_keys, h, same)
count_keys-Chain next key (k ∷ ks) (suc fuel) count h f small =
    let total : u32 (u32 (count + 1) + length ks) ≡ u32 (count + suc (length ks)) = omega arith in
    rw (count_keys, h.0, ← total)
      (count_keys-Chain next k ks fuel (u32 (count + 1)) h.1 (omega arith) (omega arith))
