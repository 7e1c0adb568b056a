-- ===== src/Prelude/Keyed.antt =====
-- A table that is fed a list of events: each relevant event changes the entry under its key.
use mathlib.Core.Path.{◌≡◌, refl}
use mathlib.Core.Bool.{Bool, true, ◌&&◌}
use mathlib.Core.Logic.{inl, inr}
use mathlib.Core.Option.{Option, none, some}
use mathlib.Core.List.{List, [], ◌∷◌}
use mathlib.Core.List.{map}
use Prim.Native.Nat.{ℕ, ◌+◌, ◌≤◌, ◌<◌}
use native.Mathlib.Omega.{arith}
use kernel_scope.Prelude.Tests.{if◌then◌else◌, Eq, Bool-cases}
use kernel_scope.Prelude.Lists.{keep, fold, sum}
use kernel_scope.Prelude.Assoc.{
  lookup, update, or_default, lookup-update_self, lookup-update_ne, values, sum-update,
  lookup-le-sum,
}

module _ {ℓ κ μ} {K : Type ℓ} {V : Type κ} {Ev : Type μ} ⦃e : Eq K⦄ (relevant : Ev → Bool)
    (key : Ev → K) (default : V) (change : Ev → V → V) where
  abbrev pub feed : List (K × V) → Ev → List (K × V)
  feed m ev = if relevant ev then update (key ev) default (change ev) m else m

  -- The events that change the entry of a key.
  abbrev pub group : K → List Ev → List Ev
  group k evs = keep (λ ev. relevant ev && e.beq (key ev) k) evs

  -- The entry that a list of events leaves.
  abbrev pub entry : Option V → List Ev → Option V
  entry o [] = o
  entry o (ev ∷ evs) = entry (some (change ev (or_default o default))) evs

  feed-lookup :
      (m : List (K × V)) (ev : Ev) (k : K)
      → lookup k (feed m ev) ≡ (
          if relevant ev && e.beq (key ev) k
          then some (change ev (or_default (lookup k m) default))
          else lookup k m)
  feed-lookup m ev k = elim (Bool-cases (relevant ev)) [
    | inr no_change ↦ rw no_change
    | inl changes ↦ elim (Bool-cases (e.beq (key ev) k)) [
      | inr other ↦ rw (changes, other) (lookup-update_ne (key ev) k default (change ev) m other)
      | inl same ↦
          rw (changes, same)
            (rw ((e.beq_iff (key ev) k).0 same) (lookup-update_self k default (change ev) m))
    ]
  ]

  -- The entry of a key depends on its own events only.
  pub lookup-fold-feed :
      (evs : List Ev) (m : List (K × V)) (k : K)
      → lookup k (fold feed m evs) ≡ entry (lookup k m) (group k evs)
  lookup-fold-feed [] m k = refl
  lookup-fold-feed (ev ∷ evs) m k = elim (Bool-cases (relevant ev && e.beq (key ev) k)) [
    | inl hit ↦ rw (lookup-fold-feed evs (feed m ev) k, feed-lookup m ev k, hit)
    | inr miss ↦ rw (lookup-fold-feed evs (feed m ev) k, feed-lookup m ev k, miss)
  ]

  -- From no entry: there is one exactly if there was an event.
  pub entry-none :
      (ev : Ev) (evs : List Ev)
      → entry none (ev ∷ evs) ≡ some (fold (λ v ev'. change ev' v) default (ev ∷ evs))
  entry-none ev evs = entry-some evs (change ev default)
    where
      entry-some :
          (evs : List Ev) (v : V) → entry (some v) evs ≡ some (fold (λ v ev'. change ev' v) v evs)
      entry-some [] v = refl
      entry-some (ev ∷ evs) v = entry-some evs (change ev v)

  -- A measure to which every relevant event adds its weight, as long as there is room below `limit`.
  module _ (g : V → ℕ) (weight : Ev → ℕ) (limit : ℕ) (start : g default ≡ 0)
      (adds : (ev : Ev) (v : V)
        → relevant ev ≡ true
        → g v + weight ev < limit
        → g (change ev v) ≡ g v + weight ev) where
    abbrev total : List (K × V) → ℕ
    total m = sum (map g (values m))

    abbrev added : List Ev → ℕ
    added evs = sum (map weight (keep relevant evs))

    feed-total :
        (m : List (K × V)) (ev : Ev)
        → relevant ev ≡ true
        → total m + weight ev < limit
        → total (update (key ev) default (change ev) m) ≡ total m + weight ev
    feed-total m ev r room =
        let old : V = or_default (lookup (key ev) m) default in
        let small : g old ≤ total m = lookup-le-sum g (key ev) default m start in
        omega (
          arith,
          sum-update g (key ev) default (change ev) m start,
          small,
          adds ev old r (omega (arith, small)),
        )

    -- Then the sum over the table is the sum over the relevant events.
    pub sum-fold-feed :
        (evs : List Ev) (m : List (K × V))
        → total m + added evs < limit
        → total (fold feed m evs) ≡ total m + added evs
    sum-fold-feed [] m room = omega arith
    sum-fold-feed (ev ∷ evs) m room = elim (Bool-cases (relevant ev)) [
      | inr no_change ↦ rw no_change (sum-fold-feed evs m (rw no_change at room))
      | inl changes ↦
          let now = feed-total m ev changes (omega (arith, rw changes at room)) in
          let later =
            sum-fold-feed evs (update (key ev) default (change ev) m)
              (omega (arith, now, rw changes at room)) in
          rw changes (omega (arith, now, later))
    ]

    pub sum-fold-empty : (evs : List Ev) → added evs < limit → total (fold feed [] evs) ≡ added evs
    sum-fold-empty evs room = omega (arith, sum-fold-feed evs [] (omega (arith, room)))
