-- ===== src/Prelude/FrameMap.antt =====
-- `std::map<int, V>`, as the list of its entries in the order of the keys.
use mathlib.Core.Bool.{false}
use mathlib.Core.Logic.{inl, inr}
use sf4_netplay_launcher.Prelude.Tests.{Bool-cases, if◌then◌else◌}
use sf4_netplay_launcher.Prelude.Lists.{length}
use sf4_netplay_launcher.Prelude.Int.{ℤ, eqz, ltz, eqz_refl, eqz_sound}
use Prim.Native.Nat.{suc, ◌≤◌}
use mathlib.Core.Path.{◌≡◌, refl, ap}
use mathlib.Core.List.{List, [], ◌∷◌}
use mathlib.Core.Option.{Option, none, some}
use native.Mathlib.Omega.{arith}

abbrev pub FrameMap {ℓ} : Type ℓ → Type ℓ
FrameMap V = List (ℤ × V)

module _ {ℓ} {V : Type ℓ} where
  unfoldable pub find : ℤ → FrameMap V → Option V
  find k [] = none
  find k ((j, v) ∷ m) = if eqz j k then some v else find k m

  -- `emplace`: an entry that is there stays.
  unfoldable pub emplace : ℤ → V → FrameMap V → FrameMap V
  emplace k v [] = (k, v) ∷ []
  emplace k v ((j, w) ∷ m) =
      let rest = emplace k v m in
      if ltz k j then (k, v) ∷ (j, w) ∷ m else if eqz j k then (j, w) ∷ m else (j, w) ∷ rest

  -- `m[k] = v`
  unfoldable pub assign : ℤ → V → FrameMap V → FrameMap V
  assign k v [] = (k, v) ∷ []
  assign k v ((j, w) ∷ m) =
      let rest = assign k v m in
      if ltz k j then (k, v) ∷ (j, w) ∷ m else if eqz j k then (k, v) ∷ m else (j, w) ∷ rest

  -- `erase` of the entry with a key.
  unfoldable pub erase : ℤ → FrameMap V → FrameMap V
  erase k [] = []
  erase k ((j, w) ∷ m) = let rest = erase k m in if eqz j k then rest else (j, w) ∷ rest

  -- `erase(begin())`
  abbrev pub erase_first : FrameMap V → FrameMap V
  erase_first [] = []
  erase_first (e ∷ m) = m

  pub find-assign : (k : ℤ) (v : V) (m : FrameMap V) → find k (assign k v m) ≡ some v
  unfolding find assign
  find-assign k v [] = rw (eqz_refl k) refl
  find-assign k v ((j, w) ∷ m) = ground (arith, eqz_refl k, find-assign k v m)

  pub find-erase : (k : ℤ) (m : FrameMap V) → find k (erase k m) ≡ none
  unfolding find erase
  find-erase k [] = refl
  find-erase k ((j, w) ∷ m) = ground (arith, find-erase k m)

  pub length-assign : (k : ℤ) (v : V) (m : FrameMap V) → length (assign k v m) ≤ suc (length m)
  unfolding assign
  length-assign k v [] = omega arith
  length-assign k v ((j, w) ∷ m) = ground (arith, length-assign k v m)

  pub length-erase : (k : ℤ) (m : FrameMap V) → length (erase k m) ≤ length m
  unfolding erase
  length-erase k [] = omega arith
  length-erase k ((j, w) ∷ m) = ground (arith, length-erase k m)

  pub find-erase_other :
      (j k : ℤ) (m : FrameMap V) → eqz j k ≡ false → find k (erase j m) ≡ find k m
  unfolding find erase
  find-erase_other j k [] h = refl
  find-erase_other j k ((i, w) ∷ m) h = elim (Bool-cases (eqz i j)) [
    | inl e ↦ rw (e, eqz_sound i j e, h) (find-erase_other j k m h)
    | inr e ↦ rw e (ap (λ o. if eqz i k then some w else o) (find-erase_other j k m h))
  ]
