-- ===== src/Diagnostics.antt =====
-- src/common/sf4e__RollbackDiagnostics.hxx and .cxx: the counters of netplay telemetry. A `double` is
-- an abstract type with the operations that the code uses; `Timing` is TimingStat, `Recorder` the
-- main component.
pub mod Timing
pub mod Branches
pub mod Recorder
pub mod Histogram
pub mod History
pub mod Episodes
pub mod Bursts
use sf4_netplay_launcher.Prelude.{ℕ, zero, suc, ◌+◌, ◌%◌, ◌^◌, Bool, List, [], ◌∷◌}

-- What the code uses of `double`; a literal is given in hundredths.
pub record Double (D : Type 0) : Type 0 where
  pub hundredths : ℕ → D
  pub minus_one : D
  pub lt : D → D → Bool
  pub le : D → D → Bool
  pub eq : D → D → Bool
  pub add : D → D → D
  pub sub : D → D → D
  pub mul : D → D → D

-- `c[i]++` in an array of uint32_t or, with `w` 64, of uint64_t.
abbrev pub bump : ℕ → List ℕ → ℕ → List ℕ
bump w [] i = []
bump w (c ∷ cs) zero = ((c + 1) % 2 ^ w) ∷ cs
bump w (c ∷ cs) (suc i) = c ∷ bump w cs i

abbrev pub update_at {ℓ} : {A : Type ℓ} → (A → A) → List A → ℕ → List A
update_at f [] i = []
update_at f (x ∷ xs) zero = f x ∷ xs
update_at f (x ∷ xs) (suc i) = x ∷ update_at f xs i

abbrev pub repeat {ℓ} : {A : Type ℓ} → ℕ → A → List A
repeat zero x = []
repeat (suc n) x = x ∷ repeat n x
