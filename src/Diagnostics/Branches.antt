-- ===== src/Diagnostics/Branches.antt =====
-- A property of the result of a guard, of an index check and of the test for a due summary, for the
-- proofs about src/common/sf4e__RollbackDiagnostics.cxx.
use sf4_netplay_launcher.Prelude.{ℕ, Bool, true, false, Option, none, some, if◌then◌else◌}

module _ {ℓ κ} {A : Type ℓ} (P : A → Type κ) where
  pub if-holds : (b : Bool) (s t : A) → P s → P t → P (if b then s else t)
  if-holds true s t v w = v
  if-holds false s t v w = w

  pub elim-holds :
      (i : Option ℕ) (s : A) (f : ℕ → A)
      → P s
      → ((j : ℕ) → P (f j))
      → P (elim i [ none ↦ s | some j ↦ f j ])
  elim-holds none s f v w = v
  elim-holds (some j) s f v w = w j

  abbrev pub due : Bool → Bool → A → A → A × Bool
  due b c s t = if b then (s, false) else if c then (t, true) else (s, false)

  pub due-holds : (b c : Bool) (s t : A) → P s → P t → P (due b c s t).0
  due-holds true c s t v w = v
  due-holds false true s t v w = w
  due-holds false false s t v w = v
