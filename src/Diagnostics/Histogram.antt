-- ===== src/Diagnostics/Histogram.antt =====
-- The histogram of TimingStat in src/common/sf4e__RollbackDiagnostics.cxx.
use sf4_netplay_launcher.Prelude.{
  ℕ, zero, suc, ◌+◌, ◌%◌, ◌^◌, ◌≤◌, ◌<◌, ◌≡◌, refl, ◌∙◌, List, [], ◌∷◌, length, arith,
  if◌then◌else◌, Bool-cases, inl, inr,
}
use sf4_netplay_launcher.Diagnostics.{Double, bump}
use sf4_netplay_launcher.Diagnostics.Timing.{
  TimingStat, reset, bucket_of, record_time, bucket_upper_ms,
}

abbrev pub sum : List ℕ → ℕ
sum [] = 0
sum (c ∷ cs) = c + sum cs

pub length-bump : (w : ℕ) (cs : List ℕ) (i : ℕ) → length (bump w cs i) ≡ length cs
length-bump w [] i = refl
length-bump w (c ∷ cs) zero = refl
length-bump w (c ∷ cs) (suc i) = omega (arith, length-bump w cs i)

pub sum-bump :
    (cs : List ℕ) (i : ℕ) → i < length cs → sum (bump 32 cs i) % 2 ^ 32 ≡ (sum cs + 1) % 2 ^ 32
sum-bump [] i h = ground arith
sum-bump (c ∷ cs) zero h = omega arith
sum-bump (c ∷ cs) (suc i) h = omega (arith, sum-bump cs i (omega arith))

module _ {D : Type 0} (o : Double D) where
  bucket_of-lt :
      (ms : D) (uppers : List D) (i : ℕ) → i + length uppers ≤ 10 → bucket_of o ms uppers i < 10
  unfolding bucket_of
  bucket_of-lt ms [] i h = omega arith
  bucket_of-lt ms (u ∷ us) i h = elim (Bool-cases (o.lt ms u)) [
    | inl e ↦ rw e (omega arith)
    | inr e ↦ rw e (bucket_of-lt ms us (suc i) (omega arith))
  ]

  -- A TimingStat after a list of times, the newest first.
  abbrev pub recorded : List D → TimingStat D
  recorded [] = reset o
  recorded (ms ∷ times) = record_time o (recorded times) ms

  length-buckets : (times : List D) → length (recorded times).buckets ≡ 10
  unfolding reset record_time
  length-buckets [] = refl
  length-buckets (ms ∷ times) = length-bump 32 (recorded times).buckets _ ∙ length-buckets times

  -- After any times, the buckets add up to the count, both up to the wrap-around of a bucket: each time is in exactly one bucket.
  pub buckets-count :
      (times : List D) → sum (recorded times).buckets % 2 ^ 32 ≡ (recorded times).count % 2 ^ 32
  unfolding reset record_time
  buckets-count [] = refl
  buckets-count (ms ∷ times) =
      let i =
        bucket_of o (if o.lt ms (o.hundredths 0) then o.hundredths 0 else ms) (bucket_upper_ms o)
          0 in
      omega (
        arith,
        sum-bump (recorded times).buckets i
            (in_range i (bucket_of-lt _ (bucket_upper_ms o) 0 (omega arith))),
        buckets-count times,
      )
    where
      in_range : (i : ℕ) → i < 10 → i < length (recorded times).buckets
      in_range i h = omega (arith, length-buckets times)
