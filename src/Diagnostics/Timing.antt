-- ===== src/Diagnostics/Timing.antt =====
-- TimingStat of src/common/sf4e__RollbackDiagnostics.cxx.
use sf4_netplay_launcher.Prelude.{ℕ, suc, ◌+◌, ◌%◌, ◌^◌, List, [], ◌∷◌, if◌then◌else◌}
use sf4_netplay_launcher.Diagnostics.{Double, bump, repeat}

abbrev pub num_buckets : ℕ
num_buckets = 10

abbrev pub num_hitch_thresholds : ℕ
num_hitch_thresholds = 5

pub record TimingStat (D : Type 0) : Type 0 where
  pub count : ℕ
  pub total_ms : D
  pub max_ms : D
  pub last_ms : D
  pub buckets : List ℕ
  pub hitch_counts : List ℕ

module _ {D : Type 0} (o : Double D) where
  abbrev pub bucket_upper_ms : List D
  bucket_upper_ms =
      o.hundredths 25
      ∷ o.hundredths 50
      ∷ o.hundredths 100
      ∷ o.hundredths 200
      ∷ o.hundredths 400
      ∷ o.hundredths 800
      ∷ o.hundredths 1667
      ∷ o.hundredths 3300
      ∷ o.hundredths 5000
      ∷ o.hundredths (10 ^ 302)
      ∷ []

  abbrev pub hitch_threshold_ms : List D
  hitch_threshold_ms =
      o.hundredths 1667
      ∷ o.hundredths 2500
      ∷ o.hundredths 3333
      ∷ o.hundredths 5000
      ∷ o.hundredths 10000
      ∷ []

  -- TimingStat::Reset
  unfoldable pub reset : TimingStat D
  reset = record {
    count = 0;
    total_ms = o.hundredths 0;
    max_ms = o.hundredths 0;
    last_ms = o.hundredths 0;
    buckets = repeat num_buckets 0;
    hitch_counts = repeat num_hitch_thresholds 0;
  }

  -- The loop over the thresholds.
  unfoldable pub count_hitches : D → List D → List ℕ → List ℕ
  count_hitches ms (t ∷ ts) (c ∷ cs) =
      (if o.le t ms then (c + 1) % 2 ^ 64 else c) ∷ count_hitches ms ts cs
  count_hitches ms _ cs = cs

  -- The loop over the bounds from index `i` on: the first bound above, else the last bucket.
  unfoldable pub bucket_of : D → List D → ℕ → ℕ
  bucket_of ms [] i = 9
  bucket_of ms (upper ∷ uppers) i =
      let rest = bucket_of ms uppers (suc i) in if o.lt ms upper then i else rest

  -- TimingStat::Record
  unfoldable pub record_time : TimingStat D → D → TimingStat D
  record_time s given =
      let ms = if o.lt given (o.hundredths 0) then o.hundredths 0 else given in
      record {
        count = (s.count + 1) % 2 ^ 64;
        total_ms = o.add s.total_ms ms;
        max_ms = if o.lt s.max_ms ms then ms else s.max_ms;
        last_ms = ms;
        buckets = bump 32 s.buckets (bucket_of ms bucket_upper_ms 0);
        hitch_counts = count_hitches ms hitch_threshold_ms s.hitch_counts;
      }
