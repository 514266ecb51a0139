-- ===== src/Diagnostics/Thresholds.antt =====
-- What the checks of memory and disk space say of the amounts.
use litedroid.Base.{ℕ, ◌/◌, ◌≤◌, ◌<◌, ◌≡◌, ◌↔◌, refl, String, ok, some, arith}
use litedroid.Host.{Host}
use litedroid.Diagnostics.{DiagnosticStatus, error, DiagnosticResult, Probes}
use litedroid.Diagnostics.Checks.{
  good, grade, either, on_call, mem_available, ram_report, check_available_ram,
}

-- The status by two thresholds, of which the first is the lower one.
record Graded (low high n : ℕ) (status : DiagnosticStatus) : Type 0 where
  good_from : (status ≡ good) ↔ (high ≤ n)
  error_below : (status ≡ error) ↔ (n < low)

grade-Graded : (low high n : ℕ) → low ≤ high → Graded low high n (grade low high n)
unfolding grade
grade-Graded low high n h = record {
  good_from = (λ e. ground arith, λ p. ground arith);
  error_below = (λ e. ground arith, λ p. ground arith);
}

module _ {W : Type 0} (host : Host W) (probes : Probes W) where
  -- With `kb` kilobytes available by /proc/meminfo, the check of the memory is good from 2 GiB on,
  -- an error below 512 MiB, and a warning between.
  pub check_available_ram-graded :
      (content : String) (kb : ℕ) (w w' : W)
      → host.read_to_string "/proc/meminfo" w ≡ (ok content, w')
      → mem_available host probes (host.lines content) ≡ some kb
      → (r : DiagnosticResult) × (check_available_ram host probes w ≡ (ok r, w'))
        × ((r.status ≡ good) ↔ (2097152 ≤ kb))
        × ((r.status ≡ error) ↔ (kb < 524288))
  unfolding check_available_ram on_call either ram_report
  check_available_ram-graded content kb w w' reads found =
      let g = grade-Graded 512 2048 (kb / 1024) (omega arith) in
      (
        ram_report host probes (some kb),
        rw (reads, found) refl,
        (λ e. omega (arith, g.good_from.0 e), λ p. g.good_from.1 (omega arith)),
        (λ e. omega (arith, g.error_below.0 e), λ p. g.error_below.1 (omega arith)),
      )
