-- ===== src/Cli/Doctor.antt =====
-- apps/cli/src/main.rs: `cmd_doctor`, which prints the diagnostics and gives the exit code.
use litedroid.Base.{
  ℕ, suc, ◌+◌, ◌≤◌, ◌<◌, ◌^◌, ◌≡◌, refl, sym, ap, ◌∙◌, String, ◌<>◌, show, ltb, Bool, true, false,
  ◌||◌, if◌then◌else◌, ok, List, [], ◌∷◌, length, map, ◌++◌, wrap32, arith,
}
use litedroid.Action.{Action, pure, when, ◌>>=◌, ◌>>◌}
use litedroid.Host.{Host}
use litedroid.Diagnostics.{DiagnosticStatus, warn, error, DiagnosticResult, Probes, show_result}
use litedroid.Diagnostics
use litedroid.Diagnostics.Checks.{run_diagnostics}
use litedroid.Diagnostics.Names.{run_diagnostics-names}
use litedroid.Cli.{Console, println, on_system}

pub record Tally : Type 0 where
  pub errs : ℕ
  pub warns : ℕ

-- The two counters are `u32`.
unfoldable pub count_status : DiagnosticStatus → Tally → Tally
count_status Diagnostics.ok t = t
count_status warn t = record t { warns = wrap32 (t.warns + 1) }
count_status error t = record t { errs = wrap32 (t.errs + 1) }

module _ {W : Type 0} where
  unfoldable pub print_results : List DiagnosticResult → Tally → Action (Console W) String Tally
  unfolding println count_status show_result ◌>>=◌
  print_results [] t = pure t
  print_results (r ∷ results) t =
      println (show_result r) >> print_results results (count_status r.status t)

  unfoldable pub verdict : Tally → Action (Console W) String ℕ
  unfolding println when ◌>>=◌
  verdict t =
      when (ltb 0 t.errs)
        (println ("Result: " <> show t.errs <> " error(s), " <> show t.warns <> " warning(s)")
          >> pure 1)
        (when (ltb 0 t.warns) (println ("Result: " <> show t.warns <> " warning(s)") >> pure 0)
          (println "Result: all checks passed" >> pure 0))

  unfoldable pub cmd_doctor : Host W → Probes W → Action (Console W) String ℕ
  unfolding run_diagnostics on_system print_results verdict println ◌>>=◌
  cmd_doctor host probes = do
    println "LiteDroid System Diagnostics\n===========================\n"
    results ← on_system (run_diagnostics host probes)
    tally ← print_results results (record { errs = 0; warns = 0 })
    println ""
    verdict tally

length-map : {A B : Type 0} (f : A → B) (xs : List A) → length (map f xs) ≡ length xs
length-map f [] = refl
length-map f (x ∷ xs) = ap suc (length-map f xs)

is_error : DiagnosticStatus → Bool
is_error Diagnostics.ok = false
is_error warn = false
is_error error = true

-- Whether a result is an error.
unfoldable pub has_error : List DiagnosticResult → Bool
unfolding is_error
has_error [] = false
has_error (r ∷ results) = is_error r.status || has_error results

count-errs :
    (s : DiagnosticStatus) (t : Tally)
    → t.errs + 1 < 2 ^ 32
    → ((count_status s t).errs ≤ t.errs + 1)
      × (ltb 0 (count_status s t).errs ≡ (ltb 0 t.errs || is_error s))
unfolding count_status is_error
count-errs Diagnostics.ok t h = (omega arith, ground arith)
count-errs warn t h = (omega arith, ground arith)
count-errs error t h = (omega arith, ground arith)

module _ {W : Type 0} where
  -- Printing the results changes the lines only, and counts.
  printed :
      (results : List DiagnosticResult) (t : Tally) (c : Console W)
      → t.errs + length results < 2 ^ 32
      → (t' : Tally) × (c' : Console W) × (print_results results t c ≡ (ok t', c'))
        × (ltb 0 t'.errs ≡ (ltb 0 t.errs || has_error results))
  unfolding print_results ◌>>=◌ println has_error
  printed [] t c h = (t, c, refl, ground arith)
  printed (r ∷ results) t c h =
      let (small, counted) = count-errs r.status t (omega arith) in
      let (t', c', done, found) =
        printed results (count_status r.status t) (println (show_result r) c).1 (omega arith) in
      (t', c', done, ground arith)

  verdict_code :
      (t : Tally) (c : Console W)
      → (c' : Console W) × (verdict t c ≡ (ok (if ltb 0 t.errs then 1 else 0), c'))
  unfolding verdict when ◌>>=◌ println
  verdict_code t c = ((verdict t c).1, ground arith)

module _ {W : Type 0} (host : Host W) (probes : Probes W) where
  -- The command always finishes when the diagnostics do, and its exit code is 1 if one of the ten
  -- results is an error, and 0 if there are warnings only or none.
  pub cmd_doctor-code :
      (c : Console W) (results : List DiagnosticResult) (w : W)
      → run_diagnostics host probes c.system ≡ (ok results, w)
      → (c' : Console W) × (cmd_doctor host probes c
          ≡ (ok (if has_error results then 1 else 0), c'))
  unfolding cmd_doctor on_system println ◌>>=◌
  cmd_doctor-code c results w e =
      let ten : length results ≡ 10 =
        sym (length-map (λ (r : DiagnosticResult). r.name) results)
        ∙ ap length (run_diagnostics-names host probes c.system w results e) in
      let shown : Console W = record c {
        system = w;
        out = c.out ++ ("LiteDroid System Diagnostics\n===========================\n" ∷ []);
      } in
      let (t, c1, done, found) =
        printed results (record { errs = 0; warns = 0 }) shown (omega arith) in
      let (c2, ended) = verdict_code t (println "" c1).1 in
      (c2, rw (e, done, ended) (ap (λ (b : Bool). (ok (if b then 1 else 0), c2)) found))
