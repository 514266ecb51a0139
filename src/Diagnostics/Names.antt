-- ===== src/Diagnostics/Names.antt =====
-- The results of the checks, by their names.
use litedroid.Base.{
  arith, ◌≡◌, refl, ap, subst, String, Outcome, ok, err, panic, out_of_fuel, List, [], ◌∷◌, map,
}
use litedroid.Action.{Action, gets}
use litedroid.Action.Rules.{Ends, Ends-bind, Ends-known, Ends-pure}
use litedroid.Host.{Host}
use litedroid.Diagnostics.{DiagnosticResult, Probes}
use litedroid.Diagnostics.Checks.{
  either, on_call, kernel_report, arch_report, virtualization_report, api_report, ram_report,
  disk_report, gpu_report, network_report, adb_report, check_kernel_version, check_cpu_arch,
  check_cpu_virtualization, check_kvm_availability, check_kvm_api_version, check_available_ram,
  check_disk_space, check_gpu_info, check_network_namespace, check_adb_in_path, run_all, all_checks,
  space_report, run_diagnostics,
}

abbrev pub check_names : List String
check_names =
    "Kernel Version" ∷ "CPU Architecture" ∷ "CPU Virtualization" ∷ "KVM Availability"
    ∷ "KVM API Version" ∷ "Available RAM" ∷ "Disk Space" ∷ "GPU Info" ∷ "Network Namespace"
    ∷ "ADB in PATH" ∷ []

module _ {W : Type 0} (host : Host W) (probes : Probes W) where
  -- A check gives results of one name.
  abbrev Named : String → Action W String DiagnosticResult → Type 0
  Named name check = Ends (λ r w. r.name ≡ name) check

  either-name :
      {A : Type 0} {name : String} (f : A → DiagnosticResult) (g : String → DiagnosticResult)
      (o : Outcome String A) (r : DiagnosticResult)
      → ((a : A) → (f a).name ≡ name)
      → ((e : String) → (g e).name ≡ name)
      → either f g o ≡ ok r
      → r.name ≡ name
  unfolding either
  either-name {name = name} f g (ok a) r hf hg e =
      let same : f a ≡ r = cc in subst (λ (x : DiagnosticResult). x.name ≡ name) same (hf a)
  either-name {name = name} f g (err x) r hf hg e =
      let same : g x ≡ r = cc in subst (λ (x : DiagnosticResult). x.name ≡ name) same (hg x)
  either-name f g panic r hf hg e = cc
  either-name f g out_of_fuel r hf hg e = cc

  on_call-Named :
      {A : Type 0} (name : String) (m : Action W String A) (f : A → DiagnosticResult)
      (g : String → DiagnosticResult)
      → ((a : A) → (f a).name ≡ name)
      → ((e : String) → (g e).name ≡ name)
      → Named name (on_call host probes m f g)
  unfolding on_call either
  on_call-Named name m f g hf hg = record {
    at = λ w w' r e. either-name f g (m w).0 r hf hg (ap (λ p. p.0) e);
  }

  gets-Named :
      (name : String) (f : W → DiagnosticResult)
      → ((w : W) → (f w).name ≡ name)
      → Named name (gets f)
  unfolding gets
  gets-Named name f h = record {
    at = λ w w' r e.
        let same : f w ≡ r = cc in subst (λ (x : DiagnosticResult). x.name ≡ name) same (h w);
  }

  kernel-Named : Named "Kernel Version" (check_kernel_version host probes)
  unfolding check_kernel_version kernel_report
  kernel-Named = on_call-Named _ _ _ _ (λ a. refl) (λ e. refl)

  arch-Named : Named "CPU Architecture" (check_cpu_arch host probes)
  unfolding check_cpu_arch arch_report
  arch-Named = gets-Named _ _ (λ w. ground arith)

  virtualization-Named : Named "CPU Virtualization" (check_cpu_virtualization host probes)
  unfolding check_cpu_virtualization virtualization_report
  virtualization-Named = on_call-Named _ _ _ _ (λ a. ground arith) (λ e. refl)

  kvm-Named : Named "KVM Availability" (check_kvm_availability host probes)
  unfolding check_kvm_availability
  kvm-Named = on_call-Named _ _ _ _ (λ a. refl) (λ e. refl)

  ram-Named : Named "Available RAM" (check_available_ram host probes)
  unfolding check_available_ram ram_report
  ram-Named = on_call-Named _ _ _ _ (λ a. ground arith) (λ e. refl)

  gpu-Named : Named "GPU Info" (check_gpu_info host probes)
  unfolding check_gpu_info gpu_report
  gpu-Named = on_call-Named _ _ _ _ (λ a. refl) (λ e. refl)

  network-Named : Named "Network Namespace" (check_network_namespace host probes)
  unfolding check_network_namespace network_report
  network-Named = gets-Named _ _ (λ w. ground arith)

  adb-Named : Named "ADB in PATH" (check_adb_in_path host probes)
  unfolding check_adb_in_path adb_report
  adb-Named = on_call-Named _ _ _ _ (λ a. ground arith) (λ e. refl)

  version-Named : Named "KVM API Version" (check_kvm_api_version host probes)
  unfolding check_kvm_api_version api_report
  version-Named = record {
    at = λ w w' r e.
        either-name
          (λ _. api_report host probes (probes.kvm_api_version (probes.open_file "/dev/kvm" w).1)) _
          (probes.open_file "/dev/kvm" w).0 r (λ _. ground arith) (λ x. refl) (ap (λ p. p.0) e);
  }

  space-name : (w : W) → (space_report host probes w).name ≡ "Disk Space"
  unfolding space_report disk_report
  space-name w = ground arith

  disk-Named : Named "Disk Space" (check_disk_space host probes)
  unfolding check_disk_space
  disk-Named = search (Ends-bind, gets-Named, space-name)

  abbrev AllNamed : List String → List (Action W String DiagnosticResult) → Type 0
  AllNamed [] [] = Unit
  AllNamed [] (check ∷ checks) = ⊥
  AllNamed (name ∷ names) [] = ⊥
  AllNamed (name ∷ names) (check ∷ checks) = Named name check × AllNamed names checks

  run_all-names :
      (names : List String) (checks : List (Action W String DiagnosticResult))
      → AllNamed names checks
      → Ends
          (λ results w. map (λ (r : DiagnosticResult). r.name) results ≡ names)
          (run_all host probes checks)
  unfolding run_all
  run_all-names [] [] h = Ends-pure _ (λ w. refl)
  run_all-names [] (check ∷ checks) h = absurd h
  run_all-names (name ∷ names) [] h = absurd h
  run_all-names (name ∷ names) (check ∷ checks) (h, hs) = Ends-known check _ h (λ r e.
      Ends-known (run_all host probes checks) _ (run_all-names names checks hs)
        (λ rs es. Ends-pure _ (λ w. rw (e, es) refl)))

  -- The diagnostics, when they give results, give ten, under these names in this order.
  pub run_diagnostics-names :
      (w w' : W) (results : List DiagnosticResult)
      → run_diagnostics host probes w ≡ (ok results, w')
      → map (λ (r : DiagnosticResult). r.name) results ≡ check_names
  unfolding run_diagnostics all_checks
  run_diagnostics-names w w' results e =
      (run_all-names check_names (all_checks host probes) (
        kernel-Named,
        (
          arch-Named,
          (
            virtualization-Named,
            (
              kvm-Named,
              (
                version-Named,
                (ram-Named, (disk-Named, (gpu-Named, (network-Named, (adb-Named, tt))))),
              ),
            ),
          ),
        ),
      )).at
        w w' results e
