-- ===== src/Diagnostics/Checks.antt =====
-- crates/diagnostics/src/lib.rs: the checks, in the order in which they run.
use Prim.Native.Char.{code}
use litedroid.Base.{
  ℕ, ◌*◌, ◌/◌, String, ◌<>◌, ◌=t◌, show, ◌==◌, leb, Bool, true, false, ◌||◌, if◌then◌else◌, wrap64,
  Outcome, ok, err, panic, out_of_fuel, Option, none, some, List, [], ◌∷◌,
}
use litedroid.Action.{Action, pure, gets, attempt, ◌>>=◌}
use litedroid.Core.Constants.{default_data_dir}
use litedroid.Config.{below_home}
use litedroid.Host.{Host, Output}
use litedroid.Diagnostics.{
  DiagnosticStatus, warn, error, DiagnosticResult, Statvfs, Probes, strip_prefix,
}
use litedroid.Diagnostics

-- A result, by its fields.
abbrev pub report : String → DiagnosticStatus → String → Option String → DiagnosticResult
report name status message details = record {
  name = name;
  status = status;
  message = message;
  details = details;
}

abbrev pub good : DiagnosticStatus
good = Diagnostics.ok

-- The arms of a match on a call that ended.
unfoldable pub either :
    {A : Type 0}
    → (A → DiagnosticResult)
    → (String → DiagnosticResult)
    → Outcome String A
    → Outcome String DiagnosticResult
either f g (ok a) = ok (f a)
either f g (err e) = ok (g e)
either f g panic = panic
either f g out_of_fuel = out_of_fuel

abbrev pub first_or : String → List String → String
first_or other [] = other
first_or other (a ∷ rest) = a

-- The smallest status by two thresholds.
unfoldable pub grade : (low high n : ℕ) → DiagnosticStatus
grade low high n = if leb high n then good else if leb low n then warn else error

unfoldable pub gpu_vendor : String → String
gpu_vendor vendor =
    if vendor =t "0x8086"
    then "Intel"
    else if vendor =t "0x10de"
    then "NVIDIA"
    else if vendor =t "0x1002"
    then "AMD"
    else "Unknown"

unfoldable pub has_nul : String → Bool
has_nul String.[] = false
has_nul (String.◌∷◌ c s) = code c == 0 || has_nul s

module _ {W : Type 0} (host : Host W) (probes : Probes W) where
  -- A match on a call.
  unfoldable pub on_call :
      {A : Type 0}
      → Action W String A
      → (A → DiagnosticResult)
      → (String → DiagnosticResult)
      → Action W String DiagnosticResult
  unfolding either
  on_call m f g w = let (r, w) = m w in (either f g r, w)

  unfoldable pub kernel_report : String → DiagnosticResult
  kernel_report content =
      let version = host.trim content in
      report "Kernel Version" good (first_or "unknown" (host.split_whitespace version))
        (some version)

  unfoldable pub check_kernel_version : Action W String DiagnosticResult
  unfolding on_call kernel_report
  check_kernel_version =
      on_call (host.read_to_string "/proc/version") kernel_report
        (λ e. report "Kernel Version" error "failed to read /proc/version" (some e))

  unfoldable pub arch_report : Option String → DiagnosticResult
  arch_report (some machine) =
      report "CPU Architecture" good machine (some ("uname -m: " <> machine))
  arch_report none = report "CPU Architecture" error "uname failed" none

  unfoldable pub check_cpu_arch : Action W String DiagnosticResult
  unfolding arch_report gets
  check_cpu_arch = gets (λ w. arch_report (probes.uname w))

  unfoldable pub virtualization_report : String → DiagnosticResult
  virtualization_report content =
      if host.contains content "vmx"
      then report "CPU Virtualization" good "Intel VT-x (vmx) supported" none
      else if host.contains content "svm"
      then report "CPU Virtualization" good "AMD-V (svm) supported" none
      else report "CPU Virtualization" error "no CPU virtualization support detected" none

  unfoldable pub check_cpu_virtualization : Action W String DiagnosticResult
  unfolding on_call virtualization_report
  check_cpu_virtualization =
      on_call (host.read_to_string "/proc/cpuinfo") virtualization_report
        (λ e. report "CPU Virtualization" error "failed to read /proc/cpuinfo" (some e))

  unfoldable pub check_kvm_availability : Action W String DiagnosticResult
  unfolding on_call
  check_kvm_availability =
      on_call (probes.open_file "/dev/kvm")
        (λ _. report "KVM Availability" good "/dev/kvm is accessible" none)
        (λ e. report "KVM Availability" error "/dev/kvm not accessible" (some e))

  unfoldable pub api_report : Option ℕ → DiagnosticResult
  api_report (some version) =
      report "KVM API Version" good ("KVM API version " <> show version) none
  api_report none =
      report "KVM API Version" error "KVM_GET_API_VERSION ioctl failed" (some "ioctl returned -1")

  unfoldable pub check_kvm_api_version : Action W String DiagnosticResult
  unfolding on_call api_report
  check_kvm_api_version w =
      let (r, w) = probes.open_file "/dev/kvm" w in
      (
        either (λ _. api_report (probes.kvm_api_version w))
            (λ e. report "KVM API Version" warn "skipped (KVM not available)" (some e)) r,
        w,
      )

  -- `parse().unwrap_or(0)`.
  abbrev pub or_zero : Option ℕ → ℕ
  or_zero none = 0
  or_zero (some n) = n

  abbrev pub first_number : List String → Option ℕ
  first_number [] = none
  first_number (kb ∷ rest) = some (or_zero (host.parse_u64 kb))

  -- The loop over the lines, which ends at the line of `MemAvailable:`.
  unfoldable pub mem_available : List String → Option ℕ
  unfolding strip_prefix
  mem_available [] = none
  mem_available (line ∷ lines) =
      let later = mem_available lines in
      elim (strip_prefix "MemAvailable:" line) [
        | some rest ↦ first_number (host.split_whitespace rest)
        | none ↦ later
      ]

  unfoldable pub ram_report : Option ℕ → DiagnosticResult
  unfolding grade
  ram_report (some available_kb) =
      let available_mb = available_kb / 1024 in
      report "Available RAM" (grade 512 2048 available_mb) (show available_mb <> " MB available")
        (some (show available_kb <> " kB"))
  ram_report none = report "Available RAM" warn "MemAvailable not found in /proc/meminfo" none

  unfoldable pub check_available_ram : Action W String DiagnosticResult
  unfolding on_call ram_report mem_available
  check_available_ram =
      on_call (host.read_to_string "/proc/meminfo")
        (λ content. ram_report (mem_available (host.lines content)))
        (λ e. report "Available RAM" error "failed to read /proc/meminfo" (some e))

  unfoldable pub expanded : Option String → Option String → String
  expanded none home = default_data_dir
  expanded (some rest) none = "/tmp"
  expanded (some rest) (some home) = home <> "/" <> rest

  unfoldable pub data_dir_str : String
  unfolding expanded below_home
  data_dir_str = expanded (below_home default_data_dir) host.home_dir

  -- The products are taken modulo 2 ^ 64.
  unfoldable pub disk_report : String → Option Statvfs → DiagnosticResult
  unfolding grade
  disk_report dir (some stat) =
      let total_gb = wrap64 (stat.f_blocks * stat.f_bsize) / 1073741824 in
      let available_gb = wrap64 (stat.f_bavail * stat.f_bsize) / 1073741824 in
      report "Disk Space" (grade 2 10 available_gb)
        (show available_gb <> " GB available (" <> show total_gb <> " GB total)")
        (some ("data dir: " <> dir))
  disk_report dir none = report "Disk Space" error "statvfs failed" none

  unfoldable pub space_report : W → DiagnosticResult
  unfolding disk_report data_dir_str has_nul
  space_report w =
      if has_nul data_dir_str
      then report "Disk Space" error "invalid data directory path" none
      else disk_report data_dir_str (probes.statvfs w data_dir_str)

  unfoldable pub check_disk_space : Action W String DiagnosticResult
  unfolding space_report attempt gets ◌>>=◌
  check_disk_space = do made ← attempt (host.create_dir_all data_dir_str); gets space_report

  unfoldable pub gpu_report : String → DiagnosticResult
  unfolding gpu_vendor
  gpu_report content =
      let vendor = host.trim content in
      report "GPU Info" good (gpu_vendor vendor <> " (" <> vendor <> ")") none

  unfoldable pub check_gpu_info : Action W String DiagnosticResult
  unfolding on_call gpu_report
  check_gpu_info =
      on_call (host.read_to_string "/sys/class/drm/card0/device/vendor") gpu_report
        (λ e. report "GPU Info" warn "GPU vendor not detected" (some e))

  unfoldable pub network_report : Bool → DiagnosticResult
  network_report true = report "Network Namespace" good "NETLINK socket created successfully" none
  network_report false =
      report "Network Namespace" warn "NETLINK socket creation failed (may need CAP_NET_ADMIN)" none

  unfoldable pub check_network_namespace : Action W String DiagnosticResult
  unfolding network_report gets
  check_network_namespace = gets (λ w. network_report (probes.netlink_socket w))

  unfoldable pub adb_report : Output → DiagnosticResult
  adb_report output =
      if output.success
      then report "ADB in PATH" good
          ("adb found: " <> host.trim (host.from_utf8_lossy output.stdout)) none
      else report "ADB in PATH" error "adb not found in PATH" none

  unfoldable pub check_adb_in_path : Action W String DiagnosticResult
  unfolding on_call adb_report
  check_adb_in_path =
      on_call (host.output "which" ("adb" ∷ [])) adb_report
        (λ e. report "ADB in PATH" error "failed to check for adb" (some e))

  -- The checks one after another, each pushed behind the results so far.
  unfoldable pub run_all :
      List (Action W String DiagnosticResult) → Action W String (List DiagnosticResult)
  unfolding ◌>>=◌
  run_all [] = pure []
  run_all (check ∷ checks) = do result ← check; results ← run_all checks; pure (result ∷ results)

  unfoldable pub all_checks : List (Action W String DiagnosticResult)
  all_checks =
      check_kernel_version ∷ check_cpu_arch ∷ check_cpu_virtualization ∷ check_kvm_availability
      ∷ check_kvm_api_version ∷ check_available_ram ∷ check_disk_space ∷ check_gpu_info
      ∷ check_network_namespace ∷ check_adb_in_path ∷ []

  unfoldable pub run_diagnostics : Action W String (List DiagnosticResult)
  unfolding run_all all_checks
  run_diagnostics = run_all all_checks
