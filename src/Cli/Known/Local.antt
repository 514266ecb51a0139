-- ===== src/Cli/Known/Local.antt =====
-- apps/cli/src/main.rs: what the commands do to the host themselves, without the daemon.
use litedroid.Base.{ℕ, ◌≡◌, String, Bool, Outcome, ok, err, panic, out_of_fuel, List, [], ◌∷◌}
use litedroid.Action.{Action, attempt, modify}
use litedroid.Action.Rules.{Keeps, keeps_rules, Keeps-bind}
use litedroid.Core.Error.{LiteDroidError}
use litedroid.Host.{Host, JsonValue, Command}
use litedroid.Config.{Toml, LiteDroidConfig, io, ensure_layout, load_file, load}
use litedroid.Diagnostics.{DiagnosticResult, Probes}
use litedroid.Diagnostics.Checks.{
  on_call, check_kernel_version, check_cpu_arch, check_cpu_virtualization, check_kvm_availability,
  check_kvm_api_version, check_available_ram, check_disk_space, check_gpu_info,
  check_network_namespace, check_adb_in_path, run_all, all_checks, run_diagnostics,
}
use litedroid.Cli.{DeviceAction, Console, println, eprintln, on_system}
use litedroid.Cli.Doctor.{Tally, print_results, verdict, cmd_doctor}
use litedroid.Cli.Devices.{
  Files, on_loaded, with_config, cmd_config, print_device, on_metadata, on_content, print_devices,
  list_devices, cmd_devices, finish, save_device, remove_device, cmd_device,
}
use litedroid.Cli.Logs.{print_lines, on_log, print_logs, show_logs, cmd_logs}

-- The calls of the host that the commands make keep `P`.
pub record IsSilent {W : Type 0} (host : Host W) (probes : Probes W) (files : Files W)
    (P : W → Type 0) : Type 0 where
  pub create_dir_keeps : (p : String) → Keeps P (host.create_dir_all p)
  pub write_keeps : (p : String) (bytes : List ℕ) → Keeps P (host.write p bytes)
  pub read_keeps : (p : String) → Keeps P (host.read_to_string p)
  pub output_keeps : (p : String) (args : List String) → Keeps P (host.output p args)
  pub daemon_keeps : (c : Command) → c.program ≡ "litedroid-daemon" → Keeps P (host.spawn c)
  pub open_keeps : (p : String) → Keeps P (probes.open_file p)
  pub remove_keeps : (p : String) → Keeps P (files.remove_dir_all p)

module _ {W V : Type 0} (host : Host W) (json : JsonValue V) (toml : Toml) (files : Files W)
    (probes : Probes W) (uuid : String) (P : W → Type 0)
    (silent : IsSilent host probes files P) where
  -- The console of a host in `P`.
  pub record On (c : Console W) : Type 0 where
    pub holds : P c.system

  pub println-Keeps : (line : String) → Keeps On (println line)
  unfolding println modify
  println-Keeps line = record { at = λ c h. record { holds = h.holds } }

  pub eprintln-Keeps : (line : String) → Keeps On (eprintln line)
  unfolding eprintln modify
  eprintln-Keeps line = record { at = λ c h. record { holds = h.holds } }

  pub on_system-Keeps : {E A : Type 0} (m : Action W E A) → Keeps P m → Keeps On (on_system m)
  unfolding on_system
  on_system-Keeps m k = record { at = λ c h. record { holds = k.at c.system h.holds } }

  create_dir-Keeps : (p : String) → Keeps P (host.create_dir_all p)
  create_dir-Keeps = silent.create_dir_keeps

  read-Keeps : (p : String) → Keeps P (host.read_to_string p)
  read-Keeps = silent.read_keeps

  write-Keeps : (p : String) (bytes : List ℕ) → Keeps P (host.write p bytes)
  write-Keeps = silent.write_keeps

  remove-Keeps : (p : String) → Keeps P (files.remove_dir_all p)
  remove-Keeps = silent.remove_keeps

  layout-Keeps : (c : LiteDroidConfig) → Keeps P (ensure_layout host c)
  unfolding ensure_layout io
  layout-Keeps c = search (keeps_rules, create_dir-Keeps) depth 16

  load_file-Keeps : (path : String) → Keeps P (load_file host toml path)
  unfolding load_file io
  load_file-Keeps path = search (keeps_rules, read-Keeps, layout-Keeps) depth 9

  load-Keeps : Keeps P (load host toml)
  unfolding load
  load-Keeps = search (keeps_rules, load_file-Keeps, layout-Keeps) depth 9

  on_call-Keeps :
      {A : Type 0} (m : Action W String A) (f : A → DiagnosticResult)
      (g : String → DiagnosticResult)
      → Keeps P m
      → Keeps P (on_call host probes m f g)
  unfolding on_call
  on_call-Keeps m f g k = record { at = k.at }

  open-Keeps : (p : String) → Keeps P (probes.open_file p)
  open-Keeps = silent.open_keeps

  output-Keeps : (p : String) (args : List String) → Keeps P (host.output p args)
  output-Keeps = silent.output_keeps

  version-Keeps : Keeps P (check_kvm_api_version host probes)
  unfolding check_kvm_api_version
  version-Keeps = record { at = (open-Keeps "/dev/kvm").at }

  diagnostics-Keeps : Keeps P (run_diagnostics host probes)
  unfolding run_diagnostics run_all all_checks check_kernel_version check_cpu_arch
      check_cpu_virtualization check_kvm_availability check_available_ram check_disk_space
      check_gpu_info check_network_namespace check_adb_in_path
  diagnostics-Keeps =
      search
        (
          keeps_rules, on_call-Keeps, version-Keeps, read-Keeps, open-Keeps, output-Keeps,
          create_dir-Keeps,
        )
        depth 24

  results_keep : (results : List DiagnosticResult) (t : Tally) → Keeps On (print_results results t)
  unfolding print_results
  results_keep [] t = search keeps_rules
  results_keep (r ∷ results) t =
      let rest = results_keep results in search (keeps_rules, println-Keeps, rest)

  verdict-Keeps : (t : Tally) → Keeps On (verdict t)
  unfolding verdict
  verdict-Keeps t = search (keeps_rules, println-Keeps) depth 9

  pub doctor-Keeps : Keeps On (cmd_doctor host probes)
  unfolding cmd_doctor
  doctor-Keeps =
      search
        (
          keeps_rules, println-Keeps, on_system-Keeps, diagnostics-Keeps, results_keep,
          verdict-Keeps,
        )
        depth 12

  on_loaded-Keeps :
      (next : LiteDroidConfig → Action (Console W) String ℕ)
      (found : Outcome LiteDroidError LiteDroidConfig)
      → ((config : LiteDroidConfig) → Keeps On (next config))
      → Keeps On (on_loaded host json toml files uuid next found)
  unfolding on_loaded
  on_loaded-Keeps next (ok config) k = k config
  on_loaded-Keeps next (err e) k = search (keeps_rules, eprintln-Keeps)
  on_loaded-Keeps next panic k = search keeps_rules
  on_loaded-Keeps next out_of_fuel k = search keeps_rules

  with_config-Keeps :
      (next : LiteDroidConfig → Action (Console W) String ℕ)
      → ((config : LiteDroidConfig) → Keeps On (next config))
      → Keeps On (with_config host json toml files uuid next)
  unfolding with_config
  with_config-Keeps next k =
      search (keeps_rules, on_system-Keeps, load-Keeps, on_loaded-Keeps, k) depth 9

  pub config-Keeps : Keeps On (cmd_config host json toml files uuid)
  unfolding cmd_config
  config-Keeps = search (keeps_rules, with_config-Keeps, println-Keeps) depth 9

  metadata-Keeps :
      (found : Bool) (m : Outcome String V)
      → Keeps On (on_metadata host json toml files uuid found m)
  unfolding on_metadata print_device
  metadata-Keeps found (ok m) = search (keeps_rules, println-Keeps) depth 12
  metadata-Keeps found (err e) = search keeps_rules
  metadata-Keeps found panic = search keeps_rules
  metadata-Keeps found out_of_fuel = search keeps_rules

  on_content-Keeps :
      (found : Bool) (content : Outcome String String)
      → Keeps On (on_content host json toml files uuid found content)
  unfolding on_content
  on_content-Keeps found (ok content) = search metadata-Keeps
  on_content-Keeps found (err e) = search keeps_rules
  on_content-Keeps found panic = search keeps_rules
  on_content-Keeps found out_of_fuel = search keeps_rules

  print_devices-Keeps :
      (entries : List String) (found : Bool)
      → Keeps On (print_devices host json toml files uuid entries found)
  unfolding print_devices
  print_devices-Keeps [] found = search keeps_rules
  print_devices-Keeps (entry ∷ entries) found =
      let rest = print_devices-Keeps entries in
      search (keeps_rules, on_system-Keeps, read-Keeps, on_content-Keeps, rest) depth 9

  pub devices-Keeps : Keeps On (cmd_devices host json toml files uuid)
  unfolding cmd_devices list_devices
  devices-Keeps =
      search (keeps_rules, with_config-Keeps, println-Keeps, print_devices-Keeps) depth 12

  finish-Keeps :
      (line : String) (r : Outcome String (Unit {0}))
      → Keeps On (finish host json toml files uuid line r)
  unfolding finish
  finish-Keeps line (ok u) = search (keeps_rules, println-Keeps)
  finish-Keeps line (err e) = search (keeps_rules, eprintln-Keeps)
  finish-Keeps line panic = search keeps_rules
  finish-Keeps line out_of_fuel = search keeps_rules

  pub device-Keeps :
      (action : DeviceAction) → Keeps On (cmd_device host json toml files uuid action)
  unfolding cmd_device save_device remove_device
  device-Keeps (DeviceAction.create name resolution dpi ram cpu) =
      search
        (
          keeps_rules, with_config-Keeps, on_system-Keeps, create_dir-Keeps, write-Keeps,
          finish-Keeps,
        )
        depth 14
  device-Keeps (DeviceAction.delete name) =
      search (keeps_rules, with_config-Keeps, on_system-Keeps, remove-Keeps, finish-Keeps) depth 12

  print_lines-Keeps : (lines : List String) → Keeps On (print_lines host json toml files uuid lines)
  unfolding print_lines
  print_lines-Keeps [] = search keeps_rules
  print_lines-Keeps (line ∷ lines) =
      Keeps-bind (println line) _ (println-Keeps line) (λ _. print_lines-Keeps lines)

  on_log-Keeps :
      (path : String) (content : Outcome String String)
      → Keeps On (on_log host json toml files uuid path content)
  unfolding on_log
  on_log-Keeps path (ok content) = search (keeps_rules, println-Keeps, print_lines-Keeps)
  on_log-Keeps path (err e) = search keeps_rules
  on_log-Keeps path panic = search keeps_rules
  on_log-Keeps path out_of_fuel = search keeps_rules

  print_logs-Keeps :
      (entries : List String) → Keeps On (print_logs host json toml files uuid entries)
  unfolding print_logs
  print_logs-Keeps [] = search keeps_rules
  print_logs-Keeps (entry ∷ entries) =
      let read : Keeps On (attempt {F = String} (on_system (host.read_to_string entry))) =
        search (keeps_rules, on_system-Keeps, read-Keeps) in
      Keeps-bind (attempt (on_system (host.read_to_string entry))) _ read (λ content.
        Keeps-bind (on_log host json toml files uuid entry content) _ (on_log-Keeps entry content)
          (λ _. print_logs-Keeps entries))

  pub logs-Keeps : Keeps On (cmd_logs host json toml files uuid)
  unfolding cmd_logs show_logs
  logs-Keeps = search (keeps_rules, with_config-Keeps, println-Keeps, print_logs-Keeps) depth 12
