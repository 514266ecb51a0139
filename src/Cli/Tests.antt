-- ===== src/Cli/Tests.antt =====
-- apps/cli/src/main.rs on a concrete host, and in front of a daemon whose emulator runs.
use litedroid.Base.{
  ℕ, ◌<◌, ◌^◌, ◌≡◌, ◌≢◌, All, refl, arith, if◌then◌else◌, ◌==◌, String, ok, err, none, some, List,
  [], ◌∷◌, true, false,
}
use litedroid.Action.{pure}
use litedroid.Action.Rules.{Keeps-pure}
use litedroid.Core.Device.{DeviceConfig}
use litedroid.Core.Error.{config_error}
use litedroid.Host.{JsonValue}
use litedroid.Host.Blank.{blank}
use litedroid.Config.{Toml, default_config}
use litedroid.Config.Device.{default_device_config, device_config}
use litedroid.Config.Fields.{IsSized, overlaid}
use litedroid.Config.FullDisk.{holding, holding-IsJson, full_machine, full_machine-IsFiles}
use litedroid.Diagnostics.{DiagnosticResult, Probes}
use litedroid.Diagnostics.Checks.{
  run_diagnostics, check_kernel_version, check_cpu_arch, check_cpu_virtualization,
  check_kvm_availability, check_kvm_api_version, check_available_ram, check_disk_space,
  check_gpu_info, check_network_namespace, check_adb_in_path,
}
use litedroid.Daemon.Machine.{
  Machine, Doc, machine, is_living, machine-IsProcesses, machine-IsWaitable, doc, config,
  config-IsQuiet, busy,
}
use litedroid.Daemon.State.{Session}
use litedroid.Daemon.Held.{IsIdle}
use litedroid.Daemon.Method.{method_of, other}
use litedroid.Cli.{Cli, Console}
use litedroid.Cli.Doctor.{cmd_doctor, cmd_doctor-code, has_error}
use litedroid.Cli.Devices.{Files, cli_fields, parse_size, save_device, created}
use litedroid.Cli.Commands.{Ipc, main}
use litedroid.Cli.Known.{main_known}
use litedroid.Cli.Known.Local.{IsSilent}
use litedroid.Cli.Created.{save_device-device_config, save_device-refused}
use litedroid.Cli.Daemon.{over_socket, stop_command}

abbrev toml : Toml
toml = record { from_str = λ s. ok default_config; to_string_pretty = λ c. ok "" }

abbrev probes : {W : Type 0} → Probes W
probes = record {
  uname = λ w. none;
  open_file = λ path. pure tt;
  kvm_api_version = λ w. some 12;
  statvfs = λ w path. none;
  netlink_socket = λ w. true;
}

abbrev files : {W : Type 0} → Files W
files = record {
  read_dir = λ w path. [];
  remove_dir_all = λ path. pure tt;
  parse_u32 = λ s. none;
  show_global = λ g. ok "";
}

abbrev at : {W : Type 0} → W → Console W
at w = record { system = w; out = []; errors = [] }

-- The machine's name is not known, and no CPU virtualization is found.
abbrev results : List DiagnosticResult
results = elim (run_diagnostics {W = Unit {0}} blank probes tt).0 [ ok found ↦ found | _ ↦ [] ]

runs : run_diagnostics {W = Unit {0}} blank probes tt ≡ (ok results, tt)
unfolding run_diagnostics check_kernel_version check_cpu_arch check_cpu_virtualization
    check_kvm_availability check_kvm_api_version check_available_ram check_disk_space check_gpu_info
    check_network_namespace check_adb_in_path
runs = refl

cmd_doctor-code_example :
    (c : Console (Unit {0})) × (cmd_doctor blank probes (at tt)
      ≡ (ok (if has_error results then 1 else 0), c))
cmd_doctor-code_example = cmd_doctor-code blank probes (at tt) results tt runs

-- The host knows what was asked of the daemon, which does not answer.
abbrev AllKnown : List String → Type 0
AllKnown = All (λ method. method_of method ≢ other)

abbrev asking : Ipc (List String) Doc
asking method params asked = (none, method ∷ asked)

blank-IsSilent : IsSilent {W = List String} blank probes files AllKnown
blank-IsSilent = record {
  create_dir_keeps = λ p. Keeps-pure _;
  write_keeps = λ p bytes. Keeps-pure _;
  read_keeps = λ p. Keeps-pure _;
  output_keeps = λ p args. Keeps-pure _;
  daemon_keeps = λ c e. Keeps-pure _;
  open_keeps = λ p. Keeps-pure _;
  remove_keeps = λ p. Keeps-pure _;
}

main_known_example :
    AllKnown (main blank doc toml files probes asking "1" "u" Cli.stop (at [])).1.system
main_known_example =
    main_known blank doc toml files probes "u" AllKnown blank-IsSilent asking "1"
      (λ method params asked known h. (known, h)) Cli.stop (at []) tt

-- The emulator that the daemon holds is the only one that runs.
abbrev held : Session Machine
held = record busy { world = record { next = 8; living = λ d. d == 7 } }

stop_command_example :
    ((main
        (blank {W = Session Machine})
        doc
        toml
        files
        probes
        (over_socket machine doc config blank toml files probes "1" "u")
        "1"
        "u"
        Cli.stop
        (at held)).0
      ≡ ok 0)
    × IsIdle is_living
        (main
          (blank {W = Session Machine})
          doc
          toml
          files
          probes
          (over_socket machine doc config blank toml files probes "1" "u")
          "1"
          "u"
          Cli.stop
          (at held)).1.system
stop_command_example =
    stop_command machine doc config blank toml files probes "1" "u" is_living machine-IsProcesses
      machine-IsWaitable config-IsQuiet (at held) (λ d l. ground arith)

abbrev pixel : ℕ → DeviceConfig
pixel ram = created full_machine doc toml files "u" "pixel" none none (some ram) none

abbrev pixel_doc : ℕ → JsonValue Doc
pixel_doc ram =
    holding (doc.object (cli_fields full_machine doc toml files "u" default_config (pixel ram)))

pixel-IsSized : (ram : ℕ) → ram < 2 ^ 64 → IsSized (pixel ram)
unfolding created parse_size
pixel-IsSized ram h = record {
  vcpus = omega arith;
  ram = h;
  level = omega arith;
  width = omega arith;
  height = omega arith;
  dpi = omega arith;
}

abbrev disk : Machine
disk = record { next = 5; living = λ d. false }

abbrev after : ℕ → Console Machine
after ram =
    (save_device full_machine (pixel_doc ram) toml files "u" (pixel ram) default_config (at disk)).1

saves :
    (ram : ℕ)
    → save_device full_machine (pixel_doc ram) toml files "u" (pixel ram) default_config (at disk)
      ≡ (ok 0, after ram)
unfolding save_device pure
saves ram = refl

save_device-device_config_example :
    device_config full_machine (pixel_doc 1024) "v" default_config "pixel" disk
    ≡ (ok (overlaid (pixel 1024) (default_device_config full_machine "v" default_config)), disk)
unfolding created cli_fields save_device
save_device-device_config_example =
    save_device-device_config full_machine (pixel_doc 1024) toml files "u" (holding-IsJson _)
      full_machine-IsFiles default_config (pixel 1024) "v" (at disk) (after 1024)
      (pixel-IsSized 1024 (omega arith)) (λ s e. refl) (saves 1024) (omega arith) (omega arith)
      (omega arith)

save_device-refused_example :
    (c' : Console Machine) × (e : String) × (save_device full_machine
        (pixel_doc 256)
        toml
        files
        "u"
        (pixel 256)
        default_config
        (at disk)
      ≡ (ok 0, c'))
    × (device_config full_machine (pixel_doc 256) "v" default_config "pixel" c'.system
        ≡ (err (config_error e), c'.system))
unfolding created cli_fields pure
save_device-refused_example =
    save_device-refused full_machine (pixel_doc 256) toml files "u" (holding-IsJson _)
      full_machine-IsFiles default_config (pixel 256) "v" _ (at disk)
      (pixel-IsSized 256 (omega arith)) refl (λ w. refl) (λ s e. refl) (omega arith)
