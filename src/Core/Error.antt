-- ===== src/Core/Error.antt =====
-- crates/core/src/error.rs. A path and the text of an `io::Error` are texts.
use litedroid.Base.{ℕ, String, Outcome, ◌<>◌, show, show_hex}

pub data LiteDroidError : Type 0 where
  kvm_unavailable : String → LiteDroidError
  kvm_ioctl : String → LiteDroidError
  vm_creation_failed : String → LiteDroidError
  vcpu_creation_failed : (cpu_index : ℕ) (reason : String) → LiteDroidError
  vcpu_run_failed : (cpu_index : ℕ) (reason : String) → LiteDroidError
  memory_allocation_failed : (requested_mb available_mb : ℕ) → LiteDroidError
  memory_map_failed : String → LiteDroidError
  guest_address_out_of_range : (address : ℕ) → LiteDroidError
  disk_image_not_found : String → LiteDroidError
  disk_io : String → LiteDroidError
  kernel_not_found : String → LiteDroidError
  initramfs_not_found : String → LiteDroidError
  kernel_load_failed : String → LiteDroidError
  system_image_not_found : String → LiteDroidError
  adb_connection_failed : String → LiteDroidError
  adb_protocol_error : String → LiteDroidError
  adb_command_failed : String → LiteDroidError
  display_init_failed : String → LiteDroidError
  audio_init_failed : String → LiteDroidError
  network_interface_failed : String → LiteDroidError
  nat_setup_failed : String → LiteDroidError
  input_error : String → LiteDroidError
  ipc_connection_failed : String → LiteDroidError
  ipc_protocol_error : String → LiteDroidError
  daemon_not_running : String → LiteDroidError
  daemon_start_failed : String → LiteDroidError
  config_error : String → LiteDroidError
  device_not_found : String → LiteDroidError
  device_already_exists : String → LiteDroidError
  apk_not_found : String → LiteDroidError
  apk_install_failed : String → LiteDroidError
  apk_launch_failed : (package_name reason : String) → LiteDroidError
  abi_mismatch : (required provided : String) → LiteDroidError
  snapshot_error : String → LiteDroidError
  permission_denied : String → LiteDroidError
  os_error : String → LiteDroidError
  not_implemented : String → LiteDroidError
  unavailable : String → LiteDroidError

-- The crate's `Result<T>`, with the panics that a call may end in.
abbrev pub Result {ℓ} : Type ℓ → Type ℓ
Result A = Outcome LiteDroidError A

-- The `Display` that `thiserror` derives from the attributes of the variants.
unfoldable pub to_string : LiteDroidError → String
to_string (kvm_unavailable s) = "KVM unavailable: " <> s
to_string (kvm_ioctl s) = "KVM ioctl error: " <> s
to_string (vm_creation_failed s) = "VM creation failed: " <> s
to_string (vcpu_creation_failed cpu_index reason) =
    "vCPU creation failed (cpu_index=" <> show cpu_index <> "): " <> reason
to_string (vcpu_run_failed cpu_index reason) =
    "vCPU run failed (cpu_index=" <> show cpu_index <> "): " <> reason
to_string (memory_allocation_failed requested_mb available_mb) =
    "Memory allocation failed: requested "
    <> show requested_mb
    <> "MB, available "
    <> show available_mb
    <> "MB"
to_string (memory_map_failed s) = "Memory map failed: " <> s
to_string (guest_address_out_of_range address) = "Guest address out of range: " <> show_hex address
to_string (disk_image_not_found s) = "Disk image not found: " <> s
to_string (disk_io s) = "Disk I/O error: " <> s
to_string (kernel_not_found s) = "Kernel not found: " <> s
to_string (initramfs_not_found s) = "Initramfs not found: " <> s
to_string (kernel_load_failed s) = "Kernel load failed: " <> s
to_string (system_image_not_found s) = "System image not found: " <> s
to_string (adb_connection_failed s) = "ADB connection failed: " <> s
to_string (adb_protocol_error s) = "ADB protocol error: " <> s
to_string (adb_command_failed s) = "ADB command failed: " <> s
to_string (display_init_failed s) = "Display initialization failed: " <> s
to_string (audio_init_failed s) = "Audio initialization failed: " <> s
to_string (network_interface_failed s) = "Network interface failed: " <> s
to_string (nat_setup_failed s) = "NAT setup failed: " <> s
to_string (input_error s) = "Input error: " <> s
to_string (ipc_connection_failed s) = "IPC connection failed: " <> s
to_string (ipc_protocol_error s) = "IPC protocol error: " <> s
to_string (daemon_not_running s) = "Daemon not running: " <> s
to_string (daemon_start_failed s) = "Daemon start failed: " <> s
to_string (config_error s) = "Configuration error: " <> s
to_string (device_not_found s) = "Device not found: " <> s
to_string (device_already_exists s) = "Device already exists: " <> s
to_string (apk_not_found s) = "APK not found: " <> s
to_string (apk_install_failed s) = "APK install failed: " <> s
to_string (apk_launch_failed package_name reason) =
    "APK launch failed (package=" <> package_name <> "): " <> reason
to_string (abi_mismatch required provided) =
    "ABI mismatch: required=" <> required <> ", provided=" <> provided
to_string (snapshot_error s) = "Snapshot error: " <> s
to_string (permission_denied s) = "Permission denied: " <> s
to_string (os_error s) = "OS error: " <> s
to_string (not_implemented s) = "Not implemented: " <> s
to_string (unavailable s) = "Unavailable: " <> s
