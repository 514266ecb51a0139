-- ===== src/Core/Constants.antt =====
-- crates/core/src/constants.rs.
use litedroid.Base.{ℕ, String}

abbrev pub default_vcpu_count : ℕ
default_vcpu_count = 4

abbrev pub default_ram_mb : ℕ
default_ram_mb = 2048

abbrev pub min_ram_mb : ℕ
min_ram_mb = 512

abbrev pub max_ram_mb : ℕ
max_ram_mb = 8192

abbrev pub kernel_load_addr : ℕ
kernel_load_addr = 0x100_000

abbrev pub initramfs_load_addr : ℕ
initramfs_load_addr = 0x80_000_00

abbrev pub virtio_mmio_start : ℕ
virtio_mmio_start = 0xfea0_0000

abbrev pub virtio_mmio_size : ℕ
virtio_mmio_size = 0x200

abbrev pub max_virtio_devices : ℕ
max_virtio_devices = 16

abbrev pub serial_io_base : ℕ
serial_io_base = 0x3f8

abbrev pub daemon_socket_path : String
daemon_socket_path = "/tmp/litedroid-daemon.sock"

abbrev pub daemon_pid_path : String
daemon_pid_path = "/tmp/litedroid-daemon.pid"

abbrev pub default_data_dir : String
default_data_dir = "~/.local/share/litedroid"

abbrev pub default_config_dir : String
default_config_dir = "~/.config/litedroid"

abbrev pub ipc_protocol_version : ℕ
ipc_protocol_version = 1

abbrev pub default_kernel_cmdline : String
default_kernel_cmdline =
    "console=ttyS0 androidboot.hardware=litedroid androidboot.serialno=LITEDROID001 androidboot.mode=normal root=/dev/ram0 rw init=/init"
