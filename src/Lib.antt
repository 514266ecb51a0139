-- ===== src/Lib.antt =====
-- LiteDroid, an Android emulator: a monitor that runs a guest kernel on KVM, its virtio devices,
-- the ADB and IPC protocols around it, and the daemon that launches Android's emulator and answers
-- its clients.
--
-- The parts and how they interact. `Core` (crates/core) has the constants, the error type and the
-- device configuration. `Memory` (crates/memory) is the guest's memory, which the monitor reads and
-- writes at guest addresses. `Storage` (crates/storage) is the disk image. `Vmm` (crates/vmm) has
-- the making of a machine (`Vmm.Create`); the run loop (`Vmm.Run`), which takes the exits of the
-- vCPU that `Kvm.Vcpu` decodes; the block device that it drives (`Vmm.Block`): the guest writes its
-- registers, and a notification makes `process_queue` take requests from the guest's memory, move
-- data between it and the disk image, and publish the used ring; and the boot set-up (`Vmm.Boot`):
-- page tables, descriptor tables, the loading of the kernel, the zero page of a bzImage, and the
-- registers that the guest is entered with (`setup_boot` in `Vmm.Boot.Start`). `Devices`
-- (crates/devices) is the bus that routes an access to one of up to sixteen devices, with the
-- serial and random devices; `Audio` (crates/audio) and `Storage.Device` (crates/storage) are
-- devices of it. `Adb` (crates/adb) is the wire format and the handler of a client connection, and
-- `Adb.Server` the server with its accept thread. `Graphics` (crates/graphics) is the framebuffer,
-- `Input` (crates/input) the keycode table and the event queue, `Ipc` (crates/ipc) the framed
-- stream between the daemon and its clients, with the sockets under it (`Ipc.Sockets`). `Kvm`
-- (crates/kvm) is the table of the kernel's capabilities, the filter of the CPUID entries that the
-- guest is shown, the vCPU, and the calls that make a machine (`Kvm.Hypervisor`).
--
-- `Daemon` (apps/daemon/src/main.rs) is the daemon: `Daemon.State` its state and the calls of adb,
-- `Daemon.Launch` the launch of the emulator, with what it starts in `Daemon.Launching`, `Daemon.Method`, `Daemon.Replies` and
-- `Daemon.Requests` the answer to a request, `Daemon.Connection` one exchange with a client, and
-- `Daemon.Server` the steps of the threads: the main loop, the connections and the signals.
-- `Daemon.Ping` puts the ping of the client in crates/ipc in front of it. `Config` (crates/config)
-- is the configuration, the device profiles and the Android images; the daemon takes its methods
-- through `Daemon.Launch.ConfigOps`, which `Config.Quiet` fills. `Host` holds the calls of the
-- operating system that both make, `Host.Processes` what is documented of processes, and
-- `Host.Blank` a host for the examples.
--
-- `Cli` (apps/cli/src/main.rs) is the command line: `Cli.Commands` has `main`, one function for
-- each command, and the requests that they send; `Cli.Devices` and `Cli.Logs` the commands that
-- read the configuration, `Cli.Doctor` the one that runs the diagnostics. `Cli.Known` is about the
-- methods that they ask the daemon for, `Cli.Daemon` puts them in front of
-- `Daemon.Requests.dispatch`, and `Cli.Created` is about a device that they create and the daemon
-- loads. `Diagnostics` (crates/diagnostics) has the ten checks of the host. `Network`
-- (crates/network) has the requests of interfaces (`Network.IfReq`), the TAP interface, the network
-- device, and the rules of the firewall that the NAT manager sets up and takes down
-- (`Network.Nat`), which `Network.Nat.Rules` puts in front of an iptables that reads its arguments
-- by its manual.
--
-- How code corresponds to definitions. A function has the source's name in a module for its type: a
-- method that takes `&mut self` returns the new state. A fallible function returns
-- `Base.Outcomes.Outcome`: a value, an error, a panic, or `out_of_fuel`, which is no outcome of the
-- program. `VirtioBlock` and the guest memory are threaded by the monad `Vmm.Block.Monad.M`, which
-- keeps what a failing request had already written; the daemon and the configuration are chains of
-- `Action`, a call that changes a state and may fail. Integers are natural numbers with the
-- wrap-around written out; the arithmetic is that of the release profile (Cargo.toml), which does
-- not check for overflow. Calls of the host (files, processes, mmap, /dev/urandom, KVM, ioctl), of
-- serde_json, of toml and of uuid are arguments. KVM_RUN takes the guest's memory and gives it back
-- as the guest left it, and the monitor goes on with that. The results of `kill` and of the `wait`
-- after it are dropped, as in the source; `Host.Processes.IsWaitable` says that the wait succeeds,
-- and is a hypothesis where a theorem needs it. A socket is what the peer sends, then end of file,
-- and what was written to it: a read that waits for more is not modelled inside a session. In
-- `Adb.Server` a client has sent something so far and may keep its connection open; its session ends
-- only when it has closed its end, or when nothing that it may still send makes a difference. What a
-- command prints is kept line by line.
--
-- Bounds and fuel. `process_loop` has 65535 rounds, since `last_avail` counts modulo 2 ^ 16 up to
-- the index that was read. `serve_client` has one more round than the stream has bytes, since a
-- turn takes at least a header. A guest may run for ever, so `run_loop` takes its rounds as an
-- argument: it comes back `out_of_fuel` only when all of them went into turns that left it running. All other loops
-- are structural.
--
-- Not modelled: the graphical interface (apps/gui), logging, the parser of the command line's
-- arguments (clap), the sockets themselves, and the set-up of the daemon before its main loop
-- (logging, process id file, signal actions, socket permissions): they are calls of the operating
-- system and of libraries, with little state of their own. Log lines are left out everywhere.
pub mod Base
pub mod Core
pub mod Memory
pub mod Devices
pub mod Storage
pub mod Vmm
pub mod Action
pub mod Adb
pub mod Audio
pub mod Graphics
pub mod Host
pub mod Input
pub mod Ipc
pub mod Kvm
pub mod Daemon
pub mod Config
pub mod Network
pub mod Diagnostics
pub mod Cli
