-- ===== src/Daemon/Requests.antt =====
-- apps/daemon/src/main.rs: `dispatch`, the answer of the daemon to a request. The arms of its match
-- are the clauses of `handle`, on the method that the name stands for.
use litedroid.Base.{
  String, ◌<>◌, true, false, Outcome, ok, err, panic, out_of_fuel, none, some, List, [], ◌∷◌,
}
use litedroid.Core.Constants.{ipc_protocol_version}
use litedroid.Action.{Action, pure, fail, ◌>>=◌, ◌>>◌, modify}
use litedroid.Host.{Host, JsonValue}
use litedroid.Ipc.{IpcRequest, IpcResponse}
use litedroid.Daemon.State.{Session, adb_output}
use litedroid.Daemon.Launch.{ConfigOps}
use litedroid.Daemon.Method.{
  Method, method_of, ping, status, shutdown, start, stop, restart, wipe, pause, resume,
  device_status, launch, screenshot, stats, install, uninstall, list, shell, logcat, snapshot,
  other,
}
use litedroid.Daemon.Replies.{
  get_str, or_default, output_reply, shut_down, stop_device, start_device, relaunch, report_status,
  launch_app, take_screenshot, install_apk, uninstall_apk, list_apks,
}

module _ {W V C : Type 0} (host : Host W) (json : JsonValue V) (config_ops : ConfigOps W C) where
  -- The constant answer of `vm.stats`.
  unfoldable pub vm_stats : V
  vm_stats = json.object (
      (
        "cpu",
        json.object (
            ("host_percent", json.float "0.0")
            ∷ ("vcpu_percent", json.array [])
            ∷ ("guest_time_ms", json.number 0)
            ∷ []),
      )
      ∷ (
        "memory",
        json.object (
            ("allocated_mb", json.number 0)
            ∷ ("used_mb", json.number 0)
            ∷ ("host_rss_mb", json.number 0)
            ∷ []),
      )
      ∷ (
        "gpu",
        json.object (
            ("utilization_percent", json.float "0.0")
            ∷ ("fps", json.float "0.0")
            ∷ ("memory_mb", json.number 0)
            ∷ ("hw_accelerated", json.boolean false)
            ∷ []),
      )
      ∷ (
        "network",
        json.object (
            ("rx_bytes_per_sec", json.number 0)
            ∷ ("tx_bytes_per_sec", json.number 0)
            ∷ ("guest_ip", json.null)
            ∷ []),
      )
      ∷ ("uptime_secs", json.number 0)
      ∷ [])

  unfoldable pub handle : Method → IpcRequest V → Action (Session W) String V
  unfolding vm_stats shut_down stop_device start_device relaunch report_status launch_app
      take_screenshot install_apk uninstall_apk list_apks ◌>>=◌
  handle ping req =
      pure (json.object (("pong", json.boolean true) ∷ ("pid", json.number host.process_id) ∷ []))
  handle status req =
      pure
        (json.object (("running", json.boolean true) ∷ ("pid", json.number host.process_id) ∷ []))
  handle shutdown req =
      modify (shut_down host json config_ops)
      >> pure (json.object (("shutting_down", json.boolean true) ∷ []))
  handle start req =
      start_device host json config_ops
        (or_default (get_str host json config_ops req.params "device") "default")
  handle stop req =
      modify (stop_device host json config_ops)
      >> pure (json.object (("status", json.string "stopped") ∷ []))
  handle restart req = relaunch host json config_ops false
  handle wipe req = relaunch host json config_ops true
  handle pause req = fail "Pause is not implemented for the active VM"
  handle resume req = fail "Resume is not implemented for the active VM"
  handle device_status req = report_status host json config_ops
  handle launch req = launch_app host json config_ops req.params
  handle screenshot req = take_screenshot host json config_ops req.params
  handle stats req = pure vm_stats
  handle install req = install_apk host json config_ops req.params
  handle uninstall req = uninstall_apk host json config_ops req.params
  handle list req = list_apks host json config_ops
  handle shell req = adb_output host ("shell" ∷ []) >>= output_reply host json config_ops
  handle logcat req =
      adb_output host ("logcat" ∷ "-d" ∷ "-t" ∷ "200" ∷ []) >>= output_reply host json config_ops
  handle snapshot req = fail "No active VM"
  handle other req = fail ("Unknown method: " <> req.method)

  abbrev pub make_ok : String → V → IpcResponse V
  make_ok rid result = record {
    version = ipc_protocol_version;
    request_id = rid;
    success = true;
    result = some result;
    error = none;
  }

  abbrev pub make_err : String → String → IpcResponse V
  make_err rid message = record {
    version = ipc_protocol_version;
    request_id = rid;
    success = false;
    result = none;
    error = some message;
  }

  abbrev pub respond : String → Outcome String V → Outcome String (IpcResponse V)
  respond rid (ok v) = ok (make_ok rid v)
  respond rid (err e) = ok (make_err rid e)
  respond rid panic = panic
  respond rid out_of_fuel = out_of_fuel

  unfoldable pub dispatch : IpcRequest V → Action (Session W) String (IpcResponse V)
  unfolding handle
  dispatch req s =
      let (result, s) = handle (method_of req.method) req s in (respond req.request_id result, s)

  -- Requests one after another, in the order in which their threads take the lock.
  unfoldable pub serve_all : List (IpcRequest V) → Session W → Session W
  unfolding dispatch
  serve_all [] s = s
  serve_all (req ∷ reqs) s = let (_, s) = dispatch req s in serve_all reqs s
