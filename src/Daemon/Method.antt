-- ===== src/Daemon/Method.antt =====
-- apps/daemon/src/main.rs: the names of the requests that `dispatch` matches on. Arms with the same
-- body share a constructor.
use litedroid.Base.{String, ◌=t◌, List, [], ◌∷◌, if◌then◌else◌}

pub data Method : Type 0 where
  ping status shutdown : Method
  start stop restart wipe pause resume device_status launch screenshot : Method
  stats install uninstall list shell logcat : Method
  snapshot other : Method

abbrev pub methods : List (String × Method)
methods =
    ("daemon.ping", ping)
    ∷ ("daemon.status", status)
    ∷ ("daemon.shutdown", shutdown)
    ∷ ("device.start", start)
    ∷ ("device.stop", stop)
    ∷ ("device.restart", restart)
    ∷ ("device.wipe", wipe)
    ∷ ("device.pause", pause)
    ∷ ("device.resume", resume)
    ∷ ("device.status", device_status)
    ∷ ("device.launch", launch)
    ∷ ("device.screenshot", screenshot)
    ∷ ("vm.stats", stats)
    ∷ ("apk.install", install)
    ∷ ("adb.install", install)
    ∷ ("apk.uninstall", uninstall)
    ∷ ("apk.list", list)
    ∷ ("adb.shell", shell)
    ∷ ("adb.logcat", logcat)
    ∷ ("snapshot.create", snapshot)
    ∷ ("snapshot.restore", snapshot)
    ∷ ("snapshot.list", snapshot)
    ∷ ("snapshot.delete", snapshot)
    ∷ []

unfoldable pub find_method : String → List (String × Method) → Method
find_method name [] = other
find_method name ((n, m) ∷ rest) = if name =t n then m else find_method name rest

unfoldable pub method_of : String → Method
unfolding find_method
method_of name = find_method name methods
