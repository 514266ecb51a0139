-- ===== src/Network/Nat.antt =====
-- crates/network/src/lib.rs: `NatManager`, which installs three iptables rules for the guest's
-- traffic and removes them. A method that changes the manager returns the new one.
pub mod Rules
use litedroid.Base.{
  String, ◌<>◌, ◌=t◌, Bool, true, false, if◌then◌else◌, Outcome, ok, err, panic, out_of_fuel,
  Option, none, some, List, [], ◌∷◌, ◌++◌,
}
use litedroid.Action.{Action, pure, ok_or, attempt, map_err, ◌>>=◌, ◌>>◌}
use litedroid.Core.Error.{LiteDroidError, nat_setup_failed}
use litedroid.Host.{Host, Command, inherited}

pub record NatManager : Type 0 where
  pub tap_name : Option String
  pub is_setup : Bool

abbrev pub new : NatManager
new = record { tap_name = none; is_setup = false }

-- The rules that are installed and removed.
pub data Rule : Type 0 where
  masquerade : (host_iface : String) → Rule
  forward_in forward_out : (tap_name : String) → Rule

unfoldable pub chain : Rule → String
chain (masquerade iface) = "POSTROUTING"
chain (forward_in tap) = "FORWARD"
chain (forward_out tap) = "FORWARD"

-- What stands after the chain.
unfoldable pub matches : Rule → List String
matches (masquerade iface) = "-o" ∷ iface ∷ "-s" ∷ "10.0.2.0/24" ∷ "-j" ∷ "MASQUERADE" ∷ []
matches (forward_in tap) = "-i" ∷ tap ∷ "-j" ∷ "ACCEPT" ∷ []
matches (forward_out tap) = "-o" ∷ tap ∷ "-j" ∷ "ACCEPT" ∷ []

unfoldable pub table : Rule → List String
table (masquerade iface) = "-t" ∷ "nat" ∷ []
table (forward_in tap) = []
table (forward_out tap) = []

-- The masquerade rule is appended, the others are put in front.
unfoldable pub verb : Rule → String
verb (masquerade iface) = "-A"
verb (forward_in tap) = "-I"
verb (forward_out tap) = "-I"

abbrev pub iptables : List String → Command
iptables args = record {
  program = "iptables";
  args = args;
  stdin = inherited;
  stdout = inherited;
  stderr = inherited;
}

unfoldable pub add_command : Rule → Command
unfolding table verb chain matches
add_command rule = iptables (table rule ++ (verb rule ∷ chain rule ∷ matches rule))

unfoldable pub delete_command : Rule → Command
unfolding table chain matches
delete_command rule = iptables (table rule ++ ("-D" ∷ chain rule ∷ matches rule))

module _ {W : Type 0} (host : Host W) where
  -- The interface of a line of `/proc/net/route`, if it is the default route's.
  unfoldable pub default_route : List String → Option String
  default_route (iface ∷ destination ∷ rest) =
      if destination =t "00000000" then some iface else none
  default_route (iface ∷ []) = none
  default_route [] = none

  unfoldable pub first_route : List String → Option String
  unfolding default_route
  first_route [] = none
  first_route (line ∷ lines) =
      let rest = first_route lines in
      elim (default_route (host.split_whitespace line)) [ some iface ↦ some iface | none ↦ rest ]

  abbrev pub skip_one : List String → List String
  skip_one [] = []
  skip_one (line ∷ lines) = lines

  unfoldable pub host_interface : Action W LiteDroidError String
  unfolding first_route map_err ◌>>=◌
  host_interface = do
    content ←
        map_err (λ e. nat_setup_failed ("read /proc/net/route: " <> e))
          (host.read_to_string "/proc/net/route")
    ok_or (first_route (skip_one (host.lines content)))
        (nat_setup_failed "no default route found in /proc/net/route")

  -- `unwrap_or_else(|_| "eth0".to_string())`.
  unfoldable pub or_eth0 : Outcome LiteDroidError String → Outcome LiteDroidError String
  or_eth0 (ok iface) = ok iface
  or_eth0 (err e) = ok "eth0"
  or_eth0 panic = panic
  or_eth0 out_of_fuel = out_of_fuel

  unfoldable pub outward : Action W LiteDroidError String
  unfolding host_interface or_eth0
  outward w = let (r, w) = host_interface w in (or_eth0 r, w)

  -- A command whose outcome is at most logged.
  unfoldable pub run : Command → Action W LiteDroidError (Unit {0})
  unfolding attempt ◌>>=◌
  run command = do status ← attempt (host.status command); pure tt

  unfoldable pub enable_forwarding : Action W LiteDroidError (Unit {0})
  unfolding attempt ◌>>=◌
  enable_forwarding = do
    written ← attempt (host.write "/proc/sys/net/ipv4/ip_forward" (host.as_bytes "1"))
    pure tt

  abbrev pub set_up_on : String → NatManager
  set_up_on tap_name = record { tap_name = some tap_name; is_setup = true }

  -- The manager itself after the call, and the one that the call gives.
  unfoldable pub setup : NatManager → String → Action W LiteDroidError (NatManager × NatManager)
  unfolding run add_command enable_forwarding ◌>>=◌
  setup manager tap_name = do
    host_iface ← outward
    enable_forwarding
    run (add_command (masquerade host_iface))
    run (add_command (forward_in tap_name))
    run (add_command (forward_out tap_name))
    pure (set_up_on tap_name, set_up_on tap_name)

  unfoldable pub remove_rules : String → Action W LiteDroidError (Unit {0})
  unfolding run delete_command ◌>>=◌
  remove_rules tap_name = do
    host_iface ← outward
    run (delete_command (masquerade host_iface))
    run (delete_command (forward_in tap_name))
    run (delete_command (forward_out tap_name))

  unfoldable pub remove_all : Option String → Action W LiteDroidError (Unit {0})
  unfolding remove_rules
  remove_all none = pure tt
  remove_all (some tap_name) = remove_rules tap_name

  unfoldable pub teardown : NatManager → Action W LiteDroidError NatManager
  unfolding remove_all ◌>>=◌
  teardown manager = elim manager.is_setup [
    | false ↦ pure manager
    | true ↦ do remove_all manager.tap_name; pure (record { tap_name = none; is_setup = false })
  ]

  -- `Drop`: an error is dropped too, and `teardown` looks at the flag again.
  unfoldable pub drop_manager : NatManager → Action W LiteDroidError (Unit {0})
  unfolding teardown attempt ◌>>=◌
  drop_manager manager = elim manager.is_setup [
    | false ↦ pure tt
    | true ↦ do torn ← attempt (teardown manager); pure tt
  ]
