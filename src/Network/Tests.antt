-- ===== src/Network/Tests.antt =====
-- A firewall that counts its rules, and a network device.
use litedroid.Base.{
  ℕ, ◌-◌, ◌≡◌, refl, String, ◌=t◌, Bool, true, if◌then◌else◌, ok, some, List, [], ◌∷◌, none, Option,
  ◌==◌, codes, arith, take, drop,
}
use litedroid.Action.{pure}
use litedroid.Host.{Host}
use litedroid.Host.Blank.{blank}
use litedroid.Network.IfReq.{IfReq, new as new_ifreq, set_name, get_name, get_name-set_name}
use litedroid.Network.Tap.{
  Libc, TapInterface, named, siocsifaddr, change, set_ip_address, set_ip_address-Swapped,
}
use litedroid.Network.Nat.{NatManager, new, setup, teardown, drop_manager}
use litedroid.Network.Nat.Rules.{
  Entry, same, parse, count_after, forward_entry, IsFirewall, teardown-setup, drop_both-setup,
}

abbrev Firewall : Type 0
Firewall = Entry → ℕ

abbrev apply : Option (Bool × Entry) → Firewall → Firewall
apply none w = w
apply (some (adding, entry)) w = λ x. count_after adding (same x entry) (w x)

abbrev firewall : Host Firewall
firewall = record blank {
  status = λ command w.
      (ok true, if command.program =t "iptables" then apply (parse command.args) w else w);
}

counts : Firewall → Entry → ℕ
counts w x = w x

firewall-IsFirewall : IsFirewall firewall counts
unfolding counts pure
firewall-IsFirewall = record {
  route = "";
  reads = λ w. refl;
  writes = λ p bytes w x. refl;
  accepts = λ entry. true;
  masquerades = λ iface. refl;
  forwards = λ direction tap. refl;
  obeys = λ command adding entry w x program parsed fine. rw (program, parsed) refl;
}

-- One rule for the interface is there before.
abbrev before : Firewall
before = λ x. if same x (forward_entry "-i" "tap0") then 1 else 0

teardown-setup_example :
    (m1 m2 : NatManager) × (w1 w2 : Firewall) × (setup firewall new "tap0" before
      ≡ (ok (m1, m2), w1))
    × (teardown firewall m1 w1 ≡ (ok new, w2))
    × ((x : Entry) → counts w2 x ≡ counts before x)
teardown-setup_example = teardown-setup firewall counts firewall-IsFirewall new "tap0" before

drop_both-setup_example :
    (m1 m2 : NatManager) × (w1 w2 w3 : Firewall) × (setup firewall new "tap0" before
      ≡ (ok (m1, m2), w1))
    × (drop_manager firewall m1 w1 ≡ (ok tt, w2))
    × (drop_manager firewall m2 w2 ≡ (ok tt, w3))
    × ((a : String)
        → (a =t "tap0") ≡ true
        → counts w3 (forward_entry "-i" a) ≡ counts before (forward_entry "-i" a) - 1)
drop_both-setup_example = drop_both-setup firewall counts firewall-IsFirewall new "tap0" before

-- A decoder that knows one name by its first byte.
abbrev ascii : List ℕ → String
ascii [] = ""
ascii (b ∷ rest) = if b == 108 then "litedroid-tap-i" else "?"

get_name-set_name_example :
    get_name ascii (set_name (codes "litedroid-tap-interface") new_ifreq)
    ≡ ascii (codes "litedroid-tap-i")
unfolding new_ifreq
get_name-set_name_example =
    get_name-set_name ascii (codes "litedroid-tap-interface") new_ifreq (ground arith) refl

abbrev tap : TapInterface
tap = record { fd = 3; name = "tap0" }

-- Calls that succeed; the address is always 10.0.2.1.
abbrev calls : Libc (Unit {0})
calls = record {
  open_file = λ path. pure 3;
  ioctl = λ fd request req. pure req;
  read = λ fd len. pure [];
  write = λ fd bytes. pure 0;
  close = λ fd w. w;
  as_bytes = codes;
  from_utf8_lossy = λ bytes. "tap0";
  parse_ipv4 = λ addr. some (10 ∷ 0 ∷ 2 ∷ 1 ∷ []);
}

set_ip_address-Swapped_example :
    (req : IfReq) × (set_ip_address calls tap "10.0.2.1" tt
      ≡ change calls tap siocsifaddr "SIOCSIFADDR" req tt)
    × (req.name ≡ (named calls tap).name)
    × (take 4 (drop 4 req.rest) ≡ 1 ∷ 2 ∷ 0 ∷ 10 ∷ [])
set_ip_address-Swapped_example =
    set_ip_address-Swapped calls tap "10.0.2.1" 10 0 2 1 tt refl (ground arith)
