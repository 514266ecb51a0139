-- ===== src/Network/Nat/Rules.antt =====
-- What the NAT manager does to the rules of the firewall, which are counted: their order within a
-- chain is forgotten.
use litedroid.Base.{
  ℕ, ◌+◌, ◌-◌, ◌≡◌, refl, ◌∙◌, String, ◌=t◌, Bool, true, false, if◌then◌else◌, Outcome, ok, Option,
  none, some, List, [], ◌∷◌, arith,
}
use litedroid.Action.{ok_or, pure, fail, attempt, ◌>>=◌, map_err}
use litedroid.Core.Error.{LiteDroidError, nat_setup_failed}
use litedroid.Host.{Host, Command}
use litedroid.Network.Nat.{
  NatManager, Rule, masquerade, forward_in, forward_out, add_command, delete_command, new,
  first_route, skip_one, host_interface, or_eth0, outward, run, enable_forwarding, set_up_on, setup,
  remove_rules, remove_all, teardown, drop_manager,
}

-- What iptables keeps in a chain of a table: the rule specification, as it is written.
pub record Entry : Type 0 where
  pub table : String
  pub chain : String
  pub spec : List String

-- What `-A` and `-I` (true) or `-D` (false) say is to be done to the chain.
unfoldable in_chain : String → List String → Option (Bool × Entry)
in_chain table [] = none
in_chain table (verb ∷ []) = none
in_chain table (verb ∷ chain ∷ spec) =
    let entry : Entry = record { table = table; chain = chain; spec = spec } in
    if verb =t "-D"
    then some (false, entry)
    else if verb =t "-A"
    then some (true, entry)
    else if verb =t "-I"
    then some (true, entry)
    else none

-- The arguments of iptables: the table is `filter` unless `-t` names another.
unfoldable pub parse : List String → Option (Bool × Entry)
unfolding in_chain
parse [] = none
parse (flag ∷ []) = none
parse (flag ∷ table ∷ rest) =
    if flag =t "-t" then in_chain table rest else in_chain "filter" (flag ∷ table ∷ rest)

unfoldable same_args : List String → List String → Bool
same_args [] [] = true
same_args [] (b ∷ rest_b) = false
same_args (a ∷ rest_a) [] = false
same_args (a ∷ rest_a) (b ∷ rest_b) =
    let rest = same_args rest_a rest_b in if a =t b then rest else false

unfoldable pub same : Entry → Entry → Bool
unfolding same_args
same x y =
    if x.table =t y.table
    then if x.chain =t y.chain then same_args x.spec y.spec else false
    else false

-- One more, and one fewer, if the test holds.
abbrev plus : Bool → ℕ → ℕ
plus b n = if b then n + 1 else n

abbrev minus : Bool → ℕ → ℕ
minus b n = if b then n - 1 else n

undone : (a b c : Bool) (n : ℕ) → minus a (minus b (minus c (plus a (plus b (plus c n))))) ≡ n
undone a b c n = ground arith

abbrev pub count_after : Bool → Bool → ℕ → ℕ
count_after adding b n = if adding then plus b n else minus b n

-- The entries of the three rules.
abbrev masquerade_entry : String → Entry
masquerade_entry iface = record {
  table = "nat";
  chain = "POSTROUTING";
  spec = "-o" ∷ iface ∷ "-s" ∷ "10.0.2.0/24" ∷ "-j" ∷ "MASQUERADE" ∷ [];
}

abbrev pub forward_entry : String → String → Entry
forward_entry direction tap = record {
  table = "filter";
  chain = "FORWARD";
  spec = direction ∷ tap ∷ "-j" ∷ "ACCEPT" ∷ [];
}

-- iptables run by root, which accepts the specifications of the three rules: a command whose
-- arguments add an entry that it accepts adds it, one whose arguments delete such an entry deletes
-- one if there is one, and the others stay as they are. `/proc/net/route` reads the same every time.
pub record IsFirewall {W : Type 0} (host : Host W) (count : W → Entry → ℕ) : Type 0 where
  pub route : String
  pub reads : (w : W) → host.read_to_string "/proc/net/route" w ≡ (ok route, w)
  pub writes :
      (p : String) (bytes : List ℕ) (w : W) (x : Entry)
      → count (host.write p bytes w).1 x ≡ count w x
  pub accepts : Entry → Bool
  pub masquerades : (iface : String) → accepts (masquerade_entry iface) ≡ true
  pub forwards : (direction tap : String) → accepts (forward_entry direction tap) ≡ true
  pub obeys :
      (command : Command) (adding : Bool) (entry : Entry) (w : W) (x : Entry)
      → command.program ≡ "iptables"
      → parse command.args ≡ some (adding, entry)
      → accepts entry ≡ true
      → count (host.status command w).1 x ≡ count_after adding (same x entry) (count w x)

abbrev entry_of : Rule → Entry
entry_of (masquerade iface) = masquerade_entry iface
entry_of (forward_in tap) = forward_entry "-i" tap
entry_of (forward_out tap) = forward_entry "-o" tap

parse-add : (rule : Rule) → parse (add_command rule).args ≡ some (true, entry_of rule)
unfolding parse add_command
parse-add (masquerade iface) = refl
parse-add (forward_in tap) = refl
parse-add (forward_out tap) = refl

parse-delete : (rule : Rule) → parse (delete_command rule).args ≡ some (false, entry_of rule)
unfolding parse delete_command
parse-delete (masquerade iface) = refl
parse-delete (forward_in tap) = refl
parse-delete (forward_out tap) = refl

add_program : (rule : Rule) → (add_command rule).program ≡ "iptables"
unfolding add_command
add_program rule = refl

delete_program : (rule : Rule) → (delete_command rule).program ≡ "iptables"
unfolding delete_command
delete_program rule = refl

module _ {W : Type 0} (host : Host W) (count : W → Entry → ℕ) (wall : IsFirewall host count) where
  -- Finding the interface changes nothing and always gives the same one.
  abbrev interface : Option String → String
  interface none = "eth0"
  interface (some iface) = iface

  abbrev iface : String
  iface = interface (first_route host (skip_one host (host.lines wall.route)))

  abbrev answer : Outcome LiteDroidError String × W → Outcome LiteDroidError String × W
  answer (r, w) = (or_eth0 host r, w)

  outward-steady : (w : W) → outward host w ≡ (ok iface, w)
  unfolding outward host_interface or_eth0 ◌>>=◌ map_err ok_or pure fail
  outward-steady w =
      rw (wall.reads w) (found (first_route host (skip_one host (host.lines wall.route))))
    where
      found :
          (o : Option String)
          → answer (ok_or o (nat_setup_failed "no default route found in /proc/net/route") w)
            ≡ (ok (interface o), w)
      found none = refl
      found (some i) = refl

  run_step : (c : Command) (w : W) → run host c w ≡ (ok tt, (host.status c w).1)
  unfolding run attempt ◌>>=◌
  run_step c w = refl

  add : Rule → W → W
  add rule w = (host.status (add_command rule) w).1

  delete : Rule → W → W
  delete rule w = (host.status (delete_command rule) w).1

  -- What the two methods leave of the host.
  installed : String → W → W
  installed tap w = add (forward_out tap) (
      add (forward_in tap) (
        add (masquerade iface)
          (host.write "/proc/sys/net/ipv4/ip_forward" (host.as_bytes "1") w).1))

  removed : String → W → W
  removed tap w = delete (forward_out tap) (delete (forward_in tap) (delete (masquerade iface) w))

  setup_step :
      (m : NatManager) (tap : String) (w : W)
      → setup host m tap w ≡ (ok (set_up_on host tap, set_up_on host tap), installed tap w)
  unfolding setup enable_forwarding run attempt ◌>>=◌ installed add
  setup_step m tap w = rw (outward-steady w) refl

  teardown_step :
      (tap : String) (w : W) → teardown host (set_up_on host tap) w ≡ (ok new, removed tap w)
  unfolding teardown remove_all remove_rules run attempt ◌>>=◌ removed delete
  teardown_step tap w = rw (outward-steady w) refl

  accepted : (rule : Rule) → wall.accepts (entry_of rule) ≡ true
  accepted (masquerade iface) = wall.masquerades iface
  accepted (forward_in tap) = wall.forwards "-i" tap
  accepted (forward_out tap) = wall.forwards "-o" tap

  added :
      (rule : Rule) (w : W) (x : Entry)
      → count (add rule w) x ≡ plus (same x (entry_of rule)) (count w x)
  unfolding add
  added rule w x =
      wall.obeys (add_command rule) true (entry_of rule) w x (add_program rule) (parse-add rule)
        (accepted rule)

  deleted :
      (rule : Rule) (w : W) (x : Entry)
      → count (delete rule w) x ≡ minus (same x (entry_of rule)) (count w x)
  unfolding delete
  deleted rule w x =
      wall.obeys (delete_command rule) false (entry_of rule) w x (delete_program rule)
        (parse-delete rule) (accepted rule)

  count-installed :
      (tap : String) (w : W) (x : Entry)
      → count (installed tap w) x
        ≡ plus (same x (entry_of (forward_out tap))) (
            plus
              (same x (entry_of (forward_in tap)))
              (plus (same x (entry_of (masquerade iface))) (count w x)))
  unfolding installed
  count-installed tap w x =
      rw (added (forward_out tap), added (forward_in tap), added (masquerade iface), wall.writes)
        refl

  count-removed :
      (tap : String) (w : W) (x : Entry)
      → count (removed tap w) x
        ≡ minus (same x (entry_of (forward_out tap))) (
            minus
              (same x (entry_of (forward_in tap)))
              (minus (same x (entry_of (masquerade iface))) (count w x)))
  unfolding removed
  count-removed tap w x =
      rw (deleted (forward_out tap), deleted (forward_in tap), deleted (masquerade iface)) refl

  restored :
      (tap : String) (w : W) (x : Entry) → count (removed tap (installed tap w)) x ≡ count w x
  restored tap w x =
      count-removed tap (installed tap w) x
      ∙ rw (count-installed tap w x) (
          undone (same x (entry_of (forward_out tap))) (same x (entry_of (forward_in tap)))
            (same x (entry_of (masquerade iface))) (count w x))

  -- On a host whose iptables accepts the three rules and adds and deletes what its arguments say, and
  -- whose default route stays, installing the rules and removing them leaves every entry of every
  -- chain and table as often as it was, and the manager as it was made; neither call fails.
  pub teardown-setup :
      (m : NatManager) (tap : String) (w : W)
      → (m1 m2 : NatManager) × (w1 w2 : W) × (setup host m tap w ≡ (ok (m1, m2), w1))
        × (teardown host m1 w1 ≡ (ok new, w2))
        × ((x : Entry) → count w2 x ≡ count w x)
  teardown-setup m tap w = (
    set_up_on host tap,
    set_up_on host tap,
    installed tap w,
    removed tap (installed tap w),
    setup_step m tap w,
    teardown_step tap (installed tap w),
    λ x. restored tap w x,
  )

  drop_step :
      (tap : String) (w : W) → drop_manager host (set_up_on host tap) w ≡ (ok tt, removed tap w)
  unfolding drop_manager teardown attempt ◌>>=◌
  drop_step tap w = rw (teardown_step tap w) refl

  -- On such a host, `setup` gives a second manager that is set up as well. When both are dropped, the
  -- rules are removed twice: of the rules for packets from the same interface, one that was there
  -- before the set-up, if any, is gone.
  pub drop_both-setup :
      (m : NatManager) (tap : String) (w : W)
      → (m1 m2 : NatManager) × (w1 w2 w3 : W) × (setup host m tap w ≡ (ok (m1, m2), w1))
        × (drop_manager host m1 w1 ≡ (ok tt, w2))
        × (drop_manager host m2 w2 ≡ (ok tt, w3))
        × ((a : String)
            → (a =t tap) ≡ true
            → count w3 (forward_entry "-i" a) ≡ count w (forward_entry "-i" a) - 1)
  unfolding same
  drop_both-setup m tap w = (
    set_up_on host tap,
    set_up_on host tap,
    installed tap w,
    removed tap (installed tap w),
    removed tap (removed tap (installed tap w)),
    setup_step m tap w,
    drop_step tap (installed tap w),
    drop_step tap (removed tap (installed tap w)),
    λ a e. counted a e,
  )
    where
      counted :
          (a : String)
          → (a =t tap) ≡ true
          → count (removed tap (removed tap (installed tap w))) (forward_entry "-i" a)
            ≡ count w (forward_entry "-i" a) - 1
      counted a e =
          count-removed tap (removed tap (installed tap w)) (forward_entry "-i" a)
          ∙ rw (restored tap w (forward_entry "-i" a), e) refl
