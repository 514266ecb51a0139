-- ===== src/Network/Tap.antt =====
-- crates/network/src/lib.rs: `TapInterface`. The calls of libc are the parameter `Libc`: each gives
-- a value, or the text of the last error of the operating system.
use litedroid.Base.{
  ℕ, ◌+◌, ◌≡◌, refl, String, ◌<>◌, Outcome, ok, err, panic, out_of_fuel, Option, some, List, [],
  ◌∷◌, All, take, drop, IsByte, from_be_bytes, le_bytes, arith,
}
use litedroid.Action.{Action, pure, ok_or, map_err, ◌>>=◌}
use litedroid.Core.Error.{LiteDroidError, network_interface_failed}
use litedroid.Network.IfReq.{
  IfReq, new as new_ifreq, set_name, get_name, set_flags, set_sockaddr_in, sockaddr_bytes,
  overwrite,
}

pub record Libc (W : Type 0) : Type 0 where
  pub open_file : (path : String) → Action W String ℕ
  -- The request as the kernel leaves it.
  pub ioctl : (fd request : ℕ) → IfReq → Action W String IfReq
  pub read : (fd len : ℕ) → Action W String (List ℕ)
  pub write : (fd : ℕ) → List ℕ → Action W String ℕ
  pub close : (fd : ℕ) → W → W
  pub as_bytes : String → List ℕ
  pub from_utf8_lossy : List ℕ → String
  -- `str::parse::<Ipv4Addr>` and `octets`.
  pub parse_ipv4 : String → Option (List ℕ)

abbrev pub tun_iff_tap : ℕ
tun_iff_tap = 0x0002

abbrev pub tun_iff_no_pi : ℕ
tun_iff_no_pi = 0x0800

abbrev pub net_iff_up : ℕ
net_iff_up = 0x0001

abbrev pub tunsetiff : ℕ
tunsetiff = 0x4004_54ca

abbrev pub siocsifflags : ℕ
siocsifflags = 0x8914

abbrev pub siocsifaddr : ℕ
siocsifaddr = 0x8916

abbrev pub siocsifnetmask : ℕ
siocsifnetmask = 0x891c

abbrev af_inet : ℕ
af_inet = 2

pub record TapInterface : Type 0 where
  pub fd : ℕ
  pub name : String

module _ {W : Type 0} (libc : Libc W) where
  -- An error closes the file. The error that is reported is the one of the call: `close` changes
  -- errno only when it fails itself, which is left out.
  unfoldable pub close_on_error :
      {A : Type 0} → ℕ → Outcome LiteDroidError A → W → Outcome LiteDroidError A × W
  close_on_error fd (ok a) w = (ok a, w)
  close_on_error fd (err e) w = (err e, libc.close fd w)
  close_on_error fd panic w = (panic, w)
  close_on_error fd out_of_fuel w = (out_of_fuel, w)

  -- An ioctl, with the text for its error.
  unfoldable pub request : (fd number : ℕ) (failed : String) → IfReq → Action W LiteDroidError IfReq
  unfolding map_err
  request fd number failed req =
      map_err (λ e. network_interface_failed (failed <> e)) (libc.ioctl fd number req)

  unfoldable pub set_iff : ℕ → String → Action W LiteDroidError IfReq
  unfolding request close_on_error set_flags set_name
  set_iff fd iface_name w =
      let req =
        set_flags (tun_iff_tap + tun_iff_no_pi) (set_name (libc.as_bytes iface_name) new_ifreq) in
      let (r, w) = request fd tunsetiff "TUNSETIFF failed: " req w in close_on_error fd r w

  unfoldable pub new : String → Action W LiteDroidError TapInterface
  unfolding set_iff get_name map_err ◌>>=◌
  new iface_name = do
    fd ←
        map_err (λ e. network_interface_failed ("failed to open /dev/net/tun: " <> e))
          (libc.open_file "/dev/net/tun")
    req ← set_iff fd iface_name
    pure (record { fd = fd; name = get_name libc.from_utf8_lossy req })

  unfoldable pub read_packet : TapInterface → (len : ℕ) → Action W LiteDroidError (List ℕ)
  unfolding map_err
  read_packet tap len =
      map_err (λ e. network_interface_failed ("TAP read failed: " <> e)) (libc.read tap.fd len)

  unfoldable pub write_packet : TapInterface → List ℕ → Action W LiteDroidError ℕ
  unfolding map_err
  write_packet tap bytes =
      map_err (λ e. network_interface_failed ("TAP write failed: " <> e)) (libc.write tap.fd bytes)

  unfoldable pub named : TapInterface → IfReq
  unfolding set_name
  named tap = set_name (libc.as_bytes tap.name) new_ifreq

  -- An ioctl on the interface, whose answer is not looked at.
  unfoldable pub change :
      TapInterface → ℕ → (call : String) → IfReq → Action W LiteDroidError (Unit {0})
  unfolding request ◌>>=◌
  change tap number call req =
      request tap.fd number (call <> " failed for " <> tap.name <> ": ") req >>= λ _. pure tt

  unfoldable pub set_up : TapInterface → Action W LiteDroidError (Unit {0})
  unfolding change named set_flags
  set_up tap = change tap siocsifflags "SIOCSIFFLAGS" (set_flags net_iff_up (named tap))

  -- `u32::from_be_bytes` of the octets.
  unfoldable pub parse_ip : String → Action W LiteDroidError ℕ
  unfolding ◌>>=◌
  parse_ip addr = do
    octets ← ok_or (libc.parse_ipv4 addr) (network_interface_failed ("invalid IP: " <> addr))
    pure (from_be_bytes 0 octets)

  -- The request that carries an address.
  unfoldable pub with_address : TapInterface → ℕ → IfReq
  unfolding named set_sockaddr_in
  with_address tap s_addr =
      set_sockaddr_in (record { sin_family = af_inet; sin_port = 0; s_addr = s_addr }) (named tap)

  unfoldable pub set_ip_address : TapInterface → String → Action W LiteDroidError (Unit {0})
  unfolding parse_ip change with_address ◌>>=◌
  set_ip_address tap addr = do
    s_addr ← parse_ip addr
    change tap siocsifaddr "SIOCSIFADDR" (with_address tap s_addr)

  unfoldable pub set_netmask : TapInterface → String → Action W LiteDroidError (Unit {0})
  unfolding parse_ip change with_address ◌>>=◌
  set_netmask tap mask = do
    s_addr ← parse_ip mask
    change tap siocsifnetmask "SIOCSIFNETMASK" (with_address tap s_addr)

  unfoldable pub drop_tap : TapInterface → W → W
  drop_tap tap w = libc.close tap.fd w

  with_address-swapped :
      (tap : TapInterface) (a b c d : ℕ)
      → All IsByte (a ∷ b ∷ c ∷ d ∷ [])
      → take 4 (drop 4 (with_address tap (from_be_bytes 0 (a ∷ b ∷ c ∷ d ∷ []))).rest)
        ≡ d ∷ c ∷ b ∷ a ∷ []
  unfolding with_address set_sockaddr_in sockaddr_bytes overwrite from_be_bytes le_bytes
  with_address-swapped tap a b c d bytes = ground arith

  -- Setting the address `a.b.c.d` is one SIOCSIFADDR on the interface, whose request names the
  -- interface and has the octets in the order `d`, `c`, `b`, `a`, where the kernel looks for the
  -- address in network order.
  pub set_ip_address-Swapped :
      (tap : TapInterface) (addr : String) (a b c d : ℕ) (w : W)
      → libc.parse_ipv4 addr ≡ some (a ∷ b ∷ c ∷ d ∷ [])
      → All IsByte (a ∷ b ∷ c ∷ d ∷ [])
      → (req : IfReq) × (set_ip_address tap addr w ≡ change tap siocsifaddr "SIOCSIFADDR" req w)
        × (req.name ≡ (named tap).name)
        × (take 4 (drop 4 req.rest) ≡ d ∷ c ∷ b ∷ a ∷ [])
  unfolding set_ip_address parse_ip with_address set_sockaddr_in ◌>>=◌
  set_ip_address-Swapped tap addr a b c d w parsed bytes = (
    with_address tap (from_be_bytes 0 (a ∷ b ∷ c ∷ d ∷ [])),
    rw parsed refl,
    refl,
    with_address-swapped tap a b c d bytes,
  )
