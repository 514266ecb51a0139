-- ===== src/Vmm/Boot/Kernel.antt =====
-- crates/vmm/src/lib.rs: `load_kernel` and `load_initramfs`. Whether the path exists and what reading
-- it gives are arguments; after an error the caller drops the machine, and its memory is not kept.
use litedroid.Base.{
  ℕ, ◌+◌, ◌*◌, ◌≤◌, ◌<◌, ◌≡◌, ◌^◌, refl, sym, ap, ◌∙◌, ltb-false, String, ◌<>◌, Bool, true, false,
  ◌||◌, ◌&&◌, List, length, take, drop, get_or, Outcome, ok, err, panic, out_of_fuel, ◌>>=◌, ltb,
  leb, if◌then◌else◌, arith, le→ltb, lt→ltb, lt→leb, >>=-eq-ok, codes, show_hex, ◌=b◌, not,
  length-take, length-drop,
}
use litedroid.Core.Constants.{kernel_load_addr, initramfs_load_addr}
use litedroid.Core.Error.{Result, kernel_not_found, initramfs_not_found, kernel_load_failed}
use litedroid.Memory.{GuestMemory, load_blob, read_guest}
use litedroid.Memory.Access.{read_guest-write_guest, write_guest_inside, written}
use litedroid.Vmm.GuestWord.{read_u32}

-- The fields of `VirtualMachine` that loading changes.
pub record Loaded : Type 0 where
  pub memory : GuestMemory
  pub kernel_is_bzimage : Bool
  pub bzimage_header : List ℕ
  pub initramfs_size : ℕ

unfoldable pub is_bzimage : List ℕ → Bool
is_bzimage image = leb 0x206 (length image) && (take 4 (drop 0x202 image) =b codes "HdrS")

unfoldable pub setup_size : List ℕ → ℕ
setup_size image = (get_or image 0x1f1 0 + 1) * 512

-- `image[0x1f1..0x290].to_vec()`.
unfoldable pub retain_header : List ℕ → Result (List ℕ)
retain_header image = if ltb (length image) 0x290 then panic else ok (take 0x9f (drop 0x1f1 image))

-- The set-up sectors and the payload behind them, loaded where the boot protocol wants them.
unfoldable pub place_bzimage : (image : List ℕ) (size : ℕ) → Loaded → Result Loaded
unfolding retain_header
place_bzimage image size vm = do
  m ← load_blob vm.memory 0x10000 (take size image)
  m ← load_blob m kernel_load_addr (drop size image)
  header ← retain_header image
  ok (record vm { memory = m; kernel_is_bzimage = true; bzimage_header = header })

unfoldable pub load_bzimage : List ℕ → Loaded → Result Loaded
unfolding setup_size place_bzimage
load_bzimage image vm = read_u32 image 0x248 >>= λ payload_offset.
    read_u32 image 0x24c >>= λ payload_length.
    if ltb (setup_size image) 0x200
      || ltb payload_offset 0x200
      || leb (length image) (setup_size image)
    then err (
        kernel_load_failed (
          "invalid bzImage payload range: setup="
          <> show_hex (setup_size image)
          <> ", header offset="
          <> show_hex payload_offset
          <> ", length="
          <> show_hex payload_length))
    else place_bzimage image (setup_size image) vm

unfoldable pub load_image : List ℕ → Loaded → Result Loaded
load_image image vm = do
  m ← load_blob vm.memory kernel_load_addr image
  ok (record vm { memory = m })

-- The contents of the file, with the error of a read that fails.
unfoldable pub contents : (path : String) → Outcome String (List ℕ) → Result (List ℕ)
contents path file = elim file [
  | ok image ↦ ok image
  | err e ↦ err (kernel_load_failed ("reading " <> path <> ": " <> e))
  | panic ↦ panic
  | out_of_fuel ↦ out_of_fuel
]

unfoldable pub load_kernel :
    (path : String) (exists : Bool) (file : Outcome String (List ℕ)) → Loaded → Result Loaded
unfolding contents
load_kernel path exists file vm = if not exists then err (kernel_not_found path) else do
  image ← contents path file
  if is_bzimage image then load_bzimage image vm else load_image image vm

unfoldable pub load_initramfs :
    (path : String) (exists : Bool) (file : Outcome String (List ℕ)) → Loaded → Result Loaded
load_initramfs path exists file vm =
    if not exists then err (initramfs_not_found path) else elim file [
      | err e ↦ err (kernel_load_failed ("reading initramfs " <> path <> ": " <> e))
      | panic ↦ panic
      | out_of_fuel ↦ out_of_fuel
      | ok image ↦ do
        m ← load_blob vm.memory initramfs_load_addr image
        ok (record vm { memory = m; initramfs_size = length image })
    ]

ok_inj : {A : Type 0} {a b : A} → ◌≡◌ {A = Result A} (ok a) (ok b) → a ≡ b
ok_inj e = cc

unless :
    {A : Type 0} (b : Bool) (r s : Result A) {v : A}
    → ((v : A) → r ≡ ok v → ⊥)
    → (if b then r else s) ≡ ok v
    → (b ≡ false) × (s ≡ ok v)
unless true r s n e = absurd (n _ e)
unless false r s n e = (refl, e)

retain_header-eq-ok :
    (image header : List ℕ)
    → retain_header image ≡ ok header
    → (0x290 ≤ length image) × (header ≡ take 0x9f (drop 0x1f1 image))
unfolding retain_header
retain_header-eq-ok image header e =
    let (long, kept) =
      unless (ltb (length image) 0x290) panic (ok (take 0x9f (drop 0x1f1 image))) (λ v n. cc) e in
    (ltb-false _ _ long, sym (ok_inj kept))

-- What a load that succeeds did.
abbrev Placed : List ℕ → (size : ℕ) (vm vm' : Loaded) → Type 0
Placed image size vm vm' =
    (m : GuestMemory) × (load_blob vm.memory 0x10000 (take size image) ≡ ok m)
    × (load_blob m kernel_load_addr (drop size image) ≡ ok vm'.memory)
    × (0x290 ≤ length image)
    × (vm'.bzimage_header ≡ take 0x9f (drop 0x1f1 image))
    × (vm'.kernel_is_bzimage ≡ true)

place_bzimage-eq-ok :
    (image : List ℕ) (size : ℕ) (vm vm' : Loaded)
    → place_bzimage image size vm ≡ ok vm'
    → Placed image size vm vm'
unfolding place_bzimage
place_bzimage-eq-ok image size vm vm' e =
    let (m1, e1, k1) = >>=-eq-ok (load_blob vm.memory 0x10000 (take size image)) _ e in
    let (m2, e2, k2) = >>=-eq-ok (load_blob m1 kernel_load_addr (drop size image)) _ k1 in
    let (header, e3, k3) = >>=-eq-ok (retain_header image) _ k2 in
    let (long, kept) = retain_header-eq-ok image header e3 in
    let vm_e = ok_inj k3 in
    (
      m1,
      e1,
      e2 ∙ ap ok (ap (λ (v : Loaded). v.memory) vm_e),
      long,
      sym (ap (λ (v : Loaded). v.bzimage_header) vm_e) ∙ kept,
      sym (ap (λ (v : Loaded). v.kernel_is_bzimage) vm_e),
    )

load_bzimage-eq-ok :
    (image : List ℕ) (vm vm' : Loaded)
    → load_bzimage image vm ≡ ok vm'
    → Placed image (setup_size image) vm vm'
unfolding load_bzimage
load_bzimage-eq-ok image vm vm' e =
    let (offset, e1, k1) = >>=-eq-ok (read_u32 image 0x248) _ e in
    let (len, e2, k2) = >>=-eq-ok (read_u32 image 0x24c) _ k1 in
    place_bzimage-eq-ok image (setup_size image) vm vm'
      (unless
        (ltb (setup_size image) 0x200 || ltb offset 0x200 || leb (length image) (setup_size image))
        (err _) _ (λ v n. cc) k2).1

-- In a mapped region, a bzImage that loads stands from the load address on without its set-up
-- sectors, and leaves a boot header of 0x9f bytes, the length that the boot set-up asks for, and
-- the bzImage flag.
pub load_bzimage-loaded :
    (image : List ℕ) (vm vm' : Loaded)
    → vm.memory.size < 2 ^ 64
    → load_bzimage image vm ≡ ok vm'
    → (read_guest vm'.memory kernel_load_addr (length (drop (setup_size image) image))
        ≡ ok (drop (setup_size image) image))
      × (length vm'.bzimage_header ≡ 0x9f)
      × (vm'.kernel_is_bzimage ≡ true)
unfolding load_blob
load_bzimage-loaded image vm vm' s e =
    let (m, first, second, long, header, flag) = load_bzimage-eq-ok image vm vm' e in
    let (_, _, size, _) =
      read_guest-write_guest vm.memory m 0x10000 (take (setup_size image) image) s first in
    let (here, _, _, _) =
      read_guest-write_guest m vm'.memory kernel_load_addr (drop (setup_size image) image)
        (rw size s) second in
    (
      here,
      rw header
          (omega (arith, length-take {0} 0x9f (drop 0x1f1 image), length-drop {0} 0x1f1 image)),
      flag,
    )

-- In a mapped region with room for it, an image of more than 0x200 and fewer than 0x290 bytes, with
-- one set-up sector, whose two payload fields can be read and whose payload offset is at least
-- 0x200, panics when its header is kept.
pub load_bzimage-short :
    (image : List ℕ) (vm : Loaded) (payload_offset payload_length : ℕ)
    → read_u32 image 0x248 ≡ ok payload_offset
    → read_u32 image 0x24c ≡ ok payload_length
    → 0x200 ≤ payload_offset
    → setup_size image ≡ 0x200
    → length image < 0x290
    → 0x200 < length image
    → vm.memory.size < 2 ^ 64
    → kernel_load_addr + 0x290 ≤ vm.memory.size
    → load_bzimage image vm ≡ panic
unfolding load_bzimage place_bzimage retain_header load_blob
load_bzimage-short image vm offset len e1 e2 h sects short long s room =
    let a = take 0x200 image in
    let b = drop 0x200 image in
    let in_setup = write_guest_inside vm.memory 0x10000 a s (rw length-take (omega arith)) in
    let in_payload =
      write_guest_inside (written vm.memory 0x10000 a) kernel_load_addr b s
        (rw length-drop (omega arith)) in
    let c1 : ltb 0x200 0x200 ≡ false = refl in
    let c2 : ltb offset 0x200 ≡ false = le→ltb _ _ h in
    let c3 : leb (length image) 0x200 ≡ false = lt→leb _ _ long in
    let c4 : ltb (length image) 0x290 ≡ true = lt→ltb _ _ short in
    rw (e1, e2, sects, c2, c3, in_setup, in_payload, c4) refl
