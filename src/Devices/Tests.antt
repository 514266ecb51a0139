-- ===== src/Devices/Tests.antt =====
-- A bus with two serial devices.
use litedroid.Base.{ℕ, ◌≡◌, ◌≢◌, refl, some, [], ◌∷◌, get_elem?, arith}
use litedroid.Devices.Serial.{VirtioSerialDevice, serial_device, mmio_write}
use litedroid.Devices.Bus.{VirtioBus, write, device_count}
use litedroid.Devices.Bus.Routing.{address_of, write_reaches_only}

abbrev serial : VirtioSerialDevice
serial = record { status = 3; interrupt_status = 0; output = [] }

abbrev bus : VirtioBus VirtioSerialDevice
bus = record { devices = serial ∷ serial ∷ [] }

write_reaches_only_example :
    let bus' = write bus (address_of 1 0x100) 1 65 in
    (get_elem? bus'.devices 1 ≡ some (mmio_write serial 0x100 1 65))
    × ((j : ℕ) → j ≢ 1 → get_elem? bus'.devices j ≡ get_elem? (bus.devices) j)
    × (device_count bus' ≡ device_count bus)
write_reaches_only_example = write_reaches_only bus 1 0x100 1 65 serial refl (omega arith)
