-- ===== src/Storage/Image.antt =====
-- crates/storage/src/lib.rs: `RawDiskImage`. The host's calls on files are the parameter `FileOps`
-- over the type of an open file's state; a call that returns a negative number is `none`. `pread`
-- returns the bytes that it put at the front of the buffer. Closing a descriptor is not modelled.
use litedroid.Base.{
  ℕ, ◌/◌, String, ◌<>◌, show, Bool, true, false, Option, none, some, List, ok, err,
}
use litedroid.Core.Error.{Result, disk_io}

pub record FileOps (F : Type 0) : Type 0 where
  -- `CString::new`: the message for a path with a NUL in it.
  pub path_error : String → Option String
  pub open_create : String → Option F
  pub open_rdwr : String → Option F
  pub ftruncate : F → ℕ → Option F
  pub fstat_size : F → Option ℕ
  pub pread : F → (offset len : ℕ) → Option (List ℕ)
  pub pwrite : F → (offset : ℕ) → List ℕ → Option ℕ × F
  pub fsync : F → Bool
  pub last_os_error : String

pub record RawDiskImage (F : Type 0) : Type 0 where
  pub fd : F
  pub size : ℕ

module _ {F : Type 0} (ops : FileOps F) where
  unfoldable pub create : (path : String) (size_bytes : ℕ) → Result (RawDiskImage F)
  create path size_bytes = elim (ops.path_error path) [
    | some e ↦ err (disk_io ("invalid path for disk image: " <> e))
    | none ↦ elim (ops.open_create path) [
      | none ↦
          err (disk_io ("failed to create disk image at " <> path <> ": " <> ops.last_os_error))
      | some fd ↦ elim (ops.ftruncate fd size_bytes) [
        | none ↦ err (disk_io ("ftruncate failed for " <> path <> ": " <> ops.last_os_error))
        | some fd' ↦ ok (record { fd = fd'; size = size_bytes })
      ]
    ]
  ]

  unfoldable pub open_image : (path : String) → Result (RawDiskImage F)
  open_image path = elim (ops.path_error path) [
    | some e ↦ err (disk_io ("invalid path for disk image: " <> e))
    | none ↦ elim (ops.open_rdwr path) [
      | none ↦ err (disk_io ("failed to open disk image at " <> path <> ": " <> ops.last_os_error))
      | some fd ↦ elim (ops.fstat_size fd) [
        | none ↦ err (disk_io ("fstat failed for " <> path <> ": " <> ops.last_os_error))
        | some size ↦ ok (record { fd = fd; size = size })
      ]
    ]
  ]

  -- The bytes read into the front of a buffer of `len` bytes; their number is the result.
  unfoldable pub read : RawDiskImage F → (offset len : ℕ) → Result (List ℕ)
  read d offset len = elim (ops.pread d.fd offset len) [
    | none ↦ err (disk_io ("pread failed at offset " <> show offset <> ": " <> ops.last_os_error))
    | some bs ↦ ok bs
  ]

  unfoldable pub write : RawDiskImage F → (offset : ℕ) → List ℕ → Result ℕ × RawDiskImage F
  write d offset bs =
      let (answer, fd') = ops.pwrite d.fd offset bs in
      let d' : RawDiskImage F = record d { fd = fd' } in
      (
        elim answer [
          | none ↦
              err (disk_io ("pwrite failed at offset " <> show offset <> ": " <> ops.last_os_error))
          | some n ↦ ok n
        ],
        d',
      )

  unfoldable pub flush : RawDiskImage F → Result (Unit {0})
  flush d = elim (ops.fsync d.fd) [
    | true ↦ ok tt
    | false ↦ err (disk_io ("fsync failed: " <> ops.last_os_error))
  ]

unfoldable pub sectors : {F : Type 0} → RawDiskImage F → ℕ
sectors d = d.size / 512
