-- ===== src/Ipc/Tests.antt =====
-- Two payloads, and a message of one byte that a stand-in for serde carries.
use litedroid.Base.{◌≡◌, true, [], ◌∷◌, ok, All, arith}
use litedroid.Ipc.{IpcStream}
use litedroid.Ipc.Frames.{write_all, read_all, peer, Fits, read_all-write_all}

abbrev fresh : IpcStream
fresh = record { incoming = []; sent = []; writable = true }

both_fit : All Fits ((1 ∷ 2 ∷ []) ∷ [] ∷ [])
unfolding Fits
both_fit = (omega arith, (omega arith, tt))

read_all-write_all_example :
    (s : IpcStream) × (write_all ((1 ∷ 2 ∷ []) ∷ [] ∷ []) fresh ≡ ok s)
    × (read_all 2 (peer s) ≡ ok ((1 ∷ 2 ∷ []) ∷ [] ∷ []))
read_all-write_all_example = read_all-write_all ((1 ∷ 2 ∷ []) ∷ [] ∷ []) [] both_fit
