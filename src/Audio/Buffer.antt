-- ===== src/Audio/Buffer.antt =====
-- What the software buffer holds, whatever the guest writes.
use litedroid.Base.{
  ℕ, ◌+◌, ◌<◌, ◌≡◌, List, [], ◌∷◌, ◌++◌, length, ltb, leb, ◌==◌, wrap8, arith, IsByte, IsBytes,
  All-append, length-append, if_split, Bool-cases, ltb→lt, ltb-false, lt→ltb, true, false, inl, inr,
  ap, refl,
}
use litedroid.Audio.{
  AudioDevice, new, flush_buffer, flush_threshold, audio_buf_size, push_sample, mmio_write,
}

-- What holds between two accesses: less than a flush is buffered, and only bytes are.
pub record IsSteady (d : AudioDevice) : Type 0 where
  pub short : length d.buffer < flush_threshold
  pub bytes : IsBytes d.buffer

-- A sequence of register writes, each an offset, a size and a value.
unfoldable pub writes : AudioDevice → List (ℕ × ℕ × ℕ) → AudioDevice
writes d [] = d
writes d ((offset, size, value) ∷ ws) = writes (mmio_write d offset size value) ws

pub new-IsSteady : IsSteady new
unfolding new
new-IsSteady = record { short = omega arith; bytes = tt }

-- The two outcomes of a data write.
sample_kept :
    (d : AudioDevice) (value : ℕ)
    → length d.buffer + 1 < flush_threshold
    → flush_buffer (push_sample d value) ≡ record d { buffer = d.buffer ++ (wrap8 value ∷ []) }
unfolding push_sample flush_buffer
sample_kept d value h =
    let room : ltb (length d.buffer) audio_buf_size ≡ true = lt→ltb _ _ (omega arith) in
    let longer = length-append d.buffer (wrap8 value ∷ []) in
    let waits : leb flush_threshold (length (d.buffer ++ (wrap8 value ∷ []))) ≡ false =
      ground (arith, longer) in
    rw (room, waits) refl

sample_flushed :
    (d : AudioDevice) (value : ℕ)
    → length d.buffer + 1 ≡ flush_threshold
    → flush_buffer (push_sample d value) ≡ record d { buffer = [] }
unfolding push_sample flush_buffer
sample_flushed d value h =
    let room : ltb (length d.buffer) audio_buf_size ≡ true = lt→ltb _ _ (omega arith) in
    let longer = length-append d.buffer (wrap8 value ∷ []) in
    let full : leb flush_threshold (length (d.buffer ++ (wrap8 value ∷ []))) ≡ true =
      ground (arith, longer) in
    rw (room, full) refl

sampled : (d : AudioDevice) (value : ℕ) → IsSteady d → IsSteady (flush_buffer (push_sample d value))
sampled d value st = elim (Bool-cases (ltb (length d.buffer + 1) flush_threshold)) [
  | inl e ↦
      let h = ltb→lt _ _ e in
      rw (sample_kept d value h) (record {
        short = rw length-append h;
        bytes = All-append IsByte d.buffer (wrap8 value ∷ []) st.bytes (omega arith, tt);
      })
  | inr e ↦
      let room = st.short in
      let h = ltb-false _ _ e in
      rw (sample_flushed d value (omega arith)) (record { short = omega arith; bytes = tt })
]

mmio_write-IsSteady :
    (d : AudioDevice) (offset size value : ℕ)
    → IsSteady d
    → IsSteady (mmio_write d offset size value)
unfolding mmio_write
mmio_write-IsSteady d offset size value st =
    if_split IsSteady (offset == 0x00) (λ _. st)
      (λ _.
        if_split IsSteady (offset == 0x04) (λ _. sampled d value st)
          (λ _.
            if_split IsSteady (offset == 0x08) (λ _. record { short = st.short; bytes = st.bytes })
              (λ _.
                if_split IsSteady (offset == 0x0C)
                  (λ _. record { short = st.short; bytes = st.bytes })
                  (λ _.
                    if_split IsSteady (offset == 0x10)
                      (λ _. record { short = st.short; bytes = st.bytes }) (λ _. st)))))

-- From a device that has buffered less than a flush, and only bytes, any sequence of register
-- writes leaves such a device.
pub writes-IsSteady :
    (d : AudioDevice) (ws : List (ℕ × ℕ × ℕ)) → IsSteady d → IsSteady (writes d ws)
unfolding writes
writes-IsSteady d [] st = st
writes-IsSteady d ((offset, size, value) ∷ ws) st =
    writes-IsSteady (mmio_write d offset size value) ws (mmio_write-IsSteady d offset size value st)

-- A data write to such a device keeps the low byte of the sample behind the ones before it, or,
-- when it fills the buffer to the flush threshold, empties the buffer: no sample is dropped for
-- want of room.
pub mmio_write-sample :
    (d : AudioDevice) (size value : ℕ)
    → IsSteady d
    → let d' = mmio_write d 0x04 size value in
      (length d.buffer + 1 < flush_threshold → d'.buffer ≡ d.buffer ++ (wrap8 value ∷ []))
      × (length d.buffer + 1 ≡ flush_threshold → d'.buffer ≡ [])
unfolding mmio_write
mmio_write-sample d size value st = (
  (λ h. ap (λ (x : AudioDevice). x.buffer) (sample_kept d value h)),
  (λ h. ap (λ (x : AudioDevice). x.buffer) (sample_flushed d value h)),
)
