-- ===== src/Audio.antt =====
-- crates/audio/src/lib.rs: the audio device and its software buffer.
pub mod Buffer
use litedroid.Base.{
  ℕ, String, List, [], ◌∷◌, ◌++◌, length, ltb, leb, ◌==◌, if◌then◌else◌, wrap8, wrap32,
}
use litedroid.Devices.Trait.{VirtDevice}

pub data AudioBackend : Type 0 where
  pulse_audio : String → AudioBackend
  disabled : AudioBackend

abbrev pub audio_buf_size : ℕ
audio_buf_size = 4096

abbrev pub flush_threshold : ℕ
flush_threshold = 2048

pub record AudioDevice : Type 0 where
  pub buffer : List ℕ
  pub sample_rate : ℕ
  pub channels : ℕ
  pub status : ℕ

unfoldable pub new : AudioDevice
new = record { buffer = []; sample_rate = 48000; channels = 2; status = 0 }

unfoldable pub flush_buffer : AudioDevice → AudioDevice
flush_buffer d = if leb flush_threshold (length d.buffer) then record d { buffer = [] } else d

-- The registers are REG_CTRL 0x00, REG_DATA 0x04, REG_SAMPLE_RATE 0x08, REG_CHANNELS 0x0C and
-- REG_STATUS 0x10.
unfoldable pub mmio_read : AudioDevice → ℕ → ℕ → ℕ × AudioDevice
mmio_read d offset size =
    if offset == 0x00
    then (0, d)
    else if offset == 0x04
    then (0, d)
    else if offset == 0x08
    then (d.sample_rate, d)
    else if offset == 0x0C
    then (d.channels, d)
    else if offset == 0x10
    then (d.status, d)
    else (0, d)

unfoldable pub push_sample : AudioDevice → ℕ → AudioDevice
push_sample d value =
    if ltb (length d.buffer) audio_buf_size
    then record d { buffer = d.buffer ++ (wrap8 value ∷ []) }
    else d

unfoldable pub mmio_write : AudioDevice → ℕ → ℕ → ℕ → AudioDevice
unfolding push_sample flush_buffer
mmio_write d offset size value =
    if offset == 0x00
    then d
    else if offset == 0x04
    then flush_buffer (push_sample d value)
    else if offset == 0x08
    then record d { sample_rate = wrap32 value }
    else if offset == 0x0C
    then record d { channels = wrap32 value }
    else if offset == 0x10
    then record d { status = wrap32 value }
    else d

unfoldable pub reset : AudioDevice → AudioDevice
reset d = record d { buffer = []; sample_rate = 48000; channels = 2; status = 0 }

instance abbrev pub audio_device : VirtDevice AudioDevice
audio_device = record {
  name = λ d. "virtio-audio";
  device_type = λ d. "audio";
  mmio_read = mmio_read;
  mmio_write = mmio_write;
  reset = reset;
  device_tree_compatible = λ d. "virtio,audio";
}
