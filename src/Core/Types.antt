-- ===== src/Core/Types.antt =====
-- crates/core/src/types.rs: the enums with their `Display`, the configuration records with their
-- `Default`, and the input events. A coordinate is an `i32`, a signed integer.
use litedroid.Base.{ℕ, ℤ, String, Bool, true, List, []}

pub data Architecture : Type 0 where
  x86_64 aarch64 : Architecture

unfoldable pub show_architecture : Architecture → String
show_architecture Architecture.x86_64 = "x86_64"
show_architecture aarch64 = "aarch64"

pub data PowerState : Type 0 where
  off starting running pausing paused resuming stopping error : PowerState

unfoldable pub show_power_state : PowerState → String
show_power_state off = "off"
show_power_state starting = "starting"
show_power_state running = "running"
show_power_state pausing = "pausing"
show_power_state paused = "paused"
show_power_state resuming = "resuming"
show_power_state stopping = "stopping"
show_power_state error = "error"

pub data BootMode : Type 0 where
  cold fast : BootMode

pub data AndroidAbi : Type 0 where
  x86_64 arm64_v8a armeabi_v7a : AndroidAbi

unfoldable pub show_android_abi : AndroidAbi → String
show_android_abi AndroidAbi.x86_64 = "x86_64"
show_android_abi arm64_v8a = "arm64-v8a"
show_android_abi armeabi_v7a = "armeabi-v7a"

pub record DisplayConfig : Type 0 where
  pub width : ℕ
  pub height : ℕ
  pub dpi : ℕ
  pub refresh_rate : ℕ

abbrev pub default_display : DisplayConfig
default_display = record { width = 1080; height = 1920; dpi = 420; refresh_rate = 60 }

pub data PortProtocol : Type 0 where
  tcp udp : PortProtocol

pub record PortForward : Type 0 where
  pub host_port : ℕ
  pub guest_port : ℕ
  pub protocol : PortProtocol

pub record NetworkConfig : Type 0 where
  pub enabled : Bool
  pub port_forwards : List PortForward
  pub guest_ip : String
  pub gateway_ip : String

abbrev pub default_network : NetworkConfig
default_network = record {
  enabled = true;
  port_forwards = [];
  guest_ip = "10.0.2.15";
  gateway_ip = "10.0.2.2";
}

pub record AudioConfig : Type 0 where
  pub enabled : Bool
  pub backend : String
  pub sample_rate : ℕ
  pub channels : ℕ

abbrev pub default_audio : AudioConfig
default_audio = record { enabled = true; backend = "pulseaudio"; sample_rate = 48000; channels = 2 }

pub record StorageConfig : Type 0 where
  pub userdata_path : String
  pub userdata_size_mb : ℕ
  pub cache_path : String
  pub cache_size_mb : ℕ

abbrev pub default_storage : StorageConfig
default_storage = record {
  userdata_path = "";
  userdata_size_mb = 4096;
  cache_path = "";
  cache_size_mb = 1024;
}

pub data MouseButton : Type 0 where
  left right middle : MouseButton

pub data AndroidButton : Type 0 where
  back home recent power volume_up volume_down : AndroidButton

pub data InputEvent : Type 0 where
  mouse_down : (button : MouseButton) (x y : ℤ) → InputEvent
  mouse_up : (button : MouseButton) (x y : ℤ) → InputEvent
  mouse_move : (x y : ℤ) → InputEvent
  key_down : (keycode : ℕ) → InputEvent
  key_up : (keycode : ℕ) → InputEvent
  touch_start : (slot : ℕ) (x y : ℤ) → InputEvent
  touch_move : (slot : ℕ) (x y : ℤ) → InputEvent
  touch_end : (slot : ℕ) → InputEvent
  android_button : AndroidButton → InputEvent
