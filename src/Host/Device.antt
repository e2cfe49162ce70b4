-- ===== src/Host/Device.antt =====
-- crates/riaps-host/src/lib.rs, alsa.rs and coreaudio.rs: the interface to a sound device, the null
-- adapter, and the two reference adapters, which never start.
pub mod Lifecycle
mod Tests
use Prim.Native.String.{String}
use blockcat.Prelude.{ℕ, Bool, true, false, not, Option, none, some, Result, ok, err, if◌then◌else◌}

pub record HostConfig : Type 0 where
  pub preferred_sample_rate : ℕ
  pub preferred_block_size : ℕ
  pub min_block_size : ℕ
  pub max_block_size : ℕ
  pub num_input_channels : ℕ
  pub num_output_channels : ℕ

-- `HostConfig::default`
abbrev pub default_config : HostConfig
default_config = record {
  preferred_sample_rate = 96000;
  preferred_block_size = 512;
  min_block_size = 64;
  max_block_size = 4096;
  num_input_channels = 2;
  num_output_channels = 2;
}

pub data HostError : Type 0 where
  device_unavailable : HostError
  unsupported : HostError
  already_running : HostError
  not_running : HostError
  backend : String → HostError

pub record HostHandle : Type 0 where
  pub sample_rate : ℕ
  pub block_size : ℕ

-- The trait: `T` is the type of the adapter.
pub record HostAdapter (T : Type 0) : Type 0 where
  pub initialize : T → HostConfig → Result HostHandle HostError × T
  pub start : T → Result (Unit {0}) HostError × T
  pub stop : T → Result (Unit {0}) HostError × T
  pub current_block_size : T → ℕ
  pub current_sample_rate : T → ℕ
  pub supports_dynamic_block_size : T → Bool

-- The handle that all three adapters take from a configuration.
abbrev pub preferred : HostConfig → HostHandle
preferred config = record {
  sample_rate = config.preferred_sample_rate;
  block_size = config.preferred_block_size;
}

abbrev pub is_none : Option HostHandle → Bool
is_none none = true
is_none (some h) = false

-- `handle.map(|h| h.block_size).unwrap_or(0)`, and the same for the rate.
abbrev pub block_size_or_zero : Option HostHandle → ℕ
block_size_or_zero none = 0
block_size_or_zero (some h) = h.block_size

abbrev pub sample_rate_or_zero : Option HostHandle → ℕ
sample_rate_or_zero none = 0
sample_rate_or_zero (some h) = h.sample_rate

pub record NullAdapter : Type 0 where
  pub handle : Option HostHandle
  pub running : Bool

pub new_null : NullAdapter
new_null = record { handle = none; running = false }

pub null_initialize : NullAdapter → HostConfig → Result HostHandle HostError × NullAdapter
null_initialize a config = (ok (preferred config), record a { handle = some (preferred config) })

pub null_start : NullAdapter → Result (Unit {0}) HostError × NullAdapter
null_start a =
    if is_none a.handle
    then (err not_running, a)
    else if a.running
    then (err already_running, a)
    else (ok tt, record a { running = true })

pub null_stop : NullAdapter → Result (Unit {0}) HostError × NullAdapter
null_stop a = if not a.running then (err not_running, a) else (ok tt, record a { running = false })

pub null_adapter : HostAdapter NullAdapter
null_adapter = record {
  initialize = null_initialize;
  start = null_start;
  stop = null_stop;
  current_block_size = λ a. block_size_or_zero a.handle;
  current_sample_rate = λ a. sample_rate_or_zero a.handle;
  supports_dynamic_block_size = λ a. true;
}

pub record AlsaAdapter : Type 0 where
  pub handle : Option HostHandle

pub new_alsa : AlsaAdapter
new_alsa = record { handle = none }

pub alsa_adapter : HostAdapter AlsaAdapter
alsa_adapter = record {
  initialize = λ a config. (ok (preferred config), record { handle = some (preferred config) });
  start = λ a. (err (backend "参考骨架未链接 libasound；生产实现见 §3.2.4"), a);
  stop = λ a. (err not_running, a);
  current_block_size = λ a. block_size_or_zero a.handle;
  current_sample_rate = λ a. sample_rate_or_zero a.handle;
  supports_dynamic_block_size = λ a. true;
}

pub record CoreAudioAdapter : Type 0 where
  pub handle : Option HostHandle

pub new_core_audio : CoreAudioAdapter
new_core_audio = record { handle = none }

pub core_audio_adapter : HostAdapter CoreAudioAdapter
core_audio_adapter = record {
  initialize = λ a config. (ok (preferred config), record { handle = some (preferred config) });
  start = λ a. (err (backend "参考骨架未链接 CoreAudio；生产实现见 §3.2.4"), a);
  stop = λ a. (err not_running, a);
  current_block_size = λ a. block_size_or_zero a.handle;
  current_sample_rate = λ a. sample_rate_or_zero a.handle;
  supports_dynamic_block_size = λ a. false;
}
