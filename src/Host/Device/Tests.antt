-- ===== src/Host/Device/Tests.antt =====
-- The life of a device, and the theorem on its calls there.
use blockcat.Prelude.{◌≡◌, refl, none, List, [], ◌∷◌, map, ok, err}
use blockcat.Host.Device.{
  already_running, not_running, preferred, default_config, block_size_or_zero, sample_rate_or_zero,
  new_null, null_initialize, null_start, null_stop, null_adapter, new_alsa, alsa_adapter,
  new_core_audio, core_audio_adapter,
}
use blockcat.Host.Device.Lifecycle.{
  Call, initializes, starts, stops, opened, done, run, last_handle, device_replies, skeleton_reply,
  alsa_message, core_audio_message, device_lifecycle,
}

-- The first start comes too early, the third one too late.
abbrev calls : List Call
calls =
    starts
    ∷ initializes default_config
    ∷ starts
    ∷ starts
    ∷ stops
    ∷ stops
    ∷ initializes (record default_config { preferred_block_size = 128 })
    ∷ starts
    ∷ []

device_lifecycle_example :
    ((run null_adapter calls new_null).0 ≡ device_replies [] calls)
    × (null_adapter.current_block_size (run null_adapter calls new_null).1
        ≡ block_size_or_zero (last_handle none calls))
    × (null_adapter.current_sample_rate (run null_adapter calls new_null).1
        ≡ sample_rate_or_zero (last_handle none calls))
    × (run alsa_adapter calls new_alsa
        ≡ (map (skeleton_reply alsa_message) calls, record { handle = last_handle none calls }))
    × (run core_audio_adapter calls new_core_audio ≡ (
      map (skeleton_reply core_audio_message) calls,
      record { handle = last_handle none calls },
    ))
device_lifecycle_example = device_lifecycle calls

null_replies :
    (run null_adapter calls new_null).0
    ≡ done (err not_running)
      ∷ opened (ok (preferred default_config))
      ∷ done (ok tt)
      ∷ done (err already_running)
      ∷ done (ok tt)
      ∷ done (err not_running)
      ∷ opened (ok (record { sample_rate = 96000; block_size = 128 }))
      ∷ done (ok tt)
      ∷ []
unfolding run null_adapter new_null null_initialize null_start null_stop
null_replies = refl
