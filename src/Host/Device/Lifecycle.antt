-- ===== src/Host/Device/Lifecycle.antt =====
-- Sequences of calls of an adapter of crates/riaps-host/src/lib.rs, alsa.rs and coreaudio.rs.
use Prim.Native.String.{String}
use blockcat.Prelude.{
  ◌≡◌, ◌∙◌, refl, sym, ap, arith, Bool, true, false, not, Option, none, some, List, [], ◌∷◌, map,
  Result, ok, err, if◌then◌else◌, Bool-cases, inl, inr,
}
use blockcat.Host.Device.{
  HostConfig, HostError, already_running, not_running, backend, HostHandle, HostAdapter, preferred,
  is_none, block_size_or_zero, sample_rate_or_zero, NullAdapter, new_null, null_initialize,
  null_start, null_stop, null_adapter, AlsaAdapter, new_alsa, alsa_adapter, CoreAudioAdapter,
  new_core_audio, core_audio_adapter,
}

pub data Call : Type 0 where
  initializes : HostConfig → Call
  starts : Call
  stops : Call

pub data Reply : Type 0 where
  opened : Result HostHandle HostError → Reply
  done : Result (Unit {0}) HostError → Reply

module _ {T : Type 0} (ops : HostAdapter T) where
  unfoldable pub run : List Call → T → List Reply × T
  run [] a = ([], a)
  run (initializes config ∷ calls) a =
      let (result, a') = ops.initialize a config in
      let (rest, last) = run calls a' in (opened result ∷ rest, last)
  run (starts ∷ calls) a =
      let (result, a') = ops.start a in
      let (rest, last) = run calls a' in (done result ∷ rest, last)
  run (stops ∷ calls) a =
      let (result, a') = ops.stop a in let (rest, last) = run calls a' in (done result ∷ rest, last)

-- The handle of the last configuration, where there is one.
unfoldable pub last_handle : Option HostHandle → List Call → Option HostHandle
last_handle h [] = h
last_handle h (initializes config ∷ calls) = last_handle (some (preferred config)) calls
last_handle h (starts ∷ calls) = last_handle h calls
last_handle h (stops ∷ calls) = last_handle h calls

-- One of the calls so far, with the last one first, is an initialisation.
unfoldable pub is_open : List Call → Bool
is_open [] = false
is_open (initializes config ∷ before) = true
is_open (starts ∷ before) = is_open before
is_open (stops ∷ before) = is_open before

-- A start that comes after an initialisation has no stop after it.
unfoldable pub is_playing : List Call → Bool
is_playing [] = false
is_playing (initializes config ∷ before) = is_playing before
is_playing (starts ∷ before) = is_open before
is_playing (stops ∷ before) = false

-- The answers of a device, from the calls that came before.
unfoldable pub device_reply : List Call → Call → Reply
device_reply before (initializes config) = opened (ok (preferred config))
device_reply before starts =
    if is_playing before
    then done (err already_running)
    else if is_open before
    then done (ok tt)
    else done (err not_running)
device_reply before stops = if is_playing before then done (ok tt) else done (err not_running)

unfoldable pub device_replies : List Call → List Call → List Reply
device_replies before [] = []
device_replies before (c ∷ calls) = device_reply before c ∷ device_replies (c ∷ before) calls

-- The answers of an adapter with no device, whose start fails with this message.
unfoldable pub skeleton_reply : String → Call → Reply
skeleton_reply message (initializes config) = opened (ok (preferred config))
skeleton_reply message starts = done (err (backend message))
skeleton_reply message stops = done (err not_running)

playing-open : (before : List Call) → is_open before ≡ false → is_playing before ≡ false
unfolding is_open is_playing
playing-open [] e = refl
playing-open (initializes config ∷ before) e = absurd (ground (arith, e))
playing-open (starts ∷ before) e = e
playing-open (stops ∷ before) e = refl

-- The null adapter after the calls `before`.
record Fits (before : List Call) (a : NullAdapter) : Type 0 where
  handles : is_none a.handle ≡ not (is_open before)
  playing : a.running ≡ is_playing before

null-start :
    (before : List Call) (a : NullAdapter)
    → Fits before a
    → (done (null_start a).0 ≡ device_reply before starts)
      × Fits (starts ∷ before) (null_start a).1
      × ((null_start a).1.handle ≡ a.handle)
unfolding null_start device_reply is_open is_playing
null-start before a f = elim (Bool-cases (is_open before)) [
  | inl o ↦
      let h : is_none a.handle ≡ false = f.handles ∙ ap not o in
      elim (Bool-cases (is_playing before)) [
        | inl r ↦
            let t : a.running ≡ true = f.playing ∙ r in
            rw (h, t, o, r) (refl, record { handles = f.handles; playing = sym o }, refl)
        | inr r ↦
            let t : a.running ≡ false = f.playing ∙ r in
            rw (h, t, o, r) (refl, record { handles = f.handles; playing = sym o }, refl)
      ]
  | inr o ↦
      let h : is_none a.handle ≡ true = f.handles ∙ ap not o in
      let r = playing-open before o in
      rw (h, o, r) (refl, record { handles = f.handles; playing = f.playing ∙ r ∙ sym o }, refl)
]

null-stop :
    (before : List Call) (a : NullAdapter)
    → Fits before a
    → (done (null_stop a).0 ≡ device_reply before stops)
      × Fits (stops ∷ before) (null_stop a).1
      × ((null_stop a).1.handle ≡ a.handle)
unfolding null_stop device_reply is_open is_playing
null-stop before a f = elim (Bool-cases (is_playing before)) [
  | inl r ↦
      let t : a.running ≡ true = f.playing ∙ r in
      rw (t, r) (refl, record { handles = f.handles; playing = refl }, refl)
  | inr r ↦
      let t : a.running ≡ false = f.playing ∙ r in
      rw (t, r) (refl, record { handles = f.handles; playing = refl }, refl)
]

null-run :
    (before calls : List Call) (a : NullAdapter)
    → Fits before a
    → ((run null_adapter calls a).0 ≡ device_replies before calls)
      × ((run null_adapter calls a).1.handle ≡ last_handle a.handle calls)
unfolding run last_handle device_replies device_reply is_open is_playing null_adapter
    null_initialize
null-run before [] a f = (refl, refl)
null-run before (initializes config ∷ calls) a f =
    let (same, handle) =
      null-run (initializes config ∷ before) calls (record a { handle = some (preferred config) })
        (record { handles = refl; playing = f.playing }) in
    (ap (λ rs. opened (ok (preferred config)) ∷ rs) same, handle)
null-run before (starts ∷ calls) a f =
    let (reply, f', kept) = null-start before a f in
    let (same, handle) = null-run (starts ∷ before) calls (null_start a).1 f' in
    (cc (reply, same), handle ∙ ap (λ h. last_handle h calls) kept)
null-run before (stops ∷ calls) a f =
    let (reply, f', kept) = null-stop before a f in
    let (same, handle) = null-run (stops ∷ before) calls (null_stop a).1 f' in
    (cc (reply, same), handle ∙ ap (λ h. last_handle h calls) kept)

abbrev pub alsa_message : String
alsa_message = "参考骨架未链接 libasound；生产实现见 §3.2.4"

abbrev pub core_audio_message : String
core_audio_message = "参考骨架未链接 CoreAudio；生产实现见 §3.2.4"

alsa-run :
    (calls : List Call) (a : AlsaAdapter)
    → run alsa_adapter calls a
      ≡ (map (skeleton_reply alsa_message) calls, record { handle = last_handle a.handle calls })
unfolding run last_handle skeleton_reply alsa_adapter
alsa-run [] a = refl
alsa-run (initializes config ∷ calls) a =
    ap (λ r. (opened (ok (preferred config)) ∷ r.0, r.1))
      (alsa-run calls (record { handle = some (preferred config) }))
alsa-run (starts ∷ calls) a =
    ap (λ r. (done (err (backend alsa_message)) ∷ r.0, r.1)) (alsa-run calls a)
alsa-run (stops ∷ calls) a = ap (λ r. (done (err not_running) ∷ r.0, r.1)) (alsa-run calls a)

core_audio-run :
    (calls : List Call) (a : CoreAudioAdapter)
    → run core_audio_adapter calls a ≡ (
      map (skeleton_reply core_audio_message) calls,
      record { handle = last_handle a.handle calls },
    )
unfolding run last_handle skeleton_reply core_audio_adapter
core_audio-run [] a = refl
core_audio-run (initializes config ∷ calls) a =
    ap (λ r. (opened (ok (preferred config)) ∷ r.0, r.1))
      (core_audio-run calls (record { handle = some (preferred config) }))
core_audio-run (starts ∷ calls) a =
    ap (λ r. (done (err (backend core_audio_message)) ∷ r.0, r.1)) (core_audio-run calls a)
core_audio-run (stops ∷ calls) a =
    ap (λ r. (done (err not_running) ∷ r.0, r.1)) (core_audio-run calls a)

-- Any calls of `initialize`, `start` and `stop` on new adapters. `initialize` gives the preferred rate
-- and block size on all three. On the null adapter a start fails with `not_running` where no call
-- before it is an initialisation, with `already_running` where a start after an initialisation has no
-- stop after it, and else succeeds; a stop succeeds in just that second case, and fails with
-- `not_running` in all others. On the ALSA and the CoreAudio adapter each start fails with the message
-- of the adapter and each stop with `not_running`. On all three the block size and the sample rate are
-- those of the last configuration, and 0 before the first.
pub device_lifecycle :
    (calls : List Call)
    → ((run null_adapter calls new_null).0 ≡ device_replies [] calls)
      × (null_adapter.current_block_size (run null_adapter calls new_null).1
          ≡ block_size_or_zero (last_handle none calls))
      × (null_adapter.current_sample_rate (run null_adapter calls new_null).1
          ≡ sample_rate_or_zero (last_handle none calls))
      × (run alsa_adapter calls new_alsa
          ≡ (map (skeleton_reply alsa_message) calls, record { handle = last_handle none calls }))
      × (run core_audio_adapter calls new_core_audio ≡ (
        map (skeleton_reply core_audio_message) calls,
        record { handle = last_handle none calls },
      ))
unfolding new_null new_alsa new_core_audio null_adapter is_open is_playing
device_lifecycle calls =
    let (replies, handle) =
      null-run [] calls new_null (record { handles = refl; playing = refl }) in
    (
      replies,
      ap block_size_or_zero handle,
      ap sample_rate_or_zero handle,
      alsa-run calls new_alsa,
      core_audio-run calls new_core_audio,
    )
