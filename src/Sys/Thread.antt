-- ===== src/Sys/Thread.antt =====
-- crates/riaps-sys/src/thread.rs: `ThreadProvisioner`. The system calls of Linux and macOS are parameters
-- over the state `W` of the operating system.
pub mod Restore
pub mod Answers
mod Tests
use blockcat.Prelude.{
  ℕ, ℤ, pos, negsuc, min, max, Bool, true, false, Option, none, some, Result, ok, err, ltb, leb,
  if◌then◌else◌, ◌>>=◌, ◌==◌,
}

-- `i32::clamp(1, 99)` and `<` on `i32`.
unfoldable pub clamp : ℤ → ℤ
clamp (pos p) = pos (max 1 (min p 99))
clamp (negsuc p) = pos 1

unfoldable pub less : ℤ → ℤ → Bool
less (pos a) (pos b) = ltb a b
less (pos a) (negsuc b) = false
less (negsuc a) (pos b) = true
less (negsuc a) (negsuc b) = ltb b a

abbrev pub is_negative : ℤ → Bool
is_negative (pos a) = false
is_negative (negsuc a) = true

pub data ProvisionStrategy : Type 0 where
  unprovisioned : ProvisionStrategy
  direct : ProvisionStrategy
  rtkit : ProvisionStrategy
  portal : ProvisionStrategy
  mac_os_policy : ProvisionStrategy
  windows_mmcss : ProvisionStrategy
  fallback : ProvisionStrategy

pub data StrictAction : Type 0 where
  fatal_error : StrictAction
  retry_with_backoff : (max_ms : ℕ) → StrictAction

pub data ThreadProvisioning : Type 0 where
  best_effort : ThreadProvisioning
  strict : StrictAction → ThreadProvisioning

pub data ProvisionError : Type 0 where
  permission_denied : ProvisionError
  unsupported : ProvisionError
  strict_mode_refused : ProvisionError

-- `linux_sched::Schedule`, with the one field of its `param`.
pub record Schedule : Type 0 where
  pub policy : ℤ
  pub sched_priority : ℤ

abbrev pub sched_fifo : ℤ
sched_fifo = pos 1

pub record ThreadProvisioner : Type 0 where
  pub strategy : ProvisionStrategy
  pub granted_prio : ℤ
  pub fallback_active : Bool
  pub original_linux_schedule : Option Schedule

pub new : ThreadProvisioner
new = record {
  strategy = unprovisioned;
  granted_prio = pos 0;
  fallback_active = false;
  original_linux_schedule = none;
}

-- The system calls, for the calling thread. `sched_getparam` returns its status and the priority.
pub record Scheduler {ℓ} (W : Type ℓ) : Type ℓ where
  pub sched_getscheduler : W → ℤ
  pub sched_getparam : W → ℤ × ℤ
  pub sched_setscheduler : W → Schedule → ℤ × W

abbrev pub is_zero : ℤ → Bool
is_zero (pos a) = a == 0
is_zero (negsuc a) = false

-- The match of `provision` on what `try_direct` gave.
abbrev pub settle :
    ℤ
    → ThreadProvisioning
    → Result (ProvisionStrategy × ℤ) ProvisionError
    → ThreadProvisioner
    → Result ℤ ProvisionError × ThreadProvisioner
settle target mode (ok (strategy, granted)) p = (
  ok granted,
  record p { strategy = strategy; granted_prio = granted; fallback_active = less granted target },
)
settle target (strict action) (err e) p = (err strict_mode_refused, p)
settle target best_effort (err e) p =
    (ok (pos 0), record p { strategy = fallback; granted_prio = pos 0; fallback_active = true })

module _ {ℓ} {W : Type ℓ} where
  abbrev pub answer :
      ℤ
      → ThreadProvisioning
      → Result (ProvisionStrategy × ℤ) ProvisionError × ThreadProvisioner × W
      → Result ℤ ProvisionError × ThreadProvisioner × W
  answer target mode (result, p', w') =
      let (reply, p'') = settle target mode result p' in (reply, p'', w')

module _ {ℓ} {W : Type ℓ} (os : Scheduler W) where
  -- `linux_sched::current`
  pub current : W → Option Schedule
  current w =
      if is_negative (os.sched_getscheduler w)
      then none
      else (let (status, priority) = os.sched_getparam w in
          if is_zero status
          then some (record { policy = os.sched_getscheduler w; sched_priority = priority })
          else none)

  -- `try_direct`, where `current` gave `original`.
  pub request :
      W
      → ThreadProvisioner
      → ℤ
      → Schedule
      → Result (ProvisionStrategy × ℤ) ProvisionError × ThreadProvisioner × W
  request w p prio original =
      let (rc, w') =
        os.sched_setscheduler w (record { policy = sched_fifo; sched_priority = clamp prio }) in
      if is_zero rc
      then (ok (direct, clamp prio), record p { original_linux_schedule = some original }, w')
      else (err permission_denied, p, w')

  abbrev attempt :
      W
      → ThreadProvisioner
      → ℤ
      → Option Schedule
      → Result (ProvisionStrategy × ℤ) ProvisionError × ThreadProvisioner × W
  attempt w p prio none = (err unsupported, p, w)
  attempt w p prio (some original) = request w p prio original

  pub try_direct :
      W
      → ThreadProvisioner
      → ℤ
      → Result (ProvisionStrategy × ℤ) ProvisionError × ThreadProvisioner × W
  try_direct w p prio = attempt w p prio (current w)

  pub provision :
      W
      → ThreadProvisioner
      → ℤ
      → ThreadProvisioning
      → Result ℤ ProvisionError × ThreadProvisioner × W
  provision w p target mode = answer target mode (try_direct w p target)

  -- `Drop for ThreadProvisioner`; what the call returns is ignored.
  pub drop : W → ThreadProvisioner → W
  drop w p = elim p.original_linux_schedule [
    | none ↦ w
    | some original ↦ (os.sched_setscheduler w original).1
  ]

module _ {ℓ} {W : Type ℓ} (pthread_set_qos_class_self_np : W → ℕ → ℤ → ℤ × W) where
  -- `try_direct` on macOS.
  pub try_direct_macos :
      W
      → ThreadProvisioner
      → ℤ
      → Result (ProvisionStrategy × ℤ) ProvisionError × ThreadProvisioner × W
  try_direct_macos w p prio =
      let (rc, w') = pthread_set_qos_class_self_np w 0x21 (pos 0) in
      if is_zero rc then (ok (mac_os_policy, prio), p, w') else (err permission_denied, p, w')

  pub provision_macos :
      W
      → ThreadProvisioner
      → ℤ
      → ThreadProvisioning
      → Result ℤ ProvisionError × ThreadProvisioner × W
  provision_macos w p target mode = answer target mode (try_direct_macos w p target)

module _ {ℓ} {W : Type ℓ} where
  -- `try_direct` on the other platforms.
  pub try_direct_other :
      W
      → ThreadProvisioner
      → ℤ
      → Result (ProvisionStrategy × ℤ) ProvisionError × ThreadProvisioner × W
  try_direct_other w p prio = (err unsupported, p, w)

  pub provision_other :
      W
      → ThreadProvisioner
      → ℤ
      → ThreadProvisioning
      → Result ℤ ProvisionError × ThreadProvisioner × W
  provision_other w p target mode = answer target mode (try_direct_other w p target)
