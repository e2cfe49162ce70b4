-- ===== src/Sys/Thread/Answers.antt =====
-- What `provision` of crates/riaps-sys/src/thread.rs reports, on every platform, by what the system
-- calls answer.
use blockcat.Prelude.{
  ℕ, ℤ, pos, ◌≡◌, Bool, true, false, not, ◌&&◌, ◌||◌, Option, none, some, Result, ok, err,
  if◌then◌else◌,
}
use blockcat.Sys.Thread.{
  less, clamp, sched_fifo, ProvisionStrategy, fallback, direct, mac_os_policy, ThreadProvisioning,
  best_effort, strict, ProvisionError, strict_mode_refused, Schedule, ThreadProvisioner, Scheduler,
  is_zero, current,
}

abbrev pub is_fallback : ProvisionStrategy → Bool
is_fallback fallback = true
is_fallback _ = false

abbrev pub is_strict : ThreadProvisioning → Bool
is_strict best_effort = false
is_strict (strict action) = true

-- What the system does on a request: whether it grants it, how, with which priority, and the
-- schedule of the thread before that is to be restored.
pub record Offer : Type 0 where
  pub grants : Bool
  pub means : ProvisionStrategy
  pub priority : ℤ
  pub saved : Option Schedule

abbrev pub is_read : Option Schedule → Bool
is_read none = false
is_read (some s) = true

module _ {ℓ} {W : Type ℓ} where
  -- Linux grants where the schedule can be read and `sched_setscheduler` returns 0.
  pub linux_offer : Scheduler W → W → ℤ → Offer
  linux_offer os w target = record {
    grants =
        is_read (current os w)
        && is_zero
            (os.sched_setscheduler w
              (record { policy = sched_fifo; sched_priority = clamp target })).0;
    means = direct;
    priority = clamp target;
    saved = current os w;
  }

  -- macOS grants where `pthread_set_qos_class_self_np` returns 0 for the user-interactive class.
  pub macos_offer : (W → ℕ → ℤ → ℤ × W) → W → ThreadProvisioner → ℤ → Offer
  macos_offer qos w p target = record {
    grants = is_zero (qos w 0x21 (pos 0)).0;
    means = mac_os_policy;
    priority = target;
    saved = p.original_linux_schedule;
  }

pub no_offer : ThreadProvisioner → Offer
no_offer p = record {
  grants = false;
  means = fallback;
  priority = pos 0;
  saved = p.original_linux_schedule;
}

-- The answer to a request, and the provisioner before and after.
unfoldable pub IsAnswer :
    Offer
    → ℤ
    → ThreadProvisioning
    → ThreadProvisioner
    → Result ℤ ProvisionError
    → ThreadProvisioner
    → Type 0
IsAnswer offer target mode p (ok granted) p' =
    ((not (is_strict mode) || offer.grants) ≡ true)
    × (granted ≡ (if offer.grants then offer.priority else pos 0))
    × (p'.granted_prio ≡ granted)
    × (p'.strategy ≡ (if offer.grants then offer.means else fallback))
    × (p'.fallback_active ≡ (less granted target || is_fallback p'.strategy))
    × (p'.original_linux_schedule
        ≡ (if offer.grants then offer.saved else p.original_linux_schedule))
IsAnswer offer target mode p (err e) p' =
    (is_strict mode ≡ true) × (offer.grants ≡ false) × (e ≡ strict_mode_refused) × (p' ≡ p)

-- What `try_direct` gives.
data Tried (offer : Offer) (p : ThreadProvisioner)
    : Result (ProvisionStrategy × ℤ) ProvisionError → ThreadProvisioner → Type 0 where
  granted :
      offer.grants ≡ true
      → is_fallback offer.means ≡ false
      → Tried offer p
          (ok (offer.means, offer.priority))
          (record p { original_linux_schedule = offer.saved })
  failed : (e : ProvisionError) → offer.grants ≡ false → Tried offer p (err e) p
