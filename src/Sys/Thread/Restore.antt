-- ===== src/Sys/Thread/Restore.antt =====
-- What crates/riaps-sys/src/thread.rs grants, and what its drop restores.
use blockcat.Prelude.{ℤ, pos, ◌≡◌, ◌∙◌, refl, ap, Bool-cases, inl, inr, true, false, some, ok, err}
use blockcat.Sys.Thread.{
  clamp, less, is_negative, is_zero, direct, ThreadProvisioning, best_effort, strict,
  permission_denied, Schedule, sched_fifo, ThreadProvisioner, new, Scheduler, current, request,
  try_direct, attempt, answer, provision, drop,
}

module _ {ℓ} {W : Type ℓ} (os : Scheduler W) where
  -- A call of sched_setscheduler that succeeds sets what the other two calls report, and policies
  -- are not negative; one that fails changes nothing that they report.
  pub record IsFaithful : Type ℓ where
    pub policy_set :
        (w : W) (s : Schedule)
        → is_zero (os.sched_setscheduler w s).0 ≡ true
        → os.sched_getscheduler (os.sched_setscheduler w s).1 ≡ s.policy
    pub policy_valid :
        (w : W) (s : Schedule)
        → is_zero (os.sched_setscheduler w s).0 ≡ true
        → is_negative s.policy ≡ false
    pub param_set :
        (w : W) (s : Schedule)
        → is_zero (os.sched_setscheduler w s).0 ≡ true
        → os.sched_getparam (os.sched_setscheduler w s).1 ≡ (pos 0, s.sched_priority)
    pub policy_kept :
        (w : W) (s : Schedule)
        → is_zero (os.sched_setscheduler w s).0 ≡ false
        → os.sched_getscheduler (os.sched_setscheduler w s).1 ≡ os.sched_getscheduler w
    pub param_kept :
        (w : W) (s : Schedule)
        → is_zero (os.sched_setscheduler w s).0 ≡ false
        → os.sched_getparam (os.sched_setscheduler w s).1 ≡ os.sched_getparam w

  -- The schedule that provisioning asks for.
  abbrev pub realtime : ℤ → Schedule
  realtime target = record { policy = sched_fifo; sched_priority = clamp target }

  module _ (faithful : IsFaithful) where
    current-set :
        (w : W) (s : Schedule)
        → is_zero (os.sched_setscheduler w s).0 ≡ true
        → current os (os.sched_setscheduler w s).1 ≡ some s
    unfolding current
    current-set w s e =
        rw (faithful.policy_set w s e, faithful.policy_valid w s e, faithful.param_set w s e)

    current-kept :
        (w : W) (s : Schedule)
        → is_zero (os.sched_setscheduler w s).0 ≡ false
        → current os (os.sched_setscheduler w s).1 ≡ current os w
    unfolding current
    current-kept w s e = rw (faithful.policy_kept w s e, faithful.param_kept w s e)

    request_granted :
        (w : W) (p : ThreadProvisioner) (target : ℤ) (s : Schedule)
        → is_zero (os.sched_setscheduler w (realtime target)).0 ≡ true
        → request os w p target s ≡ (
          ok (direct, clamp target),
          record p { original_linux_schedule = some s },
          (os.sched_setscheduler w (realtime target)).1,
        )
    unfolding request
    request_granted w p target s grant = rw grant

    request_refused :
        (w : W) (p : ThreadProvisioner) (target : ℤ) (s : Schedule)
        → is_zero (os.sched_setscheduler w (realtime target)).0 ≡ false
        → request os w p target s
          ≡ (err permission_denied, p, (os.sched_setscheduler w (realtime target)).1)
    unfolding request
    request_refused w p target s refusal = rw refusal

    -- What a provisioner is after a grant.
    abbrev pub granted : ℤ → Schedule → ThreadProvisioner
    granted target s = record {
      strategy = direct;
      granted_prio = clamp target;
      fallback_active = less (clamp target) target;
      original_linux_schedule = some s;
    }

    pub provision-granted :
        (w : W) (p : ThreadProvisioner) (target : ℤ) (mode : ThreadProvisioning) (s : Schedule)
        → current os w ≡ some s
        → is_zero (os.sched_setscheduler w (realtime target)).0 ≡ true
        → provision os w p target mode
          ≡ (ok (clamp target), granted target s, (os.sched_setscheduler w (realtime target)).1)
    unfolding provision try_direct
    provision-granted w p target mode s e grant =
        ap (λ o. answer target mode (attempt os w p target o)) e
        ∙ ap (answer target mode) (request_granted w p target s grant)

    provision_refused :
        (w : W) (p : ThreadProvisioner) (target : ℤ) (mode : ThreadProvisioning) (s : Schedule)
        → current os w ≡ some s
        → is_zero (os.sched_setscheduler w (realtime target)).0 ≡ false
        → provision os w p target mode
          ≡ answer target mode
              (err permission_denied, p, (os.sched_setscheduler w (realtime target)).1)
    unfolding provision try_direct
    provision_refused w p target mode s e refusal =
        ap (λ o. answer target mode (attempt os w p target o)) e
        ∙ ap (answer target mode) (request_refused w p target s refusal)

    refused_keeps :
        (target : ℤ) (mode : ThreadProvisioning) (w : W)
        → (answer target mode (err permission_denied, new, w)).2 ≡ w
    refused_keeps target best_effort w = refl
    refused_keeps target (strict action) w = refl

    refused_drop :
        (target : ℤ) (mode : ThreadProvisioning) (w v : W)
        → drop os v (answer target mode (err permission_denied, new, w)).1 ≡ v
    unfolding drop new
    refused_drop target best_effort w v = refl
    refused_drop target (strict action) w v = refl

    -- A new provisioner that provisions once, with any target and in any mode, and is dropped leaves
    -- the thread with the schedule that it had, where the system calls report what was set, and
    -- setting that schedule again succeeds.
    pub drop-provision :
        (w : W) (target : ℤ) (mode : ThreadProvisioning) (s : Schedule)
        → current os w ≡ some s
        → ((v : W) → is_zero (os.sched_setscheduler v s).0 ≡ true)
        → let (reply, p, w') = provision os w new target mode in current os (drop os w' p) ≡ some s
    unfolding drop
    drop-provision w target mode s e back =
        elim (Bool-cases (is_zero (os.sched_setscheduler w (realtime target)).0)) [
          | inl grant ↦
              ap (λ r. current os (drop os r.2 r.1)) (provision-granted w new target mode s e grant)
              ∙ current-set (os.sched_setscheduler w (realtime target)).1 s
                  (back (os.sched_setscheduler w (realtime target)).1)
          | inr refusal ↦
              let w' = (os.sched_setscheduler w (realtime target)).1 in
              ap (λ r. current os (drop os r.2 r.1))
                (provision_refused w new target mode s e refusal)
              ∙ ap
                  (λ v.
                    current os (drop os v (answer target mode (err permission_denied, new, w')).1))
                  (refused_keeps target mode w')
              ∙ ap (current os) (refused_drop target mode w' w')
              ∙ current-kept w (realtime target) refusal
              ∙ e
        ]

    -- After two grants the drop does not restore the schedule that the thread had: it sets the
    -- realtime schedule of the first grant again. The system calls report what was set, and every
    -- realtime request is granted.
    pub drop-provision_twice :
        (w : W) (first second : ℤ) (mode mode' : ThreadProvisioning) (s : Schedule)
        → current os w ≡ some s
        → ((v : W) (t : ℤ) → is_zero (os.sched_setscheduler v (realtime t)).0 ≡ true)
        → let (reply, p, w') = provision os w new first mode in
          let (reply', p', w'') = provision os w' p second mode' in
          current os (drop os w'' p') ≡ some (realtime first)
    unfolding drop
    drop-provision_twice w first second mode mode' s e grants =
        let w' = (os.sched_setscheduler w (realtime first)).1 in
        let w'' = (os.sched_setscheduler w' (realtime second)).1 in
        ap (λ r. let r' = provision os r.2 r.1 second mode' in current os (drop os r'.2 r'.1))
          (provision-granted w new first mode s e (grants w first))
        ∙ ap (λ r. current os (drop os r.2 r.1))
            (provision-granted w' (granted first s) second mode' (realtime first)
              (current-set w (realtime first) (grants w first)) (grants w' second))
        ∙ current-set w'' (realtime first) (grants w'' first)
