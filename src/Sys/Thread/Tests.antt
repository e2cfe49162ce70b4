-- ===== src/Sys/Thread/Tests.antt =====
-- The theorems on the provisioner at a concrete system, whose state is the schedule of the thread.
use blockcat.Prelude.{
  ℕ, ℤ, pos, negsuc, ◌≡◌, refl, arith, Bool-cases, inl, inr, some, if◌then◌else◌,
}
use blockcat.Sys.Thread.{
  is_negative, best_effort, Schedule, new, Scheduler, current, provision, drop,
}
use blockcat.Sys.Thread.Restore.{IsFaithful, realtime, drop-provision, drop-provision_twice}

abbrev plain : Scheduler Schedule
plain = record {
  sched_getscheduler = λ w. w.policy;
  sched_getparam = λ w. (pos 0, w.sched_priority);
  sched_setscheduler = λ w s. if is_negative s.policy then (negsuc 0, w) else (pos 0, s);
}

plain-IsFaithful : IsFaithful plain
plain-IsFaithful = record {
  policy_set = λ w s e. elim (Bool-cases (is_negative s.policy)) [
    | inl n ↦ absurd (ground arith)
    | inr n ↦ rw n
  ];
  policy_valid = λ w s e. elim (Bool-cases (is_negative s.policy)) [
    | inl n ↦ absurd (ground arith)
    | inr n ↦ n
  ];
  param_set = λ w s e. elim (Bool-cases (is_negative s.policy)) [
    | inl n ↦ absurd (ground arith)
    | inr n ↦ rw n
  ];
  policy_kept = λ w s e. elim (Bool-cases (is_negative s.policy)) [
    | inl n ↦ rw n
    | inr n ↦ absurd (ground arith)
  ];
  param_kept = λ w s e. elim (Bool-cases (is_negative s.policy)) [
    | inl n ↦ rw n
    | inr n ↦ absurd (ground arith)
  ];
}

abbrev normal : Schedule
normal = record { policy = pos 0; sched_priority = pos 0 }

current-normal : current plain normal ≡ some normal
unfolding current
current-normal = refl

drop-provision_example :
    let (reply, p, w') = provision plain normal new (pos 120) best_effort in
    current plain (drop plain w' p) ≡ some normal
drop-provision_example =
    drop-provision plain plain-IsFaithful normal (pos 120) best_effort normal current-normal
      (λ v. refl)

drop-provision_twice_example :
    let (reply, p, w') = provision plain normal new (pos 10) best_effort in
    let (reply', p', w'') = provision plain w' p (pos 20) best_effort in
    current plain (drop plain w'' p') ≡ some (realtime plain (pos 10))
drop-provision_twice_example =
    drop-provision_twice plain plain-IsFaithful normal (pos 10) (pos 20) best_effort best_effort
      normal current-normal (λ v t. refl)

-- macOS refuses the class.
abbrev refusing : Schedule → ℕ → ℤ → ℤ × Schedule
refusing w class priority = (pos 22, w)
