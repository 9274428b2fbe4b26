-- ===== src/Tests/ToolRuns.antt =====
-- The validation tool at concrete inputs.
use mathlib.Core.List.{Memᴰ}
use mathlib.Core.List.Memᴰ
use uncluster.Prelude.{◌≡◌, refl, ◌⊎◌, true, false, some, [], ◌∷◌, ◌++◌, str_eq, arith}
use uncluster.Prelude.Exec.{World, ok, attempt}
use uncluster.Prelude.Exec.Triple.{Outcome}
use uncluster.Validate.Skip.{Breadcrumb, SkipQuery, fits, should_skip}
use uncluster.Validate.Skip.Newest.{Bounds, should_skip_sound, should_skip-append}
use uncluster.Validate.Reboot.{
  absent, Machine, RebootSurvival, load_reboot_state, save_reboot_state, clear_reboot_state, arm,
  resume, resume_or_arm,
}
use uncluster.Validate.Reboot.TwoPhase.{Armed, arm_reboots, resume_or_arm_reboots}

abbrev query : SkipQuery
query = record {
  commit = "abc";
  dirty = false;
  tier = "local";
  target = "this-machine";
  checks = "doctor" ∷ "bounded" ∷ [];
}

abbrev passed : Breadcrumb
passed = record {
  ts = 7;
  commit = "abc";
  dirty = false;
  tier = "local";
  target = "this-machine";
  checks = "bounded" ∷ "doctor" ∷ [];
  result = "pass";
  evidence_path = "/tmp/x";
}

abbrev failed : Breadcrumb
failed = record passed { ts = 5; result = "fail" }

skipped : should_skip (failed ∷ passed ∷ []) query ≡ true
unfolding should_skip
skipped = refl

should_skip_sound_example :
    (false ≡ false)
    × ((b : Breadcrumb) × Memᴰ b (failed ∷ passed ∷ [])
        × (fits query b ≡ true)
        × (b.result ≡ "pass")
        × Bounds query (failed ∷ passed ∷ []) b)
should_skip_sound_example = should_skip_sound query (failed ∷ passed ∷ []) skipped

fitting : fits query passed ≡ true
unfolding fits
fitting = refl

failed_older : Bounds query (failed ∷ []) passed
failed_older x (Memᴰ.head e) f = rw e (omega arith)
failed_older x (Memᴰ.tail m) f = absurd (Memᴰ.not-nil m)

should_skip-append_example : should_skip ((failed ∷ []) ++ passed ∷ []) query ≡ str_eq "pass" "pass"
should_skip-append_example = should_skip-append query (failed ∷ []) passed refl fitting failed_older

abbrev survival : RebootSurvival
survival = record {
  target = "this-machine";
  allow_reboot = true;
  verifies = some (true, "heartbeat");
}

abbrev machine : Machine
machine = record { file = absent; installed = false; reboots = 3 }

abbrev calm : Machine → World Machine
calm m = record { state = m; faults = [] }

-- The write of the state is refused, so there is no reboot.
arm_reboots_example :
    Outcome
      (λ _. Armed survival 9 "r1" "/tmp/x" 3)
      (λ _ m. m.reboots ≡ 3)
      (arm survival 9 "r1" "/tmp/x" (record { state = machine; faults = false ∷ true ∷ [] })).0
      (arm survival 9 "r1" "/tmp/x"
        (record { state = machine; faults = false ∷ true ∷ [] })).1.state
arm_reboots_example =
    arm_reboots survival 9 "r1" "/tmp/x" (record { state = machine; faults = false ∷ true ∷ [] })

-- No call is refused, so this invocation reboots.
resume_or_arm_reboots_example :
    ((resume_or_arm survival 9 "r1" "/tmp/x" (calm machine)).1.state.reboots ≡ 3)
    ⊎ ((absent ≡ absent)
        × Armed survival 9 "r1" "/tmp/x" 3
            (resume_or_arm survival 9 "r1" "/tmp/x" (calm machine)).1.state)
resume_or_arm_reboots_example = resume_or_arm_reboots survival 9 "r1" "/tmp/x" (calm machine)

abbrev resuming : RebootSurvival
resuming = record survival { allow_reboot = false }

-- The second invocation answers the verdict, and leaves nothing armed.
twice_run :
    resume_or_arm resuming 20 "r2" "/tmp/y"
      (resume_or_arm survival 9 "r1" "/tmp/x" (calm machine)).1
    ≡ (ok true, calm (record machine { file = absent; installed = true; reboots = 4 }))
unfolding resume_or_arm arm resume load_reboot_state save_reboot_state clear_reboot_state attempt
twice_run = refl
