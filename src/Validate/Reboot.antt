-- ===== src/Validate/Reboot.antt =====
-- internal/validate/reboot.go: the check over a reboot, in two phases that meet in a file. The
-- temporary file is read by nobody and left out; the texts of errors are left out.
pub mod TwoPhase
use uncluster.Prelude.{ℕ, String, Bool, true, false, Option, none, some, if◌then◌else◌, ◌+◌}
use uncluster.Prelude.Exec.{
  Result, ok, err, World, Exec, attempt, pure, raise, recover, ◌>>=◌, ◌>>◌,
}

pub data Phase : Type 0 where
  armed done : Phase

pub record RebootState : Type 0 where
  pub run_id : String
  pub phase : Phase
  pub target : String
  pub armed_at : ℕ
  pub evidence : String

-- What the file decodes to; `corrupt` does not decode.
pub data Stored : Type 0 where
  absent corrupt : Stored
  stored : RebootState → Stored

-- `reboots` counts the reboots that were triggered.
pub record Machine : Type 0 where
  pub file : Stored
  pub installed : Bool
  pub reboots : ℕ

pub data RebootError : Type 0 where
  not_allowed unreadable io : RebootError

abbrev pub OnMachine : Type 0 → Type 0
OnMachine A = Exec RebootError Machine A

-- `verifies` is the verdict of VerifyResurrected with its evidence, none where there is no verifier.
pub record RebootSurvival : Type 0 where
  pub target : String
  pub allow_reboot : Bool
  pub verifies : Option (Bool × String)

-- MkdirAll, WriteFile of the temporary file, and Rename.
unfoldable pub save_reboot_state : RebootState → OnMachine (Unit {0})
save_reboot_state st = do
  attempt io (λ m. (ok tt, m))
  attempt io (λ m. (ok tt, m))
  attempt io (λ m. (ok tt, record m { file = stored st }))

abbrev pub loaded : Stored → Result RebootError (Option RebootState)
loaded absent = ok none
loaded corrupt = err unreadable
loaded (stored st) = ok (some st)

unfoldable pub load_reboot_state : OnMachine (Option RebootState)
load_reboot_state = attempt io (λ m. (loaded m.file, m))

unfoldable pub clear_reboot_state : OnMachine (Unit {0})
clear_reboot_state = attempt io (λ m. (ok tt, record m { file = absent }))

abbrev pub verdict : Option (Bool × String) → Bool
verdict none = false
verdict (some v) = v.0

-- A resume that finds nothing armed has Passed false, so its check fails.
abbrev pub passed : Option Bool → Bool
passed none = false
passed (some v) = v

module _ (r : RebootSurvival) where
  -- The two hooks are set, as they are outside the tests.
  unfoldable pub arm : ℕ → String → String → OnMachine (Unit {0})
  unfolding save_reboot_state clear_reboot_state
  arm now run_id evidence =
      if r.allow_reboot
      then (do
        attempt io (λ m. (ok tt, record m { installed = true }))
        save_reboot_state (record {
          run_id = run_id;
          phase = armed;
          target = r.target;
          armed_at = now;
          evidence = evidence;
        })
        recover (λ e. recover (λ _. pure tt) clear_reboot_state >> raise e)
            (attempt io (λ m. (ok tt, record m { reboots = m.reboots + 1 }))))
      else raise not_allowed

  abbrev pub resumed : Option RebootState → OnMachine (Option Bool)
  resumed none = pure none
  resumed (some st) = clear_reboot_state >> pure (some (verdict r.verifies))

  -- none where nothing was armed, else the verdict.
  unfoldable pub resume : OnMachine (Option Bool)
  unfolding load_reboot_state clear_reboot_state
  resume = load_reboot_state >>= resumed

  abbrev pub in_phase : ℕ → String → String → Option RebootState → OnMachine Bool
  in_phase now run_id evidence none = arm now run_id evidence >> pure true
  in_phase now run_id evidence (some st) = resume >>= λ v. pure (passed v)

  -- The state of the CheckResult: true is "ok", and "fail" is false, with every error.
  unfoldable pub resume_or_arm : ℕ → String → String → OnMachine Bool
  unfolding arm resume
  resume_or_arm now run_id evidence =
      recover (λ _. pure false) (load_reboot_state >>= in_phase now run_id evidence)
