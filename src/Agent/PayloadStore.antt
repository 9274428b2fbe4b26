-- ===== src/Agent/PayloadStore.antt =====
-- internal/agent/payloadstore.go: the staged versions of the Agent's binary, and the pointers to the
-- one that runs and to the last good one. A pointer is the version whose binary it names.
pub mod Ready
pub mod Activated
pub mod Frame
use uncluster.Prelude.{
  ℕ, String, Bool, true, false, not, ◌&&◌, ◌||◌, ◌==◌, leb, Option, none, some, List, [], ◌∷◌,
  if◌then◌else◌, str_eq, any, any_char,
}
use uncluster.Prelude.Exec.{
  Result, ok, err, World, Exec, attempt, pure, raise, recover, ◌>>=◌, ◌>>◌,
}

pub record Payloads : Type 0 where
  pub staged : List String
  pub current : Option String
  pub previous : Option String
  pub quarantined : List String

-- `refused` is a refusal by the system.
pub data PayloadError : Type 0 where
  bad_version is_quarantined_error not_staged no_current no_previous refused : PayloadError

abbrev pub Payload : Type 0 → Type 0
Payload A = Exec PayloadError Payloads A

abbrev pub call : {A : Type 0} → (Payloads → Result PayloadError A × Payloads) → Payload A
call f = attempt refused f

abbrev is_version_char : ℕ → Bool
is_version_char r =
    (leb b'a' r && leb r b'z')
    || ((leb b'A' r && leb r b'Z')
        || ((leb b'0' r && leb r b'9') || (r == b'.' || (r == b'_' || (r == b'+' || r == b'-')))))

-- versionPathComponent
unfoldable pub version_ok : String → Bool
unfolding str_eq any_char
version_ok v =
    not (str_eq v "")
    && (not (str_eq v "." || str_eq v "..") && not (any_char (λ r. not (is_version_char r)) v))

unfoldable pub valid_version : String → Payload (Unit {0})
unfolding version_ok
valid_version v = if version_ok v then pure tt else raise bad_version

-- A call that shows no effect here: directories, the temporary file, its bytes, its mode, fsync.
abbrev pub settled : Payload (Unit {0})
settled = call (λ s. (ok tt, s))

abbrev pub lists : String → List String → Bool
lists v vs = any (λ w. str_eq w v) vs

-- os.Rename of the temporary file onto the version's binary
abbrev pub put_staged : String → Payloads → Payloads
put_staged v s = record s { staged = v ∷ s.staged }

-- MkdirAll, CreateTemp, Copy, Sync, Close, Chmod, Rename, fsyncDir
unfoldable pub stage : String → Payload (Unit {0})
unfolding valid_version
stage v = do
  valid_version v
  settled
  settled
  settled
  settled
  settled
  settled
  call (λ s. (ok tt, put_staged v s))
  settled

-- Symlink to a temporary name, then Rename over the link.
unfoldable pub swap_current : String → Payload (Unit {0})
swap_current v = settled >> call (λ s. (ok tt, record s { current = some v }))

unfoldable pub swap_previous : String → Payload (Unit {0})
swap_previous v = settled >> call (λ s. (ok tt, record s { previous = some v }))

-- A marker that cannot be read reads as no marker.
unfoldable pub is_quarantined : String → Payload Bool
unfolding version_ok any str_eq
is_quarantined v =
    if version_ok v
    then recover (λ _. pure false) (call (λ s. (ok (lists v s.quarantined), s)))
    else pure false

-- os.Stat of the version's binary
abbrev stat_result : Bool → Payloads → Result PayloadError (Unit {0}) × Payloads
stat_result true s = (ok tt, s)
stat_result false s = (err not_staged, s)

unfoldable pub stat : String → Payload (Unit {0})
unfolding any str_eq
stat v = call (λ s. stat_result (lists v s.staged) s)

-- os.Readlink of the current pointer, where an error is passed over
unfoldable pub read_current : Payload (Option String)
read_current = recover (λ _. pure none) (call (λ s. (ok s.current, s)))

abbrev pub keep_previous : Option String → Payload (Unit {0})
keep_previous none = pure tt
keep_previous (some v) = swap_previous v

unfoldable pub activate : String → Payload (Unit {0})
unfolding valid_version is_quarantined stat read_current swap_previous swap_current
activate v = do
  valid_version v
  q ← is_quarantined v
  if q then raise is_quarantined_error else pure tt
  stat v
  current ← read_current
  keep_previous current
  swap_current v
  settled

abbrev or_raise : PayloadError → Option String → Payload String
or_raise e none = raise e
or_raise e (some v) = pure v

unfoldable pub current_version : Payload String
current_version = call (λ s. (ok s.current, s)) >>= or_raise no_current

unfoldable pub rollback : Payload String
unfolding swap_current
rollback = do
  found ← call (λ s. (ok s.previous, s))
  v ← or_raise no_previous found
  swap_current v
  settled
  pure v

unfoldable pub quarantine : String → Payload (Unit {0})
unfolding valid_version
quarantine v = do
  valid_version v
  settled
  call (λ s. (ok tt, record s { quarantined = v ∷ s.quarantined }))
