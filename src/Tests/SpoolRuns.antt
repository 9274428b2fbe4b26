-- ===== src/Tests/SpoolRuns.antt =====
-- The principals writer at concrete inputs, with a codec for policies without users.
use Prim.Native.Char.{code}
use uncluster.Prelude.{
  ℕ, zero, suc, ◌+◌, ◌==◌, String, ◌≡◌, refl, sym, ap, ◌∙◌, Bool, true, false, Option, none, some,
  List, [], ◌∷◌, if◌then◌else◌, str_eq, str_eq_iff, arith,
}
use uncluster.Prelude.Exec.{ok, err, World, attempt}
use uncluster.Store.Acl.Snapshot.{allows}
use uncluster.Store.Db.{PolicyPrincipal}
use uncluster.Agent.Policy.Rendered.{lets_in}
use uncluster.Agent.Spool.{
  DesiredState, AppliedStatus, Codec, IsCodec, Spool, SpoolError, Poll, matching, tick,
  deprovision_desired_state, do_apply_policy, submit_desired_state,
}
use uncluster.Agent.Spool.Confirmed.{submit_desired_state_confirmed}
use uncluster.Agent.Spool.Unconfirmed.{Lost, submit_desired_state-Lost}
use uncluster.Agent.Spool.Mistaken.{submit_desired_state-do_apply_policy}
use uncluster.Agent.Loop.{empty_policy}
use uncluster.Agent.Spool.Removed.{tick_ends}
use uncluster.Tests.AgentRuns.{old_dir}

-- As many 'A' as the number, then 'B' or 'C', then the text.
count : ℕ → Bool → String → String
count zero true s = String.◌∷◌ "C" s
count zero false s = String.◌∷◌ "B" s
count (suc n) f s = String.◌∷◌ "A" (count n f s)

abbrev Counted : Type 0
Counted = ℕ × Bool × String

read_from : ℕ → String → Option Counted
read_from k String.[] = none
read_from k (String.◌∷◌ c s) =
    let rest = read_from (suc k) s in
    if code c == 65 then rest else if code c == 66 then some (k, false, s) else some (k, true, s)

read-count : (n k : ℕ) (f : Bool) (s : String) → read_from k (count n f s) ≡ some (k + n, f, s)
unfolding read_from count
read-count zero k true s = ap (λ m. some (m, true, s)) (omega arith)
read-count zero k false s = ap (λ m. some (m, false, s)) (omega arith)
read-count (suc n) k f s = read-count n (suc k) f s ∙ ap (λ m. some (m, f, s)) (omega arith)

read-written : (n : ℕ) (f : Bool) (s : String) → read_from 0 (count n f s) ≡ some (n, f, s)
read-written n f s = read-count n 0 f s ∙ ap (λ m. some (m, f, s)) (omega arith)

abbrev desired_of : Option Counted → Option DesiredState
desired_of none = none
desired_of (some p) =
    some (record { version = p.0; hash = p.2; principals = []; deprovision = p.1 })

abbrev status_text : Bool → String
status_text true = "ok"
status_text false = "failed"

abbrev applied_of : Option Counted → Option AppliedStatus
applied_of none = none
applied_of (some p) =
    some
      (record { applied_version = p.0; applied_hash = p.2; status = status_text p.1; error = "" })

abbrev written : ℕ → Bool → String → List PolicyPrincipal → Option String
written n f s [] = some (count n f s)
written n f s _ = none

abbrev status_written : ℕ → String → Bool → Bool → Bool → Option String
status_written n h true true _ = some (count n true h)
status_written n h true false true = some (count n false h)
status_written n h true false false = none
status_written n h false _ _ = none

unfoldable codec : Codec
unfolding count read_from str_eq
codec = record {
  marshal_desired = λ d. written d.version d.deprovision d.hash d.principals;
  unmarshal_desired = λ b. desired_of (read_from 0 b);
  marshal_applied = λ s.
      status_written s.applied_version s.applied_hash (str_eq s.error "") (str_eq s.status "ok")
        (str_eq s.status "failed");
  unmarshal_applied = λ b. applied_of (read_from 0 b);
  sum = λ b. b;
  text = λ e. "";
  parse_text = "";
}

read_desired :
    (n : ℕ) (f : Bool) (h : String) (ps : List PolicyPrincipal) (b : String)
    → written n f h ps ≡ some b
    → desired_of (read_from 0 b)
      ≡ some (record { version = n; hash = h; principals = ps; deprovision = f })
read_desired n f h [] b e =
    ap (λ y. desired_of (read_from 0 y)) (sym (same e)) ∙ ap desired_of (read-written n f h)
  where
    same : ◌≡◌ {A = Option String} (some (count n f h)) (some b) → count n f h ≡ b
    same k = cc
read_desired n f h (p ∷ ps) b e = cc

read_applied :
    (n : ℕ) (h st er b : String) (blank good bad : Bool)
    → str_eq er "" ≡ blank
    → str_eq st "ok" ≡ good
    → str_eq st "failed" ≡ bad
    → status_written n h blank good bad ≡ some b
    → applied_of (read_from 0 b)
      ≡ some (record { applied_version = n; applied_hash = h; status = st; error = er })
read_applied n h st er b true true bad x y z e =
    ap (λ t. applied_of (read_from 0 t)) (sym (same e))
    ∙ ap applied_of (read-written n true h)
    ∙ rw ((str_eq_iff st "ok").0 y) (rw ((str_eq_iff er "").0 x) refl)
  where
    same : ◌≡◌ {A = Option String} (some (count n true h)) (some b) → count n true h ≡ b
    same k = cc
read_applied n h st er b true false true x y z e =
    ap (λ t. applied_of (read_from 0 t)) (sym (same e))
    ∙ ap applied_of (read-written n false h)
    ∙ rw ((str_eq_iff st "failed").0 z) (rw ((str_eq_iff er "").0 x) refl)
  where
    same : ◌≡◌ {A = Option String} (some (count n false h)) (some b) → count n false h ≡ b
    same k = cc
read_applied n h st er b true false false x y z e = cc
read_applied n h st er b false good bad x y z e = cc

codec-IsCodec : IsCodec codec
unfolding codec
codec-IsCodec = record {
  reads_desired = λ d b e. read_desired d.version d.deprovision d.hash d.principals b e;
  reads_applied = λ s b e.
      read_applied s.applied_version s.applied_hash s.status s.error b _ _ _ refl refl refl e;
}

-- A policy without users, in a directory with a file of bob's.
abbrev emptied : DesiredState
emptied = record { version = 2; hash = "h"; principals = []; deprovision = false }

abbrev spool : Spool
spool = record {
  policy = none;
  applied = none;
  dir = old_dir.state;
  last_digest = "";
  running = true;
  registered = true;
}

abbrev calm : Spool → World Spool
calm s = record { state = s; faults = [] }

-- The writer's first round is refused its read, and its second is not.
abbrev waits : List Poll
waits =
    record { writer = []; cancelled = false }
    ∷ record { writer = (true ∷ []) ∷ [] ∷ []; cancelled = false }
    ∷ []

unanswered :
    (st : AppliedStatus) → matching codec emptied none ≡ some st → str_eq st.status "ok" ≡ false
unfolding matching
unanswered st h = cc

confirmed_run : (submit_desired_state codec emptied waits (calm spool)).0 ≡ ok tt
unfolding submit_desired_state codec attempt
confirmed_run = refl

submit_desired_state_confirmed_example :
    lets_in (submit_desired_state codec emptied waits (calm spool)).1.state.dir "bob" "x"
    ≡ allows [] "bob" "x"
submit_desired_state_confirmed_example =
    submit_desired_state_confirmed codec codec-IsCodec emptied "bob" "x" tt refl waits (calm spool)
      unanswered confirmed_run

-- The writer renders, and the rename of its answer is refused.
abbrev lost_faults : List Bool
lost_faults = false ∷ false ∷ false ∷ false ∷ true ∷ []

abbrev handed : Spool
handed = record spool { policy = some "AABh" }

abbrev lost : Spool
lost = (tick codec (record { state = handed; faults = lost_faults })).1.state

coded : codec.marshal_desired emptied ≡ some "AABh"
unfolding codec
coded = refl

lost-Lost : Lost codec emptied "AABh" coded lost
unfolding tick codec attempt matching
lost-Lost = (refl, refl, refl)

submit_desired_state-Lost_example :
    ((e : SpoolError) × ((submit_desired_state codec emptied waits (calm lost)).0 ≡ err e))
    × Lost codec emptied "AABh" coded (submit_desired_state codec emptied waits (calm lost)).1.state
submit_desired_state-Lost_example =
    submit_desired_state-Lost codec emptied "AABh" coded waits (calm lost) lost-Lost

-- The wipe of the fail-closed check is confirmed, and then the deprovision by the same answer.
wiped_run : (do_apply_policy codec empty_policy waits (calm spool)).0 ≡ ok tt
unfolding do_apply_policy codec attempt
wiped_run = refl

coded_end : codec.marshal_desired deprovision_desired_state ≡ some "C"
unfolding codec
coded_end = refl

abbrev after_wipe : Spool
after_wipe = (do_apply_policy codec empty_policy waits (calm spool)).1.state

submit_desired_state-do_apply_policy_example :
    submit_desired_state codec deprovision_desired_state
      (record { writer = []; cancelled = false } ∷ [])
      (calm after_wipe)
    ≡ (ok tt, calm (record after_wipe { policy = some "C" }))
submit_desired_state-do_apply_policy_example =
    submit_desired_state-do_apply_policy codec "C" waits [] false (calm spool) coded_end wiped_run

abbrev ending : Spool
ending = record spool { policy = some "C" }

parsed : codec.unmarshal_desired "C" ≡ some deprovision_desired_state
unfolding codec
parsed = refl

ended_run : (tick codec (calm ending)).0 ≡ ok true
unfolding tick codec attempt
ended_run = refl

tick_ends_example :
    (true ≡ true) × (lets_in (tick codec (calm ending)).1.state.dir "bob" "x" ≡ allows [] "bob" "x")
tick_ends_example =
    tick_ends codec deprovision_desired_state "C" parsed "bob" "x" tt refl (calm ending) refl
      ended_run
