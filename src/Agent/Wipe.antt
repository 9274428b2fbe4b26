-- ===== src/Agent/Wipe.antt =====
-- internal/agent/policy_apply_unix.go, wipePrincipals: every file of the principals directory goes.
use uncluster.Prelude.{
  String, ◌≡◌, refl, Bool, true, false, not, ◌&&◌, Option, none, some, [], ◌∷◌, str_eq, str_eq_iff,
  any, sym, ap, inl, inr, Bool-cases, find, arith,
}
use uncluster.Prelude.Exec.{Result, ok, err, World, attempt, pure, recover, ◌>>=◌, ◌>>◌}
use uncluster.Agent.Dir.{
  Node, file, directory, Dir, AgentError, Os, node_at, node_at-drop, removed, remove, read_dir,
}
use uncluster.Agent.Policy.Rendered.{listed, lets_in}

-- `_ = os.Remove(path)`
abbrev wipe_entry : String → Node → Os (Unit {0})
wipe_entry n (directory _) = pure tt
wipe_entry n (file _) = recover (λ _. pure tt) (remove n)

unfoldable pub wipe_entries : Dir → Os (Unit {0})
unfolding remove
wipe_entries [] = pure tt
wipe_entries (e ∷ es) = wipe_entry e.name e.node >> wipe_entries es

-- A directory that cannot be read is left as it is.
unfoldable pub wipe_principals : Os (Unit {0})
unfolding read_dir wipe_entries
wipe_principals = recover (λ _. pure tt) (read_dir >>= wipe_entries)

abbrev without : String → Node → Dir → Dir
without n (directory _) d = d
without n (file _) d = (removed n d (node_at n d)).1

abbrev pub wiped : Dir → Dir → Dir
wiped [] d = d
wiped (e ∷ es) d = wiped es (without e.name e.node d)

abbrev pub calm : Dir → World Dir
calm d = record { state = d; faults = [] }

passed_over :
    (r : Result AgentError (Unit {0})) (d : Dir) (w : World Dir)
    → recover (λ _. pure tt) (λ _. (r, calm d)) w ≡ (ok tt, calm d)
passed_over (ok tt) d w = refl
passed_over (err e) d w = refl

wipe_entry-calm :
    (n : String) (o : Node) (d : Dir) → wipe_entry n o (calm d) ≡ (ok tt, calm (without n o d))
unfolding remove attempt
wipe_entry-calm n (directory b) d = refl
wipe_entry-calm n (file ls) d =
    passed_over (removed n d (node_at n d)).0 (removed n d (node_at n d)).1 (calm d)

wipe_entries-calm : (es d : Dir) → wipe_entries es (calm d) ≡ (ok tt, calm (wiped es d))
unfolding wipe_entries
wipe_entries-calm [] d = refl
wipe_entries-calm (e ∷ es) d =
    rw (wipe_entry-calm e.name e.node d) (wipe_entries-calm es (without e.name e.node d))

pub wipe_principals-calm : (d : Dir) → wipe_principals (calm d) ≡ (ok tt, calm (wiped d d))
unfolding wipe_principals read_dir attempt
wipe_principals-calm d = rw (wipe_entries-calm d d)

-- The name that stands for a file.
abbrev is_file : Option Node → Bool
is_file (some (file ls)) = true
is_file _ = false

abbrev names_file : String → Dir → Bool
names_file u es = any (λ e. str_eq e.name u && is_file (some e.node)) es

removed-other :
    (u n : String) (d : Dir) (x : Option Node)
    → str_eq n u ≡ false
    → node_at u (removed n d x).1 ≡ node_at u d
removed-other u n d none h = ground (arith, node_at-drop u n d)
removed-other u n d (some (file ls)) h = ground (arith, node_at-drop u n d)
removed-other u n d (some (directory true)) h = ground (arith, node_at-drop u n d)
removed-other u n d (some (directory false)) h = refl

removed-same :
    (u n : String) (d : Dir) (x : Option Node)
    → str_eq n u ≡ true
    → node_at u d ≡ x
    → is_file (node_at u (removed n d x).1) ≡ false
removed-same u n d none h e = ground (arith, node_at-drop u n d)
removed-same u n d (some (file ls)) h e = ground (arith, node_at-drop u n d)
removed-same u n d (some (directory true)) h e = ground (arith, node_at-drop u n d)
removed-same u n d (some (directory false)) h e = rw e

without-other :
    (u n : String) (o : Node) (es d : Dir)
    → (is_file (node_at u d) && not (names_file u (record { name = n; node = o } ∷ es))) ≡ false
    → (is_file (node_at u (without n o d)) && not (names_file u es)) ≡ false
unfolding any
without-other u n (directory b) es d h = ground (arith, h)
without-other u n (file ls) es d h = elim (Bool-cases (str_eq n u)) [
  | inl same ↦ rw (
      removed-same u n d (node_at n d) same (ap (λ v. node_at v d) (sym ((str_eq_iff n u).0 same))))
  | inr other ↦ rw (removed-other u n d (node_at n d) other) (ground (arith, h, other))
]

-- A file that is there is among the entries to come.
wiped-no_file :
    (u : String) (es d : Dir)
    → (is_file (node_at u d) && not (names_file u es)) ≡ false
    → is_file (node_at u (wiped es d)) ≡ false
unfolding any
wiped-no_file u [] d h = ground (arith, h)
wiped-no_file u (e ∷ es) d h =
    wiped-no_file u es (without e.name e.node d) (without-other u e.name e.node es d h)

among : (u : String) (d : Dir) → (is_file (node_at u d) && not (names_file u d)) ≡ false
unfolding node_at find any
among u [] = refl
among u (e ∷ d) = ground (arith, among u d)

not_listed : (c : String) (x : Option Node) → is_file x ≡ false → listed c x ≡ false
not_listed c none h = refl
not_listed c (some (file ls)) h = cc
not_listed c (some (directory b)) h = refl

-- Where no call is refused, the wiped directory lets nobody in.
pub wiped-lets_none : (d : Dir) (u c : String) → lets_in (wiped d d) u c ≡ false
unfolding lets_in
wiped-lets_none d u c = not_listed c (node_at u (wiped d d)) (wiped-no_file u d d (among u d))
