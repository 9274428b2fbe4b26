-- ===== src/Agent/Policy.antt =====
-- internal/agent/policy.go: the policy becomes the principals directory.
pub mod Steps
pub mod Rendered
pub mod Enforced
use Prim.Native.String.{◌++◌ as concat}
use uncluster.Prelude.{
  ℕ, String, Bool, true, false, not, ◌&&◌, ◌||◌, ◌==◌, Option, none, some, List, [], ◌∷◌, map,
  filter, any, if◌then◌else◌, str_eq, any_char, is_space,
}
use uncluster.Prelude.Exec.{
  Result, ok, err, World, Exec, attempt, pure, raise, recover, ◌>>=◌, ◌>>◌,
}
use uncluster.Store.Db.{PolicyPrincipal}
use uncluster.Agent.Dir.{
  Node, file, directory, Entry, Dir, AgentError, invalid, Os, open_trunc, print_line, settle,
  rename, remove, read_dir,
}

-- strings.ContainsAny(s, "/\\\x00\n\r\t ")
abbrev is_unsafe : ℕ → Bool
is_unsafe x = x == b'/' || (x == 92 || (x == 0 || (x == 10 || (x == 13 || (x == 9 || x == 32)))))

unfoldable pub username_ok : String → Bool
unfolding any_char str_eq
username_ok s = not (str_eq s "") && not (any_char is_unsafe s || (str_eq s "." || str_eq s ".."))

abbrev is_pattern : ℕ → Bool
is_pattern x = x == 44 || (x == 42 || (x == 63 || (x == 91 || x == 93)))

unfoldable pub caller_token_id_ok : String → Bool
unfolding any_char str_eq
caller_token_id_ok s = not (str_eq s "") && not (any_char (λ x. is_space x || is_pattern x) s)

abbrev callers_ok : List String → Bool
callers_ok cs = not (any (λ c. not (caller_token_id_ok c)) cs)

unfoldable pub policy_payload_ok : List PolicyPrincipal → Bool
unfolding username_ok caller_token_id_ok any
policy_payload_ok ps =
    not (any (λ p. not (username_ok p.username && callers_ok p.caller_token_ids)) ps)

-- `_ = os.Remove(tmp)`
unfoldable pub clean_up : String → Os (Unit {0})
unfolding remove
clean_up tmp = recover (λ _. pure tt) (remove tmp)

-- if err := ...; err != nil { _ = os.Remove(tmp); return err }
unfoldable pub or_clean_up : String → Os (Unit {0}) → Os (Unit {0})
unfolding clean_up
or_clean_up tmp m = recover (λ e. clean_up tmp >> raise e) m

unfoldable pub print_lines : String → List String → Os (Unit {0})
unfolding print_line
print_lines tmp [] = pure tt
print_lines tmp (c ∷ cs) = print_line tmp c >> print_lines tmp cs

-- On Unix restrictPrincipalsFileACL does nothing.
unfoldable pub atomic_write_principals : String → List String → Os (Unit {0})
unfolding open_trunc print_lines settle rename or_clean_up
atomic_write_principals username callers = do
  let tmp = concat username ".tmp"
  open_trunc tmp
  or_clean_up tmp (print_lines tmp callers)
  or_clean_up tmp settle
  or_clean_up tmp settle
  or_clean_up tmp (rename tmp username)

-- The loop over the principals; the names that stay wanted come back.
unfoldable pub write_all : List PolicyPrincipal → List String → Os (List String)
unfolding atomic_write_principals remove filter str_eq
write_all [] want = pure want
write_all (p ∷ ps) want = elim p.caller_token_ids [
  | [] ↦ remove p.username >> write_all ps (filter (λ n. not (str_eq n p.username)) want)
  | c ∷ cs ↦ atomic_write_principals p.username (c ∷ cs) >> write_all ps want
]

abbrev pub is_wanted : List String → String → Bool
is_wanted want n = any (λ m. str_eq m n) want

-- `if e.IsDir() { continue }`, then the removal of a file that is not wanted.
abbrev pub visit : List String → String → Node → Os (Unit {0})
visit want n (directory _) = pure tt
visit want n (file _) = if is_wanted want n then pure tt else remove n

-- The loop over the directory's entries.
unfoldable pub prune : List String → Dir → Os (Unit {0})
unfolding remove any str_eq
prune want [] = pure tt
prune want (e ∷ es) = visit want e.name e.node >> prune want es

unfoldable pub render_principals_dir : List PolicyPrincipal → Os (Unit {0})
unfolding policy_payload_ok write_all prune settle read_dir
render_principals_dir ps = do
  settle
  if policy_payload_ok ps then pure tt else raise invalid
  want ← write_all ps (map (λ p. p.username) ps)
  entries ← read_dir
  prune want entries
