-- ===== src/PolicyHash.antt =====
-- internal/policyhash/policyhash.go: the canonical bytes of a policy and their hash.
-- `sum_hex` stands for `fmt.Sprintf("%x", blake3.Sum256(c))`, which is not code of the repository.
pub mod Order
pub mod Decode
use Prim.Native.String.{◌++◌ as join}
use uncluster.Prelude.{
  ℕ, String, Bool, List, [], ◌∷◌, ◌++◌, if◌then◌else◌, str_eq, codes, leb_codes, sort,
}

pub record Grant : Type 0 where
  pub username : String
  pub caller_token_id : String

-- The `less` of `sort.Slice`, read as "not after". `<` on strings is bytewise.
unfoldable pub not_after : Grant → Grant → Bool
not_after a b =
    if str_eq a.username b.username
    then leb_codes (codes a.caller_token_id) (codes b.caller_token_id)
    else leb_codes (codes a.username) (codes b.username)

unfoldable pub sort_grants : List Grant → List Grant
unfolding sort not_after str_eq leb_codes
sort_grants = sort not_after

-- One "username:caller\n" line for a grant.
abbrev pub line : Grant → List ℕ
line g = codes g.username ++ (b':' ∷ (codes g.caller_token_id ++ (b'\n' ∷ [])))

abbrev pub lines : List Grant → List ℕ
lines [] = []
lines (g ∷ gs) = line g ++ lines gs

unfoldable pub canonical : List Grant → List ℕ
unfolding sort_grants
canonical [] = []
canonical (g ∷ gs) = lines (sort_grants (g ∷ gs))

abbrev hash_bytes : (List ℕ → String) → List ℕ → String
hash_bytes sum_hex [] = ""
hash_bytes sum_hex (c ∷ cs) = join "blake3:" (sum_hex (c ∷ cs))

unfoldable pub hash : (List ℕ → String) → List Grant → String
unfolding canonical
hash sum_hex grants = hash_bytes sum_hex (canonical grants)
