-- ===== src/Tests/TextRuns.antt =====
-- Tokens and policy hashes at concrete inputs.
use mathlib.Core.List.{Perm}
use mathlib.Core.List.Perm
use uncluster.Prelude.{◌≡◌, refl, some, [], ◌∷◌, any_char}
use uncluster.Token
use uncluster.Token.{Kind, parse, to_text, verify_secret, hash_secret}
use uncluster.Token.RoundTrip.{IsMinted, parse-to_text}
use uncluster.PolicyHash.{Grant, canonical, hash}
use uncluster.PolicyHash.Order.{hash-perm}
use uncluster.PolicyHash.Decode.{has, IsClean, canonical_injective}
use uncluster.Tests.Fixtures.{crypto, sum_hex, secret, caller_id}

abbrev minted : Token.Token
minted = record { kind = Kind.caller; id = caller_id; secret = secret }

minted-IsMinted : IsMinted crypto minted
unfolding crypto any_char
minted-IsMinted = record {
  id_plain = refl;
  id_length = refl;
  secret_length = refl;
  id_decodes = refl;
  secret_decodes = refl;
}

parse-to_text_example : parse crypto (to_text minted) ≡ some minted
parse-to_text_example = parse-to_text crypto minted minted-IsMinted

abbrev root_a : Grant
root_a = record { username = "root"; caller_token_id = "a" }

abbrev root_b : Grant
root_b = record { username = "root"; caller_token_id = "b" }

swapped : Perm (root_b ∷ root_a ∷ []) (root_a ∷ root_b ∷ [])
swapped = Perm.swap root_a root_b []

hash-perm_example : hash sum_hex (root_b ∷ root_a ∷ []) ≡ hash sum_hex (root_a ∷ root_b ∷ [])
hash-perm_example = hash-perm sum_hex (root_b ∷ root_a ∷ []) (root_a ∷ root_b ∷ []) swapped

root_a-IsClean : IsClean root_a
unfolding has
root_a-IsClean = record { user_colon = refl; caller_newline = refl }

root_b-IsClean : IsClean root_b
unfolding has
root_b-IsClean = record { user_colon = refl; caller_newline = refl }

same_bytes_of : canonical (root_b ∷ root_a ∷ []) ≡ canonical (root_a ∷ root_b ∷ [])
unfolding canonical
same_bytes_of = refl

canonical_injective_example : Perm (root_b ∷ root_a ∷ []) (root_a ∷ root_b ∷ [])
canonical_injective_example =
    canonical_injective (root_b ∷ root_a ∷ []) (root_a ∷ root_b ∷ [])
      (root_b-IsClean, (root_a-IsClean, tt)) (root_a-IsClean, (root_b-IsClean, tt)) same_bytes_of
