-- ===== src/Token/RoundTrip.antt =====
-- What is printed or hashed is read back.
use Prim.Native.String.{len}
use mathlib.Core.Option.{some-injective}
use uncluster.Prelude.{
  ℕ, String, ◌≡◌, refl, ap, true, false, some, List, [], ◌∷◌, arith, ◌==◌, any_char, length, ◌↔◌,
  prepend, join-prepend, str_eq,
}
use uncluster.Token.{
  Kind, Token, Crypto, kind_text, read_kind, to_text, strip_prefix, cut, split3, parse_parts, parse,
  decodes, split_dollar, verify_secret, verify_parts, hash_secret, same_bytes, id_len, secret_len,
}

abbrev FreeOf : ℕ → String → Type 0
FreeOf b s = any_char (λ c. c == b) s ≡ false

strip_prefix-prepend : (p s : String) → strip_prefix p (prepend p s) ≡ some s
unfolding strip_prefix
strip_prefix-prepend String.[] s = refl
strip_prefix-prepend (String.◌∷◌ c p) s = ground (arith, strip_prefix-prepend p s)

cut-prepend : (u v : String) → FreeOf b'_' u → cut b'_' (prepend u (prepend "_" v)) ≡ some (u, v)
unfolding cut any_char
cut-prepend String.[] v h = refl
cut-prepend (String.◌∷◌ c u) v h = ground (arith, cut-prepend u v)

split_dollar-prepend :
    (u v : String) → FreeOf b'$' u → split_dollar (prepend u (prepend "$" v)) ≡ u ∷ split_dollar v
unfolding split_dollar any_char
split_dollar-prepend String.[] v h = refl
split_dollar-prepend (String.◌∷◌ c u) v h = ground (arith, split_dollar-prepend u v)

split_dollar-plain : (u : String) → FreeOf b'$' u → split_dollar u ≡ u ∷ []
unfolding split_dollar any_char
split_dollar-plain String.[] h = refl
split_dollar-plain (String.◌∷◌ c u) h = ground (arith, split_dollar-plain u)

-- What `Generate` makes: an id and a secret of the right lengths that the decoder accepts, and no
-- separator in the id.
pub record IsMinted (c : Crypto) (t : Token) : Type 0 where
  pub id_plain : any_char (λ x. x == b'_') t.id ≡ false
  pub id_length : (len t.id == id_len) ≡ true
  pub secret_length : (len t.secret == secret_len) ≡ true
  pub id_decodes : decodes (c.b32_decode t.id) ≡ true
  pub secret_decodes : decodes (c.b32_decode t.secret) ≡ true

kind_plain : (k : Kind) → FreeOf b'_' (kind_text k)
unfolding any_char
kind_plain Kind.join = refl
kind_plain _ = refl

read-kind_text : (k : Kind) → read_kind (kind_text k) ≡ some k
unfolding read_kind str_eq
read-kind_text Kind.join = refl
read-kind_text _ = refl

split3-prepend :
    (u v s : String)
    → FreeOf b'_' u
    → FreeOf b'_' v
    → split3 (prepend u (prepend "_" (prepend v (prepend "_" s)))) ≡ some (u, v, s)
unfolding split3
split3-prepend u v s h k = rw (cut-prepend u _ h, split3) (rw (cut-prepend v s k, split3))

parse_parts-minted :
    (c : Crypto) (t : Token)
    → IsMinted c t
    → parse_parts c (kind_text t.kind, t.id, t.secret) ≡ some t
unfolding parse_parts
parse_parts-minted c t m = rw (read-kind_text t.kind, parse_parts) (ground (arith, m))

-- A minted token is read back from its text.
pub parse-to_text : (c : Crypto) (t : Token) → IsMinted c t → parse c (to_text t) ≡ some t
unfolding parse to_text
parse-to_text c t m = simp join-prepend (
    rw (cut-prepend (kind_text t.kind) _ (kind_plain t.kind), parse)
      (rw (cut-prepend t.id t.secret m.id_plain, parse) (parse_parts-minted c t m)))

module _ (c : Crypto) (salt : List ℕ) where
  -- What is relied on of base32 and argon2: decoding undoes encoding, no '$' in an encoded text, the
  -- three numbers of the printed parameters, and a key of the length asked for.
  pub record IsStandard : Type 0 where
    pub decode_encode : (b : List ℕ) → c.b32_decode (c.b32_encode b) ≡ some b
    pub encode_plain : (b : List ℕ) → any_char (λ x. x == b'$') (c.b32_encode b) ≡ false
    pub scans : c.scan_params "m=65536,t=3,p=2" ≡ some (65536, 3, 2)
    pub key_length : (s : String) → length (c.id_key s salt 3 65536 2 32) ≡ 32

  same_bytes_iff : (xs ys : List ℕ) → (same_bytes xs ys ≡ true) ↔ (xs ≡ ys)
  unfolding same_bytes
  same_bytes_iff [] [] = ground arith
  same_bytes_iff [] (y ∷ ys) = ground arith
  same_bytes_iff (x ∷ xs) [] = ground arith
  same_bytes_iff (x ∷ xs) (y ∷ ys) = ground (arith, same_bytes_iff xs ys)

  verify_run :
      (stored given : String)
      → IsStandard
      → verify_secret c given (hash_secret c salt stored)
        ≡ some (same_bytes (c.id_key given salt 3 65536 2 32) (c.id_key stored salt 3 65536 2 32))
  unfolding verify_secret hash_secret
  verify_run stored given std =
      let key = c.id_key stored salt 3 65536 2 32 in
      simp join-prepend (
        rw (split_dollar-prepend (c.b32_encode salt) _ (std.encode_plain salt), verify_secret)
          (rw (split_dollar-plain _ (std.encode_plain key), verify_secret)
            (rw (std.scans, verify_parts)
              (rw (std.decode_encode salt, verify_parts)
                (rw (std.decode_encode key, verify_parts)
                  (rw (std.key_length stored, verify_parts)))))))

  -- A stored hash is accepted for a secret exactly if that secret and the one that was hashed have
  -- the same argon2 key under the stored salt and the fixed parameters.
  verify-hash_secret :
      (stored given : String)
      → IsStandard
      → (verify_secret c given (hash_secret c salt stored) ≡ some true)
        ↔ (c.id_key given salt 3 65536 2 32 ≡ c.id_key stored salt 3 65536 2 32)
  verify-hash_secret stored given std =
      let same =
        same_bytes_iff (c.id_key given salt 3 65536 2 32) (c.id_key stored salt 3 65536 2 32) in
      rw (verify_run stored given std)
        ((λ e. same.0 (some-injective _ _ e)), (λ e. ap some (same.1 e)))
