-- ===== src/Token/Encoding.antt =====
-- auth/token/token.go: a token that was signed reads back, and a text without a dot is no token.
use eidola.Common.{String, ◌≡◌, refl, ap, ◌∙◌, ◌⊎◌, inl, inr, true, false, none, some, arith}
use Prim.Native.Char.{Char}
use Prim.Native.String.{◌++◌ as ◌++ₛ◌}
use text.Mathlib.TextLemmas.{cons-append as cons-append_text, nil-append as nil-append_text}
use eidola.Token.Claims.{
  Codec, TokenClaims, check_signature, read_token, sign, split_dot, has_dot, in_front,
}

pub split_dot-none : (s : String) → has_dot s ≡ false → split_dot s ≡ none
unfolding split_dot has_dot in_front
split_dot-none String.[] h = refl
split_dot-none (String.◌∷◌ c s) h = ground (arith, split_dot-none s)

abbrev dot : Char
dot = "."

dot-append : (p : String) → "." ++ₛ p ≡ String.◌∷◌ dot p
dot-append p = cons-append_text dot "" p ∙ ap (String.◌∷◌ dot) (nil-append_text p)

split_dot-append :
    (a b : String)
    → has_dot a ≡ false
    → has_dot b ≡ false
    → split_dot (a ++ₛ ("." ++ₛ b)) ≡ some (a, b)
unfolding split_dot has_dot in_front
split_dot-append String.[] b h k = rw (nil-append_text, dot-append, k)
split_dot-append (String.◌∷◌ c s) b h k =
    ground (arith, cons-append_text c s ("." ++ₛ b), split_dot-append s b)

-- What is documented of base64.RawURLEncoding, whose alphabet has no dot.
abbrev pub Dotless : Codec → Type 0
Dotless codec = (s : String) → has_dot (codec.encode s) ≡ false

-- What is documented of encoding/json at some claims, of base64 and of an Encryptor: an error, or
-- what reads back.
abbrev pub Lawful : Codec → TokenClaims → Type 0
Lawful codec claims =
    Dotless codec
    × ((s : String) → codec.decode (codec.encode s) ≡ some s)
    × ((codec.marshal claims ≡ none)
        ⊎ ((s : String) × (codec.marshal claims ≡ some s) × (codec.unmarshal s ≡ some claims)))
    × ((s : String)
        → (codec.encrypt s ≡ none)
          ⊎ ((g : String) × (codec.encrypt s ≡ some g) × (codec.verify s g ≡ true)))

module _ (codec : Codec) where
  pub read_token-sign :
      (claims : TokenClaims) (t : String)
      → Lawful codec claims
      → sign codec claims ≡ inr t
      → read_token codec true t ≡ inr claims
  unfolding read_token sign check_signature
  read_token-sign claims t law h = elim (law.2) [
    | inl n ↦ absurd (ground arith)
    | inr (payload, m, u) ↦ elim (law.3 payload) [
      | inl n ↦ absurd (ground arith)
      | inr (g, e, v) ↦ ground (
        arith,
        split_dot-append (codec.encode payload) (codec.encode g) (law.0 payload) (law.0 g),
        law.1 payload,
        law.1 g,
      )
    ]
  ]
