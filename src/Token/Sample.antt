-- ===== src/Token/Sample.antt =====
-- auth/token/: a manager, a user and a token, for the tests of the packages that use tokens.
use eidola.Common.{
  ◌*◌, ◌≡◌, refl, ap, ◌≢◌, inr, false, some, [], ◌∷◌, arith, str_eq, eq_iff, eq_refl,
}
use Prim.Native.String.{◌++◌ as ◌++ₛ◌}
use eidola.Token.Store.{User, new_in_memory_token_store}
use eidola.Token.Blacklist.{new_in_memory_blacklist, second}
use eidola.Token.Claims.{Codec, TokenClaims, sign, sign_both}
use eidola.Token.Manager.{CustomTokenManager, TokenInfo, store_signed, generate_as, generate_token}
use eidola.Token.Encoding.{Dotless, Lawful}
use eidola.Token.Escape.{escaped, restored, escaped-dotless, restored-escaped}

abbrev pub ann : User
ann = record { id = "1"; username = "ann"; roles = "user" ∷ []; permissions = []; metadata = [] }

abbrev pub manager : CustomTokenManager
manager = record {
  default_duration = 3600 * second;
  issuer = "eidola";
  token_store = new_in_memory_token_store;
  blacklist = new_in_memory_blacklist;
}

abbrev pub claims : TokenClaims
claims = record {
  user_id = "1";
  username = "ann";
  roles = "user" ∷ [];
  permissions = [];
  metadata = [];
  token_id = "t1";
  issued_at = 100;
  expires_at = 3700;
  issuer = "eidola";
}

abbrev pub codec : Codec
codec = record {
  marshal = λ c. some "uid.1";
  unmarshal = λ s. some claims;
  encode = escaped;
  decode = λ s. some (restored false s);
  encrypt = λ s. some s;
  verify = str_eq;
}

pub codec-Dotless : Dotless codec
codec-Dotless s = escaped-dotless s

pub codec-Lawful : Lawful codec claims
codec-Lawful = (
  escaped-dotless,
  λ s. ap some (restored-escaped s),
  inr ("uid.1", refl, refl),
  λ s. inr (s, refl, eq_refl s),
)

abbrev pub issued : TokenInfo
issued = record {
  access_token = escaped "uid.1" ++ₛ ("." ++ₛ escaped "uid.1");
  refresh_token = "r1";
  expires_at = 3700 * second;
  token_type = "Bearer";
}

abbrev pub after : CustomTokenManager
after = (generate_token codec manager ann 0 (100 * second) (some "t1") (some "r1")).0

pub access_not_empty : issued.access_token ≢ ""
unfolding escaped
access_not_empty = ground (arith, eq_iff issued.access_token "")

pub generates :
    (generate_token codec manager ann 0 (100 * second) (some "t1") (some "r1")).1 ≡ inr issued
unfolding generate_token generate_as sign_both sign store_signed
generates = refl
