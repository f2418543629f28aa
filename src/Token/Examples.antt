-- ===== src/Token/Examples.antt =====
-- auth/token/: tests, and the theorems at a manager with one token, and a simple encoding.
use eidola.Common.{
  ◌*◌, String, ◌≡◌, refl, ◌≢◌, inl, inr, true, false, none, some, arith, eq_iff, Option,
}
use eidola.Common.Dict.{get, assign}
use eidola.Token.Store.{
  refresh_token_not_found, Keyed, TokenData, new_in_memory_token_store, store_token, stamped,
  get_token_by_refresh, get_token_by_id, found, revoke_token, revoke_found,
}
use eidola.Token.Blacklist.{new_in_memory_blacklist, second, is_blacklisted, check_expiry}
use eidola.Token.Claims.{sign, sign_both}
use eidola.Token.Manager.{
  claims_of, store_signed, token_data, generate_as, generate_token, validate_token, refresh_token,
}
use eidola.Token.Service.{TokenServiceOptions}
use eidola.Token.Rotation.{refresh-once}
use eidola.Token.Issue.{generate-validate}
use eidola.Token.Escape.{escaped}
use eidola.Token.Sample.{
  ann, manager, codec, codec-Lawful, issued, after, access_not_empty, generates,
}

r1_not_empty : issued.refresh_token ≢ ""
r1_not_empty = ground (arith, eq_iff "r1" "")

other_id : ◌≢◌ {A = Option String} (some "t2") (some "t1")
other_id = ground (arith, eq_iff "t2" "t1")

generate-validate_example :
    (validate_token codec after issued.access_token (3700 * second)).1 ≡ inr ann
unfolding claims_of is_blacklisted check_expiry new_in_memory_blacklist get escaped
generate-validate_example =
    generate-validate codec manager ann 0 (100 * second) (3700 * second) "t1" (some "r1") issued
      codec-Lawful generates access_not_empty (ground arith) refl

abbrev options : TokenServiceOptions
options = record {
  access_token_duration = 3600 * second;
  refresh_token_duration = 604800 * second;
  enable_refresh_token_rotation = true;
  enable_token_revocation = true;
  token_type = "Bearer";
}

abbrev stored : TokenData
stored = record {
  access_token = issued.access_token;
  refresh_token = "r1";
  user_id = "1";
  expires_at = 3700;
  token_id = "t1";
  revoked = false;
  created_at = 100;
}

stored-found : get_token_by_refresh after.token_store "r1" ≡ inr stored
unfolding generate_token generate_as sign_both sign store_signed store_token stamped token_data
    get_token_by_refresh get_token_by_id found get assign new_in_memory_token_store
stored-found = refl

not_barred : (is_blacklisted after.blacklist "t1" (200 * second)).1 ≡ false
unfolding generate_token generate_as sign_both sign store_signed is_blacklisted check_expiry
    new_in_memory_blacklist get
not_barred = refl

revokes : (revoke_token after.token_store "t1").1 ≡ none
unfolding generate_token generate_as sign_both sign store_signed store_token stamped token_data get
    assign new_in_memory_token_store revoke_token revoke_found
revokes = refl

unknown : get after.token_store.users "1" ≡ none
unfolding generate_token generate_as sign_both sign store_signed store_token get
    new_in_memory_token_store
unknown = refl

one_entry : Keyed after.token_store.tokens
unfolding generate_token generate_as sign_both sign store_signed store_token get assign
    new_in_memory_token_store token_data
one_entry = ground arith

owns : get after.token_store.tokens "t1" ≡ some stored
unfolding generate_token generate_as sign_both sign store_signed store_token stamped token_data get
    assign new_in_memory_token_store
owns = refl

other_refresh : ◌≢◌ {A = Option String} (some "r2") (some "r1")
other_refresh = ground (arith, eq_iff "r2" "r1")

refresh-once_example :
    get_token_by_refresh
      (refresh_token codec after "r1" (200 * second) (some "t2") (some "r2")).0.token_store
      "r1"
    ≡ inl refresh_token_not_found
refresh-once_example =
    refresh-once codec after "r1" (200 * second) (some "t2") (some "r2") stored stored-found owns
      refl r1_not_empty (ground arith) not_barred other_refresh
