-- ===== src/Mfa/Enrolment.antt =====
-- auth/mfa/authenticator.go: a second factor that is set up, used and disabled.
use eidola.Common.{
  ◌⊎◌, ℕ, ◌*◌, ◌≤◌, ◌<◌, String, ◌≡◌, refl, sym, ap, ◌∙◌, ◌≢◌, inl, inr, true, false, Option, none,
  some, [], ◌∷◌, map, arith, eq_refl,
}
use eidola.Common.Dict.{Dict, get, assign, delete, get-assign, get-delete}
use eidola.Token.Store.{User}
use eidola.Mfa.Totp.{Library, normalised}
use eidola.Mfa.Repository.{
  err_mfa_required, err_mfa_not_enabled, mfa_type_totp, InMemoryMfaRepository, or_empty,
  get_user_mfa, set_user_mfa, disable_user_mfa, list_user_mfa,
}
use eidola.Mfa.Provider.{TotpProvider, read, setup_data, refused, setup, verify_challenge, disable}
use eidola.Mfa.Authenticator.{
  MfaAuthenticator, is_empty, mfa_failed, result_for, pre_authenticate, decide, authenticate,
  complete_mfa, setup_mfa, disable_mfa,
}
use eidola.Mfa.Confirmation.{
  new_for, after_setup, setup-confirmed, verify-after, same_code, Stores, setup-Stores,
}

-- Once a user's second factor has been disabled, it cannot be set up again, with any parameters,
-- also those of a reset: Setup fails as if it had to be enabled before.
pub setup-disabled :
    (lib : Library) (a : MfaAuthenticator) (p : TotpProvider) (r : InMemoryMfaRepository)
    (user_id : String) (user_mfa : Dict (Dict String)) (params : Dict String)
    (secret : Option String) (now : ℕ)
    → get a.providers mfa_type_totp ≡ some p
    → get r.entries user_id ≡ some user_mfa
    → setup_mfa lib a
        (disable_mfa a r user_id mfa_type_totp).0
        user_id
        mfa_type_totp
        params
        secret
        now
      ≡ ((disable_mfa a r user_id mfa_type_totp).0, inl err_mfa_not_enabled)
unfolding setup_mfa disable_mfa disable disable_user_mfa setup refused get_user_mfa
setup-disabled lib a p r user_id user_mfa params secret now hp hu = ground (
  arith,
  get-assign r.entries user_id (delete user_mfa mfa_type_totp) user_id,
  get-delete user_mfa mfa_type_totp mfa_type_totp,
  eq_refl user_id,
  eq_refl mfa_type_totp,
)

keys-assign :
    (m : Dict (Dict String)) (key : String) (d : Dict String)
    → is_empty (map (λ e. e.key) (assign m key d)) ≡ false
unfolding assign
keys-assign [] key d = refl
keys-assign (e ∷ rest) key d = ground arith

required_after :
    {X : Type 0} (a : MfaAuthenticator) (r : InMemoryMfaRepository) (user : User) (d : Dict String)
    → authenticate {X = X} a (set_user_mfa r user.id mfa_type_totp d) (inr user)
      ≡ inl (mfa_failed err_mfa_required)
unfolding authenticate pre_authenticate result_for decide list_user_mfa set_user_mfa
required_after a r user d = ground (
  arith,
  get-assign r.entries user.id (assign (or_empty (get r.entries user.id)) mfa_type_totp d) user.id,
  eq_refl user.id,
  keys-assign (or_empty (get r.entries user.id)) mfa_type_totp d,
)

routed :
    (lib : Library) (a : MfaAuthenticator) (p : TotpProvider) (r : InMemoryMfaRepository)
    (user_id code : String) (params : Dict String) (secret : Option String) (now : ℕ)
    → get a.providers mfa_type_totp ≡ some p
    → (setup_mfa lib a r user_id mfa_type_totp params secret now
        ≡ setup lib p r user_id params secret now)
      × (complete_mfa lib a r user_id mfa_type_totp code now
          ≡ verify_challenge lib p r user_id code now)
unfolding setup_mfa complete_mfa
routed lib a p r user_id code params secret now h = (ground arith, ground arith)

-- SetupMFA, with the provider of TOTP, either leaves the repository as it is or stores the secret that
-- this call draws: the latter only if the code given with the call is a code of that secret, with a
-- window of one, and Authenticate then answers the user with ErrMFARequired.
pub setup-draws :
    {X : Type 0} (lib : Library) (a : MfaAuthenticator) (p : TotpProvider)
    (r : InMemoryMfaRepository) (user : User) (params : Dict String) (secret : Option String)
    (now : ℕ)
    → get a.providers mfa_type_totp ≡ some p
    → let r' = (setup_mfa lib a r user.id mfa_type_totp params secret now).0 in
      (r' ≡ r)
      ⊎ ((s : String) × ((secret ≡ some s)
            × Stores lib p r user.id params now s r'
            × (authenticate {X = X} a r' (inr user) ≡ inl (mfa_failed err_mfa_required))))
setup-draws {X} lib a p r user params secret now hp =
    let set = ap (λ x. x.0) (routed lib a p r user.id "" params secret now hp).0 in
    elim (setup-Stores lib p r user.id params secret now) [
      | inl same ↦ inl (set ∙ same)
      | inr (s, (drawn, (valid, stored))) ↦ inr (
        s,
        (
          drawn,
          (valid, set ∙ stored),
          ap (λ x. authenticate {X = X} a x (inr user)) (set ∙ stored)
              ∙ required_after a r user (
                  assign (setup_data lib p (new_for lib p user.id params s)) "setup_complete"
                    "true"),
        ),
      )
    ]

-- After a Setup that is confirmed with a code, Authenticate asks for the second factor, and
-- CompleteMFA accepts the same code at the same time: for a provider with a window, where as many
-- steps have passed since time zero and the secret is in its normal form already.
setup-protects :
    {X : Type 0} (lib : Library) (a : MfaAuthenticator) (p : TotpProvider)
    (r : InMemoryMfaRepository) (user : User) (params : Dict String) (s : String) (now : ℕ)
    (d : Dict String)
    → get a.providers mfa_type_totp ≡ some p
    → 0 < p.window
    → 0 < p.default_config.period
    → p.window * p.default_config.period ≤ now
    → normalised lib s ≢ ""
    → normalised lib (normalised lib s) ≡ normalised lib s
    → (setup_mfa lib a r user.id mfa_type_totp params (some s) now).1 ≡ inr d
    → read params "verify" ≡ "true"
    → read params "code" ≢ ""
    → (authenticate {X = X} a
          (setup_mfa lib a r user.id mfa_type_totp params (some s) now).0
          (inr user)
        ≡ inl (mfa_failed err_mfa_required))
      × (complete_mfa lib a
            (setup_mfa lib a r user.id mfa_type_totp params (some s) now).0
            user.id
            mfa_type_totp
            (read params "code")
            now
          ≡ inr true)
setup-protects {X} lib a p r user params s now d hp win pos late ne normal ok v c =
    let after = after_setup lib p r user.id params s in
    let set = (routed lib a p r user.id "" params (some s) now hp).0 in
    let confirmed =
      setup-confirmed lib p r user.id params s now d (ap (λ x. x.1) (sym set) ∙ ok) v c in
    let stored = ap (λ x. x.0) set ∙ confirmed.1 in
    (
      ap (λ x. authenticate {X = X} a x (inr user)) stored
          ∙ required_after a r user
              (assign (setup_data lib p (new_for lib p user.id params s)) "setup_complete" "true"),
      ap (λ x. complete_mfa lib a x user.id mfa_type_totp (read params "code") now) stored
          ∙ (routed lib a p after user.id (read params "code") params none now hp).1
          ∙ verify-after lib p r user.id params s (read params "code") now ne
          ∙ ap inr (
              same_code lib p user.id params s (read params "code") now win pos late normal
                confirmed.0),
    )
