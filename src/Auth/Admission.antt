-- ===== src/Auth/Admission.antt =====
-- Whom a login admits.
use over_vpn.Base.{
  ℕ, Bool, true, false, not, Option, none, some, Text, if◌then◌else◌, Result, ok, throw, ◌≡◌, ◌↔◌,
  refl, arith,
}
use over_vpn.Auth.{
  Admin, Store, Platform, Fresh, AuthError, AuthResult, authenticated, second_factor_required,
  filled, admin_login, logged, FailureReason,
}
use over_vpn.Auth.Login.{
  LoginRequest, login, login_as, second_factor, check_code, named, open_session,
}

module _ (p : Platform) where
  -- The second factor of an administrator passes with a code.
  unfoldable pub PassesFactor : Option Text → Option Text → Type 0
  PassesFactor none code = Unit
  PassesFactor (some encrypted) code =
      (secret : Text) × (c : Text) × (p.decrypt encrypted ≡ some secret)
      × (code ≡ some c)
      × (p.totp_matches secret c ≡ true)

  -- The administrator whom a login admits.
  unfoldable pub Admits : LoginRequest → Option Admin → Type 0
  Admits input none = ⊥
  Admits input (some a) =
      (p.password_matches a.password_hash input.password ≡ true)
      × ((a.active ≡ true) × PassesFactor (filled a.totp_secret) (filled input.totp_code))

  abbrev pub is_authenticated : Result AuthError AuthResult → Bool
  is_authenticated (throw e) = false
  is_authenticated (ok second_factor_required) = false
  is_authenticated (ok (authenticated t b a)) = true

  passed_code :
      (input : LoginRequest) (fresh : Fresh) (now : ℕ) (a : Admin) (code secret : Text) (s : Store)
      → is_authenticated ((check_code p input fresh now a code (some secret) s).0) ≡ true
      → p.totp_matches secret code ≡ true
  unfolding open_session
  passed_code input fresh now a code secret s e = ground arith

  authenticated_code :
      (input : LoginRequest) (fresh : Fresh) (now : ℕ) (a : Admin) (code secret : Text) (s : Store)
      → p.totp_matches secret code ≡ true
      → is_authenticated ((check_code p input fresh now a code (some secret) s).0) ≡ true
  unfolding open_session
  authenticated_code input fresh now a code secret s m = ground arith

  matched :
      (secret' c code : Text) {secret : Text}
      → some secret ≡ some secret'
      → some code ≡ some c
      → p.totp_matches secret' c ≡ true
      → p.totp_matches secret code ≡ true
  matched secret' c code d e m = cc

  code_iff :
      (input : LoginRequest) (fresh : Fresh) (now : ℕ) (a : Admin) (code : Text) (d : Option Text)
      (s : Store)
      → (is_authenticated ((check_code p input fresh now a code d s).0) ≡ true) ↔ (
          (secret : Text) × (c : Text) × (d ≡ some secret)
          × (some code ≡ some c)
          × (p.totp_matches secret c ≡ true))
  unfolding open_session
  code_iff input fresh now a code none s =
      ((λ e. ground arith), (λ (secret, c, d, e, m). ground arith))
  code_iff input fresh now a code (some secret) s = (
    (λ e. (secret, code, refl, refl, passed_code input fresh now a code secret s e)),
    (λ (secret', c, d, e, m).
        authenticated_code input fresh now a code secret s (matched secret' c code d e m)),
  )

  factor_iff :
      (input : LoginRequest) (fresh : Fresh) (now : ℕ) (a : Admin) (factor code : Option Text)
      (s : Store)
      → (is_authenticated ((second_factor p input fresh now a factor code s).0) ≡ true)
        ↔ PassesFactor factor code
  unfolding open_session PassesFactor
  factor_iff input fresh now a none code s = ((λ e. tt), (λ u. refl))
  factor_iff input fresh now a (some encrypted) none s =
      ((λ e. ground arith), (λ (secret, c, d, e, m). ground arith))
  factor_iff input fresh now a (some encrypted) (some code) s =
      code_iff input fresh now a code (p.decrypt encrypted) s

  gated_iff :
      {T : Type 0} (b : Bool) (x y : Result AuthError AuthResult × Store)
      → is_authenticated x.0 ≡ false
      → (is_authenticated y.0 ≡ true) ↔ T
      → (is_authenticated (if not b then x else y).0 ≡ true) ↔ ((b ≡ true) × T)
  gated_iff true x y silent h = ((λ e. (refl, h.0 e)), (λ (_, t). h.1 t))
  gated_iff false x y silent h = ((λ e. cc), (λ (e, t). cc))

  login_as_iff :
      (input : LoginRequest) (fresh : Fresh) (now : ℕ) (o : Option Admin) (s : Store)
      → (is_authenticated ((login_as p input fresh now o s).0) ≡ true) ↔ Admits input o
  unfolding Admits
  login_as_iff input fresh now none s = ((λ e. ground arith), (λ m. absurd m))
  login_as_iff input fresh now (some a) s =
      let entered =
        second_factor p input fresh now a (filled a.totp_secret) (filled input.totp_code) s in
      gated_iff (p.password_matches a.password_hash input.password) _
        (if not a.active
          then (
            throw AuthError.account_inactive,
            logged (some a.id) admin_login (some FailureReason.account_inactive) s,
          )
          else entered)
        refl
        (gated_iff a.active _ entered refl
          (factor_iff input fresh now a (filled a.totp_secret) (filled input.totp_code) s))

  -- A login opens a session exactly when the name has an administrator, the password matches, the
  -- account is active, and the second factor, where there is one, can be read and accepts the
  -- code.
  pub login_iff :
      (input : LoginRequest) (fresh : Fresh) (now : ℕ) (s : Store)
      → (is_authenticated ((login p input fresh now s).0) ≡ true)
        ↔ Admits input (named p input.username s)
  unfolding login
  login_iff input fresh now s = login_as_iff input fresh now (named p input.username s) s
