-- ===== src/Authorization/Guard.antt =====
-- Whom the guards let pass.
use over_vpn.Base.{
  true, false, not, ◌||◌, Option, none, some, Text, text_eq, text_eq_iff, codes, ok, bind-ok, ◌≡◌,
  ◌≢◌, ◌↔◌, ◌⊎◌, inl, inr, refl, arith, Bool-cases, Option-cases, ap, ◌∙◌, sym,
}
use over_vpn.Authorization.{
  AdminRole, readonly, Route, Request, Claims, AdminRow, bearer_token, active_admin, role_eq,
  is_mutation, lacks_role, roles_guard, admin_of, authenticate, authorize, is_filled,
}

module _ (verify_token : Text → Option Claims) (find_admin : Text → Option AdminRow) where
  -- An administrator speaks in a request: its token is good, names them, and they are active.
  pub record Speaks (r : Request) (a : AdminRow) : Type 0 where
    pub token : Text
    pub claims : Claims
    pub sent : bearer_token r.authorization ≡ some token
    pub verified : verify_token token ≡ some claims
    pub access : claims.kind ≡ codes "access"
    pub named : is_filled claims.sub ≡ true
    pub found : find_admin claims.sub ≡ some a
    pub active : a.active ≡ true

  active_admin-ok :
      (o : Option AdminRow) (a : AdminRow)
      → active_admin o ≡ ok a
      → (o ≡ some a) × (a.active ≡ true)
  active_admin-ok none a h = cc
  active_admin-ok (some b) a h = elim (Bool-cases b.active) [
    | inl on ↦
        let same : b ≡ a = let f = simp on at h in cc in
        (ap some same, sym (ap (λ x. x.active) same) ∙ on)
    | inr off ↦ let f = simp off at h in cc
  ]

  admin_of-ok :
      (o : Option Claims) (a : AdminRow)
      → admin_of verify_token find_admin o ≡ ok a
      → (claims : Claims) × (o ≡ some claims)
        × (claims.kind ≡ codes "access")
        × (is_filled claims.sub ≡ true)
        × (find_admin claims.sub ≡ some a)
        × (a.active ≡ true)
  admin_of-ok none a h = cc
  admin_of-ok (some claims) a h =
      let bad = not (text_eq claims.kind (codes "access")) || not (is_filled claims.sub) in
      elim (Bool-cases bad) [
        | inl b ↦ let f = rw b at h in cc
        | inr good ↦
            let (found, active) = active_admin-ok (find_admin claims.sub) a (rw good at h) in
            (
              claims,
              refl,
              (text_eq_iff claims.kind (codes "access")).0 (ground (arith, good)),
              ground (arith, good),
              found,
              active,
            )
      ]

  Speaks-of_authenticate :
      (r : Request) (a : AdminRow) → authenticate verify_token find_admin r ≡ ok a → Speaks r a
  unfolding authenticate
  Speaks-of_authenticate r a h = elim (Option-cases (bearer_token r.authorization)) [
    | inl missing ↦ let f = rw missing at h in cc
    | inr (token, sent) ↦
        let (claims, verified, access, named, found, active) =
          admin_of-ok (verify_token token) a (rw sent at h) in
        record {
          token = token;
          claims = claims;
          sent = sent;
          verified = verified;
          access = access;
          named = named;
          found = found;
          active = active;
        }
  ]

  authenticate_iff :
      (r : Request) (a : AdminRow) → (authenticate verify_token find_admin r ≡ ok a) ↔ Speaks r a
  unfolding authenticate
  authenticate_iff r a = (
    Speaks-of_authenticate r a,
    λ s.
        let access = (text_eq_iff s.claims.kind (codes "access")).1 s.access in
        rw (s.sent, s.verified) (simp (access, s.named, s.found) (simp s.active refl)),
  )

  role_eq_iff : (s t : AdminRole) → (role_eq s t ≡ true) ↔ (s ≡ t)
  role_eq_iff s t = ground arith

  -- The role may do what the request asks of the route.
  abbrev pub Permits : Route → Text → AdminRole → Type 0
  Permits route method role =
      (lacks_role route.required_roles role ≡ false)
      × ((role ≢ readonly) ⊎ (is_mutation method ≡ false) ⊎ (route.readonly_mutation ≡ true))

  roles_guard_iff :
      (route : Route) (method : Text) (a : AdminRow)
      → (roles_guard route method (some a) ≡ ok true) ↔ Permits route method a.role
  unfolding roles_guard
  roles_guard_iff route method a = ground (arith, role_eq_iff a.role readonly)

  -- The guards let a request pass exactly when the route is public, or the request has a good
  -- access token of an active administrator whose role the route accepts and who, if read-only,
  -- changes nothing on a route that does not allow it.
  pub authorize_iff :
      (route : Route) (r : Request)
      → (authorize verify_token find_admin route r ≡ ok true)
        ↔ ((route.is_public ≡ true) ⊎ ((a : AdminRow) × Speaks r a × Permits route r.method a.role))
  unfolding authorize
  authorize_iff route r = elim (Bool-cases route.is_public) [
    | inl free ↦ simp free (λ h. inl refl, λ h. refl)
    | inr closed ↦ simp closed (
      λ h.
          let (a, spoken, allowed) = bind-ok (authenticate verify_token find_admin r) _ h in
          inr (a, Speaks-of_authenticate r a spoken, (roles_guard_iff route r.method a).0 allowed),
      λ h. elim h [
        | inl free ↦ cc
        | inr (a, s, p) ↦ rw ((authenticate_iff r a).1 s) ((roles_guard_iff route r.method a).1 p)
      ],
    )
  ]
