-- ===== src/RateLimit/Window.antt =====
-- How many requests of one address pass in a window.
use over_vpn.Base.{
  ℕ, ◌+◌, ◌-◌, ◌≤◌, ◌<◌, true, false, List, [], ◌∷◌, none, some, Text, text_eq, get, put, get-put,
  text_eq_refl, lt→ltb, ◌≡◌, refl, arith, Bool-cases, inl, inr, All, ap, ◌∙◌,
}
use over_vpn.RateLimit.{
  Counter, live, hit, counter_at, run_script, ip_key_of, token_key_of, consume, passed,
}

module _ (sha256 : Text → Text) (ip_limit token_limit window : ℕ) (ip : Text) where
  keys_differ : (token : Text) → text_eq (token_key_of sha256 token) (ip_key_of sha256 ip) ≡ false
  unfolding text_eq
  keys_differ token = refl

  -- A request leaves the counter of its address with one hit more, and passes only within the
  -- limit.
  consume_hits :
      (now : ℕ) (token : Text) (db : List (Text × Counter))
      → let c = hit now window (counter_at now (ip_key_of sha256 ip) db) in
        let (r, db') = consume sha256 now ip_limit token_limit window ip token db in
        (get (ip_key_of sha256 ip) db' ≡ some c) × (r.allowed ≡ true → c.count ≤ ip_limit)
  unfolding consume run_script
  consume_hits now token db =
      let key = ip_key_of sha256 ip in
      let c = hit now window (counter_at now key db) in
      (
        get-put (token_key_of sha256 token) key _ (put key c db)
            ∙ rw (keys_differ token) (get-put key key c db ∙ rw (text_eq_refl key) refl),
        λ h. ground arith,
      )

  passed_from :
      (c : Counter) (rest : List (ℕ × Text)) (db : List (Text × Counter))
      → get (ip_key_of sha256 ip) db ≡ some c
      → All (λ (now, token). now < c.expires) rest
      → passed sha256 ip_limit token_limit window ip rest db ≤ ip_limit - c.count
  unfolding passed live hit
  passed_from c [] db h soon = omega arith
  passed_from c ((now, token) ∷ rest) db h (early, soon) =
      let db' = (consume sha256 now ip_limit token_limit window ip token db).1 in
      let counted : hit now window (counter_at now (ip_key_of sha256 ip) db)
          ≡ record c { count = c.count + 1 } =
        rw (h, lt→ltb now c.expires early) refl in
      let (kept, within) = consume_hits now token db in
      let later =
        passed_from (record c { count = c.count + 1 }) rest db' (kept ∙ ap some counted) soon in
      elim (Bool-cases (consume sha256 now ip_limit token_limit window ip token db).0.allowed) [
        | inl pass ↦
            let small = within pass in
            rw pass (omega (arith, later, small, ap (λ x. x.count) counted))
        | inr block ↦ rw block (omega (arith, later))
      ]

  -- Of the requests of an address without a counter that follow its first request before the end
  -- of the window, that one included, at most as many pass as the limit of the address.
  pub passed_le_limit :
      (now : ℕ) (token : Text) (rest : List (ℕ × Text)) (db : List (Text × Counter))
      → counter_at now (ip_key_of sha256 ip) db ≡ none
      → All (λ (later, t). later < now + window) rest
      → passed sha256 ip_limit token_limit window ip ((now, token) ∷ rest) db ≤ ip_limit
  unfolding passed hit
  passed_le_limit now token rest db fresh soon =
      let db' = (consume sha256 now ip_limit token_limit window ip token db).1 in
      let first : Counter = record { count = 1; expires = now + window } in
      let counted : hit now window (counter_at now (ip_key_of sha256 ip) db) ≡ first =
        rw fresh refl in
      let (kept, within) = consume_hits now token db in
      let later = passed_from first rest db' (kept ∙ ap some counted) soon in
      elim (Bool-cases (consume sha256 now ip_limit token_limit window ip token db).0.allowed) [
        | inl pass ↦
            let small = within pass in
            rw pass (omega (arith, later, small, ap (λ x. x.count) counted))
        | inr block ↦ rw block (omega (arith, later))
      ]
