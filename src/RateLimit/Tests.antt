-- ===== src/RateLimit/Tests.antt =====
-- The rate limit at concrete inputs.
use over_vpn.Base.{ℕ, ◌≡◌, ◌≤◌, refl, arith, List, [], ◌∷◌, none, Text, codes}
use over_vpn.RateLimit.{passed, counter_at, ip_key_of}
use over_vpn.RateLimit.Window.{passed_le_limit}

abbrev plain : Text → Text
plain t = t

abbrev requests : List (ℕ × Text)
requests = (105, codes "t") ∷ (110, codes "u") ∷ (109, codes "t") ∷ []

two_pass : passed plain 2 5 1000 (codes "i") ((100, codes "t") ∷ requests) [] ≡ 2
unfolding passed over_vpn.RateLimit.consume over_vpn.RateLimit.run_script over_vpn.RateLimit.hit
    over_vpn.RateLimit.live over_vpn.Base.get over_vpn.Base.put over_vpn.Base.text_eq
two_pass = refl

-- After the window the address may pass again.
next_window :
    passed plain 1 5 10 (codes "i") ((100, codes "t") ∷ (105, codes "t") ∷ (110, codes "t") ∷ []) []
    ≡ 2
unfolding passed over_vpn.RateLimit.consume over_vpn.RateLimit.run_script over_vpn.RateLimit.hit
    over_vpn.RateLimit.live over_vpn.Base.get over_vpn.Base.put over_vpn.Base.text_eq
next_window = refl

fresh : counter_at 100 (ip_key_of plain (codes "i")) [] ≡ none
unfolding over_vpn.RateLimit.live over_vpn.Base.get
fresh = refl

passed_le_limit_example : passed plain 2 5 1000 (codes "i") ((100, codes "t") ∷ requests) [] ≤ 2
passed_le_limit_example =
    passed_le_limit plain 2 5 1000 (codes "i") 100 (codes "t") requests [] fresh
      (omega arith, (omega arith, (omega arith, tt)))
