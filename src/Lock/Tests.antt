-- ===== src/Lock/Tests.antt =====
-- The lock at concrete inputs.
use over_vpn.Base.{
  ℕ, ◌≡◌, ◌≤◌, ◌↔◌, refl, arith, Bool, true, false, List, [], ◌∷◌, none, some, Text, codes, get, ok,
  throw, Result, All,
}
use over_vpn.Lock.{
  System, Step, acquire, tick, renew, Reachable, start, next, set_nx, granted, agreed, refused,
  renewal, verify, assertion, Event, acquired, lock_error, ownership_lost, is_key, try_with_lock,
}
use over_vpn.Lock.Exclusion.{mutual_exclusion}
use over_vpn.Lock.Attempt.{IsAgreed, try_with_lock_iff}

abbrev at_first : System
at_first = record { now = 50; entry = none; grants = [] }

abbrev held : System
held = record {
  now = 50;
  entry = some (record { token = codes "a"; until = 1050 });
  grants = (codes "a", 1050) ∷ [];
}

held-Reachable : Reachable held
unfolding set_nx over_vpn.Lock.live over_vpn.Base.put
held-Reachable = next at_first held (start 50) (acquire at_first (codes "a") 1000)

second_fails : (set_nx (codes "b") 1000 60 held.entry).0 ≡ false
unfolding set_nx over_vpn.Lock.live
second_fails = refl

expired_is_free : (set_nx (codes "b") 1000 1050 held.entry).0 ≡ true
unfolding set_nx over_vpn.Lock.live
expired_is_free = refl

a_granted : get (codes "a") held.grants ≡ some 1050
unfolding get over_vpn.Base.text_eq
a_granted = refl

mutual_exclusion_example : codes "a" ≡ codes "a"
mutual_exclusion_example =
    mutual_exclusion held (codes "a") (codes "a") 1050 1050 held-Reachable a_granted (omega arith)
      a_granted (omega arith)

abbrev good_events : List Event
good_events = renewal agreed ∷ assertion ∷ verify agreed ∷ []

abbrev ended : Result Text ℕ
ended = ok 3

lost_in_between :
    try_with_lock Text ℕ (codes "k") 5000 agreed (renewal refused ∷ renewal agreed ∷ []) (ok 3)
    ≡ throw (lock_error ownership_lost)
unfolding try_with_lock over_vpn.Lock.operate
lost_in_between = refl

try_with_lock_iff_example :
    (try_with_lock Text ℕ (codes "k") 5000 agreed good_events ended ≡ ok (acquired 3)) ↔ (
      (is_key Text ℕ (codes "k") ≡ true)
      × (1000 ≤ 5000)
      × (5000 ≤ 9007199254740991)
      × (agreed ≡ agreed)
      × All IsAgreed good_events
      × (ended ≡ ok 3))
try_with_lock_iff_example = try_with_lock_iff Text ℕ (codes "k") 5000 agreed good_events ended 3
