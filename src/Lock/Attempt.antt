-- ===== src/Lock/Attempt.antt =====
-- When a locked operation gives a value.
use over_vpn.Base.{
  ℕ, ◌≤◌, true, false, List, [], ◌∷◌, none, some, Text, Result, ok, throw, ◌≡◌, ◌≢◌, ◌↔◌, refl,
  arith, Bool-cases, inl, inr, All,
}
use over_vpn.Lock.{
  LockError, Answer, agreed, refused, unreachable, Event, renewal, verify, assertion, Failure,
  acquired, operate, is_key, is_invalid, after_set, attempted, try_with_lock,
}

-- A renewal of the event, if it has one, was agreed to.
abbrev pub IsAgreed : Event → Type 0
IsAgreed (renewal a) = a ≡ agreed
IsAgreed (verify a) = a ≡ agreed
IsAgreed assertion = Unit

module _ (Thrown Value : Type 0) where
  -- A doubt never ends in a value.
  operate-doubt :
      (events : List Event) (e : LockError) (end : Result Thrown Value) (v : Value)
      → operate Thrown Value events (some e) end ≢ ok v
  unfolding operate
  operate-doubt [] e (ok w) v = λ h. cc
  operate-doubt [] e (throw t) v = λ h. cc
  operate-doubt (renewal a ∷ rest) e end v = operate-doubt rest e end v
  operate-doubt (verify a ∷ rest) e end v = λ h. cc
  operate-doubt (assertion ∷ rest) e end v = λ h. cc

  operate-agreed :
      (events : List Event) (end : Result Thrown Value)
      → All IsAgreed events
      → operate Thrown Value events none end ≡ operate Thrown Value [] none end
  unfolding operate
  operate-agreed [] end h = refl
  operate-agreed (renewal agreed ∷ rest) end (a, h) = operate-agreed rest end h
  operate-agreed (renewal refused ∷ rest) end (a, h) = absurd (ground arith)
  operate-agreed (renewal unreachable ∷ rest) end (a, h) = absurd (ground arith)
  operate-agreed (verify agreed ∷ rest) end (a, h) = operate-agreed rest end h
  operate-agreed (verify refused ∷ rest) end (a, h) = absurd (ground arith)
  operate-agreed (verify unreachable ∷ rest) end (a, h) = absurd (ground arith)
  operate-agreed (assertion ∷ rest) end (a, h) = operate-agreed rest end h

  IsAgreed-of_operate :
      (events : List Event) (end : Result Thrown Value) (v : Value)
      → operate Thrown Value events none end ≡ ok v
      → All IsAgreed events × (end ≡ ok v)
  unfolding operate
  IsAgreed-of_operate [] (ok w) v h = (tt, cc)
  IsAgreed-of_operate [] (throw t) v h = cc
  IsAgreed-of_operate (renewal agreed ∷ rest) end v h =
      let (all_agreed, ended) = IsAgreed-of_operate rest end v h in ((refl, all_agreed), ended)
  IsAgreed-of_operate (renewal refused ∷ rest) end v h = absurd (operate-doubt rest _ end v h)
  IsAgreed-of_operate (renewal unreachable ∷ rest) end v h = absurd (operate-doubt rest _ end v h)
  IsAgreed-of_operate (verify agreed ∷ rest) end v h =
      let (all_agreed, ended) = IsAgreed-of_operate rest end v h in ((refl, all_agreed), ended)
  IsAgreed-of_operate (verify refused ∷ rest) end v h = cc
  IsAgreed-of_operate (verify unreachable ∷ rest) end v h = cc
  IsAgreed-of_operate (assertion ∷ rest) end v h =
      let (all_agreed, ended) = IsAgreed-of_operate rest end v h in ((tt, all_agreed), ended)

  attempted-acquired :
      (r : Result (Failure Thrown Value) Value) (v : Value)
      → attempted Thrown Value r ≡ ok (acquired v)
      → r ≡ ok v
  attempted-acquired (ok w) v h = cc
  attempted-acquired (throw e) v h = cc

  after_set-acquired :
      (set : Answer) (events : List Event) (end : Result Thrown Value) (v : Value)
      → after_set Thrown Value set events end ≡ ok (acquired v)
      → (set ≡ agreed) × All IsAgreed events × (end ≡ ok v)
  after_set-acquired agreed events end v h =
      let (events_agree, ended) = IsAgreed-of_operate events end v (attempted-acquired _ v h) in
      (refl, events_agree, ended)
  after_set-acquired refused events end v h = cc
  after_set-acquired unreachable events end v h = cc

  operated :
      (v : Value) → attempted Thrown Value (operate Thrown Value [] none (ok v)) ≡ ok (acquired v)
  unfolding operate
  operated v = refl

  -- A locked operation gives a value exactly when the key is not empty, the time to live is at
  -- least a second and a safe integer, the server grants the lock and agrees to every renewal, and
  -- the operation ends with that value.
  pub try_with_lock_iff :
      (key : Text) (ttl : ℕ) (set : Answer) (events : List Event) (end : Result Thrown Value)
      (v : Value)
      → (try_with_lock Thrown Value key ttl set events end ≡ ok (acquired v)) ↔ (
          (is_key Thrown Value key ≡ true)
          × (1000 ≤ ttl)
          × (ttl ≤ 9007199254740991)
          × (set ≡ agreed)
          × All IsAgreed events
          × (end ≡ ok v))
  unfolding try_with_lock
  try_with_lock_iff key ttl set events end v = (
    λ h. elim (Bool-cases (is_invalid Thrown Value key ttl)) [
      | inl bad ↦ let f = rw bad at h in cc
      | inr good ↦
          let (agrees, events_agree, ended) = after_set-acquired set events end v (rw good at h) in
          (
            ground (arith, good),
            ground (arith, good),
            ground (arith, good),
            agrees,
            events_agree,
            ended,
          )
    ],
    λ (k, low, high, agrees, events_agree, ended).
        let good : is_invalid Thrown Value key ttl ≡ false = ground arith in
        rw (good, agrees, operate-agreed events end events_agree, ended) (operated v),
  )
