-- ===== src/Enforcement/Devices.antt =====
-- The devices that the enforcer counts for a user.
use over_vpn.Base.{
  Bool, false, ◌&&◌, ◌||◌, List, [], ◌∷◌, ◌++◌, Option, none, some, Text, text_eq, text_eq_iff, get,
  put, get-put, any, ◌≡◌, refl, arith, Bool-cases, inl, inr, ap,
}
use over_vpn.Enforcement.{
  SessionIdentity, device_key_from_session, is_truthy, add_member, add_device, devices_of,
  count_from, count_identities_by_user,
}

-- The key is that of a device.
abbrev key_is : Text → Option Text → Bool
key_is k none = false
key_is k (some key) = is_truthy key && text_eq k key

-- The session is one of a user on a device.
abbrev pub is_session_on : Text → Text → SessionIdentity → Bool
is_session_on id k s = text_eq s.user_id id && key_is k (device_key_from_session s)

abbrev counts : Text → List Text → Bool
counts k devices = any (text_eq k) devices

any-snoc : (k x : Text) (xs : List Text) → counts k (xs ++ x ∷ []) ≡ (counts k xs || text_eq k x)
any-snoc k x [] = ground arith
any-snoc k x (y ∷ xs) = ground (arith, any-snoc k x xs)

counts-of_eq : (k x : Text) (xs : List Text) → k ≡ x → counts k xs ≡ counts x xs
counts-of_eq k x xs e = ap (λ t. counts t xs) e

counts-add_member :
    (k x : Text) (xs : List Text) → counts k (add_member x xs) ≡ (counts k xs || text_eq k x)
counts-add_member k x xs = elim (Bool-cases (counts x xs)) [
  | inl there ↦ rw there (ground (arith, text_eq_iff k x, counts-of_eq k x xs))
  | inr new ↦ rw new (any-snoc k x xs)
]

counts-add_device :
    (k : Text) (key : Option Text) (xs : List Text)
    → counts k (add_device key xs) ≡ (counts k xs || key_is k key)
counts-add_device k none xs = ground arith
counts-add_device k (some key) xs = ground (arith, counts-add_member k key xs)

-- A user's devices are those of the user's own sessions.
counts-count_from :
    (id k : Text) (m : List (Text × List Text)) (ss : List SessionIdentity)
    → counts k (devices_of (get id (count_from m ss)))
      ≡ (counts k (devices_of (get id m)) || any (is_session_on id k) ss)
unfolding count_from
counts-count_from id k m [] = ground arith
counts-count_from id k m (s ∷ ss) =
    let devices = add_device (device_key_from_session s) (devices_of (get s.user_id m)) in
    let rest = counts-count_from id k (put s.user_id devices m) ss in
    let found = ap (λ o. counts k (devices_of o)) (get-put s.user_id id devices m) in
    elim (Bool-cases (text_eq s.user_id id)) [
      | inl own ↦
          let same = ap (λ u. counts k (devices_of (get u m))) ((text_eq_iff s.user_id id).0 own) in
          ground (
            arith,
            rest,
            simp own at found,
            counts-add_device k (device_key_from_session s) (devices_of (get s.user_id m)),
            same,
          )
      | inr other ↦ ground (arith, rest, simp other at found)
    ]

-- A device counts for a user exactly when one of the sessions of that user is on it.
pub count_identities_by_user-counts :
    (id k : Text) (ss : List SessionIdentity)
    → any (text_eq k) (devices_of (get id (count_identities_by_user ss)))
      ≡ any (is_session_on id k) ss
unfolding get
count_identities_by_user-counts id k ss = counts-count_from id k [] ss

-- No device of a list counts twice.
abbrev pub IsDistinct : List Text → Type 0
IsDistinct [] = Unit
IsDistinct (x ∷ xs) = (any (text_eq x) xs ≡ false) × IsDistinct xs

IsDistinct-snoc :
    (x : Text) (xs : List Text)
    → any (text_eq x) xs ≡ false
    → IsDistinct xs
    → IsDistinct (xs ++ x ∷ [])
IsDistinct-snoc x [] h d = (refl, tt)
IsDistinct-snoc x (y ∷ xs) h (fresh, d) = (
  ground (arith, any-snoc y x xs, text_eq_iff x y, text_eq_iff y x),
  IsDistinct-snoc x xs (ground arith) d,
)

IsDistinct-add_device :
    (key : Option Text) (xs : List Text) → IsDistinct xs → IsDistinct (add_device key xs)
IsDistinct-add_device none xs d = d
IsDistinct-add_device (some key) xs d = elim (Bool-cases (is_truthy key)) [
  | inl truthy ↦ elim (Bool-cases (any (text_eq key) xs)) [
    | inl there ↦ rw (truthy, there) d
    | inr fresh ↦ rw (truthy, fresh) (IsDistinct-snoc key xs fresh d)
  ]
  | inr empty ↦ rw empty d
]

IsDistinct-count_from :
    (m : List (Text × List Text)) (ss : List SessionIdentity)
    → ((id : Text) → IsDistinct (devices_of (get id m)))
    → (id : Text) → IsDistinct (devices_of (get id (count_from m ss)))
unfolding count_from
IsDistinct-count_from m [] h id = h id
IsDistinct-count_from m (s ∷ ss) h id =
    let devices = add_device (device_key_from_session s) (devices_of (get s.user_id m)) in
    IsDistinct-count_from (put s.user_id devices m) ss
      (λ other.
        rw (get-put s.user_id other devices m) (elim (Bool-cases (text_eq s.user_id other)) [
          | inl own ↦ rw own (IsDistinct-add_device (device_key_from_session s) _ (h s.user_id))
          | inr new ↦ rw new (h other)
        ]))
      id

-- No device of a user counts twice.
pub count_identities_by_user-IsDistinct :
    (id : Text) (ss : List SessionIdentity)
    → IsDistinct (devices_of (get id (count_identities_by_user ss)))
unfolding get
count_identities_by_user-IsDistinct id ss = IsDistinct-count_from [] ss (λ other. tt) id
