-- ===== src/Enforcement/Equal.antt =====
-- `===` on statuses, reasons and optional dates.
use over_vpn.Base.{ℕ, Bool, true, false, ◌==◌, Option, none, some, ◌≡◌, arith}
use over_vpn.Schema.{
  UserStatus, active, disabled, expired, limited, UserStatusReason, manual, quota, device, ip,
}

abbrev pub status_eq : UserStatus → UserStatus → Bool
status_eq active active = true
status_eq disabled disabled = true
status_eq expired expired = true
status_eq limited limited = true
status_eq _ _ = false

abbrev pub reason_eq : Option UserStatusReason → Option UserStatusReason → Bool
reason_eq none none = true
reason_eq (some manual) (some manual) = true
reason_eq (some UserStatusReason.expired) (some UserStatusReason.expired) = true
reason_eq (some quota) (some quota) = true
reason_eq (some device) (some device) = true
reason_eq (some ip) (some ip) = true
reason_eq _ _ = false

abbrev pub date_eq : Option ℕ → Option ℕ → Bool
date_eq none none = true
date_eq (some a) (some b) = a == b
date_eq _ _ = false

pub status_eq→eq : (a b : UserStatus) → status_eq a b ≡ true → a ≡ b
status_eq→eq a b h = ground arith

pub status_eq_refl : (a : UserStatus) → status_eq a a ≡ true
status_eq_refl a = ground arith

pub reason_eq→eq : (a b : Option UserStatusReason) → reason_eq a b ≡ true → a ≡ b
reason_eq→eq a b h = ground arith

pub reason_eq_refl : (a : Option UserStatusReason) → reason_eq a a ≡ true
reason_eq_refl a = ground arith

pub date_eq→eq : (a b : Option ℕ) → date_eq a b ≡ true → a ≡ b
date_eq→eq a b h = ground arith

pub date_eq_refl : (a : Option ℕ) → date_eq a a ≡ true
date_eq_refl a = ground arith
