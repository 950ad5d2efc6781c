-- ===== src/Users/Status.antt =====
-- The reason and the instant of disabling that fit the status of a user in every row, and the hold
-- in a row that is not deleted; a removal leaves the hold where it is.
pub mod Kept
use over_vpn.Base.{
  ℕ, Bool, true, false, not, ◌&&◌, ◌==◌, List, [], ◌∷◌, ◌++◌, map, filter, any, length, Option,
  none, some, is_some, Text, text_eq, if◌then◌else◌, Result, ok, throw, ◌>>=◌, ◌≡◌, refl, arith,
  Bool-cases, inl, inr, All, All-append,
}
use over_vpn.Schema.{User, UserStatus, UserStatusReason}
use over_vpn.UserDomain.{
  UserState, NormalizedUserStatus, normalize_user_status, status_of_state, limited_reason, is_past,
  quota_used,
}
use over_vpn.CoreApply.{UserMark, InboundMark}
use over_vpn.PlanSync.{SyncError, sync_user, unique}
use over_vpn.Users.{
  Account, Plan, Db, Failure, retry, hold_beside, marked, is_live, find_live, write, check_unique,
  token_clashes, with_mark, synced, sync_db, with_sync, assign, is_collision, resolve_plan,
  inbounds_of,
}
use over_vpn.Users.Save.{
  CreateUser, UpdateUser, Draw, mapped, new_account, edited, removed, replace_account, plan_in,
  remove, with_token, rotation_error, rotate_subscription, assign_plan, create_once, create,
  assign_given, update,
}
use over_vpn.Users.Bulk.{
  BulkUserAction, disable, enable, reset_traffic, rotate_sub, extend, set_plan, is_rotation,
  restated, state_of, status_after, bulk_update, changes, write_changes, noted, bulk_plan,
  assign_bulk, bulk_one, bulk_each, bulk_once, bulk, chosen,
}

abbrev pub is_limit : Option UserStatusReason → Bool
is_limit (some UserStatusReason.quota) = true
is_limit (some UserStatusReason.device) = true
is_limit (some UserStatusReason.ip) = true
is_limit _ = false

-- A status, its reason, and the instant of the disabling.
abbrev pub Agrees : UserStatus → Option UserStatusReason → Option ℕ → Type 0
Agrees UserStatus.active reason at = (reason ≡ none) × (at ≡ none)
Agrees UserStatus.disabled reason at = (reason ≡ some UserStatusReason.manual) × (is_some at ≡ true)
Agrees UserStatus.expired reason at = (reason ≡ some UserStatusReason.expired) × (at ≡ none)
Agrees UserStatus.limited reason at = (is_limit reason ≡ true) × (at ≡ none)

-- Whether a hold may stand beside a status and a reason.
abbrev pub may_hold : UserStatus → Option UserStatusReason → Bool
may_hold UserStatus.limited (some UserStatusReason.quota) = false
may_hold UserStatus.limited _ = true
may_hold _ reason = false

-- Of a deleted row nothing is asked about its hold.
abbrev pub IsCoherent : Account → Type 0
IsCoherent a =
    Agrees a.user.status a.user.status_reason a.user.disabled_at
    × (a.user.deleted_at ≡ none
        → may_hold a.user.status a.user.status_reason ≡ false
        → a.user.identity_limit_hold_until ≡ none)

is_limit-limited_reason :
    (reason : Option UserStatusReason) → is_limit (some (limited_reason reason)) ≡ true
is_limit-limited_reason none = refl
is_limit-limited_reason (some UserStatusReason.manual) = refl
is_limit-limited_reason (some UserStatusReason.expired) = refl
is_limit-limited_reason (some UserStatusReason.quota) = refl
is_limit-limited_reason (some UserStatusReason.device) = refl
is_limit-limited_reason (some UserStatusReason.ip) = refl

status_of_state-Agrees :
    (state : UserState) (now : ℕ)
    → let n = status_of_state state now in Agrees n.status n.status_reason n.disabled_at
status_of_state-Agrees state now = elim (Bool-cases (is_past state.expire_at now)) [
  | inl past ↦ simp past (refl, refl)
  | inr future ↦
      elim (Bool-cases
        (quota_used state.data_limit_bytes state.used_upload_bytes state.used_download_bytes)) [
          | inl used ↦ simp (future, used) (refl, refl)
          | inr left ↦ simp (future, left) (refl, refl)
        ]
]

normalize-Agrees :
    (state : UserState) (requested : Option UserStatus) (reason : Option UserStatusReason) (now : ℕ)
    → let n = normalize_user_status state requested reason now in
      Agrees n.status n.status_reason n.disabled_at
unfolding normalize_user_status
normalize-Agrees state (some UserStatus.disabled) reason now = (refl, refl)
normalize-Agrees state (some UserStatus.expired) reason now = (refl, refl)
normalize-Agrees state (some UserStatus.limited) reason now = (is_limit-limited_reason reason, refl)
normalize-Agrees state (some UserStatus.active) reason now = status_of_state-Agrees state now
normalize-Agrees state none reason now = status_of_state-Agrees state now

-- A status beside which the hold is kept is that of a limit with a hold.
hold_beside-none :
    (status : UserStatus) (reason : Option UserStatusReason) (hold : Option ℕ)
    → may_hold status reason ≡ false
    → hold_beside (record { status = status; status_reason = reason; disabled_at = none }) hold
      ≡ none
hold_beside-none UserStatus.active reason hold h = refl
hold_beside-none UserStatus.disabled reason hold h = refl
hold_beside-none UserStatus.expired reason hold h = refl
hold_beside-none UserStatus.limited none hold h = cc
hold_beside-none UserStatus.limited (some UserStatusReason.manual) hold h = cc
hold_beside-none UserStatus.limited (some UserStatusReason.expired) hold h = cc
hold_beside-none UserStatus.limited (some UserStatusReason.quota) hold h = refl
hold_beside-none UserStatus.limited (some UserStatusReason.device) hold h = cc
hold_beside-none UserStatus.limited (some UserStatusReason.ip) hold h = cc

pub new_account-IsCoherent :
    (input : CreateUser) (plan : Option Plan) (d : Draw) → IsCoherent (new_account input plan d)
new_account-IsCoherent input plan d =
    (normalize-Agrees _ (some input.status) input.status_reason d.now, λ live h. refl)

pub edited-IsCoherent :
    (input : UpdateUser) (plan : Option Plan) (now : ℕ) (a : Account)
    → IsCoherent (edited input plan now a)
edited-IsCoherent input plan now a =
    (normalize-Agrees _ _ _ now, λ live h. hold_beside-none _ _ _ h)

pub removed-IsCoherent : (now : ℕ) (a : Account) → IsCoherent (removed now a)
removed-IsCoherent now a = ((refl, refl), λ live h. cc)

status_after-Agrees :
    (u : User) (state : UserState) (now : ℕ)
    → let n = status_after u state now in Agrees n.status n.status_reason n.disabled_at
unfolding status_after
status_after-Agrees u state now = normalize-Agrees state _ u.status_reason now

bulk_update-IsCoherent :
    (action : BulkUserAction) (read : User) (plan : Option Plan) (now : ℕ) (token : Text)
    (a : Account)
    → IsCoherent a
    → IsCoherent (bulk_update action read plan now token a)
unfolding bulk_update
bulk_update-IsCoherent disable read plan now token a c = ((refl, refl), λ live h. refl)
bulk_update-IsCoherent enable read plan now token a c =
    (normalize-Agrees (state_of read) (some UserStatus.active) none now, λ live h. refl)
bulk_update-IsCoherent reset_traffic read plan now token a c =
    (status_after-Agrees read _ now, λ live h. hold_beside-none _ _ _ h)
bulk_update-IsCoherent (extend days) read plan now token a c =
    (status_after-Agrees read _ now, λ live h. hold_beside-none _ _ _ h)
bulk_update-IsCoherent (set_plan id) read none now token a c = c
bulk_update-IsCoherent (set_plan id) read (some plan) now token a c =
    (status_after-Agrees read _ now, λ live h. hold_beside-none _ _ _ h)
bulk_update-IsCoherent rotate_sub read plan now token a c = c

pub changes-IsCoherent :
    (action : BulkUserAction) (read : User) (plan : Option Plan) (now : ℕ) (token : Text)
    (a : Account)
    → IsCoherent a
    → IsCoherent (changes action read plan now token a)
changes-IsCoherent action read plan now token a c =
    let changed = bulk_update-IsCoherent action read plan now token a c in
    elim (Bool-cases (is_rotation action)) [
      | inl turned ↦ simp turned changed
      | inr other ↦ simp other changed
    ]

pub with_mark-IsCoherent :
    (marks : List UserMark) (a : Account) → IsCoherent a → IsCoherent (with_mark marks a)
with_mark-IsCoherent [] a c = c
with_mark-IsCoherent (m ∷ ms) a c = elim (Bool-cases (text_eq m.id a.user.id)) [
  | inl same ↦ simp same c
  | inr other ↦ simp other (with_mark-IsCoherent ms a c)
]
