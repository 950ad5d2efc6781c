-- ===== src/Users/Bulk.antt =====
-- `bulk` and `bulkUpdate` of apps/api/src/users/users.service.ts: an action on several users in one
-- transaction.
use over_vpn.Base.{
  ℕ, ◌+◌, ◌*◌, ◌==◌, ltb, Bool, true, false, ◌&&◌, List, [], ◌∷◌, filter, any, length, sort, Option,
  none, some, Text, codes, if◌then◌else◌, Result, ok, throw, ◌>>=◌, pos, ◌+ℤ◌,
}
use over_vpn.Schema.{User, UserStatus, UserStatusReason}
use over_vpn.UserDomain.{
  UserState, NormalizedUserStatus, normalize_user_status, calculate_next_reset_at,
}
use over_vpn.CoreApply.{InboundMark}
use over_vpn.PlanSync.{SyncError, mem, unique}
use over_vpn.Users.{
  Account, Plan, Db, Failure, not_found, sub_token_taken, retry, days_after, resolve_plan,
  hold_beside, with_status, marked, write, token_clashes, record_pending, assign, inbounds_of,
}
use over_vpn.Users.Save.{mapped, with_token}

-- `BulkUserActionRequest`, without the ids.
pub data BulkUserAction : Type 0 where
  disable enable reset_traffic rotate_sub : BulkUserAction
  extend : (days : ℕ) → BulkUserAction
  set_plan : (plan_id : Option Text) → BulkUserAction

abbrev pub action_name : BulkUserAction → Text
action_name disable = codes "disable"
action_name enable = codes "enable"
action_name reset_traffic = codes "reset-traffic"
action_name (extend days) = codes "extend"
action_name (set_plan id) = codes "set-plan"
action_name rotate_sub = codes "rotate-sub"

abbrev pub is_rotation : BulkUserAction → Bool
is_rotation rotate_sub = true
is_rotation _ = false

abbrev pub state_of : User → UserState
state_of u = record {
  expire_at = u.expire_at;
  data_limit_bytes = u.data_limit_bytes;
  used_upload_bytes = u.used_upload_bytes;
  used_download_bytes = u.used_download_bytes;
}

-- The status of a user after an action: one who is disabled stays so.
unfoldable pub status_after : User → UserState → ℕ → NormalizedUserStatus
status_after u state now =
    normalize_user_status state
      (some (elim u.status [ UserStatus.disabled ↦ UserStatus.disabled | _ ↦ UserStatus.active ]))
      u.status_reason now

abbrev pub restated : NormalizedUserStatus → Account → Account
restated n a = record a {
  user = record (with_status n a.user) {
    identity_limit_hold_until = hold_beside n a.user.identity_limit_hold_until;
  };
}

abbrev pub unheld : NormalizedUserStatus → Account → Account
unheld n a = record a { user = record (with_status n a.user) { identity_limit_hold_until = none } }

-- `user.expireAt && user.expireAt > now ? user.expireAt : now`.
abbrev pub extension_base : Option ℕ → ℕ → ℕ
extension_base none now = now
extension_base (some at) now = if ltb now at then at else now

abbrev pub extended : ℕ → ℕ → User → Option ℕ
extended days now u = some (extension_base u.expire_at now + days * 24 * 60 * 60 * 1000)

abbrev pub planned_state : Plan → ℕ → User → UserState
planned_state plan now u = record (state_of u) {
  data_limit_bytes = plan.default_data_limit_bytes;
  expire_at = days_after now plan.default_expiry_days;
}

-- `bulkUpdate`: what an action makes of a row, by the row that was read.
unfoldable pub bulk_update : BulkUserAction → User → Option Plan → ℕ → Text → Account → Account
bulk_update disable read plan now token = unheld (record {
  status = UserStatus.disabled;
  status_reason = some UserStatusReason.manual;
  disabled_at = some now;
})
bulk_update enable read plan now token =
    unheld (normalize_user_status (state_of read) (some UserStatus.active) none now)
bulk_update reset_traffic read plan now token = λ a.
    restated
      (status_after read
        (record (state_of read) { used_upload_bytes = pos 0; used_download_bytes = pos 0 }) now)
      (record a {
        user = record a.user {
          used_upload_bytes = pos 0;
          used_download_bytes = pos 0;
          accounting_epoch = a.user.accounting_epoch +ℤ pos 1;
          traffic_reset_at = some now;
          next_reset_at = calculate_next_reset_at read.reset_strategy now;
        };
      })
bulk_update (extend days) read plan now token = λ a.
    restated (status_after read (record (state_of read) { expire_at = extended days now read }) now)
      (record a { user = record a.user { expire_at = extended days now read } })
bulk_update (set_plan id) read none now token = λ a. record a { plan_id = none }
bulk_update (set_plan id) read (some plan) now token = λ a.
    restated (status_after read (planned_state plan now read) now) (record a {
      user = record a.user {
        data_limit_bytes = plan.default_data_limit_bytes;
        expire_at = days_after now plan.default_expiry_days;
        device_limit = plan.default_device_limit;
        reset_strategy = plan.default_reset_strategy;
        next_reset_at = calculate_next_reset_at plan.default_reset_strategy now;
      };
      ip_limit = none;
      speed_limit_bps = plan.default_speed_limit_bps;
      plan_id = some plan.id;
    })
bulk_update rotate_sub read plan now token = with_token token

-- `set-plan` alone reads a plan.
abbrev pub bulk_plan : BulkUserAction → List Plan → Result Failure (Option Plan)
bulk_plan (set_plan id) plans = resolve_plan id plans
bulk_plan _ plans = ok none

abbrev pub changes : BulkUserAction → User → Option Plan → ℕ → Text → Account → Account
changes action read plan now token a =
    if is_rotation action
    then bulk_update action read plan now token a
    else marked (bulk_update action read plan now token a)

-- The update of a row; only a rotation touches a unique column.
abbrev pub write_changes : BulkUserAction → User → Option Plan → ℕ → Text → Db → Result Failure Db
write_changes action read plan now token db =
    if is_rotation action && any (token_clashes read.id token) db.accounts
    then throw sub_token_taken
    else ok
        (record db { accounts = write read.id (changes action read plan now token) db.accounts })

abbrev pub is_chosen : List Text → Account → Bool
is_chosen ids a = mem a.user.id ids && elim a.user.deleted_at [ none ↦ true | some at ↦ false ]

abbrev pub noted : BulkUserAction → Text → Db → Db
noted action user db =
    if is_rotation action then db else record_pending (action_name action) user db

-- The users that are read, in the order of their ids.
abbrev pub chosen : (Account → Account → Bool) → List Text → Db → List Account
chosen order ids db = sort order (filter (is_chosen ids) db.accounts)

module _ (credential : Text → InboundMark → Result SyncError Text) (fresh_id : Text → Text → Text)
    (order : Account → Account → Bool) where
  abbrev pub assign_bulk : BulkUserAction → Text → Option Plan → ℕ → Db → Result Failure Db
  assign_bulk (set_plan id) user plan now db =
      assign credential fresh_id now user (inbounds_of plan db.plan_inbounds) db
  assign_bulk _ user plan now db = ok db

  abbrev pub bulk_one :
      BulkUserAction → Option Plan → ℕ → (Text → Text) → User → Db → Result Failure Db
  bulk_one action plan now token read db =
      write_changes action read plan now (token read.id) db >>= λ written.
      assign_bulk action read.id plan now written >>= λ assigned. ok (noted action read.id assigned)

  -- The loop over the rows that were read.
  unfoldable pub bulk_each :
      BulkUserAction → Option Plan → ℕ → (Text → Text) → List Account → Db → Result Failure Db
  bulk_each action plan now token [] db = ok db
  bulk_each action plan now token (a ∷ rest) db =
      bulk_one action plan now token a.user db >>= λ next. bulk_each action plan now token rest next

  -- The transaction of `bulk`; it gives the number of users.
  unfoldable pub bulk_once :
      BulkUserAction → List Text → ℕ → (Text → Text) → Db → Result Failure (ℕ × Db)
  bulk_once action ids now token db =
      let read = chosen order ids db in
      if length read == length ids
      then (bulk_plan action db.plans >>= λ plan.
          bulk_each action plan now token read db >>= λ done. ok (length read, done))
      else throw not_found

  -- `bulk`, with the token that each attempt draws for a user.
  unfoldable pub bulk :
      BulkUserAction → List Text → (ℕ → ℕ) → (ℕ → Text → Text) → Db → Result Failure (ℕ × Db)
  bulk action ids now draw db =
      mapped (retry 5 0 (λ n. bulk_once action (unique ids) (now n) (draw n) db))
