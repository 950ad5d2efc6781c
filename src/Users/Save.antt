-- ===== src/Users/Save.antt =====
-- `create`, `update`, `remove` and `rotateSubscription` of apps/api/src/users/users.service.ts.
use over_vpn.Base.{
  ℕ, true, ◌||◌, List, [], ◌∷◌, ◌++◌, Option, none, some, is_some, Text, codes, if◌then◌else◌,
  Result, ok, throw, ◌>>=◌, ℤ, pos, ◌+◌,
}
use over_vpn.Schema.{UserStatus, UserStatusReason, ResetStrategy, no_reset}
use over_vpn.UserDomain.{normalize_user_status, calculate_next_reset_at}
use over_vpn.CoreApply.{InboundMark}
use over_vpn.PlanSync.{SyncError, unique}
use over_vpn.Users.{
  Account, Plan, Db, Failure, internal_error, is_collision, map_mutation_error, retry, given,
  planned, days_after, resolve_expiry, resolve_plan, hold_beside, with_status, find_live, write,
  check_unique, record_pending, assign, inbounds_of,
}

-- `userLimitsSchema`.
pub record UserLimits : Type 0 where
  pub expire_at : Option (Option ℕ)
  pub data_limit_bytes : Option (Option ℤ)
  pub reset_strategy : Option ResetStrategy
  pub next_reset_at : Option (Option ℕ)
  pub device_limit : Option (Option ℤ)
  pub ip_limit : Option (Option ℤ)
  pub speed_limit_bps : Option (Option ℤ)

pub record CreateUser : Type 0 where
  pub identity : Option Text
  pub username : Text
  pub status : UserStatus
  pub status_reason : Option UserStatusReason
  pub note : Option Text
  pub tags : List Text
  pub plan_id : Option Text
  pub limits : UserLimits

pub record UpdateUser : Type 0 where
  pub identity : Option Text
  pub username : Option Text
  pub status : Option UserStatus
  pub status_reason : Option UserStatusReason
  pub note : Option (Option Text)
  pub tags : Option (List Text)
  pub plan_id : Option (Option Text)
  pub limits : UserLimits

-- What an attempt to create draws: the id, the token, and the time.
pub record Draw : Type 0 where
  pub id : Text
  pub token : Text
  pub now : ℕ

abbrev pub mapped : {A : Type 0} → Result Failure A → Result Failure A
mapped (ok a) = ok a
mapped (throw e) = throw (map_mutation_error e)

-- The row of a new user.
abbrev pub new_account : CreateUser → Option Plan → Draw → Account
new_account input plan d =
    let expire_at =
      resolve_expiry input.limits.expire_at (planned plan (λ p. p.default_expiry_days) none)
        d.now in
    let data_limit =
      given input.limits.data_limit_bytes (planned plan (λ p. p.default_data_limit_bytes) none) in
    let strategy =
      given input.limits.reset_strategy (planned plan (λ p. p.default_reset_strategy) no_reset) in
    let n =
      normalize_user_status
        (record {
          expire_at = expire_at;
          data_limit_bytes = data_limit;
          used_upload_bytes = pos 0;
          used_download_bytes = pos 0;
        })
        (some input.status) input.status_reason d.now in
    record {
      user = record {
        id = d.id;
        username = input.username;
        status = n.status;
        status_reason = n.status_reason;
        expire_at = expire_at;
        data_limit_bytes = data_limit;
        used_upload_bytes = pos 0;
        used_download_bytes = pos 0;
        accounting_epoch = pos 0;
        traffic_reset_at = none;
        reset_strategy = strategy;
        next_reset_at = given input.limits.next_reset_at (calculate_next_reset_at strategy d.now);
        device_limit =
            given input.limits.device_limit (planned plan (λ p. p.default_device_limit) none);
        identity_limit_hold_until = none;
        needs_apply = true;
        revision = 1;
        disabled_at = n.disabled_at;
        deleted_at = none;
      };
      identity = given input.identity input.username;
      note = input.note;
      tags = unique input.tags;
      ip_limit = given input.limits.ip_limit none;
      speed_limit_bps =
          given input.limits.speed_limit_bps (planned plan (λ p. p.default_speed_limit_bps) none);
      sub_token = d.token;
      plan_id = planned plan (λ p. some p.id) none;
    }

-- The row of a user that an administrator edits; `plan` is the plan that the edit applies.
abbrev pub edited : UpdateUser → Option Plan → ℕ → Account → Account
edited input plan now a =
    let u = a.user in
    let expire_at =
      given input.limits.expire_at
        (planned plan (λ p. days_after now p.default_expiry_days) u.expire_at) in
    let data_limit =
      given input.limits.data_limit_bytes
        (planned plan (λ p. p.default_data_limit_bytes) u.data_limit_bytes) in
    let strategy =
      given input.limits.reset_strategy
        (planned plan (λ p. p.default_reset_strategy) u.reset_strategy) in
    let n =
      normalize_user_status
        (record {
          expire_at = expire_at;
          data_limit_bytes = data_limit;
          used_upload_bytes = u.used_upload_bytes;
          used_download_bytes = u.used_download_bytes;
        })
        (some (given input.status u.status))
        (elim input.status_reason [ none ↦ u.status_reason | some r ↦ some r ]) now in
    record a {
      user = record (with_status n u) {
        username = given input.username u.username;
        expire_at = expire_at;
        data_limit_bytes = data_limit;
        reset_strategy = strategy;
        next_reset_at = given input.limits.next_reset_at (
            if is_some input.limits.reset_strategy || is_some plan
            then calculate_next_reset_at strategy now
            else u.next_reset_at);
        device_limit =
            given input.limits.device_limit
              (planned plan (λ p. p.default_device_limit) u.device_limit);
        identity_limit_hold_until = hold_beside n u.identity_limit_hold_until;
        needs_apply = true;
        revision = u.revision + 1;
      };
      identity = given input.identity a.identity;
      note = given input.note a.note;
      tags = elim input.tags [ none ↦ a.tags | some tags ↦ unique tags ];
      ip_limit = given input.limits.ip_limit (planned plan (λ p. none) a.ip_limit);
      speed_limit_bps =
          given input.limits.speed_limit_bps
            (planned plan (λ p. p.default_speed_limit_bps) a.speed_limit_bps);
      plan_id = given input.plan_id a.plan_id;
    }

abbrev pub removed : ℕ → Account → Account
removed now a = record a {
  user = record a.user {
    deleted_at = some now;
    disabled_at = some now;
    status = UserStatus.disabled;
    status_reason = some UserStatusReason.manual;
    needs_apply = true;
    revision = a.user.revision + 1;
  };
}

-- The changed row takes the place of the old one, if the unique columns allow it.
abbrev pub replace_account : Account → Account → Db → Result Failure Db
replace_account old new db = check_unique new db.accounts >>= λ unique.
    ok (record db { accounts = write old.user.id (λ a. new) db.accounts })

-- `resolvePlan` where the request names a plan or none.
abbrev pub plan_in : Option (Option Text) → List Plan → Result Failure (Option Plan)
plan_in none plans = ok none
plan_in (some id) plans = resolve_plan id plans

-- `remove`.
unfoldable pub remove : Text → ℕ → Db → Result Failure Db
remove id now db = mapped (
    find_live id db.accounts >>= λ a.
    replace_account a (removed now a) db >>= λ after. ok (record_pending (codes "delete") id after))

abbrev pub with_token : Text → Account → Account
with_token token a = record a { sub_token = token }

-- The error of a rotation that met taken tokens only.
abbrev pub rotation_error : Failure → Failure
rotation_error e = if is_collision e then internal_error else map_mutation_error e

-- `rotateSubscription` with the token that each attempt draws.
unfoldable pub rotate_subscription : Text → (ℕ → Text) → Db → Result Failure Db
rotate_subscription id draw db =
    elim (retry 5 0
      λ n. find_live id db.accounts >>= λ a. replace_account a (with_token (draw n) a) db) [
        | ok after ↦ ok after
        | throw e ↦ throw (rotation_error e)
      ]

module _ (credential : Text → InboundMark → Result SyncError Text)
    (fresh_id : Text → Text → Text) where
  abbrev pub assign_plan : ℕ → Text → Option Plan → Db → Result Failure Db
  assign_plan now id none db = ok db
  assign_plan now id (some plan) db =
      assign credential fresh_id now id (inbounds_of (some plan) db.plan_inbounds) db

  -- The transaction of `create`.
  unfoldable pub create_once : CreateUser → Draw → Db → Result Failure (Account × Db)
  create_once input d db = resolve_plan input.plan_id db.plans >>= λ plan.
      check_unique (new_account input plan d) db.accounts >>= λ unique.
      assign_plan d.now d.id plan (
        record_pending (codes "create") d.id
          (record db { accounts = db.accounts ++ new_account input plan d ∷ [] }))
      >>= λ after. ok (new_account input plan d, after)

  -- `create`.
  unfoldable pub create : CreateUser → (ℕ → Draw) → Db → Result Failure (Account × Db)
  create input draw db = mapped (retry 5 0 (λ n. create_once input (draw n) db))

  abbrev pub assign_given : ℕ → Text → Option (Option Text) → Option Plan → Db → Result Failure Db
  assign_given now id none plan db = ok db
  assign_given now id (some named) plan db =
      assign credential fresh_id now id (inbounds_of plan db.plan_inbounds) db

  -- `update`.
  unfoldable pub update : Text → UpdateUser → ℕ → Db → Result Failure Db
  update id input now db = mapped (
      find_live id db.accounts >>= λ a. plan_in input.plan_id db.plans >>= λ plan.
      replace_account a (edited input plan now a) db >>= λ after.
      assign_given now id input.plan_id plan (record_pending (codes "update") id after))
