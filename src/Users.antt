-- ===== src/Users.antt =====
-- apps/api/src/users/users.service.ts: the rows, plans and errors of the operations by which
-- administrators change users, and what these operations share. A transaction that throws changes
-- nothing. The audit, the texts of dates and numbers in requests, and the reading operations are
-- left out.
pub mod Save
pub mod Bulk
pub mod Outcomes
pub mod Status
pub mod Operations
pub mod Assigned
pub mod Waiting
pub mod Retries
pub mod Settled
mod Tests
use over_vpn.Base.{
  ℕ, zero, suc, ◌+◌, ◌*◌, ◌==◌, Bool, true, false, not, ◌&&◌, ◌||◌, List, [], ◌∷◌, ◌++◌, map, any,
  Option, none, some, Text, text_eq, if◌then◌else◌, Result, ok, throw, ◌>>=◌, ℤ,
}
use over_vpn.Schema.{User, UserStatus, UserStatusReason, ResetStrategy}
use over_vpn.UserDomain.{NormalizedUserStatus}
use over_vpn.CoreApply.{UserMark, InboundMark}
use over_vpn.PlanSync.{
  Assignment, DesiredRevision, PlanInbound, SyncError, sync_user, plan_inbound_ids,
}

-- A row of the users, with the columns that the workers do not read.
pub record Account : Type 0 where
  pub user : User
  pub identity : Text
  pub note : Option Text
  pub tags : List Text
  pub ip_limit : Option ℤ
  pub speed_limit_bps : Option ℤ
  pub sub_token : Text
  pub plan_id : Option Text

pub data PlanStatus : Type 0 where
  active archived : PlanStatus

pub record Plan : Type 0 where
  pub id : Text
  pub status : PlanStatus
  pub default_data_limit_bytes : Option ℤ
  pub default_expiry_days : Option ℕ
  pub default_device_limit : Option ℤ
  pub default_speed_limit_bps : Option ℤ
  pub default_reset_strategy : ResetStrategy

-- A change that waits for the cores: the operation and the user.
pub record PendingChange : Type 0 where
  pub operation : Text
  pub resource_id : Text

pub record Db : Type 0 where
  pub accounts : List Account
  pub plans : List Plan
  pub plan_inbounds : List PlanInbound
  pub inbounds : List InboundMark
  pub assignments : List Assignment
  pub desired : List DesiredRevision
  pub pending : List PendingChange

-- What a transaction throws: an exception of the API, or a violated constraint.
pub data Failure : Type 0 where
  not_found plan_archived unique_constraint internal_error : Failure
  sub_token_taken name_taken : Failure
  sync_failed : SyncError → Failure

-- `isSubTokenCollision`.
abbrev pub is_collision : Failure → Bool
is_collision sub_token_taken = true
is_collision _ = false

-- `mapMutationError`.
abbrev pub map_mutation_error : Failure → Failure
map_mutation_error sub_token_taken = unique_constraint
map_mutation_error name_taken = unique_constraint
map_mutation_error other = other

-- After an attempt: one that meets a taken token is made again, while attempts are left.
abbrev pub after_attempt :
    {A : Type 0} → Result Failure A → Bool → Result Failure A → Result Failure A
after_attempt (ok a) more rest = ok a
after_attempt (throw e) more rest = if is_collision e && more then rest else throw e

unfoldable pub retry : {A : Type 0} → ℕ → ℕ → (ℕ → Result Failure A) → Result Failure A
retry zero n attempt = throw internal_error
retry (suc left) n attempt =
    after_attempt (attempt n) (not (left == 0)) (retry left (suc n) attempt)

-- A field of a request that may be absent, null or a value, over what holds where it is absent.
abbrev pub given {ℓ} : {A : Type ℓ} → Option A → A → A
given none fallback = fallback
given (some v) fallback = v

-- What a plan sets, over what holds without one.
abbrev pub planned {ℓ} : {A : Type ℓ} → Option Plan → (Plan → A) → A → A
planned none f fallback = fallback
planned (some plan) f fallback = f plan

abbrev pub days_after : ℕ → Option ℕ → Option ℕ
days_after now none = none
days_after now (some days) = if days == 0 then none else some (now + days * 24 * 60 * 60 * 1000)

-- `resolveExpiry`.
abbrev pub resolve_expiry : Option (Option ℕ) → Option ℕ → ℕ → Option ℕ
resolve_expiry input days now = given input (days_after now days)

abbrev pub plan_of : Text → List Plan → Option Plan
plan_of id [] = none
plan_of id (p ∷ ps) = if text_eq p.id id then some p else plan_of id ps

abbrev pub usable : Option Plan → Result Failure (Option Plan)
usable none = throw not_found
usable (some plan) = elim plan.status [ active ↦ ok (some plan) | archived ↦ throw plan_archived ]

-- `resolvePlan`.
abbrev pub resolve_plan : Option Text → List Plan → Result Failure (Option Plan)
resolve_plan none plans = ok none
resolve_plan (some id) plans = usable (plan_of id plans)

-- The hold that is left beside a new status.
abbrev pub hold_beside : NormalizedUserStatus → Option ℕ → Option ℕ
hold_beside n hold = elim n.status [
  | UserStatus.active ↦ none
  | UserStatus.expired ↦ none
  | UserStatus.disabled ↦ none
  | UserStatus.limited ↦ elim n.status_reason [ some UserStatusReason.quota ↦ none | _ ↦ hold ]
]

abbrev pub with_status : NormalizedUserStatus → User → User
with_status n u = record u {
  status = n.status;
  status_reason = n.status_reason;
  disabled_at = n.disabled_at;
}

-- `needsApply: true, revision: { increment: 1 }`.
abbrev pub marked : Account → Account
marked a = record a { user = record a.user { needs_apply = true; revision = a.user.revision + 1 } }

abbrev pub is_live : Text → Account → Bool
is_live id a = text_eq a.user.id id && elim a.user.deleted_at [ none ↦ true | some at ↦ false ]

-- The row of an id that is not deleted.
abbrev pub find_live : Text → List Account → Result Failure Account
find_live id [] = throw not_found
find_live id (a ∷ rest) = if is_live id a then ok a else find_live id rest

-- `update` of the row of an id.
abbrev pub write : Text → (Account → Account) → List Account → List Account
write id f = map λ a. if text_eq a.user.id id then f a else a

-- Another row has the name, the identity or the token.
abbrev pub name_clashes : Text → Text → Text → Account → Bool
name_clashes id username identity a =
    not (text_eq a.user.id id) && (text_eq a.user.username username || text_eq a.identity identity)

abbrev pub token_clashes : Text → Text → Account → Bool
token_clashes id token a = not (text_eq a.user.id id) && text_eq a.sub_token token

-- The unique columns of the table.
abbrev pub check_unique : Account → List Account → Result {0, 0} Failure Unit
check_unique a rows =
    if any (name_clashes a.user.id a.user.username a.identity) rows
    then throw name_taken
    else if any (token_clashes a.user.id a.sub_token) rows
    then throw sub_token_taken
    else ok tt

abbrev pub record_pending : Text → Text → Db → Db
record_pending operation id db = record db {
  pending = db.pending ++ record { operation = operation; resource_id = id } ∷ [];
}

abbrev pub mark_of : Account → UserMark
mark_of a = record { id = a.user.id; revision = a.user.revision; needs_apply = a.user.needs_apply }

abbrev pub with_mark : List UserMark → Account → Account
with_mark [] a = a
with_mark (m ∷ ms) a =
    if text_eq m.id a.user.id
    then record a { user = record a.user { revision = m.revision; needs_apply = m.needs_apply } }
    else with_mark ms a

abbrev pub sync_db : Db → over_vpn.PlanSync.Db
sync_db db = record {
  assignments = db.assignments;
  marks = record { users = map mark_of db.accounts; inbounds = db.inbounds };
  desired = db.desired;
}

abbrev pub with_sync : over_vpn.PlanSync.Db → Db → Db
with_sync after db = record db {
  accounts = map (with_mark after.marks.users) db.accounts;
  inbounds = after.marks.inbounds;
  assignments = after.assignments;
  desired = after.desired;
}

abbrev pub synced : Result SyncError over_vpn.PlanSync.Db → Db → Result Failure Db
synced (throw e) db = throw (sync_failed e)
synced (ok after) db = ok (with_sync after db)

-- The inbounds of a plan, or none.
abbrev pub inbounds_of : Option Plan → List PlanInbound → List Text
inbounds_of none rows = []
inbounds_of (some plan) rows = plan_inbound_ids plan.id rows

module _ (credential : Text → InboundMark → Result SyncError Text) (fresh_id : Text → Text → Text)
    (now : ℕ) where
  -- `syncUserToInboundIds` in the transaction of an operation.
  unfoldable pub assign : Text → List Text → Db → Result Failure Db
  assign id ids db = synced (sync_user id now (credential id) (fresh_id id) ids (sync_db db)) db
