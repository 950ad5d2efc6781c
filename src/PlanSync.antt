-- ===== src/PlanSync.antt =====
-- apps/api/src/inbounds/plan-assignment-sync.service.ts: the assignments of a user follow the inbounds
-- of a plan. A credential, drawn and encrypted, is an argument, and so are the ids of new rows.
pub mod Rows
pub mod Disabled
pub mod Enabled
pub mod Reached
pub mod Aligned
pub mod Users
mod Tests
use over_vpn.Base.{
  ℕ, suc, ◌+◌, Bool, true, false, not, ◌&&◌, ◌||◌, List, [], ◌∷◌, ◌++◌, map, filter, any, Option,
  none, some, Text, text_eq, if◌then◌else◌, Result, ok, throw, ◌>>=◌,
}
use over_vpn.Schema.{CoreEngine}
use over_vpn.CoreApply.{UserMark, InboundMark, MarkTables, engine_eq}

pub data AssignmentStatus : Type 0 where
  active disabled : AssignmentStatus

pub record Assignment : Type 0 where
  pub id : Text
  pub inbound_id : Text
  pub user_id : Text
  pub status : AssignmentStatus
  pub credential : Text
  pub credential_version : ℕ
  pub rotated_at : Option ℕ
  pub disabled_at : Option ℕ

-- The desired revision of an engine.
pub record DesiredRevision : Type 0 where
  pub engine : CoreEngine
  pub revision : ℕ

pub record Db : Type 0 where
  pub assignments : List Assignment
  pub marks : MarkTables
  pub desired : List DesiredRevision

pub data SyncError : Type 0 where
  inbound_not_found user_not_found credential_failed : SyncError

abbrev pub is_active : Assignment → Bool
is_active a = elim a.status [ active ↦ true | disabled ↦ false ]

abbrev pub mem : Text → List Text → Bool
mem x xs = any (λ y. text_eq y x) xs

-- `[...new Set(ids)]`
abbrev pub add_new : Text → List Text → List Text
add_new x xs = if mem x xs then xs else xs ++ x ∷ []

abbrev pub unique_from : List Text → List Text → List Text
unique_from [] seen = seen
unique_from (x ∷ xs) seen = unique_from xs (add_new x seen)

unfoldable pub unique : List Text → List Text
unique xs = unique_from xs []

-- `existingByInbound`: the last row of an inbound.
abbrev pub row_for : Text → List Assignment → Option Assignment
row_for inbound [] = none
row_for inbound (a ∷ as_rest) = elim (row_for inbound as_rest) [
  | some b ↦ some b
  | none ↦ if text_eq a.inbound_id inbound then some a else none
]

abbrev pub inbound_row : Text → List InboundMark → Option InboundMark
inbound_row id [] = none
inbound_row id (i ∷ rest) = if text_eq i.id id then some i else inbound_row id rest

-- `update` of the row of an id.
unfoldable pub update_assignment :
    Text → (Assignment → Assignment) → List Assignment → List Assignment
update_assignment id f = map λ a. if text_eq a.id id then f a else a

unfoldable pub bump_inbound : Text → List InboundMark → List InboundMark
bump_inbound id =
    map
      λ i. if text_eq i.id id then record i { revision = i.revision + 1; needs_apply = true } else i

unfoldable pub bump_user : Text → List UserMark → List UserMark
bump_user id =
    map
      λ u. if text_eq u.id id then record u { revision = u.revision + 1; needs_apply = true } else u

-- `bumpDesiredRevision`
unfoldable pub bump_desired : CoreEngine → List DesiredRevision → List DesiredRevision
bump_desired engine [] = record { engine = engine; revision = 1 } ∷ []
bump_desired engine (d ∷ ds) =
    if engine_eq d.engine engine
    then record d { revision = d.revision + 1 } ∷ ds
    else d ∷ bump_desired engine ds

abbrev pub bumped : InboundMark → Text → Text → Db → Db
bumped i inbound user db = record db {
  marks = record {
    users = bump_user user db.marks.users;
    inbounds = bump_inbound inbound db.marks.inbounds;
  };
  desired = bump_desired i.engine db.desired;
}

abbrev pub changed_row : Option InboundMark → Text → Text → Db → Result SyncError Db
changed_row none inbound user db = throw inbound_not_found
changed_row (some i) inbound user db =
    if any (λ u. text_eq u.id user) db.marks.users
    then ok (bumped i inbound user db)
    else throw user_not_found

-- `markAssignmentChanged`; an `update` of no row throws.
unfoldable pub mark_assignment_changed : Text → Text → Db → Result SyncError Db
mark_assignment_changed inbound user db =
    changed_row (inbound_row inbound db.marks.inbounds) inbound user db

module _ (user : Text) (now : ℕ) where
  abbrev pub disabled_row : Assignment → Assignment
  disabled_row a = record a { status = disabled; disabled_at = some now }

  abbrev pub is_superfluous : List Text → Assignment → Bool
  is_superfluous wanted a = not (mem a.inbound_id wanted) && is_active a

  -- The loop over the rows that exist.
  unfoldable pub disable_rest : List Text → List Assignment → Db → Result SyncError Db
  disable_rest wanted [] db = ok db
  disable_rest wanted (a ∷ more) db =
      if is_superfluous wanted a
      then (mark_assignment_changed a.inbound_id user
            (record db { assignments = update_assignment a.id disabled_row db.assignments })
          >>= λ after. disable_rest wanted more after)
      else disable_rest wanted more db

  module _ (credential : InboundMark → Result SyncError Text) (fresh_id : Text → Text) where
    abbrev pub enabled_row : Text → Assignment → Assignment
    enabled_row secret a = record a {
      status = active;
      credential = secret;
      credential_version = a.credential_version + 1;
      disabled_at = none;
      rotated_at = some now;
    }

    abbrev pub new_row : Text → Text → Assignment
    new_row inbound secret = record {
      id = fresh_id inbound;
      inbound_id = inbound;
      user_id = user;
      status = active;
      credential = secret;
      credential_version = 1;
      rotated_at = some now;
      disabled_at = none;
    }

    abbrev pub with_row : Text → Text → Option Assignment → List Assignment → List Assignment
    with_row inbound secret none rows = rows ++ new_row inbound secret ∷ []
    with_row inbound secret (some a) rows = update_assignment a.id (enabled_row secret) rows

    abbrev pub enable_in : Option InboundMark → Text → Option Assignment → Db → Result SyncError Db
    enable_in none inbound current db = throw inbound_not_found
    enable_in (some i) inbound current db = credential i >>= λ secret.
        mark_assignment_changed inbound user
          (record db { assignments = with_row inbound secret current db.assignments })

    abbrev pub is_current : Option Assignment → Bool
    is_current none = false
    is_current (some a) = is_active a

    -- One inbound of the plan.
    unfoldable pub enable_one : Text → Option Assignment → Db → Result SyncError Db
    enable_one inbound current db =
        if is_current current
        then ok db
        else enable_in (inbound_row inbound db.marks.inbounds) inbound current db

    -- The loop over the inbounds of the plan; the rows are those that were read at the start.
    unfoldable pub enable_wanted : List Text → List Assignment → Db → Result SyncError Db
    enable_wanted [] existing db = ok db
    enable_wanted (i ∷ is) existing db =
        enable_one i (row_for i existing) db >>= λ after. enable_wanted is existing after

    abbrev pub rows_of : List Assignment → List Assignment
    rows_of = filter (λ a. text_eq a.user_id user)

    -- `syncUserToInboundIds`
    unfoldable pub sync_user : List Text → Db → Result SyncError Db
    sync_user ids db = disable_rest (unique ids) (rows_of db.assignments) db >>= λ after.
        enable_wanted (unique ids) (rows_of db.assignments) after

pub record PlanMember : Type 0 where
  pub id : Text
  pub plan_id : Option Text
  pub deleted : Bool

pub record PlanInbound : Type 0 where
  pub plan_id : Text
  pub inbound_id : Text

-- `planInboundIds`, over rows in the order of their priority.
abbrev pub plan_inbound_ids : Text → List PlanInbound → List Text
plan_inbound_ids plan rows = map (λ r. r.inbound_id) (filter (λ r. text_eq r.plan_id plan) rows)

abbrev pub is_on_plan : Text → PlanMember → Bool
is_on_plan plan u = elim u.plan_id [ none ↦ false | some p ↦ text_eq p plan && not u.deleted ]

module _ (now : ℕ) (credential : Text → InboundMark → Result SyncError Text)
    (fresh_id : Text → Text → Text) where
  unfoldable pub sync_users : List PlanMember → List Text → Db → Result SyncError Db
  sync_users [] ids db = ok db
  sync_users (u ∷ us) ids db =
      sync_user u.id now (credential u.id) (fresh_id u.id) ids db >>= λ after.
      sync_users us ids after

  -- `syncAllUsersOnPlan`
  unfoldable pub sync_all_users_on_plan :
      Text → List PlanMember → List Text → Db → Result SyncError Db
  sync_all_users_on_plan plan members ids db = sync_users (filter (is_on_plan plan) members) ids db
