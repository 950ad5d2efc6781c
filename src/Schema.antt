-- ===== src/Schema.antt =====
-- apps/api/prisma/schema.prisma and packages/shared/src/constants.ts: the enumerations, and the
-- rows that the workers read and write. A date is its number of milliseconds since 1970.
mod Counts
unfoldable pub use Counts.{add_bytes}
pub use Counts.{
  Bytes, no_bytes, add_bytes_assoc, add_bytes_comm, add_bytes_right_comm, add_bytes_zero,
  zero_add_bytes, bytes_eq,
}
use over_vpn.Base.{ℕ, Bool, true, false, Option, Text, ℤ, codes, ◌≡◌, arith}

pub data UserStatus : Type 0 where
  active disabled expired limited : UserStatus

pub data UserStatusReason : Type 0 where
  manual expired quota device ip : UserStatusReason

pub data ResetStrategy : Type 0 where
  no_reset daily monthly yearly : ResetStrategy

pub data CoreEngine : Type 0 where
  sing_box xray mtproxy amneziawg : CoreEngine

-- The engine's name in a map key.
abbrev pub engine_name : CoreEngine → Text
engine_name sing_box = codes "SING_BOX"
engine_name xray = codes "XRAY"
engine_name mtproxy = codes "MTPROXY"
engine_name amneziawg = codes "AMNEZIAWG"

pub record User : Type 0 where
  pub id : Text
  pub username : Text
  pub status : UserStatus
  pub status_reason : Option UserStatusReason
  pub expire_at : Option ℕ
  pub data_limit_bytes : Option ℤ
  pub used_upload_bytes : ℤ
  pub used_download_bytes : ℤ
  pub accounting_epoch : ℤ
  pub traffic_reset_at : Option ℕ
  pub reset_strategy : ResetStrategy
  pub next_reset_at : Option ℕ
  pub device_limit : Option ℤ
  pub identity_limit_hold_until : Option ℕ
  pub needs_apply : Bool
  pub revision : ℕ
  pub disabled_at : Option ℕ
  pub deleted_at : Option ℕ
