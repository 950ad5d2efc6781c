-- ===== src/Users/Tests.antt =====
-- Operations on users at concrete inputs.
use over_vpn.Base.{
  ℕ, suc, length, inl, inr, Bool, true, false, not, List, [], ◌∷◌, ◌++◌, any, Option, none, some,
  Text, codes, text_eq, Result, ok, throw, ◌≡◌, ◌↔◌, refl, pos, All,
}
use over_vpn.Schema.{UserStatus, UserStatusReason, no_reset, monthly, sing_box}
use over_vpn.CoreApply.{InboundMark}
use over_vpn.PlanSync.{SyncError, mem, unique}
use over_vpn.PlanSync.Enabled.{ActiveFor}
use over_vpn.Users.{
  Account, PlanStatus, Plan, Db, Failure, unique_constraint, name_clashes, inbounds_of,
}
use over_vpn.Users.Save.{UserLimits, CreateUser, UpdateUser, Draw, plan_in, create, update}
use over_vpn.Users.Bulk.{extend, set_plan, is_chosen, bulk_update, bulk}
use over_vpn.Users.Waiting.Done.{HasRisen, bulk_waits}
use over_vpn.CoreApply.Marks.Kept.{Member}
use over_vpn.Users.Status.{IsCoherent}
use over_vpn.Users.Operations.{
  Operation, create_user, update_user, remove_user, act, perform_all, perform_all-IsCoherent,
}
use over_vpn.Users.Assigned.{update_assigns}
use over_vpn.Users.Retries.{
  first_free, numbers_from, or_throw, has_free_token, created, create_takes_first_free,
}

abbrev bob : Account
bob = record {
  user = record {
    id = codes "u";
    username = codes "bob";
    status = UserStatus.limited;
    status_reason = some UserStatusReason.device;
    expire_at = some 86400000;
    data_limit_bytes = none;
    used_upload_bytes = pos 0;
    used_download_bytes = pos 0;
    accounting_epoch = pos 0;
    traffic_reset_at = none;
    reset_strategy = no_reset;
    next_reset_at = none;
    device_limit = some (pos 1);
    identity_limit_hold_until = some 500;
    needs_apply = false;
    revision = 1;
    disabled_at = none;
    deleted_at = none;
  };
  identity = codes "bob";
  note = none;
  tags = [];
  ip_limit = none;
  speed_limit_bps = none;
  sub_token = codes "t";
  plan_id = none;
}

abbrev gold : Plan
gold = record {
  id = codes "g";
  status = PlanStatus.active;
  default_data_limit_bytes = some (pos 10);
  default_expiry_days = some 30;
  default_device_limit = none;
  default_speed_limit_bps = none;
  default_reset_strategy = monthly;
}

abbrev db : Db
db = record {
  accounts = bob ∷ [];
  plans = gold ∷ [];
  plan_inbounds = record { plan_id = codes "g"; inbound_id = codes "a" } ∷ [];
  inbounds =
      record {
        id = codes "a";
        proxy_server_id = codes "p";
        engine = sing_box;
        revision = 1;
        needs_apply = false;
      }
      ∷ [];
  assignments = [];
  desired = [];
  pending = [];
}

abbrev no_limits : UserLimits
no_limits = record {
  expire_at = none;
  data_limit_bytes = none;
  reset_strategy = none;
  next_reset_at = none;
  device_limit = none;
  ip_limit = none;
  speed_limit_bps = none;
}

abbrev new_user : CreateUser
new_user = record {
  identity = none;
  username = codes "eve";
  status = UserStatus.active;
  status_reason = none;
  note = none;
  tags = [];
  plan_id = none;
  limits = no_limits;
}

abbrev to_gold : UpdateUser
to_gold = record {
  identity = none;
  username = none;
  status = none;
  status_reason = none;
  note = none;
  tags = none;
  plan_id = some (some (codes "g"));
  limits = no_limits;
}

-- The first two tokens are taken.
abbrev token_at : ℕ → Text
token_at (suc (suc n)) = codes "n"
token_at _ = codes "t"

abbrev draw : ℕ → Draw
draw n = record { id = codes "v"; token = token_at n; now = 1000 }

abbrev plain : Text → InboundMark → Result SyncError Text
plain user i = ok (codes "s")

abbrev fresh : Text → Text → Text
fresh user inbound = codes "r"

abbrev in_order : Account → Account → Bool
in_order a b = false

abbrev db_of : Result {0, 0} Failure Db → Db
db_of (ok after) = after
db_of (throw e) = db

abbrev count_of : Result {0, 0} Failure (ℕ × Db) → ℕ
count_of (ok (n, after)) = n
count_of (throw e) = 0

abbrev after_update : Db
after_update = db_of (update plain fresh (codes "u") to_gold 1000 db)

updates : update plain fresh (codes "u") to_gold 1000 db ≡ ok after_update
unfolding update over_vpn.Base.text_eq over_vpn.Users.assign over_vpn.PlanSync.sync_user
    over_vpn.PlanSync.disable_rest over_vpn.PlanSync.enable_wanted over_vpn.PlanSync.unique
    over_vpn.PlanSync.enable_one over_vpn.PlanSync.mark_assignment_changed
updates = refl

third_draw : first_free (has_free_token draw db) (numbers_from 5 0) ≡ some 2
unfolding over_vpn.Base.text_eq
third_draw = refl

extends_one :
    count_of
      (bulk plain fresh in_order (extend 3) (codes "u" ∷ codes "u" ∷ []) (λ n. 1000) (λ n u. []) db)
    ≡ 1
unfolding bulk over_vpn.Users.retry over_vpn.Users.Bulk.bulk_once over_vpn.PlanSync.unique
    over_vpn.Base.text_eq over_vpn.Users.Bulk.bulk_each
extends_one = refl

unnamed : any (name_clashes (codes "v") (codes "eve") (codes "eve")) db.accounts ≡ false
unfolding over_vpn.Base.text_eq
unnamed = refl

abbrev operations : List Operation
operations =
    create_user new_user draw
    ∷ update_user (codes "u") to_gold 1000
    ∷ act (extend 3) (codes "u" ∷ codes "v" ∷ []) (λ n. 2000) (λ n u. [])
    ∷ act (set_plan none) (codes "u" ∷ []) (λ n. 3000) (λ n u. [])
    ∷ remove_user (codes "u") 4000
    ∷ []

bob-IsCoherent : IsCoherent bob
bob-IsCoherent = ((refl, refl), λ live h. cc)

perform_all-IsCoherent_example :
    All IsCoherent (perform_all plain fresh in_order operations db).accounts
perform_all-IsCoherent_example =
    perform_all-IsCoherent plain fresh in_order operations db (bob-IsCoherent, tt)

update_assigns_example :
    (plan : Option Plan) × (plan_in (some (some (codes "g"))) db.plans ≡ ok plan)
    × (ActiveFor (codes "u") (codes "a") after_update.assignments
        ↔ (mem (codes "a") (inbounds_of plan db.plan_inbounds) ≡ true))
update_assigns_example =
    update_assigns plain fresh (codes "u") to_gold 1000 db after_update (some (codes "g"))
      (codes "a") refl (λ a b m n h. absurd m) (λ i c m. absurd m) updates

create_takes_first_free_example :
    create plain fresh new_user draw db
    ≡ or_throw unique_constraint
        (λ n. created new_user (draw n) db)
        (first_free (has_free_token draw db) (numbers_from 5 0))
create_takes_first_free_example =
    create_takes_first_free plain fresh new_user draw db refl (λ n. unnamed)

abbrev of_bulk : Result {0, 0} Failure (ℕ × Db) → ℕ × Db
of_bulk (ok done) = done
of_bulk (throw e) = (0, db)

abbrev bulk_result : Result {0, 0} Failure (ℕ × Db)
bulk_result =
    bulk plain fresh in_order (set_plan (some (codes "g"))) (codes "u" ∷ codes "u" ∷ []) (λ n. 1000)
      (λ n u. []) db

acts : bulk_result ≡ ok (of_bulk bulk_result)
unfolding bulk over_vpn.Users.retry over_vpn.Users.Bulk.bulk_once over_vpn.PlanSync.unique
    over_vpn.Base.text_eq over_vpn.Users.Bulk.bulk_each over_vpn.Users.assign
    over_vpn.PlanSync.sync_user over_vpn.PlanSync.disable_rest over_vpn.PlanSync.enable_wanted
    over_vpn.PlanSync.enable_one over_vpn.PlanSync.mark_assignment_changed
    over_vpn.Users.Bulk.bulk_update
acts = refl

picks_bob : is_chosen (codes "u" ∷ codes "u" ∷ []) bob ≡ true
unfolding over_vpn.Base.text_eq
picks_bob = refl

alone : (b : Account) → Member b db.accounts → text_eq b.user.id bob.user.id ≡ true → b ≡ bob
alone b (inl same) h = same
alone b (inr m) h = absurd m

bulk_waits_example :
    ((of_bulk bulk_result).0 ≡ length (unique (codes "u" ∷ codes "u" ∷ [])))
    × All (HasRisen bob) (of_bulk bulk_result).1.accounts
bulk_waits_example =
    bulk_waits plain fresh in_order (set_plan (some (codes "g"))) refl (codes "u" ∷ codes "u" ∷ [])
      bob (λ n. 1000) (λ n u. []) db (of_bulk bulk_result).1 (of_bulk bulk_result).0 (inl refl)
      picks_bob alone acts
