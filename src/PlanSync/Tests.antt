-- ===== src/PlanSync/Tests.antt =====
-- The synchronisation of assignments at concrete inputs.
use mathlib.Core.Path.{subst}
use over_vpn.Base.{
  ℕ, Bool, true, false, [], ◌∷◌, ◌++◌, none, some, Text, codes, text_eq, Result, ok, ◌≡◌, ◌↔◌, inl,
  inr, refl, sym,
}
use over_vpn.Schema.{sing_box}
use over_vpn.CoreApply.{InboundMark}
use over_vpn.CoreApply.Marks.Kept.{Member}
use over_vpn.PlanSync.{Assignment, Db, SyncError, active, disabled, mem, sync_user}
use over_vpn.PlanSync.Enabled.{ActiveFor}
use over_vpn.PlanSync.Aligned.{sync_user_iff}

abbrev inbound : Text → ℕ → Bool → InboundMark
inbound id revision waits = record {
  id = id;
  proxy_server_id = codes "p";
  engine = sing_box;
  revision = revision;
  needs_apply = waits;
}

abbrev old_row : Assignment
old_row = record {
  id = codes "1";
  inbound_id = codes "a";
  user_id = codes "u";
  status = active;
  credential = codes "s";
  credential_version = 1;
  rotated_at = none;
  disabled_at = none;
}

abbrev new_row : Assignment
new_row = record {
  id = codes "nb";
  inbound_id = codes "b";
  user_id = codes "u";
  status = active;
  credential = codes "c";
  credential_version = 1;
  rotated_at = some 7;
  disabled_at = none;
}

abbrev db : Db
db = record {
  assignments = old_row ∷ [];
  marks = record {
    users = record { id = codes "u"; revision = 1; needs_apply = false } ∷ [];
    inbounds = inbound (codes "a") 1 false ∷ inbound (codes "b") 1 false ∷ [];
  };
  desired = [];
}

abbrev after : Db
after = record {
  assignments = record old_row { status = disabled; disabled_at = some 7 } ∷ new_row ∷ [];
  marks = record {
    users = record { id = codes "u"; revision = 3; needs_apply = true } ∷ [];
    inbounds = inbound (codes "a") 2 true ∷ inbound (codes "b") 2 true ∷ [];
  };
  desired = record { engine = sing_box; revision = 2 } ∷ [];
}

abbrev secret : InboundMark → Result SyncError Text
secret i = ok (codes "c")

abbrev fresh : Text → Text
fresh i = codes "n" ++ i

syncs : sync_user (codes "u") 7 secret fresh (codes "b" ∷ codes "b" ∷ []) db ≡ ok after
unfolding sync_user over_vpn.PlanSync.disable_rest text_eq over_vpn.PlanSync.unique
    over_vpn.PlanSync.mark_assignment_changed over_vpn.PlanSync.enable_wanted
    over_vpn.PlanSync.enable_one over_vpn.PlanSync.bump_inbound over_vpn.PlanSync.bump_user
    over_vpn.PlanSync.update_assignment over_vpn.PlanSync.bump_desired
syncs = refl

keyed : (a b : Assignment) → Member a db.assignments → Member b db.assignments → a ≡ b
keyed a b (inl e) (inl f) = cc
keyed a b (inl e) (inr m) = elim m [ ]
keyed a b (inr m) n = elim m [ ]

unused : (i : Text) (c : Assignment) → Member c db.assignments → text_eq (fresh i) c.id ≡ false
unfolding text_eq
unused i c (inl e) = subst (λ x. text_eq (fresh i) x.id ≡ false) (sym e) refl
unused i c (inr m) = elim m [ ]

sync_user_iff_example :
    ActiveFor (codes "u") (codes "b") after.assignments
    ↔ (mem (codes "b") (codes "b" ∷ codes "b" ∷ []) ≡ true)
sync_user_iff_example =
    sync_user_iff (codes "u") 7 secret fresh (codes "b" ∷ codes "b" ∷ []) db after (codes "b") syncs
      (λ a b m n h. keyed a b m n) unused
