-- ===== src/CoreApply/Unmarked.antt =====
-- Which rows no longer wait after a push to an agent, and after an application of the system.
use mathlib.Core.Path.{subst}
use over_vpn.Base.{
  ℕ, ◌≤◌, Bool, true, false, ◌&&◌, List, [], ◌∷◌, map, length, all, Option, Text, text_eq,
  if◌then◌else◌, All, ◌≡◌, ◌⊎◌, refl, arith, ap, ◌∙◌, sym, inl, inr, Result, ok,
}
use over_vpn.Schema.{CoreEngine}
use over_vpn.Enforcer.Run.{ApplyStatus, succeeded}
use over_vpn.CoreApply.{UserMark, InboundMark, Db, is_status, engine_eq}
use over_vpn.CoreApply.Verdict.{count_of}
use over_vpn.CoreApply.Remote.{
  DesiredEngine, Push, unmark_engine, write_pushed, max_revision, after_push,
}
use over_vpn.CoreApply.System.{
  Call, Summary, apply_each, aggregate_status, aggregate_summaries, unmark_users, is_succeeded,
  settled, settle, apply_system,
}
use over_vpn.CoreApply.Marks.Kept.{Member}

-- No inbound of the node in this engine waits.
abbrev pub IsUnmarked : Text → CoreEngine → List InboundMark → Type 0
IsUnmarked proxy engine = All (λ i.
    text_eq i.proxy_server_id proxy && engine_eq i.engine engine ≡ true → i.needs_apply ≡ false)

IsUnmarked-unmark_engine :
    (proxy : Text) (engine : CoreEngine) (is : List InboundMark)
    → IsUnmarked proxy engine (unmark_engine proxy engine is)
unfolding unmark_engine
IsUnmarked-unmark_engine proxy engine [] = tt
IsUnmarked-unmark_engine proxy engine (i ∷ is) =
    ((λ e. ground arith), IsUnmarked-unmark_engine proxy engine is)

-- The unmarking of another engine keeps what does not wait.
IsUnmarked-other :
    (proxy other : Text) (engine f : CoreEngine) (is : List InboundMark)
    → IsUnmarked proxy engine is
    → IsUnmarked proxy engine (unmark_engine other f is)
unfolding unmark_engine
IsUnmarked-other proxy other engine f [] h = tt
IsUnmarked-other proxy other engine f (i ∷ is) (d, h) =
    ((λ e. ground (arith, d)), IsUnmarked-other proxy other engine f is h)

abbrev success : Summary × Db → Result Text (Summary × Db)
success x = ok x

returned : (x y : Summary × Db) → success x ≡ success y → x ≡ y
returned x y e = cc

module _ (sha256 : Text → Text) (text_after : Text → Text → Bool) (paths : CoreEngine → Text) where
  write_pushed-IsUnmarked :
      (proxy id : Text) (n now : ℕ) (engine : CoreEngine) (es : List DesiredEngine) (db : Db)
      → IsUnmarked proxy engine db.marks.inbounds ⊎ Member engine (map (λ e. e.engine) es)
      → IsUnmarked proxy engine (write_pushed paths proxy id n now es db).marks.inbounds
  unfolding write_pushed
  write_pushed-IsUnmarked proxy id n now engine [] db (inl h) = h
  write_pushed-IsUnmarked proxy id n now engine [] db (inr m) = elim m [ ]
  write_pushed-IsUnmarked proxy id n now engine (e ∷ es) db (inl h) =
      write_pushed-IsUnmarked proxy id n now engine es _
        (inl (IsUnmarked-other proxy proxy engine e.engine db.marks.inbounds h))
  write_pushed-IsUnmarked proxy id n now engine (e ∷ es) db (inr (inl same)) =
      write_pushed-IsUnmarked proxy id n now engine es _ (
        inl (
          subst (λ x. IsUnmarked proxy engine (unmark_engine proxy x db.marks.inbounds)) same
            (IsUnmarked-unmark_engine proxy engine db.marks.inbounds)))
  write_pushed-IsUnmarked proxy id n now engine (e ∷ es) db (inr (inr m)) =
      write_pushed-IsUnmarked proxy id n now engine es _ (inr m)

  -- After a push to an agent that succeeded, no inbound of the node in a pushed engine waits,
  -- whatever its revision is.
  pub after_push-unmarks :
      (proxy id : Text) (now : ℕ) (engine : CoreEngine) (es : List DesiredEngine) (push : Push)
      (db : Db)
      → push.succeeds ≡ true
      → Member engine (map (λ e. e.engine) es)
      → IsUnmarked proxy engine
          (after_push sha256 text_after paths proxy id now es push db).marks.inbounds
  unfolding after_push
  after_push-unmarks proxy id now engine es push db good m =
      subst
        (λ b.
          IsUnmarked proxy engine
            (if b
              then write_pushed paths proxy id (max_revision es) now es db
              else db).marks.inbounds)
        (sym good) (write_pushed-IsUnmarked proxy id (max_revision es) now engine es db (inr m))

  none_waits :
      (us : List UserMark)
      → All (λ u. u.needs_apply ≡ false) (unmark_users sha256 text_after paths us)
  unfolding unmark_users
  none_waits [] = tt
  none_waits (u ∷ us) = (ground arith, none_waits us)

  counted_le : (ss : List ApplyStatus) → count_of succeeded ss ≤ length ss
  counted_le [] = omega arith
  counted_le (s ∷ ss) = ground (arith, counted_le ss)

  all_counted :
      (ss : List Summary)
      → count_of succeeded (map (λ x. x.status) ss) ≡ length (map (λ x. x.status) ss)
      → all (is_succeeded sha256 text_after paths) ss ≡ true
  all_counted [] e = refl
  all_counted (s ∷ ss) e = ground (arith, counted_le (map (λ x. x.status) ss), all_counted ss)

  aggregate_status-succeeded :
      (statuses : List ApplyStatus)
      → is_status succeeded (aggregate_status sha256 text_after paths statuses) ≡ true
      → count_of succeeded statuses ≡ length statuses
  unfolding aggregate_status
  aggregate_status-succeeded statuses e = ground arith

  aggregate_summaries-succeeded :
      (first : Summary) (more : List Summary)
      → is_status succeeded (aggregate_summaries sha256 text_after paths first more).status ≡ true
      → all (is_succeeded sha256 text_after paths) (first ∷ more) ≡ true
  unfolding aggregate_summaries
  aggregate_summaries-succeeded first [] e = rw e refl
  aggregate_summaries-succeeded first (s ∷ ss) e =
      all_counted (first ∷ s ∷ ss)
        (aggregate_status-succeeded (map (λ x. x.status) (first ∷ s ∷ ss)) e)

  settle-unmarks :
      (x : List Summary × Db) (s : Summary) (after : Db)
      → settle sha256 text_after paths x ≡ ok (s, after)
      → is_status succeeded s.status ≡ true
      → All (λ u. u.needs_apply ≡ false) after.marks.users
  settle-unmarks ([], db) s after e h = cc
  settle-unmarks (first ∷ more, db) s after e h =
      let same = returned (settled sha256 text_after paths first more db) (s, after) e in
      let good =
        aggregate_summaries-succeeded first more
          (ap (λ y. is_status succeeded y.0.status) same ∙ h) in
      subst (λ y. All (λ u. u.needs_apply ≡ false) y.1.marks.users) same
        (subst
          (λ b.
            All (λ u. u.needs_apply ≡ false)
              (if b
                then record db {
                  marks = record db.marks {
                    users = unmark_users sha256 text_after paths db.marks.users;
                  };
                }
                else db).marks.users)
          (sym good) (none_waits db.marks.users))

  -- When an application to one proxy server or more is summed up as succeeded, no user waits,
  -- whatever their revision is.
  pub apply_system-unmarks :
      (default : Option Text) (alone : Call) (c : Text × Call) (cs : List (Text × Call))
      (db after : Db) (s : Summary)
      → apply_system sha256 text_after paths default alone (c ∷ cs) db ≡ ok (s, after)
      → is_status succeeded s.status ≡ true
      → All (λ u. u.needs_apply ≡ false) after.marks.users
  unfolding apply_system
  apply_system-unmarks default alone c cs db after s e h =
      settle-unmarks (apply_each sha256 text_after paths default (c ∷ cs) db) s after e h
