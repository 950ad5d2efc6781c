-- ===== src/CoreApply/Completed.antt =====
-- However an application ends, its record does not stay in the middle.
use mathlib.Core.Path.{subst}
use over_vpn.Base.{
  ℕ, Bool, true, false, not, ◌||◌, List, [], ◌∷◌, map, Option, none, some, Text, codes, text_eq,
  text_eq_iff, if◌then◌else◌, All, ◌≡◌, refl, arith, Bool-cases, inl, inr, Result, ok, throw, ◌>>=◌,
}
use over_vpn.Schema.{CoreEngine}
use over_vpn.Enforcer.Run.{
  ApplyStatus, pending, applying, succeeded, partial_succeeded, failed, rolled_back,
}
use over_vpn.CoreApply.{
  MarkTables, EngineOutcome, ApplyRecord, Db, is_status, update_record, fail_record, begun,
}
use over_vpn.CoreApply.Verdict.{aggregate_apply_status}
use over_vpn.CoreApply.Engine.{EngineAnswers, apply_engines}
use over_vpn.CoreApply.Local.{commit, conclude, status_of, locked, apply_local}
use over_vpn.CoreApply.Remote.{
  ProxyServer, Push, DesiredEngine, after_push, pushed, apply_via_agent, token_of,
  build_agent_desired, with_token,
}
use over_vpn.CoreApply.System.{
  Call, Summary, apply, apply_to, local_call, agent_call, summary_of, find_record, has_url,
  or_default, summarized,
}

abbrev pub is_final : ApplyStatus → Bool
is_final pending = false
is_final applying = false
is_final succeeded = true
is_final partial_succeeded = true
is_final failed = true
is_final rolled_back = true

-- The record of an application has an end, with its instant.
abbrev pub IsCompleted : Text → ℕ → ApplyRecord → Type 0
IsCompleted id now r = r.id ≡ id → (is_final r.status ≡ true) × (r.completed_at ≡ some now)

abbrev pub AllCompleted : Text → ℕ → Db → Type 0
AllCompleted id now db = All (IsCompleted id now) db.records

differ : (b : Bool) → b ≡ false → b ≡ true → ⊥
differ b e f = cc

updated_row :
    (id : Text) (now : ℕ) (r r' : ApplyRecord) (b : Bool)
    → text_eq r.id id ≡ b
    → (is_final r'.status ≡ true) × (r'.completed_at ≡ some now)
    → IsCompleted id now (if b then r' else r)
updated_row id now r r' true e h = λ _. h
updated_row id now r r' false e h =
    λ same. absurd (differ (text_eq r.id id) e ((text_eq_iff r.id id).1 same))

AllCompleted-update_record :
    (id : Text) (now : ℕ) (f : ApplyRecord → ApplyRecord) (rs : List ApplyRecord)
    → ((r : ApplyRecord) → (is_final (f r).status ≡ true) × ((f r).completed_at ≡ some now))
    → All (IsCompleted id now) (update_record id f rs)
unfolding update_record
AllCompleted-update_record id now f [] h = tt
AllCompleted-update_record id now f (r ∷ rs) h = (
  updated_row id now r (f r) (text_eq r.id id) refl (h r),
  AllCompleted-update_record id now f rs h,
)

AllCompleted-fail_record :
    (id message : Text) (now : ℕ) (db : Db) → AllCompleted id now (fail_record id message now db)
AllCompleted-fail_record id message now db =
    AllCompleted-update_record id now _ db.records (λ r. (refl, refl))

aggregate-final : (statuses : List ApplyStatus) → is_final (aggregate_apply_status statuses) ≡ true
unfolding aggregate_apply_status
aggregate-final statuses = ground arith

AllCompleted-if :
    (id : Text) (now : ℕ) (b : Bool) (x y : Db)
    → AllCompleted id now x
    → AllCompleted id now y
    → AllCompleted id now (if b then x else y)
AllCompleted-if id now true x y p q = p
AllCompleted-if id now false x y p q = q

abbrev success : Summary × Db → Result Text (Summary × Db)
success x = ok x

returned : (x y : Summary × Db) → success x ≡ success y → x ≡ y
returned x y e = cc

module _ (sha256 : Text → Text) (text_after : Text → Text → Bool) (paths : CoreEngine → Text) where
  AllCompleted-conclude :
      (proxy : Option Text) (id : Text) (os : List EngineOutcome) (started now : ℕ) (db : Db)
      → AllCompleted id now (conclude sha256 text_after proxy id os started now db)
  unfolding conclude commit
  AllCompleted-conclude proxy id os started now db =
      let final = aggregate-final (map (λ o. o.status) os) in
      AllCompleted-if id now
        (is_status failed (status_of sha256 text_after os)
          || is_status rolled_back (status_of sha256 text_after os))
        _ _ (AllCompleted-update_record id now _ _ (λ r. (final, refl)))
        (AllCompleted-update_record id now _ _ (λ r. (final, refl)))

  AllCompleted-locked :
      (proxy : Option Text) (id : Text) (started now : ℕ) (owned : Bool)
      (r : Result Text (List EngineOutcome)) (db : Db)
      → AllCompleted id now (locked sha256 text_after proxy id started now owned r db)
  AllCompleted-locked proxy id started now owned (throw message) db =
      AllCompleted-fail_record id message now db
  AllCompleted-locked proxy id started now true (ok os) db =
      AllCompleted-conclude proxy id os started now db
  AllCompleted-locked proxy id started now false (ok os) db =
      AllCompleted-fail_record id _ now (conclude sha256 text_after proxy id os started now db)

  AllCompleted-apply_local :
      (proxy : Option Text) (id : Text) (started now : ℕ) (acquired owned : Bool)
      (meanwhile : MarkTables → MarkTables) (engines : List (CoreEngine × EngineAnswers)) (db : Db)
      → AllCompleted id now (
          apply_local sha256 text_after paths proxy id started now acquired owned meanwhile engines
            db)
  unfolding apply_local
  AllCompleted-apply_local proxy id started now true owned meanwhile engines db =
      AllCompleted-locked proxy id started now owned (apply_engines paths engines) _
  AllCompleted-apply_local proxy id started now false owned meanwhile engines db =
      AllCompleted-fail_record id _ now (begun proxy id started meanwhile db)

  push-final : (b : Bool) → is_final (if b then succeeded else failed) ≡ true
  push-final true = refl
  push-final false = refl

  AllCompleted-pushed :
      (proxy id : Text) (now : ℕ) (r : Result Text (List DesiredEngine × Push)) (db : Db)
      → AllCompleted id now (pushed sha256 text_after paths proxy id now r db)
  unfolding after_push
  AllCompleted-pushed proxy id now (throw message) db = AllCompleted-fail_record id message now db
  AllCompleted-pushed proxy id now (ok (es, push)) db =
      AllCompleted-update_record id now _ _ (λ r. (push-final push.succeeds, refl))

  find_record-final :
      (id : Text) (now : ℕ) (rs : List ApplyRecord)
      → All (IsCompleted id now) rs
      → is_final (summary_of id (find_record id rs)).status ≡ true
  find_record-final id now [] h = refl
  find_record-final id now (r ∷ rs) (c, h) = elim (Bool-cases (text_eq r.id id)) [
    | inl same ↦ rw same ((c ((text_eq_iff r.id id).0 same)).0)
    | inr other ↦ rw other (find_record-final id now rs h)
  ]

  -- An application that returns.
  abbrev pub Ends : Call → Summary × Db → Type 0
  Ends c x = (is_final x.0.status ≡ true) × AllCompleted c.record_id c.completed x.1

  Ends-summarized :
      (c : Call) (db : Db)
      → AllCompleted c.record_id c.completed db
      → Ends c (summary_of c.record_id (find_record c.record_id db.records), db)
  Ends-summarized c db h = (find_record-final c.record_id c.completed db.records h, h)

  Ends-local_call :
      (proxy : Option Text) (c : Call) (db : Db) (x : Summary × Db)
      → local_call sha256 text_after paths proxy c db ≡ ok x
      → Ends c x
  Ends-local_call proxy c db x e = subst (Ends c) (returned _ x e) (
      Ends-summarized c
        (apply_local sha256 text_after paths proxy c.record_id c.started c.completed c.lock_acquired
          c.owned_at_end c.meanwhile c.engines db)
        (AllCompleted-apply_local proxy c.record_id c.started c.completed c.lock_acquired
          c.owned_at_end c.meanwhile c.engines db))

  Ends-with_token :
      (token : Option Text) (c : Call) (db : Db) (x : Summary × Db)
      → AllCompleted c.record_id c.completed db
      → (with_token sha256 text_after paths token db >>= λ after. ok (summarized c.record_id after))
        ≡ ok x
      → Ends c x
  Ends-with_token none c db x h e = cc
  Ends-with_token (some t) c db x h e = subst (Ends c) (returned _ x e) (Ends-summarized c db h)

  Ends-agent_call :
      (proxy : ProxyServer) (c : Call) (db : Db) (x : Summary × Db)
      → agent_call sha256 text_after paths proxy c db ≡ ok x
      → Ends c x
  unfolding apply_via_agent
  Ends-agent_call proxy c db x e =
      Ends-with_token (token_of sha256 text_after paths proxy.node_token) c _ x
        (AllCompleted-pushed proxy.id c.record_id c.completed
          (build_agent_desired proxy c.loads >>= λ es. c.push >>= λ answer. ok (es, answer)) _)
        e

  Ends-apply_to :
      (proxy : Option Text) (found : Option ProxyServer) (c : Call) (db : Db) (x : Summary × Db)
      → apply_to sha256 text_after paths proxy found c db ≡ ok x
      → Ends c x
  Ends-apply_to none found c db x e = Ends-local_call none c db x e
  Ends-apply_to (some id) none c db x e = cc
  Ends-apply_to (some id) (some proxy) c db x e = elim (Bool-cases (has_url proxy.agent_base_url)) [
    | inl remote ↦ Ends-agent_call proxy c db x (rw remote at e)
    | inr here ↦ Ends-local_call (some id) c db x (rw here at e)
  ]

  Ends-checked :
      (proxy : Option Text) (c : Call) (db : Db) (x : Summary × Db) (b : Bool)
      → (if not b
          then throw (codes "support integrity")
          else apply_to sha256 text_after paths proxy c.found c db)
        ≡ ok x
      → Ends c x
  Ends-checked proxy c db x true e = Ends-apply_to proxy c.found c db x e
  Ends-checked proxy c db x false e = cc

  -- However an application that returns went, on this host or through an agent, with or without
  -- the lock, its summary has a final status, and each record with its id has a final status and
  -- the instant of its end.
  pub apply_completes :
      (default proxy : Option Text) (c : Call) (db after : Db) (s : Summary)
      → apply sha256 text_after paths default proxy c db ≡ ok (s, after)
      → (is_final s.status ≡ true) × AllCompleted c.record_id c.completed after
  unfolding apply
  apply_completes default proxy c db after s e =
      Ends-checked (or_default proxy default) c db (s, after) c.intact e
