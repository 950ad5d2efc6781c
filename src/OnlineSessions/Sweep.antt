-- ===== src/OnlineSessions/Sweep.antt =====
-- apps/api/src/workers/online-session-sweeper.service.ts: stale sessions are closed, old ones deleted.
use mathlib.Core.Path.{subst}
use over_vpn.Base.{
  ℕ, ◌*◌, ◌-◌, Bool, true, false, not, ◌&&◌, ◌||◌, List, [], ◌∷◌, map, filter, length, Option, none,
  some, is_some, if◌then◌else◌, ltb, ◌≡◌, refl, arith, ap, ◌∙◌, Result, ok, throw,
}
use over_vpn.OnlineSessions.{SessionRow, SessionError, lock_lost}

pub record SweepSettings : Type 0 where
  pub timeout_ms : ℕ
  pub retention_days : ℕ

abbrev pub is_stale : ℕ → SessionRow → Bool
is_stale cutoff r = not (is_some r.disconnected_at) && ltb r.last_seen_at cutoff

unfoldable pub close_stale : ℕ → ℕ → List SessionRow → List SessionRow
close_stale cutoff now =
    map λ r. if is_stale cutoff r then record r { disconnected_at = some now } else r

abbrev pub disconnected_before : ℕ → Option ℕ → Bool
disconnected_before cutoff none = false
disconnected_before cutoff (some at) = ltb at cutoff

unfoldable pub delete_old : ℕ → List SessionRow → List SessionRow
delete_old cutoff = filter (λ r. not (disconnected_before cutoff r.disconnected_at))

pub record Swept : Type 0 where
  pub disconnected : ℕ
  pub pruned : ℕ

-- The transaction of the sweeper.
unfoldable pub sweep :
    SweepSettings → ℕ → Bool → List SessionRow → Result SessionError (Swept × List SessionRow)
sweep s now verified rows =
    let stale = now - s.timeout_ms in
    let closed = close_stale stale now rows in
    let kept = delete_old (now - s.retention_days * 86400000) closed in
    if verified
    then ok (
      record {
        disconnected = length (filter (is_stale stale) rows);
        pruned = length closed - length kept;
      },
      kept,
    )
    else throw lock_lost

pub data SweepResult : Type 0 where
  not_acquired : SweepResult
  healthy : Swept → SweepResult
  failed : SweepResult

pub record SweepAnswers : Type 0 where
  pub enabled : Bool
  pub lock_acquired : Bool
  pub owned_in_transaction : Bool
  pub owned_at_end : Bool

abbrev pub swept :
    Bool
    → List SessionRow
    → Result SessionError (Swept × List SessionRow)
    → SweepResult × List SessionRow
swept owned rows (throw e) = (failed, rows)
swept owned rows (ok (r, rows')) = (if owned then healthy r else failed, rows')

-- `runOnce` of the sweeper.
unfoldable pub sweep_once :
    SweepSettings → ℕ → SweepAnswers → List SessionRow → SweepResult × List SessionRow
sweep_once s now a rows =
    if not a.enabled || not a.lock_acquired
    then (not_acquired, rows)
    else swept a.owned_at_end rows (sweep s now a.owned_in_transaction rows)

none_stale :
    (cutoff now : ℕ) (rows : List SessionRow)
    → filter (is_stale cutoff) (close_stale cutoff now rows) ≡ []
unfolding close_stale
none_stale cutoff now [] = refl
none_stale cutoff now (r ∷ rs) = ground (arith, none_stale cutoff now rs)

-- Deletion forgets no row that it keeps.
filter-delete_old :
    (c d : ℕ) (rows : List SessionRow)
    → filter (is_stale c) rows ≡ []
    → filter (is_stale c) (delete_old d rows) ≡ []
unfolding delete_old
filter-delete_old c d [] h = refl
filter-delete_old c d (r ∷ rs) h = ground (arith, filter-delete_old c d rs)

close_stale-none :
    (c now : ℕ) (rows : List SessionRow)
    → filter (is_stale c) rows ≡ []
    → close_stale c now rows ≡ rows
unfolding close_stale
close_stale-none c now [] h = refl
close_stale-none c now (r ∷ rs) h = ground (arith, close_stale-none c now rs)

delete_old-again :
    (c : ℕ) (rows : List SessionRow) → delete_old c (delete_old c rows) ≡ delete_old c rows
unfolding delete_old
delete_old-again c [] = refl
delete_old-again c (r ∷ rs) = ground (arith, delete_old-again c rs)

abbrev swept_rows : ℕ → ℕ → List SessionRow → Swept × List SessionRow
swept_rows a b rows = (record { disconnected = a; pruned = b }, rows)

kept_rows :
    (s : SweepSettings) (now : ℕ) (rows rows' : List SessionRow) (r : Swept)
    → sweep s now true rows ≡ ok (r, rows')
    → delete_old (now - s.retention_days * 86400000) (close_stale (now - s.timeout_ms) now rows)
      ≡ rows'
unfolding sweep
kept_rows s now rows rows' r h = cc

swept_eq :
    (a b : ℕ) (xs ys : List SessionRow)
    → a ≡ 0
    → b ≡ 0
    → xs ≡ ys
    → swept_rows a b xs ≡ swept_rows 0 0 ys
swept_eq a b xs ys p q r = λ i. (record { disconnected = p i; pruned = q i }, r i)

-- A table without stale and old rows stays as it is.
sweep-still :
    (s : SweepSettings) (now : ℕ) (rows : List SessionRow)
    → filter (is_stale (now - s.timeout_ms)) rows ≡ []
    → delete_old (now - s.retention_days * 86400000) rows ≡ rows
    → sweep s now true rows ≡ ok (record { disconnected = 0; pruned = 0 }, rows)
unfolding sweep
sweep-still s now rows stale old =
    let closed = close_stale-none (now - s.timeout_ms) now rows stale in
    let kept = ap (delete_old (now - s.retention_days * 86400000)) closed ∙ old in
    ap (λ x. ok x)
      (swept_eq _ _ _ _ (ap length stale) (omega (arith, ap length closed, ap length kept)) kept)

-- After a sweep that returned no open session is older than the timeout, and a second sweep at the
-- same instant closes nothing, deletes nothing and leaves the table as it is.
pub sweep_twice :
    (s : SweepSettings) (now : ℕ) (rows rows' : List SessionRow) (r : Swept)
    → sweep s now true rows ≡ ok (r, rows')
    → (filter (is_stale (now - s.timeout_ms)) rows' ≡ [])
      × (sweep s now true rows' ≡ ok (record { disconnected = 0; pruned = 0 }, rows'))
sweep_twice s now rows rows' r h =
    let c = now - s.timeout_ms in
    let d = now - s.retention_days * 86400000 in
    let none_left = filter-delete_old c d (close_stale c now rows) (none_stale c now rows) in
    subst
      (λ x.
        (filter (is_stale c) x ≡ [])
        × (sweep s now true x ≡ ok (record { disconnected = 0; pruned = 0 }, x)))
      (kept_rows s now rows rows' r h)
      (none_left, sweep-still s now _ none_left (delete_old-again d (close_stale c now rows)))
