-- ===== src/CoreApply/Verdict.antt =====
-- What an application makes of the outcomes of its engines: one status, error, rollback and hash.
use over_vpn.Base.{
  ℕ, Bool, false, not, ◌||◌, List, [], ◌∷◌, ◌++◌, map, filter, any, all, length, Option, none, some,
  is_some, Text, codes, text_eq, if◌then◌else◌, ltb, ◌==◌, sort,
}
use over_vpn.Schema.{CoreEngine, engine_name}
use over_vpn.Enforcer.Run.{ApplyStatus, succeeded, partial_succeeded, failed, rolled_back}
use over_vpn.CoreApply.{is_status}

abbrev pub count_of : ApplyStatus → List ApplyStatus → ℕ
count_of s l = length (filter (is_status s) l)

-- `aggregateApplyStatus`
unfoldable pub aggregate_apply_status : List ApplyStatus → ApplyStatus
aggregate_apply_status statuses =
    if length statuses == 0
    then failed
    else if count_of succeeded statuses == length statuses
    then succeeded
    else if ltb 0 (count_of succeeded statuses)
    then partial_succeeded
    else if count_of rolled_back statuses == length statuses
    then rolled_back
    else failed

abbrev pub errors_of : List (Option Text) → List Text
errors_of [] = []
errors_of (none ∷ es) = errors_of es
errors_of (some [] ∷ es) = errors_of es
errors_of (some (c ∷ t) ∷ es) = (c ∷ t) ∷ errors_of es

-- `join`
abbrev pub joined : Text → Text → List Text → Text
joined separator t [] = t
joined separator t (u ∷ us) = t ++ separator ++ joined separator u us

-- `errors.join('; ')`, or null.
abbrev pub join_errors : List Text → Option Text
join_errors [] = none
join_errors (e ∷ es) = some (joined (codes "; ") e es)

-- `aggregateError`
unfoldable pub aggregate_error : List (Option Text) → Option Text
aggregate_error errors = join_errors (errors_of errors)

abbrev pub is_text : Text → Option Text → Bool
is_text t none = false
is_text t (some u) = text_eq u t

abbrev pub is_idle : Option Text → Bool
is_idle o = not (is_some o) || is_text (codes "NOT_REQUIRED") o

abbrev pub first_text : List Text → Option Text
first_text [] = none
first_text (t ∷ ts) = some t

-- `aggregateRollback`
unfoldable pub aggregate_rollback : List (Option Text) → Option Text
aggregate_rollback outcomes =
    if all is_idle outcomes
    then some (codes "NOT_REQUIRED")
    else if any (is_text (codes "FAILED")) outcomes
    then some (codes "FAILED")
    else if any (is_text (codes "SUCCEEDED")) outcomes
    then some (codes "SUCCEEDED")
    else first_text (errors_of outcomes)

module _ (sha256 : Text → Text) (text_after : Text → Text → Bool) where
  abbrev pub hash_line : CoreEngine × Option Text → Text
  hash_line (e, none) = engine_name e ++ codes "=null"
  hash_line (e, some h) = engine_name e ++ b'=' ∷ h

  abbrev pub lines_text : List Text → Text
  lines_text [] = 10 ∷ []
  lines_text (l ∷ ls) = joined (10 ∷ []) l ls ++ 10 ∷ []

  -- `compositeHash`, with the platform's hash and its collation of texts.
  unfoldable pub composite_hash : List (CoreEngine × Option Text) → Text
  composite_hash entries = sha256 (lines_text (sort text_after (map hash_line entries)))
