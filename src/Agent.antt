-- ===== src/Agent.antt =====
-- apps/agent/src/core/apply.ts and reload.ts: how the agent of a node installs the configuration of
-- a core. The world holds the files and, in the order of their use, the answers of the file system
-- and the acknowledgements that the reload sidecar writes. The platform's hash is a parameter, and
-- so are the paths, of which the candidate's is beside the configuration.
pub mod Install
pub mod Panel
pub mod Service
mod Tests
use over_vpn.Base.{
  ℕ, Bool, true, false, not, ◌&&◌, ◌||◌, List, [], ◌∷◌, ◌++◌, all, filter, Option, none, some, Text,
  text_eq, codes, get, put, length, leb, ◌==◌, if◌then◌else◌, Result, ok, throw,
}
use over_vpn.Schema.{CoreEngine, engine_name}

-- An operation may fail after its effect, as the sync of a directory does after a rename.
pub data IoAnswer : Type 0 where
  done failed_before failed_after : IoAnswer

pub data ApplyError : Type 0 where
  bad_hash io_error hash_mismatch rejected timed_out : ApplyError

-- What one reading of the acknowledgement file finds before the deadline.
pub data Reading : Type 0 where
  unreadable : Reading
  acknowledged : (id hash status : Text) → Reading

pub record Wait : Type 0 where
  pub request_id : Text
  pub readings : List Reading

pub record World : Type 0 where
  pub files : List (Text × Text)
  pub io : List IoAnswer
  pub waits : List Wait

abbrev pub Step : Type 0 → Type 0
Step A = Result ApplyError A × World

abbrev pub and_then : {A B : Type 0} → Step A → (A → World → Step B) → Step B
and_then (throw e, w) next = (throw e, w)
and_then (ok a, w) next = next a w

-- The next answer of the file system; where none is listed, all is well.
abbrev pub next_io : List IoAnswer → IoAnswer × List IoAnswer
next_io [] = (done, [])
next_io (a ∷ rest) = (a, rest)

abbrev pub answer : IoAnswer → List (Text × Text) → World → Step Unit
answer done files w = (ok tt, record w { files = files })
answer failed_before files w = (throw io_error, w)
answer failed_after files w = (throw io_error, record w { files = files })

-- An operation that leaves `files`.
abbrev pub effect : List (Text × Text) → World → Step Unit
effect files w = let (a, rest) = next_io w.io in answer a files (record w { io = rest })

abbrev pub atomic_write : Text → Text → World → Step Unit
atomic_write path content w = effect (put path content w.files) w

abbrev pub without : Text → List (Text × Text) → List (Text × Text)
without path = filter (λ (p, c). not (text_eq p path))

-- `replace`: a rename, which fails where the source is missing.
abbrev pub replace : Text → Text → World → Step Unit
replace source target w = elim (get source w.files) [
  | none ↦ (throw io_error, w)
  | some content ↦ effect (put target content (without source w.files)) w
]

abbrev pub remove : Text → World → Step Unit
remove path w = effect (without path w.files) w

-- `readOptional`: a missing file is `none`.
abbrev pub read_optional : Text → World → Step (Option Text)
read_optional path w =
    let (a, rest) = next_io w.io in
    elim a [
      | done ↦ (ok (get path w.files), record w { io = rest })
      | _ ↦ (throw io_error, record w { io = rest })
    ]

abbrev pub is_hex_digit : ℕ → Bool
is_hex_digit c = (leb 48 c && leb c 57) || (leb 97 c && leb c 102)

-- `/^[a-f0-9]{64}$/`.
abbrev pub is_hash : Text → Bool
is_hash t = (length t == 64) && all is_hex_digit t

-- The loop that waits for the acknowledgement.
unfoldable pub wait_for : Text → Text → List Reading → Result {0, 0} ApplyError Unit
wait_for id hash [] = throw timed_out
wait_for id hash (unreadable ∷ rest) = wait_for id hash rest
wait_for id hash (acknowledged i h status ∷ rest) =
    let later = wait_for id hash rest in
    if not (text_eq i id)
    then later
    else if not (text_eq h hash)
    then throw hash_mismatch
    else if not (text_eq status (codes "ok"))
    then throw rejected
    else ok tt

-- The next acknowledgements; where none are listed, the wait times out.
abbrev pub next_wait : List Wait → Wait × List Wait
next_wait [] = (record { request_id = []; readings = [] }, [])
next_wait (a ∷ rest) = (a, rest)

pub record EnginePaths : Type 0 where
  pub config_path : Text
  pub candidate_path : Text
  pub last_known_good_path : Text
  pub reload_request_path : Text

abbrev pub request_text : Text → Text → Text
request_text id hash = codes "id=" ++ id ++ 10 ∷ codes "hash=" ++ hash ++ 10 ∷ []

-- `requestSharedVolumeReload`.
unfoldable pub request_reload : EnginePaths → Text → World → Step Unit
request_reload paths hash w =
    if not (is_hash hash)
    then (throw bad_hash, w)
    else let (wait, rest) = next_wait w.waits in
      and_then
        (atomic_write paths.reload_request_path (request_text wait.request_id hash)
          (record w { waits = rest }))
        (λ _ v. (wait_for wait.request_id hash wait.readings, v))

abbrev pub is_filled : Text → Bool
is_filled [] = false
is_filled (c ∷ t) = true

module _ (sha256 : Text → Text) (skip_reload : Bool) (paths : EnginePaths) where
  -- `reloadEngine`.
  unfoldable pub reload_engine : Text → World → Step Unit
  reload_engine hash w = if skip_reload then (ok tt, w) else request_reload paths hash w

  -- `if (previous)` keeps the configuration that is in place.
  abbrev pub keep_previous : Option Text → World → Step Unit
  keep_previous none w = (ok tt, w)
  keep_previous (some previous) w =
      if is_filled previous then atomic_write paths.last_known_good_path previous w else (ok tt, w)

  -- The `try` block of `applyEngine`.
  unfoldable pub install : Text → Text → Option Text → World → Step Text
  install content hash previous w = and_then (atomic_write paths.candidate_path content w) λ _ w1.
      and_then (keep_previous previous w1) λ _ w2.
        and_then (replace paths.candidate_path paths.config_path w2)
          λ _ w3. and_then (reload_engine hash w3) λ _ w4. (ok hash, w4)

  -- The rollback, whose own failure is ignored.
  unfoldable pub roll_back : Option Text → World → World
  roll_back none w = w
  roll_back (some previous) w =
      if is_filled previous && is_filled (sha256 previous)
      then (and_then (atomic_write paths.config_path previous w)
          λ _ w1. reload_engine (sha256 previous) w1).1
      else w

  -- The `catch` block of `applyEngine`.
  unfoldable pub recover : Option Text → Step Text → Step Text
  recover previous (ok hash, w) = (ok hash, w)
  recover previous (throw e, w) = (throw e, (remove paths.candidate_path (roll_back previous w)).1)

  abbrev pub hash_of : Text → Option Text → Text
  hash_of content none = sha256 content
  hash_of content (some provided) = provided

  -- `applyEngine` on a serialized configuration.
  unfoldable pub apply_engine : Text → Option Text → World → Step Text
  apply_engine content provided w =
      if not (is_hash (hash_of content provided))
      then (throw bad_hash, w)
      else and_then (read_optional paths.config_path w)
          λ previous w1. recover previous (install content (hash_of content provided) previous w1)
