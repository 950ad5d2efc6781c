-- ===== src/Agent/Install.antt =====
-- The configuration file of a core after an installation.
use over_vpn.Base.{
  Bool, true, List, [], ◌∷◌, Option, none, some, Text, text_eq_iff, get, put, get-put, Result, ok,
  throw, ◌≡◌, ◌≢◌, ◌⊎◌, inl, inr, refl, arith, Bool-cases, ◌∙◌,
}
use over_vpn.Agent.{
  ApplyError, World, and_then, without, replace, is_hash, EnginePaths, request_reload, is_filled,
  reload_engine, keep_previous, install, roll_back, recover, hash_of, apply_engine, next_wait,
  wait_for, request_text, Wait, bad_hash,
}

get-without :
    (p q : Text) (files : List (Text × Text)) → q ≢ p → get p (without q files) ≡ get p files
unfolding get
get-without p q [] d = refl
get-without p q ((r, c) ∷ files) d =
    ground (arith, get-without p q files d, text_eq_iff r q, text_eq_iff r p)

get-put_other :
    (p q c : Text) (files : List (Text × Text)) → q ≢ p → get p (put q c files) ≡ get p files
get-put_other p q c files d = ground (arith, get-put q p c files, text_eq_iff q p)

get-put_same : (p c : Text) (files : List (Text × Text)) → get p (put p c files) ≡ some c
get-put_same p c files = ground (arith, get-put p p c files, text_eq_iff p p)

-- The other files of an engine are not its configuration.
pub record AreApart (paths : EnginePaths) : Type 0 where
  pub candidate : paths.candidate_path ≢ paths.config_path
  pub last_known_good : paths.last_known_good_path ≢ paths.config_path
  pub reload_request : paths.reload_request_path ≢ paths.config_path
  pub kept_apart : paths.last_known_good_path ≢ paths.candidate_path

-- A world whose file system answers every operation well.
abbrev pub calm : List (Text × Text) → List Wait → World
calm files waits = record { files = files; io = []; waits = waits }

module _ (sha256 : Text → Text) (skip_reload : Bool) (paths : EnginePaths)
    (apart : AreApart paths) where
  -- A reload leaves the configuration as it is.
  reload_calm :
      (hash : Text) (files : List (Text × Text)) (waits : List Wait)
      → (result : Result {0, 0} ApplyError Unit) × (files' : List (Text × Text)) × (waits' : List
          Wait)
        × (reload_engine sha256 skip_reload paths hash (calm files waits)
            ≡ (result, calm files' waits'))
        × (get paths.config_path files' ≡ get paths.config_path files)
  unfolding reload_engine request_reload
  reload_calm hash files waits = elim (Bool-cases skip_reload) [
    | inl skip ↦ (ok tt, files, waits, rw skip refl, refl)
    | inr run ↦ elim (Bool-cases (is_hash hash)) [
      | inl valid ↦
          let wait = (next_wait waits).0 in
          (
            wait_for wait.request_id hash wait.readings,
            put paths.reload_request_path (request_text wait.request_id hash) files,
            (next_wait waits).1,
            rw (run, valid) refl,
            get-put_other paths.config_path paths.reload_request_path _ files apart.reload_request,
          )
      | inr bad ↦ (throw bad_hash, files, waits, rw (run, bad) refl, refl)
    ]
  ]

  keep_calm :
      (previous : Option Text) (files : List (Text × Text)) (waits : List Wait)
      → (files' : List (Text × Text)) × (keep_previous sha256 skip_reload paths previous
            (calm files waits)
          ≡ (ok tt, calm files' waits))
        × (get paths.candidate_path files' ≡ get paths.candidate_path files)
  keep_calm none files waits = (files, refl, refl)
  keep_calm (some previous) files waits = elim (Bool-cases (is_filled previous)) [
    | inl filled ↦ (
      put paths.last_known_good_path previous files,
      rw filled refl,
      get-put_other paths.candidate_path paths.last_known_good_path previous files apart.kept_apart,
    )
    | inr empty ↦ (files, rw empty refl, refl)
  ]

  replace-calm :
      (content : Text) (files : List (Text × Text)) (waits : List Wait)
      → get paths.candidate_path files ≡ some content
      → (files' : List (Text × Text)) × (replace paths.candidate_path paths.config_path
            (calm files waits)
          ≡ (ok tt, calm files' waits))
        × (get paths.config_path files' ≡ some content)
  unfolding get put
  replace-calm content files waits there = (
    put paths.config_path content (without paths.candidate_path files),
    rw there refl,
    get-put_same paths.config_path content (without paths.candidate_path files),
  )

  -- An installation ends with the reload of the new configuration.
  install-calm :
      (content hash : Text) (previous : Option Text) (files : List (Text × Text))
      (waits : List Wait)
      → (result : Result {0, 0} ApplyError Unit) × (files' : List (Text × Text)) × (waits' : List
          Wait)
        × (install sha256 skip_reload paths content hash previous (calm files waits)
            ≡ and_then (result, calm files' waits') (λ _ w. (ok hash, w)))
        × (get paths.config_path files' ≡ some content)
  unfolding install
  install-calm content hash previous files waits =
      let (f1, kept, same) = keep_calm previous (put paths.candidate_path content files) waits in
      let there = same ∙ get-put_same paths.candidate_path content files in
      let (f2, replaced, config) = replace-calm content f1 waits there in
      let (result, f3, w3, reloaded, unchanged) = reload_calm hash f2 waits in
      (result, f3, w3, rw (kept, replaced, reloaded) refl, unchanged ∙ config)

  -- The rollback puts the previous configuration back.
  roll_back-calm :
      (previous : Text) (files : List (Text × Text)) (waits : List Wait)
      → is_filled previous ≡ true
      → is_filled (sha256 previous) ≡ true
      → (files' : List (Text × Text)) × (waits' : List Wait) × (roll_back sha256 skip_reload paths
            (some previous)
            (calm files waits)
          ≡ calm files' waits')
        × (get paths.config_path files' ≡ some previous)
  unfolding roll_back
  roll_back-calm previous files waits filled hashed =
      let (result, f1, w1, reloaded, unchanged) =
        reload_calm (sha256 previous) (put paths.config_path previous files) waits in
      (
        f1,
        w1,
        rw (filled, hashed, reloaded) refl,
        unchanged ∙ get-put_same paths.config_path previous files,
      )

  finish_calm :
      (hash content previous : Text) (result : Result {0, 0} ApplyError Unit)
      (files : List (Text × Text)) (waits : List Wait)
      → is_filled previous ≡ true
      → is_filled (sha256 previous) ≡ true
      → get paths.config_path files ≡ some content
      → let (r, w) =
          recover sha256 skip_reload paths
            (some previous)
            (and_then (result, calm files waits) (λ _ w. (ok hash, w))) in
        ((r ≡ ok hash) × (get paths.config_path w.files ≡ some content))
        ⊎ ((e : ApplyError) × (r ≡ throw e) × (get paths.config_path w.files ≡ some previous))
  unfolding recover
  finish_calm hash content previous (ok tt) files waits filled hashed there = inl (refl, there)
  finish_calm hash content previous (throw e) files waits filled hashed there =
      let (f1, w1, rolled, config) = roll_back-calm previous files waits filled hashed in
      inr (
        e,
        refl,
        rw rolled (get-without paths.config_path paths.candidate_path f1 apart.candidate ∙ config),
      )

  -- Where the paths of an engine are apart, the file system answers well, and a previous
  -- configuration and its hash are not empty, an installation returns its hash with the new
  -- configuration in place, or throws with the previous configuration in place.
  pub apply_engine_atomic :
      (content previous : Text) (provided : Option Text) (files : List (Text × Text))
      (waits : List Wait)
      → get paths.config_path files ≡ some previous
      → is_filled previous ≡ true
      → is_filled (sha256 previous) ≡ true
      → let (r, w) = apply_engine sha256 skip_reload paths content provided (calm files waits) in
        ((r ≡ ok (hash_of sha256 skip_reload paths content provided))
          × (get paths.config_path w.files ≡ some content))
        ⊎ ((e : ApplyError) × (r ≡ throw e) × (get paths.config_path w.files ≡ some previous))
  unfolding apply_engine
  apply_engine_atomic content previous provided files waits there filled hashed =
      let hash = hash_of sha256 skip_reload paths content provided in
      let (result, f1, w1, ran, config) = install-calm content hash (some previous) files waits in
      elim (Bool-cases (is_hash hash)) [
        | inl valid ↦
            rw (valid, there, ran)
              (finish_calm hash content previous result f1 w1 filled hashed config)
        | inr bad ↦ rw bad (inr (bad_hash, refl, there))
      ]
