-- ===== src/Auth/Families.antt =====
-- The refresh tokens under all requests, in any order. The writes of a transaction take effect at once.
pub mod Counts
pub mod Keys
pub mod Alone
pub mod Safe
use over_vpn.Base.{
  ℕ, Bool, true, false, List, [], ◌∷◌, ◌++◌, Option, some, Text, text_eq, All, ◌≡◌, ◌≢◌, ◌⊎◌,
}
use over_vpn.Auth.{Admin, Store, Platform, Fresh, RefreshToken, RevocationReason, revoke}
use over_vpn.Auth.Login.{LoginRequest, open_session, log_out}
use over_vpn.Auth.Refresh.{refresh_current}
use over_vpn.Auth.Totp.{without_factor}

-- The store, and the tokens that transactions under way have read.
pub record System : Type 0 where
  pub store : Store
  pub readings : List RefreshToken

-- The id of a new token is none of the known ones, and the family of a login is new.
abbrev pub IsFreshId : Text → System → Type 0
IsFreshId id s = All (λ r. id ≢ r.id) s.store.tokens × All (λ r. id ≢ r.id) s.readings

abbrev pub IsFreshFamily : Text → System → Type 0
IsFreshFamily family s = All (λ r. family ≢ r.family_id) s.store.tokens

abbrev pub Member : RefreshToken → List RefreshToken → Type 0
Member r [] = ⊥
Member r (s ∷ rest) = (r ≡ s) ⊎ Member r rest

module _ (p : Platform) where
  -- The transactions that write tokens, in any order, each at any instant; a rotation works on a token
  -- that it has read at any earlier time.
  pub data Step : System → System → Type 0 where
    log_in :
        (s : System) (input : LoginRequest) (fresh : Fresh) (now : ℕ) (a : Admin)
        → IsFreshId fresh.token_id s
        → IsFreshFamily fresh.family_id s
        → Step s (record s { store = (open_session p input fresh now a s.store).1 })
    read :
        (s : System) (r : RefreshToken)
        → Member r s.store.tokens
        → Step s (record s { readings = r ∷ s.readings })
    rotate_read :
        (s : System) (fresh : Fresh) (now : ℕ) (current : RefreshToken) (a : Admin)
        → IsFreshId fresh.token_id s
        → Member current s.readings
        → Step s (record s { store = (refresh_current p fresh now current a s.store).1 })
    end_session :
        (s : System) (admin_id : Text) (token : Option Text) (now : ℕ)
        → Step s (record s { store = log_out p admin_id token now s.store })
    end_all :
        (s : System) (a : Admin) (now : ℕ)
        → Step s (record s { store = without_factor p a now s.store })

  pub data Reachable : System → Type 0 where
    start : (s : Store) → s.tokens ≡ [] → Reachable (record { store = s; readings = [] })
    next : (s t : System) → Reachable s → Step s t → Reachable t
