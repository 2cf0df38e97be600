-- ===== src/Server/Clients/Validation.antt =====
-- What passes, and that a key that is presented is always checked.
use omni_model.Prelude.{
  ℕ, String, List, ◌≡◌, refl, ◌⊎◌, inl, inr, Bool, true, false, Option, none, some, if◌then◌else◌,
  Bool-cases,
}
use omni_model.Prelude.Result.{Result, ok, err}
use omni_model.Errors.{OmniError, unauthorized, omni_error}
use omni_model.Server.PublicPath.{is_public_path}
use omni_model.Server.KeyShape.{presented_secret, looks_like_write_key}
use omni_model.WriteKeys.{WriteKey, WriteKeyState, active, revoked, expired, write_key_state}
use omni_model.Server.Clients.{
  key_error, unless_required, presented, check_state, check_key, look_up, check_secret,
  check_header, identify,
}

module _ (store : Option (String → Option WriteKey)) (required : Bool) (now : ℕ) where
  -- The header presents a secret of the right shape that the store knows as an active key.
  pub record IsValid (value : String) (key : WriteKey) : Type 0 where
    pub known : String → Option WriteKey
    pub configured : store ≡ some known
    pub secret : String
    pub sent : presented_secret value ≡ some secret
    pub shaped : looks_like_write_key secret ≡ true
    pub found : known secret ≡ some key
    pub state : write_key_state key now ≡ active

  -- What lets a request pass with a key, or with none.
  abbrev pub Passes : Option String → Option WriteKey → Type 0
  Passes none none = required ≡ false
  Passes none (some key) = ⊥
  Passes (some value) none =
      (required ≡ false)
      × (store ≡ none)
      × ((secret : String) × (presented_secret value ≡ some secret))
  Passes (some value) (some key) = IsValid value key

  -- A result is a key that passes, or an error with the status 401.
  abbrev pub Justified : Option String → Result OmniError (Option WriteKey) → Type 0
  Justified header (ok out) = Passes header out
  Justified header (err e) = e.status ≡ 401

  check_state-Justified :
      (value : String) (key : WriteKey) (state : WriteKeyState)
      → (state ≡ active → IsValid value key)
      → Justified (some value) (check_state key state)
  unfolding check_state key_error unauthorized omni_error
  check_state-Justified value key active h = h refl
  check_state-Justified value key revoked h = refl
  check_state-Justified value key expired h = refl

  check_key-Justified :
      (value : String) (o : Option WriteKey)
      → ((key : WriteKey) → o ≡ some key → write_key_state key now ≡ active → IsValid value key)
      → Justified (some value) (check_key now o)
  unfolding check_key key_error unauthorized omni_error
  check_key-Justified value none h = refl
  check_key-Justified value (some key) h =
      check_state-Justified value key (write_key_state key now) (h key refl)

  look_up-some :
      (known : String → Option WriteKey) (secret : String) (key : WriteKey)
      → look_up known secret ≡ some key
      → (looks_like_write_key secret ≡ true) × (known secret ≡ some key)
  unfolding look_up
  look_up-some known secret key h = shaped (looks_like_write_key secret) refl h
    where
      shaped :
          (b : Bool)
          → looks_like_write_key secret ≡ b
          → (if b then known secret else none) ≡ some key
          → (looks_like_write_key secret ≡ true) × (known secret ≡ some key)
      shaped true yes_shaped h = (yes_shaped, h)
      shaped false no_shape h = cc

  check_secret-Justified :
      (value : String) (o : Option String) (s : Option (String → Option WriteKey))
      → presented_secret value ≡ o
      → store ≡ s
      → (b : Bool) → required ≡ b
      → Justified (some value) (check_secret s b now o)
  unfolding check_secret unless_required key_error unauthorized omni_error
  check_secret-Justified value none s sent same b needed = refl
  check_secret-Justified value (some secret) none sent same true needed = refl
  check_secret-Justified value (some secret) none sent same false needed =
      (needed, same, (secret, sent))
  check_secret-Justified value (some secret) (some known) sent same b needed =
      check_key-Justified value (look_up known secret) (λ key found state.
        let (shaped, stored) = look_up-some known secret key found in
        record {
          known = known;
          configured = same;
          secret = secret;
          sent = sent;
          shaped = shaped;
          found = stored;
          state = state;
        })

  check_header-Justified :
      (header : Option String) (b : Bool)
      → required ≡ b
      → Justified header (check_header store b now header)
  unfolding check_header unless_required key_error unauthorized omni_error
  check_header-Justified none true needed = refl
  check_header-Justified none false needed = needed
  check_header-Justified (some value) b needed =
      check_secret-Justified value (presented_secret value) store refl refl b needed

-- Away from the public paths, a request passes with a write key only when its header presents a
-- secret of the right shape that the store knows as an active key, and without one only when keys
-- are not required and either nothing is presented or no store is configured; any other request is
-- answered with a 401. A public path passes without a key.
pub identify-Justified :
    (store : Option (String → Option WriteKey)) (required : Bool) (public_paths : List String)
    (now : ℕ) (path : String) (header : Option String)
    → ((is_public_path path public_paths ≡ true)
        × (identify store required public_paths now path header ≡ ok none))
      ⊎ ((is_public_path path public_paths ≡ false)
          × Justified store required now
              (presented header)
              (identify store required public_paths now path header))
unfolding identify
identify-Justified store required public_paths now path header =
    elim (Bool-cases (is_public_path path public_paths)) [
      | inl public ↦ inl (public, rw public)
      | inr guarded ↦ inr (
        guarded,
        rw guarded (check_header-Justified store required now (presented header) required refl),
      )
    ]
