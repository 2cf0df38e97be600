-- ===== src/WriteKeys.antt =====
-- packages/core/src/writekeys: the keys of the applications that call the proxy.
pub mod Memory
pub mod Cached
use omni_model.Prelude.{
  ℕ, String, Bool, true, false, ◌||◌, Option, none, some, List, ◌==◌, if◌then◌else◌, leb, any,
  or_else, is_some,
}

pub record WriteKey : Type 0 where
  pub id : String
  pub name : String
  pub prefix : String
  pub last4 : String
  pub allowed_models : Option (List String)
  pub capture_content : Option Bool
  -- JSON text
  pub metadata : String
  pub created_by : Option String
  pub created_at : ℕ
  pub expires_at : Option ℕ
  pub disabled_at : Option ℕ

pub record CreateWriteKeyInput : Type 0 where
  pub name : String
  pub allowed_models : Option (List String)
  pub capture_content : Option Bool
  pub metadata : Option String
  pub created_by : Option String
  pub expires_at : Option ℕ

pub data WriteKeyState : Type 0 where
  active revoked expired : WriteKeyState

unfoldable pub write_key_state : WriteKey → ℕ → WriteKeyState
write_key_state key now =
    if is_some key.disabled_at
    then revoked
    else elim key.expires_at [ none ↦ active | some end ↦ if leb end now then expired else active ]

unfoldable pub should_capture_content : Option WriteKey → Bool → Bool
should_capture_content none global_default = global_default
should_capture_content (some key) global_default = or_else key.capture_content global_default

unfoldable pub write_key_allows_model : WriteKey → String → Bool
write_key_allows_model key model = elim key.allowed_models [
  | none ↦ true
  | some models ↦ any (λ m. m == model) models
]
