-- ===== src/Tests/Callers.antt =====
-- The middleware on a user verifier with two app verifiers, and on one write key.
use omni_model.Prelude.{
  String, List, ◌≡◌, refl, ◌⊎◌, true, false, Option, none, some, [], ◌∷◌, if◌then◌else◌, ◌==◌,
}
use omni_model.Prelude.Dict.{Dict}
use omni_model.Prelude.Result.{ok}
use omni_model.Server.PublicPath.{
  is_public_path, matches_pattern, ends_with_star, starts_with, drop_last,
}
use omni_model.Server.KeyShape.{
  presented_secret, after_scheme, is_letter, not_blank, looks_like_write_key, char_count,
  all_key_chars, is_key_char, after_prefix,
}
use omni_model.Server.Auth.{
  Identity, accepted, rejected, AuthVerifier, any_app, AuthBundle, authenticate, merge_identities,
  attest, attest_any, any_round, user_entry,
}
use omni_model.Server.Auth.Layers.{Answer, authenticate_exact}
use omni_model.Server.Clients.{
  identify, presented, check_header, check_secret, check_key, check_state, look_up,
}
use omni_model.Server.Clients.Validation.{Justified, identify-Justified}
use omni_model.Util.Duration.{trim, is_space, is_digit}
use omni_model.Server.Lifecycle.Tracking.{
  Server, Event, arrives, settles, shuts_down, drains, run, IsTracking, run-IsTracking,
}
use omni_model.WriteKeys.{WriteKey, write_key_state}

abbrev person : Identity String
person = record {
  provider = "jwt";
  providers = none;
  user_id = some "ann";
  device_id = none;
  claims = [];
}

abbrev device : Identity String
device = record {
  provider = "app-check";
  providers = none;
  user_id = none;
  device_id = some "d";
  claims = [];
}

abbrev by_token : AuthVerifier String String
by_token = record {
  type = "jwt";
  name = "users";
  verify = λ r. if r == "" then none else some (accepted person);
}

abbrev refuses : AuthVerifier String String
refuses = record {
  type = "recaptcha";
  name = "web";
  verify = λ r. some (rejected "low score" none);
}

abbrev attests : AuthVerifier String String
attests = record { type = "app-check"; name = "ios"; verify = λ r. some (accepted device) }

abbrev bundle : AuthBundle String String
bundle = record {
  public_paths = "/v1/open/*" ∷ [];
  user_verifier = by_token;
  app_verifiers = refuses ∷ attests ∷ [];
  app_auth_mode = any_app;
}

abbrev object : Dict String → String
object claims = "{}"

-- The second app verifier lets the request in.
lets_in :
    authenticate object bundle "/v1/chat" "token"
    ≡ ok (
        some (
          merge_identities object
            (record { verifier = by_token; identity = person })
            (record { verifier = attests; identity = device } ∷ [])))
unfolding authenticate is_public_path matches_pattern ends_with_star starts_with drop_last attest
    attest_any any_round user_entry
lets_in = refl

authenticate_exact_example :
    ((is_public_path "/v1/chat" bundle.public_paths ≡ true)
      × (authenticate object bundle "/v1/chat" "token" ≡ ok none))
    ⊎ ((is_public_path "/v1/chat" bundle.public_paths ≡ false)
        × Answer "token" object bundle (authenticate object bundle "/v1/chat" "token"))
authenticate_exact_example = authenticate_exact object bundle "/v1/chat" "token"

abbrev app_key : WriteKey
app_key = record {
  id = "1";
  name = "app";
  prefix = "omk_";
  last4 = "wxyz";
  allowed_models = none;
  capture_content = none;
  metadata = "{}";
  created_by = none;
  created_at = 0;
  expires_at = some 9000;
  disabled_at = none;
}

abbrev header : Option String
header = some "bearer  omk_abcdefghijklmnopqrstuvwxyz"

abbrev store : Option (String → Option WriteKey)
store = some (λ secret. if secret == "omk_abcdefghijklmnopqrstuvwxyz" then some app_key else none)

knows_key : identify store true [] 8000 "/v1/chat" header ≡ ok (some app_key)
unfolding identify presented check_header check_secret check_key check_state look_up
    presented_secret after_scheme is_letter not_blank looks_like_write_key char_count all_key_chars
    is_key_char after_prefix starts_with trim is_space is_digit write_key_state is_public_path
knows_key = refl

identify-Justified_example :
    ((is_public_path "/v1/chat" [] ≡ true)
      × (identify store true [] 8000 "/v1/chat" header ≡ ok none))
    ⊎ ((is_public_path "/v1/chat" [] ≡ false)
        × Justified store true 8000
            (presented header)
            (identify store true [] 8000 "/v1/chat" header))
identify-Justified_example = identify-Justified store true [] 8000 "/v1/chat" header

abbrev fresh_server : Server
fresh_server = record {
  tracker = record { in_flight = 0; shutting_down = false; idle = [] };
  settled = [];
}

-- Two requests, a shutdown that waits, and a request that settles twice.
abbrev traffic : List Event
traffic =
    arrives ∷ arrives ∷ shuts_down ∷ drains 1 ∷ settles 0 ∷ settles 0 ∷ arrives ∷ settles 1 ∷ []

run-IsTracking_example :
    IsTracking (run traffic fresh_server).tracker (run traffic fresh_server).settled 0
run-IsTracking_example =
    run-IsTracking traffic fresh_server (record { counted = refl; resolved = λ h. refl })
