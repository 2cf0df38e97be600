-- ===== src/Server/Facts/Redacted.antt =====
-- Credentials in headers do not reach the expressions.
use omni_model.Prelude.{
  String, Option, none, some, List, [], ◌∷◌, ◌≡◌, refl, ◌==◌, eq_iff, Bool-cases, inl, inr,
  if◌then◌else◌,
}
use omni_model.Prelude.Dict.{Dict, get, set, get-set}
use omni_model.Server.Facts.{
  is_redacted_header, redact, add_headers, RequestFactsInput, build_request_facts,
}

module _ (to_lower_case : String → String) where
  -- The last value that came under a name, whatever the letters' case.
  abbrev pub last_value : String → List (String × String) → Option String → Option String
  last_value name [] last = last
  last_value name ((key, value) ∷ rest) last =
      last_value name rest (if to_lower_case key == name then some value else last)

  abbrev pub redacted : String → Option String → Option String
  redacted name none = none
  redacted name (some value) = some (if is_redacted_header name then "<redacted>" else value)

  get-set-redacted :
      (name low value : String) (before : Dict String) (last : Option String)
      → get name before ≡ redacted name last
      → get name (set low (redact to_lower_case low value) before)
        ≡ redacted name (if low == name then some value else last)
  unfolding redact
  get-set-redacted name low value before last h = elim (Bool-cases (low == name)) [
    | inl same ↦
        rw (get-set low name (redact to_lower_case low value) before)
          (rw same (rw ((eq_iff low name).0 same)))
    | inr other ↦ rw (get-set low name (redact to_lower_case low value) before) (rw other h)
  ]

  get-add_headers :
      (name : String) (headers : List (String × String)) (before : Dict String)
      (last : Option String)
      → get name before ≡ redacted name last
      → get name (add_headers to_lower_case headers before)
        ≡ redacted name (last_value name headers last)
  unfolding add_headers redact
  get-add_headers name [] before last h = h
  get-add_headers name ((key, value) ∷ rest) before last h =
      let low = to_lower_case key in
      get-add_headers name rest (set low (redact to_lower_case low value) before)
        (if low == name then some value else last) (get-set-redacted name low value before last h)

  -- The expressions see each header under its lower-case name with the last value that came, or with
  -- `<redacted>` in its place if the name is that of a credential; they see no other header.
  pub get-build_request_facts :
      {C : Type 0} (claims_text : Dict C → String) (input : RequestFactsInput C) (name : String)
      → get name (build_request_facts to_lower_case claims_text input).http_headers
        ≡ redacted name (last_value name input.headers none)
  unfolding build_request_facts get
  get-build_request_facts claims_text input name = get-add_headers name input.headers [] none refl
