-- ===== src/Server/Auth/Layers.antt =====
-- Who gets past the two layers.
use omni_model.Prelude.{
  ℕ, String, ◌≡◌, refl, sym, ap, ◌∙◌, subst, ◌⊎◌, inl, inr, Bool, true, false, Option, none, some,
  List, [], ◌∷◌, ◌++◌, All, Bool-cases,
}
use omni_model.Prelude.Dict.{Dict}
use omni_model.Prelude.Result.{Result, ok, err, ◌>>=◌}
use omni_model.Errors.{OmniError}
use omni_model.Server.PublicPath.{is_public_path}
use omni_model.Server.Auth.{
  Identity, AuthResult, accepted, rejected, AuthVerifier, AppAuthMode, any_app, all_apps,
  AuthBundle, Acceptance, merge_identities, any_round, attest_any, all_round, attest_all, attest,
  user_entry, authenticate,
}

module _ {R C : Type 0} (r : R) where
  -- The verifier accepted the request, with the identity.
  abbrev pub Accepts : AuthVerifier R C → Acceptance R C → Type 0
  Accepts v e = (v.verify r ≡ some (accepted e.identity)) × (e.verifier ≡ v)

  abbrev pub is_accepted : Option (AuthResult C) → Bool
  is_accepted none = false
  is_accepted (some (rejected reason status)) = false
  is_accepted (some (accepted identity)) = true

  -- Every verifier accepted, in order.
  abbrev pub AllAccept : List (AuthVerifier R C) → List (Acceptance R C) → Type 0
  AllAccept [] [] = Unit
  AllAccept (v ∷ vs) (e ∷ es) = Accepts v e × AllAccept vs es
  AllAccept vs es = ⊥

  -- One verifier accepted, and none before it.
  pub record FirstAccepts (vs : List (AuthVerifier R C)) (es : List (Acceptance R C)) : Type 0 where
    pub before : List (AuthVerifier R C)
    pub chosen : AuthVerifier R C
    pub after : List (AuthVerifier R C)
    pub listed : vs ≡ before ++ chosen ∷ after
    pub entry : Acceptance R C
    pub only : es ≡ entry ∷ []
    pub accepts : Accepts chosen entry
    pub passed : All (λ v. is_accepted (v.verify r) ≡ false) before

  -- What the second layer asks for.
  abbrev pub Attested : AppAuthMode → List (AuthVerifier R C) → List (Acceptance R C) → Type 0
  Attested mode [] es = es ≡ []
  Attested any_app (v ∷ vs) es = FirstAccepts (v ∷ vs) es
  Attested all_apps (v ∷ vs) es = AllAccept (v ∷ vs) es

  -- A result that is right about who is let in.
  abbrev pub Decides :
      (List (Acceptance R C) → Type 0) → Result OmniError (List (Acceptance R C)) → Type 0
  Decides Lets (ok es) = Lets es
  Decides Lets (err e) = (es : List (Acceptance R C)) → Lets es → ⊥

  all_round-Decides :
      (v : AuthVerifier R C) (vs : List (AuthVerifier R C)) (o : Option (AuthResult C))
      (rest : Result OmniError (List (Acceptance R C)))
      → v.verify r ≡ o
      → Decides (AllAccept vs) rest
      → Decides (AllAccept (v ∷ vs)) (all_round v o rest)
  unfolding all_round
  all_round-Decides v vs none rest h d = no_credential
    where
      no_credential : (es : List (Acceptance R C)) → AllAccept (v ∷ vs) es → ⊥
      no_credential [] a = a
      no_credential (e ∷ es) ((yes_accepts, same), a) = cc
  all_round-Decides v vs (some (rejected reason status)) rest h d = refused
    where
      refused : (es : List (Acceptance R C)) → AllAccept (v ∷ vs) es → ⊥
      refused [] a = a
      refused (e ∷ es) ((yes_accepts, same), a) = cc
  all_round-Decides v vs (some (accepted identity)) (ok es) h d = ((h, refl), d)
  all_round-Decides v vs (some (accepted identity)) (err x) h d = later
    where
      later : (es : List (Acceptance R C)) → AllAccept (v ∷ vs) es → ⊥
      later [] a = a
      later (e ∷ es) (a, as_) = d es as_

  attest_all-Decides : (vs : List (AuthVerifier R C)) → Decides (AllAccept vs) (attest_all r vs)
  unfolding attest_all
  attest_all-Decides [] = tt
  attest_all-Decides (v ∷ vs) = all_round-Decides v vs (v.verify r) _ refl (attest_all-Decides vs)

  FirstAccepts-skip :
      (v : AuthVerifier R C) (vs : List (AuthVerifier R C)) (es : List (Acceptance R C))
      → is_accepted (v.verify r) ≡ false
      → FirstAccepts vs es
      → FirstAccepts (v ∷ vs) es
  FirstAccepts-skip v vs es passed f = record {
    before = v ∷ f.before;
    chosen = f.chosen;
    after = f.after;
    listed = ap (λ xs. v ∷ xs) f.listed;
    entry = f.entry;
    only = f.only;
    accepts = f.accepts;
    passed = (passed, f.passed);
  }

  -- If nobody accepts, nobody accepts first.
  nobody-first :
      (vs before after : List (AuthVerifier R C)) (chosen : AuthVerifier R C) (e : Acceptance R C)
      → All (λ v. is_accepted (v.verify r) ≡ false) (before ++ chosen ∷ after)
      → Accepts chosen e
      → ⊥
  nobody-first vs [] after chosen e (no_one, rest) (yes_accepts, same) =
      cc (sym (ap is_accepted yes_accepts) ∙ no_one)
  nobody-first vs (b ∷ before) after chosen e (no_one, rest) a =
      nobody-first vs before after chosen e rest a

  -- What `any` mode gives from any point of its loop.
  abbrev AnyOutcome : List (AuthVerifier R C) → Result OmniError (List (Acceptance R C)) → Type 0
  AnyOutcome vs (ok es) = FirstAccepts vs es
  AnyOutcome vs (err x) = All (λ v. is_accepted (v.verify r) ≡ false) vs

  AnyOutcome-skip :
      (v : AuthVerifier R C) (vs : List (AuthVerifier R C))
      (out : Result OmniError (List (Acceptance R C)))
      → is_accepted (v.verify r) ≡ false
      → AnyOutcome vs out
      → AnyOutcome (v ∷ vs) out
  AnyOutcome-skip v vs (ok es) passed f = FirstAccepts-skip v vs es passed f
  AnyOutcome-skip v vs (err x) passed f = (passed, f)

  any_round-AnyOutcome :
      (v : AuthVerifier R C) (vs : List (AuthVerifier R C)) (o : Option (AuthResult C))
      (failure : Option (String × Option ℕ))
      → v.verify r ≡ o
      → ((later : Option (String × Option ℕ)) → AnyOutcome vs (attest_any r vs later))
      → AnyOutcome (v ∷ vs) (any_round v o failure (attest_any r vs))
  unfolding any_round
  any_round-AnyOutcome v vs none failure h rest =
      AnyOutcome-skip v vs _ (ap is_accepted h) (rest failure)
  any_round-AnyOutcome v vs (some (rejected reason status)) failure h rest =
      AnyOutcome-skip v vs _ (ap is_accepted h) (rest _)
  any_round-AnyOutcome v vs (some (accepted identity)) failure h rest = record {
    before = [];
    chosen = v;
    after = vs;
    listed = refl;
    entry = record { verifier = v; identity = identity };
    only = refl;
    accepts = (h, refl);
    passed = tt;
  }

  attest_any-AnyOutcome :
      (vs : List (AuthVerifier R C)) (failure : Option (String × Option ℕ))
      → AnyOutcome vs (attest_any r vs failure)
  unfolding attest_any
  attest_any-AnyOutcome [] failure = tt
  attest_any-AnyOutcome (v ∷ vs) failure =
      any_round-AnyOutcome v vs (v.verify r) failure refl (attest_any-AnyOutcome vs)

  AnyOutcome-Decides :
      (v : AuthVerifier R C) (vs : List (AuthVerifier R C))
      (out : Result OmniError (List (Acceptance R C)))
      → AnyOutcome (v ∷ vs) out
      → Decides (FirstAccepts (v ∷ vs)) out
  AnyOutcome-Decides v vs (ok es) f = f
  AnyOutcome-Decides v vs (err x) free = λ es f.
      nobody-first (v ∷ vs) f.before f.after f.chosen f.entry
        (subst (All (λ w. is_accepted (w.verify r) ≡ false)) f.listed free) f.accepts

  attest-Decides :
      (mode : AppAuthMode) (vs : List (AuthVerifier R C))
      → Decides (Attested mode vs) (attest mode r vs)
  unfolding attest
  attest-Decides mode [] = refl
  attest-Decides any_app (v ∷ vs) = AnyOutcome-Decides v vs _ (attest_any-AnyOutcome (v ∷ vs) none)
  attest-Decides all_apps (v ∷ vs) = attest_all-Decides (v ∷ vs)

  -- Both layers accepted, with these entries.
  abbrev pub Admitted : AuthBundle R C → Acceptance R C → List (Acceptance R C) → Type 0
  Admitted bundle user apps =
      Accepts bundle.user_verifier user × Attested bundle.app_auth_mode bundle.app_verifiers apps

  abbrev pub Answer :
      (Dict C → C) → AuthBundle R C → Result OmniError (Option (Identity C)) → Type 0
  Answer object bundle out =
      ((user : Acceptance R C) × (apps : List (Acceptance R C)) × Admitted bundle user apps
        × (out ≡ ok (some (merge_identities object user apps))))
      ⊎ ((e : OmniError) × (out ≡ err e)
          × ((user : Acceptance R C) (apps : List (Acceptance R C))
              → Admitted bundle user apps
              → ⊥))

  Attested-Answer :
      (object : Dict C → C) (bundle : AuthBundle R C) (user : Acceptance R C)
      (out : Result OmniError (List (Acceptance R C)))
      → Accepts bundle.user_verifier user
      → Decides (Attested bundle.app_auth_mode bundle.app_verifiers) out
      → Answer object bundle (out >>= λ apps. ok (some (merge_identities object user apps)))
  Attested-Answer object bundle user (ok apps) h d = inl (user, apps, (h, d), refl)
  Attested-Answer object bundle user (err e) h d =
      inr (e, refl, λ user apps (_, attested). d apps attested)

  layers-Answer :
      (object : Dict C → C) (bundle : AuthBundle R C) (o : Option (AuthResult C))
      → bundle.user_verifier.verify r ≡ o
      → Answer object bundle (
          user_entry bundle.user_verifier o >>= λ user.
          attest bundle.app_auth_mode r bundle.app_verifiers >>= λ apps.
          ok (some (merge_identities object user apps)))
  unfolding user_entry
  layers-Answer object bundle none h = inr (_, refl, λ user apps ((accepts, same), attested). cc)
  layers-Answer object bundle (some (rejected reason status)) h =
      inr (_, refl, λ user apps ((accepts, same), attested). cc)
  layers-Answer object bundle (some (accepted identity)) h =
      Attested-Answer object bundle
        (record { verifier = bundle.user_verifier; identity = identity })
        (attest bundle.app_auth_mode r bundle.app_verifiers) (h, refl)
        (attest-Decides bundle.app_auth_mode bundle.app_verifiers)

-- A public path passes without an identity. On any other path the request passes exactly when the
-- user verifier accepts it and, where app verifiers are configured, all of them do or, in `any`
-- mode, one does; it passes with the merged identity of those that accepted, in `any` mode of the
-- first. Otherwise it is answered with an error.
pub authenticate_exact :
    {R C : Type 0} (object : Dict C → C) (bundle : AuthBundle R C) (path : String) (r : R)
    → ((is_public_path path bundle.public_paths ≡ true)
        × (authenticate object bundle path r ≡ ok none))
      ⊎ ((is_public_path path bundle.public_paths ≡ false)
          × Answer r object bundle (authenticate object bundle path r))
unfolding authenticate
authenticate_exact object bundle path r =
    elim (Bool-cases (is_public_path path bundle.public_paths)) [
      | inl public ↦ inl (public, rw public)
      | inr guarded ↦ inr (guarded, rw guarded (layers-Answer r object bundle _ refl))
    ]
