-- ===== src/Secrets/Resolver/References.antt =====
-- No reference is left in a resolved document.
use omni_model.Prelude.{
  ℕ, suc, String, ◌≡◌, refl, sym, ◌∙◌, subst, Bool, true, false, Option, none, some, [], ◌∷◌, ◌==◌,
  if◌then◌else◌, Bool-cases, inl, inr, is_some,
}
use omni_model.Util.Duration.{trim}
use omni_model.Prelude.Dict.{Dict, get, set}
use omni_model.Prelude.Result.{Result, ok, err, >>=-eq-ok, ok-injective}
use omni_model.Secrets.Resolver.{
  Json, text, atom, array, object, Items, last_item, item, Fields, last_field, field, Reference,
  plain, malformed, to, reference_to, reference_of, has_extra, add_reference, collect_object,
  collect_refs, collect_items, collect_fields, value_for, substitute_object, substitute,
  substitute_items, substitute_fields, resolve_collected, resolve_secret_refs, reveal_all,
}

-- No object of the value refers to a secret, well formed or not.
unfoldable mutual
  pub HasNone : Json → Type 0
  HasNone (text s) = Unit
  HasNone (atom s) = Unit
  HasNone (array items) = NoneInItems items
  HasNone (object fields) = (reference_of fields ≡ plain) × NoneInFields fields

  pub NoneInItems : Items → Type 0
  NoneInItems last_item = Unit
  NoneInItems (item value items) = HasNone value × NoneInItems items

  pub NoneInFields : Fields → Type 0
  NoneInFields last_field = Unit
  NoneInFields (field name value fields) = HasNone value × NoneInFields fields

reference_to-plain : (value : Json) → reference_to value ≡ plain → ⊥
unfolding reference_to
reference_to-plain (text s) h = cc
reference_to-plain (atom s) h = cc
reference_to-plain (array items) h = cc
reference_to-plain (object fields) h = cc

-- Substitution keeps the names.
plain-substitute_fields :
    (fields out : Fields) (values : Dict String)
    → reference_of fields ≡ plain
    → substitute_fields fields values ≡ ok out
    → reference_of out ≡ plain
unfolding reference_of substitute_fields
plain-substitute_fields last_field out values h done =
    subst (λ f. reference_of f ≡ plain) (ok-injective done) refl
plain-substitute_fields (field name value fields) out values h done =
    let (first, _, done') = >>=-eq-ok (substitute value values) _ done in
    let (rest, done'', made) = >>=-eq-ok (substitute_fields fields values) _ done' in
    subst (λ f. reference_of f ≡ plain) (ok-injective made)
      (elim (Bool-cases (name == "$secret")) [
        | inl secret ↦ absurd (reference_to-plain value (sym (rw secret refl) ∙ h))
        | inr other ↦
            rw other (plain-substitute_fields fields rest values (sym (rw other refl) ∙ h) done'')
      ])

HasNone-value_for :
    (id : String) (o : Option String) (out : Json) → value_for id o ≡ ok out → HasNone out
unfolding value_for HasNone
HasNone-value_for id none out h = cc
HasNone-value_for id (some value) out h = subst HasNone (ok-injective h) tt

HasNone-substitute_object :
    (r : Reference) (fields : Fields) (out : Json) (path : String) (refs refs' values : Dict String)
    → reference_of fields ≡ r
    → ((made : Fields)
        → collect_fields fields path refs ≡ ok refs'
        → substitute_fields fields values ≡ ok made
        → NoneInFields made)
    → collect_object r fields path refs (collect_fields fields path refs) ≡ ok refs'
    → substitute_object r values (substitute_fields fields values) ≡ ok out
    → HasNone out
unfolding collect_object substitute_object HasNone
HasNone-substitute_object plain fields out path refs refs' values is_plain inner c h =
    let (made, h', same) = >>=-eq-ok (substitute_fields fields values) _ h in
    subst HasNone (ok-injective same)
      (plain-substitute_fields fields made values is_plain h', inner made c h')
HasNone-substitute_object malformed fields out path refs refs' values is_bad inner c h = cc
HasNone-substitute_object (to id) fields out path refs refs' values refers inner c h =
    HasNone-value_for id (get id values) out h

mutual
  unfolding collect_refs substitute collect_object substitute_object HasNone

  HasNone-substitute :
      (value out : Json) (path : String) (refs refs' values : Dict String)
      → collect_refs value path refs ≡ ok refs'
      → substitute value values ≡ ok out
      → HasNone out
  HasNone-substitute (text s) out path refs refs' values c h = subst HasNone (ok-injective h) tt
  HasNone-substitute (atom s) out path refs refs' values c h = subst HasNone (ok-injective h) tt
  HasNone-substitute (array items) out path refs refs' values c h =
      let (made, h', same) = >>=-eq-ok (substitute_items items values) _ h in
      subst HasNone (ok-injective same)
        (NoneInItems-substitute items made path 0 refs refs' values c h')
  HasNone-substitute (object fields) out path refs refs' values c h =
      HasNone-substitute_object (reference_of fields) fields out path refs refs' values refl
        (λ made c' h'. NoneInFields-substitute fields made path refs refs' values c' h') c h

  NoneInItems-substitute :
      (items out : Items) (path : String) (index : ℕ) (refs refs' values : Dict String)
      → collect_items items path index refs ≡ ok refs'
      → substitute_items items values ≡ ok out
      → NoneInItems out
  NoneInItems-substitute last_item out path index refs refs' values c h =
      subst NoneInItems (ok-injective h) tt
  NoneInItems-substitute (item value items) out path index refs refs' values c h =
      let (between, c1, c2) = >>=-eq-ok (collect_refs value _ refs) _ c in
      let (first, h1, h') = >>=-eq-ok (substitute value values) _ h in
      let (rest, h2, same) = >>=-eq-ok (substitute_items items values) _ h' in
      subst NoneInItems (ok-injective same) (
        HasNone-substitute value first _ refs between values c1 h1,
        NoneInItems-substitute items rest path (suc index) between refs' values c2 h2,
      )

  NoneInFields-substitute :
      (fields out : Fields) (path : String) (refs refs' values : Dict String)
      → collect_fields fields path refs ≡ ok refs'
      → substitute_fields fields values ≡ ok out
      → NoneInFields out
  NoneInFields-substitute last_field out path refs refs' values c h =
      subst NoneInFields (ok-injective h) tt
  NoneInFields-substitute (field name value fields) out path refs refs' values c h =
      let (between, c1, c2) = >>=-eq-ok (collect_refs value _ refs) _ c in
      let (first, h1, h') = >>=-eq-ok (substitute value values) _ h in
      let (rest, h2, same) = >>=-eq-ok (substitute_fields fields values) _ h' in
      subst NoneInFields (ok-injective same) (
        HasNone-substitute value first _ refs between values c1 h1,
        NoneInFields-substitute fields rest path between refs' values c2 h2,
      )

-- The first reference that is found is kept, so a document in which none is found has none.
abbrev NoneFound : Type 0 → Dict String → Dict String → Type 0
NoneFound None refs refs' = refs' ≡ [] → (refs ≡ []) × None

unless_error :
    (b : Bool) (e : String) (rest : Result String (Dict String)) (refs : Dict String)
    → (rest ≡ ok refs → ⊥)
    → (if b then err e else rest) ≡ ok refs
    → ⊥
unless_error true e rest refs f h = cc
unless_error false e rest refs f h = f h

cons-nil : (x : String × String) (xs : Dict String) → x ∷ xs ≡ [] → ⊥
cons-nil x xs h = cc

either-nil :
    (b : Bool) (xs ys : Dict String)
    → (xs ≡ [] → ⊥)
    → (ys ≡ [] → ⊥)
    → (if b then xs else ys) ≡ []
    → ⊥
either-nil true xs ys f g h = f h
either-nil false xs ys f g h = g h

set-nil : (id path : String) (refs : Dict String) → set id path refs ≡ [] → ⊥
unfolding set
set-nil id path [] h = cons-nil _ _ h
set-nil id path ((j, p) ∷ refs) h =
    either-nil (j == id) ((j, path) ∷ refs) ((j, p) ∷ set id path refs) (cons-nil _ _)
      (cons-nil _ _) h

add_reference-nil : (id path : String) (refs : Dict String) → add_reference id path refs ≡ [] → ⊥
unfolding add_reference get
add_reference-nil id path [] h = set-nil id path [] h
add_reference-nil id path ((j, p) ∷ refs) h =
    either-nil (is_some (get id ((j, p) ∷ refs))) ((j, p) ∷ refs) (set id path ((j, p) ∷ refs))
      (cons-nil _ _) (set-nil id path ((j, p) ∷ refs)) h

NoneFound-collect_object :
    (r : Reference) (fields : Fields) (path : String) (refs refs' : Dict String)
    → reference_of fields ≡ r
    → (collect_fields fields path refs ≡ ok refs' → NoneFound (NoneInFields fields) refs refs')
    → collect_object r fields path refs (collect_fields fields path refs) ≡ ok refs'
    → NoneFound (HasNone (object fields)) refs refs'
unfolding collect_object HasNone
NoneFound-collect_object plain fields path refs refs' is_plain inner c empty =
    let (before, none_in) = inner c empty in (before, (is_plain, none_in))
NoneFound-collect_object malformed fields path refs refs' is_bad inner c empty = cc
NoneFound-collect_object (to id) fields path refs refs' refers inner c empty = absurd (
    unless_error (has_extra fields) _ _ refs'
      (unless_error (trim id == "") _ _ refs'
        (λ done. add_reference-nil id path refs (ok-injective done ∙ empty)))
      c)

mutual
  unfolding collect_refs HasNone

  NoneFound-collect_refs :
      (value : Json) (path : String) (refs refs' : Dict String)
      → collect_refs value path refs ≡ ok refs'
      → NoneFound (HasNone value) refs refs'
  NoneFound-collect_refs (text s) path refs refs' c empty = (ok-injective c ∙ empty, tt)
  NoneFound-collect_refs (atom s) path refs refs' c empty = (ok-injective c ∙ empty, tt)
  NoneFound-collect_refs (array items) path refs refs' c empty =
      NoneFound-collect_items items path 0 refs refs' c empty
  NoneFound-collect_refs (object fields) path refs refs' c empty =
      NoneFound-collect_object (reference_of fields) fields path refs refs' refl
        (λ c'. NoneFound-collect_fields fields path refs refs' c') c empty

  NoneFound-collect_items :
      (items : Items) (path : String) (index : ℕ) (refs refs' : Dict String)
      → collect_items items path index refs ≡ ok refs'
      → NoneFound (NoneInItems items) refs refs'
  NoneFound-collect_items last_item path index refs refs' c empty = (ok-injective c ∙ empty, tt)
  NoneFound-collect_items (item value items) path index refs refs' c empty =
      let (between, c1, c2) = >>=-eq-ok (collect_refs value _ refs) _ c in
      let (nothing, later) =
        NoneFound-collect_items items path (suc index) between refs' c2 empty in
      let (before, none_in) = NoneFound-collect_refs value _ refs between c1 nothing in
      (before, (none_in, later))

  NoneFound-collect_fields :
      (fields : Fields) (path : String) (refs refs' : Dict String)
      → collect_fields fields path refs ≡ ok refs'
      → NoneFound (NoneInFields fields) refs refs'
  NoneFound-collect_fields last_field path refs refs' c empty = (ok-injective c ∙ empty, tt)
  NoneFound-collect_fields (field name value fields) path refs refs' c empty =
      let (between, c1, c2) = >>=-eq-ok (collect_refs value _ refs) _ c in
      let (nothing, later) = NoneFound-collect_fields fields path between refs' c2 empty in
      let (before, none_in) = NoneFound-collect_refs value _ refs between c1 nothing in
      (before, (none_in, later))

HasNone-resolve_collected :
    (document out : Json) (store : Option (String → Result String (Option String)))
    (refs : Dict String)
    → collect_refs document "$" [] ≡ ok refs
    → resolve_collected document store refs ≡ ok out
    → HasNone out
unfolding resolve_collected
HasNone-resolve_collected document out store [] c h =
    subst HasNone (ok-injective h) (NoneFound-collect_refs document "$" [] [] c refl).1
HasNone-resolve_collected document out none (ref ∷ refs) c h = cc
HasNone-resolve_collected document out (some reveal) (ref ∷ refs) c h =
    let (values, _, done) = >>=-eq-ok (reveal_all reveal (ref ∷ refs) []) _ h in
    HasNone-substitute document out "$" [] (ref ∷ refs) values c done

-- A document that is resolved holds no reference to a secret, well formed or malformed.
pub resolve_secret_refs-HasNone :
    (document out : Json) (store : Option (String → Result String (Option String)))
    → resolve_secret_refs document store ≡ ok out
    → HasNone out
unfolding resolve_secret_refs
resolve_secret_refs-HasNone document out store h =
    let (refs, c, done) = >>=-eq-ok (collect_refs document "$" []) _ h in
    HasNone-resolve_collected document out store refs c done
