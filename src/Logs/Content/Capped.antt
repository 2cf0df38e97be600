-- ===== src/Logs/Content/Capped.antt =====
-- The cap holds.
use omni_model.Prelude.{
  ℕ, ◌+◌, ◌-◌, ◌≤◌, String, ◌≡◌, refl, Bool, true, false, ◌||◌, List, [], ◌∷◌, ◌++◌, ◌==◌, arith,
  if◌then◌else◌, leb, leb→le, ltb, Bool-cases, inl, inr,
}
use omni_model.Logs.Content.{ContentAccumulator, create, push_cut, push_sized, push, push_all}

module _ (byte_length : String → ℕ) (slice_to_bytes : String → ℕ → String) where
  abbrev pub total : List String → ℕ
  total [] = 0
  total (part ∷ parts) = byte_length part + total parts

  total-append : (xs ys : List String) → total (xs ++ ys) ≡ total xs + total ys
  total-append [] ys = omega arith
  total-append (x ∷ xs) ys = omega (arith, total-append xs ys)

  -- The parts are within the cap, and until the cut the count is theirs.
  record IsCapped (acc : ContentAccumulator) : Type 0 where
    within : total acc.parts ≤ acc.max_bytes
    counted : acc.cut ≡ false → total acc.parts ≡ acc.bytes

  -- A text that is cut takes no more than the bytes that it is cut to.
  abbrev pub CutsToSize : Type 0
  CutsToSize = (text : String) (n : ℕ) → byte_length (slice_to_bytes text n) ≤ n

  push_cut-IsCapped :
      CutsToSize
      → (text : String) (acc : ContentAccumulator) → acc.cut ≡ false
      → IsCapped acc
      → IsCapped (push_cut byte_length slice_to_bytes text acc)
  unfolding push_cut
  push_cut-IsCapped cuts text acc uncut c = elim (Bool-cases (ltb 0 (acc.max_bytes - acc.bytes))) [
    | inl room ↦ rw room (record {
      within = omega (
        arith,
        total-append acc.parts (slice_to_bytes text (acc.max_bytes - acc.bytes) ∷ []),
        cuts text (acc.max_bytes - acc.bytes),
        c.within,
        c.counted uncut,
      );
      counted = λ h. cc;
    })
    | inr full ↦ rw full (record { within = c.within; counted = λ h. cc })
  ]

  push_sized-IsCapped :
      CutsToSize
      → (text : String) (acc : ContentAccumulator) → acc.cut ≡ false
      → IsCapped acc
      → IsCapped (push_sized byte_length slice_to_bytes text acc)
  unfolding push_sized
  push_sized-IsCapped cuts text acc uncut c =
      elim (Bool-cases (leb (acc.bytes + byte_length text) acc.max_bytes)) [
        | inl fits ↦ rw fits (record {
          within = omega (
            arith,
            total-append acc.parts (text ∷ []),
            leb→le (acc.bytes + byte_length text) acc.max_bytes fits,
            c.counted uncut,
          );
          counted = λ h. omega (arith, total-append acc.parts (text ∷ []), c.counted uncut);
        })
        | inr over ↦ rw over (push_cut-IsCapped cuts text acc uncut c)
      ]

  push-IsCapped_at :
      CutsToSize
      → (text : String) (acc : ContentAccumulator) (b : Bool) → acc.cut ≡ b
      → IsCapped acc
      → IsCapped (if b || text == "" then acc else push_sized byte_length slice_to_bytes text acc)
  push-IsCapped_at cuts text acc true done c = c
  push-IsCapped_at cuts text acc false uncut c = elim (Bool-cases (text == "")) [
    | inl empty ↦ rw empty c
    | inr more ↦ rw more (push_sized-IsCapped cuts text acc uncut c)
  ]

  push_all-IsCapped :
      CutsToSize
      → (texts : List String) (acc : ContentAccumulator) → IsCapped acc
      → IsCapped (push_all byte_length slice_to_bytes texts acc)
  unfolding push
  push_all-IsCapped cuts [] acc c = c
  push_all-IsCapped cuts (text ∷ texts) acc c =
      push_all-IsCapped cuts texts (push byte_length slice_to_bytes text acc)
        (push-IsCapped_at cuts text acc acc.cut refl c)

  max_bytes-push :
      (text : String) (acc : ContentAccumulator)
      → (push byte_length slice_to_bytes text acc).max_bytes ≡ acc.max_bytes
  unfolding push push_sized push_cut
  max_bytes-push text acc = ground arith

  max_bytes-push_all :
      (texts : List String) (acc : ContentAccumulator)
      → (push_all byte_length slice_to_bytes texts acc).max_bytes ≡ acc.max_bytes
  max_bytes-push_all [] acc = refl
  max_bytes-push_all (text ∷ texts) acc = omega (
    arith,
    max_bytes-push text acc,
    max_bytes-push_all texts (push byte_length slice_to_bytes text acc),
  )

-- However many texts are pushed and however long they are, what is captured takes no more bytes than
-- the cap, when cutting a text to a number of bytes keeps to that number.
pub push_all-within :
    (byte_length : String → ℕ) (slice_to_bytes : String → ℕ → String) (max_bytes : ℕ)
    (texts : List String)
    → CutsToSize byte_length slice_to_bytes
    → total byte_length slice_to_bytes
        (push_all byte_length slice_to_bytes texts (create max_bytes)).parts
      ≤ max_bytes
push_all-within byte_length slice_to_bytes max_bytes texts cuts =
    let c =
      push_all-IsCapped byte_length slice_to_bytes cuts texts (create max_bytes)
        (record { within = omega arith; counted = λ h. refl }) in
    omega (arith, c.within, max_bytes-push_all byte_length slice_to_bytes texts (create max_bytes))
