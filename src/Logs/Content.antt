-- ===== src/Logs/Content.antt =====
-- `ContentAccumulator` of packages/core/src/logs/content.ts: text that is captured up to a number of
-- bytes. The platform's encoder is a parameter: how many bytes a text takes, and the text that is
-- left of one when it is cut to a number of bytes.
pub mod Capped
use omni_model.Prelude.{
  ℕ, ◌+◌, ◌-◌, String, Bool, true, false, ◌||◌, Option, none, some, List, [], ◌∷◌, ◌++◌, ◌==◌,
  if◌then◌else◌, leb, ltb,
}
use omni_model.Prelude.Text.{◌<>◌}

pub record ContentAccumulator : Type 0 where
  pub max_bytes : ℕ
  pub parts : List String
  pub bytes : ℕ
  pub cut : Bool

abbrev pub create : ℕ → ContentAccumulator
create max_bytes = record { max_bytes = max_bytes; parts = []; bytes = 0; cut = false }

module _ (byte_length : String → ℕ) (slice_to_bytes : String → ℕ → String) where
  -- What is pushed of a text that does not fit.
  unfoldable pub push_cut : String → ContentAccumulator → ContentAccumulator
  push_cut text acc =
      if ltb 0 (acc.max_bytes - acc.bytes)
      then record acc {
        parts = acc.parts ++ slice_to_bytes text (acc.max_bytes - acc.bytes) ∷ [];
        cut = true;
      }
      else record acc { cut = true }

  unfoldable pub push_sized : String → ContentAccumulator → ContentAccumulator
  unfolding push_cut
  push_sized text acc =
      if leb (acc.bytes + byte_length text) acc.max_bytes
      then record acc { parts = acc.parts ++ text ∷ []; bytes = acc.bytes + byte_length text }
      else push_cut text acc

  unfoldable pub push : String → ContentAccumulator → ContentAccumulator
  unfolding push_sized
  push text acc = if acc.cut || text == "" then acc else push_sized text acc

  abbrev pub push_all : List String → ContentAccumulator → ContentAccumulator
  push_all [] acc = acc
  push_all (text ∷ texts) acc = push_all texts (push text acc)

unfoldable pub joined : List String → String
joined [] = ""
joined (part ∷ parts) = part <> joined parts

-- `text()`
unfoldable pub captured : ContentAccumulator → Option String
captured acc = elim acc.parts [ [] ↦ none | p ∷ ps ↦ some (joined (p ∷ ps)) ]
