-- ===== src/Patchbay/Gates/Squelch.antt =====
-- `squelch` and `changed?` compare with the value before.
use monoblok.Shared.{ℕ, ◌≡◌, Bool, true, false, not, List, [], ◌∷◌, Bytes, if◌then◌else◌, codes}
use monoblok.Slice.{slice_eq}
use monoblok.Patchbay.Floats.{Floats}
use monoblok.Patchbay.Value.{Value, nil, boolean, number, symbol, keyword, string, list, vector, ok}
use monoblok.Patchbay.Entry.{empty, number_kind, bytes_kind, Entry}
use monoblok.Patchbay.Slot.{Outcome}

-- What a value is compared by: a number, or its text.
pub data Seen (N : Type 0) : Type 0 where
  unseen : Seen N
  seen_number : N → Seen N
  seen_text : Bytes → Seen N

-- Nil is compared by the empty text, a Boolean by its name, a symbol or a string by its bytes; a
-- keyword, a list and a vector cannot be compared.
unfoldable pub seen : {N : Type 0} → Value N → Seen N
seen nil = seen_text []
seen (boolean true) = seen_text (codes "true")
seen (boolean false) = seen_text (codes "false")
seen (number x) = seen_number x
seen (symbol s) = seen_text s
seen (string s) = seen_text s
seen (keyword k) = unseen
seen (list vs) = unseen
seen (vector vs) = unseen

-- The answer of `changed?` (`bool_mode` is true) and of `squelch`, to a value that is the same as the
-- one before or not.
pub answer_to : {N : Type 0} → Bool → Bool → Value N → Value N
answer_to bool_mode unchanged v =
    if bool_mode then boolean (not unchanged) else if unchanged then nil else v

module _ (F : Floats) where
  pub same : Seen F.Num → Seen F.Num → Bool
  same (seen_number x) (seen_number y) = F.eq x y
  same (seen_text s) (seen_text t) = slice_eq s t
  same _ _ = false

  -- The entry of `squelch` and `changed?`.
  pub data Remembers : Seen F.Num → Entry F.Num → Type 0 where
    nothing : (e : Entry F.Num) → e.kind ≡ empty → Remembers unseen e
    the_number :
        (e : Entry F.Num) (x : F.Num)
        → e.kind ≡ number_kind
        → e.number ≡ x
        → Remembers (seen_number x) e
    the_text :
        (e : Entry F.Num) (s : Bytes)
        → e.kind ≡ bytes_kind
        → e.bytes ≡ s
        → Remembers (seen_text s) e

  -- What a run of values is answered, after what was seen before it.
  pub reference_answers : Bool → Seen F.Num → List (Value F.Num) → List (Value F.Num)
  reference_answers bool_mode prev [] = []
  reference_answers bool_mode prev (v ∷ vs) =
      answer_to bool_mode (same prev (seen v)) v ∷ reference_answers bool_mode (seen v) vs

module _ (F : Floats) (alloc scratch : ℕ → Bool) where
  abbrev Answers : Bool → Seen F.Num → Value F.Num → Outcome F.Num → Type 0
  Answers bool_mode prev v o =
      (o.result ≡ ok (answer_to bool_mode (same F prev (seen v)) v)) × Remembers F (seen v) o.entry
