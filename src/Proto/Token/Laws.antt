-- ===== src/Proto/Token/Laws.antt =====
-- Which tokens `mb_proto_token_valid` accepts.
use monoblok.Shared.{ℕ, [], ◌∷◌, Bytes, All, arith, true, ◌<◌, ◌≢◌, ◌≡◌, ◌↔◌, refl}
use monoblok.Proto.Token.{printable, all_printable, token_valid}

-- Neither a control byte, a blank nor DEL.
abbrev pub Printable : ℕ → Type 0
Printable c = (b' ' < c) × (c ≢ 0x7f)

all_printable-All : (s : Bytes) → all_printable s ≡ true → All Printable s
unfolding all_printable printable
all_printable-All [] h = tt
all_printable-All (c ∷ s) h = ground (arith, all_printable-All s)

All-all_printable : (s : Bytes) → All Printable s → all_printable s ≡ true
unfolding all_printable printable
All-all_printable [] h = refl
All-all_printable (c ∷ s) h = ground (arith, All-all_printable s h.1)

-- `mb_proto_token_valid` accepts just what is not empty and has printable bytes only.
pub token_valid_iff : (t : Bytes) → (token_valid t ≡ true) ↔ ((t ≢ []) × All Printable t)
unfolding token_valid
token_valid_iff [] = (λ h. cc, λ h. absurd (h.0 refl))
token_valid_iff (c ∷ t) = (
  λ h. (cc, all_printable-All (c ∷ t) (ground arith)),
  λ h. ground (arith, All-all_printable (c ∷ t) h.1),
)
