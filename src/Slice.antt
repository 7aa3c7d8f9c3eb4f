-- ===== src/Slice.antt =====
-- src/slice.c. A `mb_slice` is the list of its bytes; a null pointer is not modelled, so
-- `mb_slice_dup` is the identity beside its allocation (`Router.Lvc.dup_size`).
use Prim.Native.Nat.{bit_xor}
use monoblok.Shared.{
  ℕ, ◌*◌, ◌%◌, ◌^◌, ◌≤◌, ◌≡◌, refl, ap₂, ◌↔◌, Bool, true, ◌&&◌, [], ◌∷◌, ◌++◌, arith, Bytes, length,
  ◌==◌, leb, ==_iff, &&_split, &&_both, leb→le, le→leb, length-append, drop, subst,
}

-- `memcmp(a, b, n) == 0`, where the shorter of the two lists has the `n` bytes.
unfoldable pub same_bytes : Bytes → Bytes → Bool
same_bytes [] b = true
same_bytes (x ∷ a) [] = true
same_bytes (x ∷ a) (y ∷ b) = x == y && same_bytes a b

unfoldable pub slice_eq : Bytes → Bytes → Bool
unfolding same_bytes
slice_eq a b = length a == length b && same_bytes a b

unfoldable pub has_prefix : Bytes → Bytes → Bool
unfolding same_bytes
has_prefix s prefix = leb (length prefix) (length s) && same_bytes s prefix

-- The loop of `mb_slice_hash`: FNV-1a on 64 bits.
pub hash_from : ℕ → Bytes → ℕ
hash_from h [] = h
hash_from h (x ∷ s) = hash_from (bit_xor h x * 1099511628211 % 2 ^ 64) s

unfoldable pub slice_hash : Bytes → ℕ
unfolding hash_from
slice_hash s = hash_from 1469598103934665603 s

same_bytes_refl : (a : Bytes) → same_bytes a a ≡ true
unfolding same_bytes
same_bytes_refl [] = refl
same_bytes_refl (x ∷ a) = &&_both _ _ ((==_iff x x).1 refl) (same_bytes_refl a)

eq_of_same : (a b : Bytes) → length a ≡ length b → same_bytes a b ≡ true → a ≡ b
unfolding same_bytes
eq_of_same [] [] n h = refl
eq_of_same [] (y ∷ b) n h = absurd (omega arith)
eq_of_same (x ∷ a) [] n h = absurd (omega arith)
eq_of_same (x ∷ a) (y ∷ b) n h =
    let (p, q) = &&_split (x == y) (same_bytes a b) h in
    ap₂ ◌∷◌ ((==_iff x y).0 p) (eq_of_same a b (omega arith) q)

pub slice_eq_refl : (a : Bytes) → slice_eq a a ≡ true
unfolding slice_eq
slice_eq_refl a = &&_both _ _ ((==_iff _ _).1 refl) (same_bytes_refl a)

-- `mb_slice_eq` decides equality of the contents.
pub slice_eq_iff : (a b : Bytes) → (slice_eq a b ≡ true) ↔ (a ≡ b)
unfolding slice_eq
slice_eq_iff a b = (
  λ h.
      let (p, q) = &&_split (length a == length b) (same_bytes a b) h in
      eq_of_same a b ((==_iff _ _).0 p) q,
  λ e. subst (λ c. slice_eq a c ≡ true) e (slice_eq_refl a),
)

same_bytes-append : (p r : Bytes) → same_bytes (p ++ r) p ≡ true
unfolding same_bytes
same_bytes-append [] [] = refl
same_bytes-append [] (x ∷ r) = refl
same_bytes-append (x ∷ p) r = &&_both _ _ ((==_iff x x).1 refl) (same_bytes-append p r)

same_bytes-split :
    (s p : Bytes) → length p ≤ length s → same_bytes s p ≡ true → s ≡ p ++ drop (length p) s
unfolding same_bytes
same_bytes-split [] [] n h = refl
same_bytes-split [] (y ∷ p) n h = absurd (omega arith)
same_bytes-split (x ∷ s) [] n h = refl
same_bytes-split (x ∷ s) (y ∷ p) n h =
    let (e, q) = &&_split (x == y) (same_bytes s p) h in
    ap₂ ◌∷◌ ((==_iff x y).0 e) (same_bytes-split s p (omega arith) q)

pub has_prefix-append : (p r : Bytes) → has_prefix (p ++ r) p ≡ true
unfolding has_prefix
has_prefix-append p r =
    &&_both _ _ (le→leb _ _ (omega (arith, length-append p r))) (same_bytes-append p r)

-- What `mb_slice_has_prefix` accepts is the prefix and what stands behind it.
pub has_prefix-split : (s p : Bytes) → has_prefix s p ≡ true → s ≡ p ++ drop (length p) s
unfolding has_prefix
has_prefix-split s p h =
    let (n, q) = &&_split (leb (length p) (length s)) (same_bytes s p) h in
    same_bytes-split s p (leb→le _ _ n) q
