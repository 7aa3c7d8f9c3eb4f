-- ===== src/Patchbay/Windows/History.antt =====
-- The times that a ring keeps, and all the times before: for times in order, an eviction of the
-- leading old ones leaves just those within the window.
use monoblok.Shared.{
  ℕ, zero, suc, ◌+◌, ◌-◌, ◌≤◌, ◌<◌, ◌≡◌, refl, sym, ap, subst, ◌∙◌, inl, inr, Bool, true, false,
  List, [], ◌∷◌, ◌++◌, append_assoc, arith, length, take, drop, All, ltb, leb, if◌then◌else◌,
  Bool-cases, leb→le,
}
use monoblok.Patchbay.Ring.Timed.{leading_old}

-- The start of the window that ends now.
unfoldable pub cutoff_at : ℕ → ℕ → ℕ
cutoff_at ms now = if ltb ms now then now - ms else 0

-- What a ring of the times `ts` holds after its eviction, and after the message.
unfoldable pub recent : ℕ → ℕ → List ℕ → List ℕ
recent ms now ts = drop (leading_old (cutoff_at ms now) ts) ts

unfoldable pub allowed : ℕ → ℕ → ℕ → List ℕ → Bool
allowed ms max now ts = ltb (length (recent ms now ts)) max

unfoldable pub throttled : ℕ → ℕ → ℕ → List ℕ → List ℕ
throttled ms max now ts =
    if allowed ms max now ts then recent ms now ts ++ now ∷ [] else recent ms now ts

-- Which of the messages at the times `nows` pass by a ring that holds the times `ts`.
unfoldable pub ring_throttle : ℕ → ℕ → List ℕ → List ℕ → List Bool
ring_throttle ms max ts [] = []
ring_throttle ms max ts (now ∷ nows) =
    allowed ms max now ts ∷ ring_throttle ms max (throttled ms max now ts) nows

-- How many of the times are at most `ms` before `now`.
unfoldable pub count_within : ℕ → ℕ → List ℕ → ℕ
count_within ms now [] = 0
count_within ms now (t ∷ ts) =
    if leb now (t + ms) then count_within ms now ts + 1 else count_within ms now ts

-- Which of the messages at the times `nows` pass, after those at the times `ts`: those before which
-- fewer than `max` passed within the window. Every time of a message that passed is kept.
unfoldable pub reference_throttle : ℕ → ℕ → List ℕ → List ℕ → List Bool
reference_throttle ms max ts [] = []
reference_throttle ms max ts (now ∷ nows) =
    let fits = ltb (count_within ms now ts) max in
    fits ∷ reference_throttle ms max (if fits then ts ++ now ∷ [] else ts) nows

-- No time is before the one that precedes it, and the first is not before `lo`.
pub data Ascending : ℕ → List ℕ → Type 0 where
  no_times : {lo : ℕ} → Ascending lo []
  next_time : {lo t : ℕ} {ts : List ℕ} → lo ≤ t → Ascending t ts → Ascending lo (t ∷ ts)

Ascending-weaken : {lo lo' : ℕ} {ts : List ℕ} → lo' ≤ lo → Ascending lo ts → Ascending lo' ts
Ascending-weaken p no_times = no_times
Ascending-weaken p (next_time q a) = next_time (omega arith) a

Ascending-rest : {lo t : ℕ} {ts : List ℕ} → Ascending lo (t ∷ ts) → Ascending lo ts
Ascending-rest (next_time q a) = Ascending-weaken q a

Ascending-prefix : {lo : ℕ} (ts us : List ℕ) → Ascending lo (ts ++ us) → Ascending lo ts
Ascending-prefix [] us a = no_times
Ascending-prefix (t ∷ ts) us (next_time q a) = next_time q (Ascending-prefix ts us a)

pub Ascending-suffix : {lo : ℕ} (ts us : List ℕ) → Ascending lo (ts ++ us) → Ascending lo us
Ascending-suffix [] us a = a
Ascending-suffix (t ∷ ts) us a = Ascending-suffix ts us (Ascending-rest a)

-- The message at `now`, after what is left of the times.
Ascending-skip :
    {lo : ℕ} (ts us : List ℕ) (now : ℕ) → Ascending lo (ts ++ now ∷ us) → Ascending lo (ts ++ us)
Ascending-skip [] us now a = Ascending-rest a
Ascending-skip (t ∷ ts) us now (next_time q a) = next_time q (Ascending-skip ts us now a)

Ascending-drop :
    {lo : ℕ} (k : ℕ) (ts us : List ℕ) → Ascending lo (ts ++ us) → Ascending lo (drop k ts ++ us)
Ascending-drop zero ts us a = a
Ascending-drop (suc k) [] us a = a
Ascending-drop (suc k) (t ∷ ts) us a = Ascending-drop k ts us (Ascending-rest a)

count_within-append :
    (ms now : ℕ) (ts us : List ℕ)
    → count_within ms now (ts ++ us) ≡ count_within ms now ts + count_within ms now us
unfolding count_within
count_within-append ms now [] us = omega arith
count_within-append ms now (t ∷ ts) us = let rest = count_within-append ms now ts us in ground arith

count_within_old :
    (ms now : ℕ) (ts : List ℕ) → All (λ t. t + ms < now) ts → count_within ms now ts ≡ 0
unfolding count_within
count_within_old ms now [] a = refl
count_within_old ms now (t ∷ ts) (p, a) = let rest = count_within_old ms now ts a in ground arith

count_within_all :
    (ms now lo : ℕ) (ts : List ℕ)
    → now ≤ lo + ms
    → Ascending lo ts
    → count_within ms now ts ≡ length ts
unfolding count_within
count_within_all ms now lo [] p a = refl
count_within_all ms now lo (t ∷ ts) p (next_time q a) =
    let rest = count_within_all ms now t ts (omega arith) a in ground arith

since_cutoff : (ms now t : ℕ) → leb (cutoff_at ms now) t ≡ leb now (t + ms)
unfolding cutoff_at
since_cutoff ms now t = ground arith

count_within-recent :
    (ms now lo : ℕ) (ts : List ℕ)
    → Ascending lo ts
    → count_within ms now ts ≡ length (recent ms now ts)
unfolding recent leading_old count_within
count_within-recent ms now lo [] a = refl
count_within-recent ms now lo (t ∷ ts) (next_time q a) = elim (Bool-cases (leb now (t + ms))) [
  | inl c ↦
      rw (since_cutoff ms now t ∙ c)
        (count_within_all ms now t (t ∷ ts) (leb→le now (t + ms) c) (next_time (omega arith) a))
  | inr c ↦ rw (since_cutoff ms now t ∙ c, c, count_within) (count_within-recent ms now t ts a)
]

-- What is dropped is before the window.
dropped_old :
    (ms now : ℕ) (ts : List ℕ)
    → All (λ t. t + ms < now) (take (leading_old (cutoff_at ms now) ts) ts)
unfolding leading_old
dropped_old ms now [] = tt
dropped_old ms now (t ∷ ts) = elim (Bool-cases (leb now (t + ms))) [
  | inl c ↦ rw (since_cutoff ms now t ∙ c) tt
  | inr c ↦ rw (since_cutoff ms now t ∙ c) (ground arith, dropped_old ms now ts)
]

All-append : (P : ℕ → Type 0) (ts us : List ℕ) → All P ts → All P us → All P (ts ++ us)
All-append P [] us a b = b
All-append P (t ∷ ts) us (p, a) b = (p, All-append P ts us a b)

older :
    (ms lo now : ℕ) (ts : List ℕ)
    → lo ≤ now
    → All (λ t. t + ms < lo) ts
    → All (λ t. t + ms < now) ts
older ms lo now [] p a = tt
older ms lo now (t ∷ ts) p (q, a) = (omega arith, older ms lo now ts p a)

take-drop : (k : ℕ) (ts : List ℕ) → take k ts ++ drop k ts ≡ ts
take-drop zero ts = refl
take-drop (suc k) [] = refl
take-drop (suc k) (t ∷ ts) = ap (◌∷◌ t) (take-drop k ts)

-- What a ring keeps of the history `old ++ kept`, whose part `old` the window has left behind, decides
-- as the whole history does.
recent-decides :
    (ms lo now : ℕ) (old kept : List ℕ)
    → All (λ t. t + ms < now) old
    → Ascending lo kept
    → count_within ms now (old ++ kept) ≡ length (recent ms now kept)
recent-decides ms lo now old kept o a =
    count_within-append ms now old kept
    ∙ ap (λ n. n + count_within ms now kept) (count_within_old ms now old o)
    ∙ omega arith
    ∙ count_within-recent ms now lo kept a

abbrev dropped : ℕ → ℕ → List ℕ → List ℕ
dropped ms now kept = take (leading_old (cutoff_at ms now) kept) kept

-- The history, cut where the ring cuts it now.
recut :
    (ms now : ℕ) (old kept : List ℕ)
    → (old ++ dropped ms now kept) ++ recent ms now kept ≡ old ++ kept
unfolding recent
recut ms now old kept =
    append_assoc old (dropped ms now kept) (recent ms now kept)
    ∙ ap (λ ts. old ++ ts) (take-drop (leading_old (cutoff_at ms now) kept) kept)

pub ring_throttle-eq :
    (ms max lo : ℕ) (old kept nows : List ℕ)
    → All (λ t. t + ms < lo) old
    → Ascending lo nows
    → Ascending 0 (kept ++ nows)
    → ring_throttle ms max kept nows ≡ reference_throttle ms max (old ++ kept) nows
unfolding ring_throttle reference_throttle allowed throttled recent leading_old
ring_throttle-eq ms max lo old kept [] o a b = refl
ring_throttle-eq ms max lo old kept (now ∷ nows) o (next_time p a) b =
    let left = older ms lo now old p o in
    let same : ltb (count_within ms now (old ++ kept)) max ≡ allowed ms max now kept =
      ap (λ n. ltb n max)
        (recent-decides ms 0 now old kept left (Ascending-prefix kept (now ∷ nows) b)) in
    let gone = old ++ dropped ms now kept in
    let gone_old : All (λ t. t + ms < now) gone =
      All-append (λ t. t + ms < now) old (dropped ms now kept) left (dropped_old ms now kept) in
    let after : Ascending 0 (recent ms now kept ++ now ∷ nows) =
      Ascending-drop (leading_old (cutoff_at ms now) kept) kept (now ∷ nows) b in
    elim (Bool-cases (allowed ms max now kept)) [
      | inl c ↦
          let longer : gone ++ (recent ms now kept ++ now ∷ []) ≡ (old ++ kept) ++ now ∷ [] =
            sym (append_assoc gone (recent ms now kept) (now ∷ []))
            ∙ ap (λ ts. ts ++ now ∷ []) (recut ms now old kept) in
          rw (same, c)
            (ap (◌∷◌ true) (
              ring_throttle-eq ms max now gone (recent ms now kept ++ now ∷ []) nows gone_old a (
                subst (Ascending 0) (sym (append_assoc (recent ms now kept) (now ∷ []) nows)) after)
              ∙ ap (λ ts. reference_throttle ms max ts nows) longer))
      | inr c ↦
          rw (same, c)
            (ap (◌∷◌ false) (
              ring_throttle-eq ms max now gone (recent ms now kept) nows gone_old a
                (Ascending-skip (recent ms now kept) nows now after)
              ∙ ap (λ ts. reference_throttle ms max ts nows) (recut ms now old kept)))
    ]
