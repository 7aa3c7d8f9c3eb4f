-- ===== src/Patchbay/Clocks/Deadlines.antt =====
-- src/patchbay/pb_program.c: the deadline that comes first.
use monoblok.Shared.{
  All, subst, size_max, ℕ, ◌≤◌, ◌≡◌, refl, sym, ◌∙◌, ◌⊎◌, inl, inr, Bool, true, Option, none, some,
  List, [], ◌∷◌, arith, ltb, if◌then◌else◌, ltb→lt, ltb→le, if-both,
}
use monoblok.Patchbay.Entry.{Entry}
use monoblok.Patchbay.Clocks.Due.{Due, entry_deadline_of, entry_deadline-Due}
use monoblok.Patchbay.Clocks.{entry_deadline}

-- A deadline beside the best before it.
pub better : Option ℕ → Option ℕ → Option ℕ
better best none = best
better none (some d) = some d
better (some b) (some d) = if ltb d b then some d else some b

-- The loop over the entries of a rule, and the loop over the rules.
pub rule_deadline : {N : Type 0} → Option ℕ → List (Entry N) → Option ℕ
rule_deadline best [] = best
rule_deadline best (e ∷ items) = rule_deadline (better best (entry_deadline e)) items

pub rules_deadline : {N : Type 0} → Option ℕ → List (List (Entry N)) → Option ℕ
rules_deadline best [] = best
rules_deadline best (items ∷ rules) = rules_deadline (rule_deadline best items) rules

-- `pb_program_next_clock_deadline`
pub next_clock_deadline : {N : Type 0} → Bool → List (List (Entry N)) → Option ℕ
next_clock_deadline uses_clock_timer rules =
    if uses_clock_timer then rules_deadline none rules else none

-- An entry of a rule, and of the program.
pub data InRule {N : Type 0} (e : Entry N) : List (Entry N) → Type 0 where
  first_entry : {items : List (Entry N)} → InRule e (e ∷ items)
  later_entry : {x : Entry N} {items : List (Entry N)} → InRule e items → InRule e (x ∷ items)

pub data InRules {N : Type 0} (e : Entry N) : List (List (Entry N)) → Type 0 where
  first_rule :
      {items : List (Entry N)} {rules : List (List (Entry N))}
      → InRule e items
      → InRules e (items ∷ rules)
  later_rule :
      {items : List (Entry N)} {rules : List (List (Entry N))}
      → InRules e rules
      → InRules e (items ∷ rules)

-- No later than.
pub data NoLater : Option ℕ → Option ℕ → Type 0 where
  than_never : {o : Option ℕ} → NoLater o none
  than : {d d' : ℕ} → d ≤ d' → NoLater (some d) (some d')

NoLater-trans : (a b c : Option ℕ) → NoLater a b → NoLater b c → NoLater a c
NoLater-trans a b none p q = than_never
NoLater-trans (some a) (some b) (some c) (than p) (than q) = than (omega arith)
NoLater-trans a none (some c) p q = elim q [ ]
NoLater-trans none (some b) (some c) p q = elim p [ ]

NoLater-refl : (a : Option ℕ) → NoLater a a
NoLater-refl none = than_never
NoLater-refl (some d) = than (omega arith)

better-NoLater : (a b : Option ℕ) → NoLater (better a b) a × NoLater (better a b) b
unfolding better
better-NoLater a none = (NoLater-refl a, than_never)
better-NoLater none (some d) = (than_never, than (omega arith))
better-NoLater (some b) (some d) =
    if-both (λ o. NoLater o (some b) × NoLater o (some d)) (ltb d b)
      (λ h. (than (omega (arith, ltb→lt d b h)), than (omega arith)))
      (λ h. (than (omega arith), than (ltb→le d b h)))

rule_deadline-NoLater :
    {N : Type 0} (best : Option ℕ) (items : List (Entry N))
    → NoLater (rule_deadline best items) best
unfolding rule_deadline
rule_deadline-NoLater best [] = NoLater-refl best
rule_deadline-NoLater best (e ∷ items) =
    let b = better best (entry_deadline e) in
    NoLater-trans (rule_deadline b items) b best (rule_deadline-NoLater b items)
      (better-NoLater best (entry_deadline e)).0

rules_deadline-NoLater :
    {N : Type 0} (best : Option ℕ) (rules : List (List (Entry N)))
    → NoLater (rules_deadline best rules) best
unfolding rules_deadline
rules_deadline-NoLater best [] = NoLater-refl best
rules_deadline-NoLater best (items ∷ rules) =
    let b = rule_deadline best items in
    NoLater-trans (rules_deadline b rules) b best (rules_deadline-NoLater b rules)
      (rule_deadline-NoLater best items)

rule_deadline-least :
    {N : Type 0} (e : Entry N) (best : Option ℕ) (items : List (Entry N))
    → InRule e items
    → NoLater (rule_deadline best items) (entry_deadline e)
unfolding rule_deadline
rule_deadline-least e best [] i = elim i [ ]
rule_deadline-least e best (_ ∷ items) first_entry =
    let b = better best (entry_deadline e) in
    NoLater-trans (rule_deadline b items) b (entry_deadline e) (rule_deadline-NoLater b items)
      (better-NoLater best (entry_deadline e)).1
rule_deadline-least e best (x ∷ items) (later_entry i) =
    rule_deadline-least e (better best (entry_deadline x)) items i

rules_deadline-least :
    {N : Type 0} (e : Entry N) (best : Option ℕ) (rules : List (List (Entry N)))
    → InRules e rules
    → NoLater (rules_deadline best rules) (entry_deadline e)
unfolding rules_deadline
rules_deadline-least e best [] i = elim i [ ]
rules_deadline-least e best (items ∷ rules) (first_rule i) =
    let b = rule_deadline best items in
    NoLater-trans (rules_deadline b rules) b (entry_deadline e) (rules_deadline-NoLater b rules)
      (rule_deadline-least e best items i)
rules_deadline-least e best (items ∷ rules) (later_rule i) =
    rules_deadline-least e (rule_deadline best items) rules i

better-either : (a b : Option ℕ) → (better a b ≡ a) ⊎ (better a b ≡ b)
unfolding better
better-either a none = inl refl
better-either none (some d) = inr refl
better-either (some b) (some d) =
    if-both (λ o. (o ≡ some b) ⊎ (o ≡ some d)) (ltb d b) (λ _. inr refl) (λ _. inl refl)

rule_deadline-from :
    {N : Type 0} (best : Option ℕ) (items : List (Entry N))
    → (rule_deadline best items ≡ best)
      ⊎ ((e : Entry N) × (InRule e items × (rule_deadline best items ≡ entry_deadline e)))
unfolding rule_deadline
rule_deadline-from best [] = inl refl
rule_deadline-from best (x ∷ items) =
    elim (rule_deadline-from (better best (entry_deadline x)) items) [
      | inr (e, (i, q)) ↦ inr (e, (later_entry i, q))
      | inl q ↦ elim (better-either best (entry_deadline x)) [
        | inl b ↦ inl (q ∙ b)
        | inr b ↦ inr (x, (first_entry, q ∙ b))
      ]
    ]

rules_deadline-from :
    {N : Type 0} (best : Option ℕ) (rules : List (List (Entry N)))
    → (rules_deadline best rules ≡ best)
      ⊎ ((e : Entry N) × (InRules e rules × (rules_deadline best rules ≡ entry_deadline e)))
unfolding rules_deadline
rules_deadline-from best [] = inl refl
rules_deadline-from best (items ∷ rules) =
    elim (rules_deadline-from (rule_deadline best items) rules) [
      | inr (e, (i, q)) ↦ inr (e, (later_rule i, q))
      | inl q ↦ elim (rule_deadline-from best items) [
        | inl b ↦ inl (q ∙ b)
        | inr (e, (i, b)) ↦ inr (e, (first_rule i, q ∙ b))
      ]
    ]

-- A property of the entries of the rules is one of each of them.
in_rule :
    {N : Type 0} (P : Entry N → Type 0) (e : Entry N) (items : List (Entry N))
    → All P items
    → InRule e items
    → P e
in_rule P e [] a i = elim i [ ]
in_rule P e (_ ∷ items) (p, a) first_entry = p
in_rule P e (x ∷ items) (p, a) (later_entry i) = in_rule P e items a i

in_rules :
    {N : Type 0} (P : Entry N → Type 0) (e : Entry N) (rules : List (List (Entry N)))
    → All (All P) rules
    → InRules e rules
    → P e
in_rules P e [] a i = elim i [ ]
in_rules P e (items ∷ rules) (p, a) (first_rule i) = in_rule P e items p i
in_rules P e (items ∷ rules) (p, a) (later_rule i) = in_rules P e rules a i

-- For a program that uses the clock, in which the lengths of windows are within 2^64 - 1,
-- `pb_program_next_clock_deadline` finds a time no later than each at which an entry of a rule is
-- due, and at the time that it finds an entry of a rule is due.
pub next_clock_deadline-least :
    {N : Type 0} (rules : List (List (Entry N)))
    → All (All (λ e. e.ring.window_ms ≤ size_max)) rules
    → ((e : Entry N) (d : ℕ)
        → InRules e rules
        → Due e d
        → (d' : ℕ) × ((next_clock_deadline true rules ≡ some d') × (d' ≤ d)))
      × ((d : ℕ)
          → next_clock_deadline true rules ≡ some d
          → (e : Entry N) × (InRules e rules × Due e d))
unfolding next_clock_deadline
next_clock_deadline-least rules b = (
  λ e d i due. some_before (rules_deadline none rules) d (
      subst (NoLater (rules_deadline none rules)) (entry_deadline_of e d due)
        (rules_deadline-least e none rules i)),
  λ d h. elim (rules_deadline-from none rules) [
    | inl q ↦ cc
    | inr (e, (i, q)) ↦ (
      e,
      (
        i,
        entry_deadline-Due e d (in_rules (λ e. e.ring.window_ms ≤ size_max) e rules b i)
            (sym q ∙ h),
      ),
    )
  ],
)
  where
    some_before :
        (o : Option ℕ) (d : ℕ) → NoLater o (some d) → (d' : ℕ) × ((o ≡ some d') × (d' ≤ d))
    some_before _ d (than {d = d'} p) = (d', (refl, p))
