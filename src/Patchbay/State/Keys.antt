-- ===== src/Patchbay/State/Keys.antt =====
-- The entry that `state_slot` finds or makes.
use monoblok.Shared.{
  ◌<◌, &&_both, ℕ, zero, suc, ◌+◌, ◌*◌, ◌/◌, ◌%◌, ◌≡◌, refl, sym, ap, subst, ◌∙◌, inl, inr, Bool,
  true, not, ◌&&◌, ◌||◌, Option, none, some, List, [], ◌∷◌, ◌++◌, arith, Bytes, length, get_elem?,
  ltb, leb, ◌==◌, if◌then◌else◌, Bool-cases, Option-cases, &&_split, ==_iff, if-both,
  get_elem?-append_left, get_elem?-lt, get_elem?-length,
}
use monoblok.Slice.{slice_eq, slice_eq_iff}
use monoblok.Buffer.{array_reserve}
use monoblok.Router.Index.{slot_at, Found, found, missing, endless}
use monoblok.Patchbay.Entry.{Entry, fresh_entry}
use monoblok.Patchbay.State.{
  State, state_key_eq, state_key_hash, state_index_cap_for, state_index_rebuild, state_index_is,
  state_find_from, state_index_find, scan_items, state_find, state_append, state_create, state_slot,
  false,
}

abbrev position_or : Option ℕ → ℕ
position_or none = 0
position_or (some i) = i

abbrev entry_or : {N : Type 0} → Entry N → Option (Entry N) → Entry N
entry_or x none = x
entry_or x (some e) = e

module _ {N : Type 0} (rule_id : ℕ) (op subject : Bytes) where
  -- An entry of the rule, the operation and the subject stands at a position.
  pub record OfKey (e : Entry N) : Type 0 where
    pub of_rule : e.rule_id ≡ rule_id
    pub of_op : e.op ≡ op
    pub of_subject : e.subject ≡ subject

  pub HasKey : List (Entry N) → ℕ → Type 0
  HasKey items i = (e : Entry N) × ((get_elem? items i ≡ some e) × OfKey e)

  state_key_eq-OfKey : (e : Entry N) → state_key_eq e rule_id op subject ≡ true → OfKey e
  unfolding state_key_eq
  state_key_eq-OfKey e h =
      let (front, s) =
        &&_split (e.rule_id == rule_id && slice_eq e.op op) (slice_eq e.subject subject) h in
      let (r, o) = &&_split (e.rule_id == rule_id) (slice_eq e.op op) front in
      record {
        of_rule = (==_iff e.rule_id rule_id).0 r;
        of_op = (slice_eq_iff e.op op).0 o;
        of_subject = (slice_eq_iff e.subject subject).0 s;
      }

  scan_items-HasKey :
      (items : List (Entry N)) (i : ℕ)
      → scan_items items rule_id op subject ≡ some i
      → HasKey items i
  unfolding scan_items HasKey
  scan_items-HasKey [] i h = cc
  scan_items-HasKey (e ∷ items) i h = elim (Bool-cases (state_key_eq e rule_id op subject)) [
    | inl c ↦
        subst (λ j. HasKey (e ∷ items) j) (ap position_or (rw (c, scan_items) at h))
          (e, (refl, state_key_eq-OfKey e c))
    | inr c ↦ elim (Option-cases (scan_items items rule_id op subject)) [
      | inl q ↦ cc (rw (c, q, scan_items) at h)
      | inr (j, q) ↦
          let (e', (at, k)) = scan_items-HasKey items j q in
          subst (λ j. HasKey (e ∷ items) j) (ap position_or (rw (c, q, scan_items) at h))
            (e', (at, k))
    ]
  ]

  index_is-HasKey :
      (items : List (Entry N)) (hash filed_hash i : ℕ)
      → state_index_is items rule_id op subject hash filed_hash i ≡ true
      → HasKey items i
  unfolding state_index_is HasKey
  index_is-HasKey items hash filed_hash i h = elim (Option-cases (get_elem? items i)) [
    | inl q ↦ absurd (ground (arith, (rw (q, state_index_is) at h)))
    | inr (e, q) ↦ (e, (q, state_key_eq-OfKey e (ground (arith, (rw (q, state_index_is) at h)))))
  ]

  find_from-HasKey :
      (rounds : ℕ) (s : State N) (hash slot i : ℕ)
      → state_find_from rounds s rule_id op subject hash slot ≡ found i
      → HasKey s.items i
  unfolding state_find_from
  find_from-HasKey zero s hash slot i h = cc
  find_from-HasKey (suc rounds) s hash slot i h = elim (Option-cases (slot_at s.index slot)) [
    | inl q ↦ cc (rw (q, state_find_from) at h)
    | inr (e, q) ↦
        elim (Bool-cases (state_index_is s.items rule_id op subject hash e.hash e.index)) [
          | inl c ↦
              let same : e.index ≡ i = ground (arith, (rw (q, c, state_find_from) at h)) in
              subst (λ j. HasKey s.items j) same (index_is-HasKey s.items hash e.hash e.index c)
          | inr c ↦
              find_from-HasKey rounds s hash ((slot + 1) % length s.index) i
                (rw (q, c, state_find_from) at h)
        ]
  ]

  state_find-HasKey :
      (s : State N) (i : ℕ) → state_find s rule_id op subject ≡ some i → HasKey s.items i
  unfolding state_find state_index_find
  state_find-HasKey s i h =
      by_index (state_index_find s rule_id op subject (state_key_hash rule_id op subject)) refl
    where
      by_index :
          (f : Found)
          → state_index_find s rule_id op subject (state_key_hash rule_id op subject) ≡ f
          → HasKey s.items i
      by_index (found j) q = elim (Bool-cases (length s.index == 0)) [
        | inl c ↦ cc (rw (c, state_index_find) at q)
        | inr c ↦
            subst (λ k. HasKey s.items k) (ap position_or (rw (q, state_find) at h))
              (find_from-HasKey (length s.index) s (state_key_hash rule_id op subject)
                (state_key_hash rule_id op subject % length s.index) j
                (rw (c, state_index_find) at q))
      ]
      by_index missing q = elim (Bool-cases (length s.index == 0)) [
        | inl c ↦ scan_items-HasKey s.items i (rw (q, c, state_find) at h)
        | inr c ↦ cc (rw (q, c, state_find) at h)
      ]
      by_index endless q = cc (rw (q, state_find) at h)

  OfKey-state_key_eq : (e : Entry N) → OfKey e → state_key_eq e rule_id op subject ≡ true
  unfolding state_key_eq
  OfKey-state_key_eq e k =
      &&_both (e.rule_id == rule_id && slice_eq e.op op) (slice_eq e.subject subject)
        (&&_both (e.rule_id == rule_id) (slice_eq e.op op) ((==_iff e.rule_id rule_id).1 k.of_rule)
          ((slice_eq_iff e.op op).1 k.of_op))
        ((slice_eq_iff e.subject subject).1 k.of_subject)

  -- The scan finds an entry of the key where there is one.
  scan_items-finds :
      (items : List (Entry N)) (j : ℕ)
      → HasKey items j
      → (i : ℕ) × (scan_items items rule_id op subject ≡ some i)
  unfolding scan_items HasKey
  scan_items-finds [] j (e, (at, k)) = cc
  scan_items-finds (x ∷ items) zero (e, (at, k)) =
      let c : state_key_eq x rule_id op subject ≡ true =
        subst (λ y. state_key_eq y rule_id op subject ≡ true) (sym (ap (entry_or x) at))
          (OfKey-state_key_eq e k) in
      (0, rw (c, scan_items) refl)
  scan_items-finds (x ∷ items) (suc j) (e, (at, k)) =
      let (i, q) = scan_items-finds items j (e, (at, k)) in
      elim (Bool-cases (state_key_eq x rule_id op subject)) [
        | inl c ↦ (0, rw (c, scan_items) refl)
        | inr c ↦ (suc i, rw (c, q, scan_items) refl)
      ]

  -- In a state that is too small for an index, a key that is there gets no second entry.
  pub Once : State N → Option ℕ × State N → Type 0
  Once s o =
      (j : ℕ)
      → HasKey s.items j
      → length s.index ≡ 0
      → length s.items < 8
      → (o.1.items ≡ s.items) × ((i : ℕ) × (o.0 ≡ some i))

  unfiled :
      (s : State N)
      → (length s.index == 0) ≡ true
      → state_index_find s rule_id op subject (state_key_hash rule_id op subject) ≡ missing
  unfolding state_index_find
  unfiled s c = rw (c, state_index_find) refl

  state_find-finds :
      (s : State N) (j : ℕ)
      → HasKey s.items j
      → length s.index ≡ 0
      → (i : ℕ) × (state_find s rule_id op subject ≡ some i)
  unfolding state_find
  state_find-finds s j h e =
      let none_filed : (length s.index == 0) ≡ true = (==_iff (length s.index) 0).1 e in
      let (i, q) = scan_items-finds s.items j h in
      (i, rw (unfiled s none_filed, state_find) (rw none_filed q))

  -- What `state_slot` leaves: every entry where it was, and at the position that it answers an entry of
  -- the key.
  pub record Slots (s : State N) (o : Option ℕ × State N) : Type 0 where
    pub kept : (j : ℕ) (e : Entry N) → get_elem? s.items j ≡ some e → get_elem? o.1.items j ≡ some e
    pub right : (i : ℕ) → o.0 ≡ some i → HasKey o.1.items i

  module _ (z : N) (alloc : ℕ → Bool) where
    state_index_rebuild-items :
        (s : State N) (n : ℕ) → (state_index_rebuild alloc s n).1.items ≡ s.items
    unfolding state_index_rebuild
    state_index_rebuild-items s n =
        if-both {A = Bool × State N} (λ o. o.1.items ≡ s.items)
          (not (length s.index == 0) && ltb n (length s.index / 2)) (λ _. refl)
          (λ _. elim (Option-cases (state_index_cap_for n)) [
            | inl q ↦ rw q refl
            | inr (cap, q) ↦ rw q (
                if-both {A = Bool × State N} (λ o. o.1.items ≡ s.items) (alloc (cap * 24))
                  (λ _. refl) (λ _. refl))
          ])

    fresh_entry-OfKey : OfKey (fresh_entry z rule_id op subject)
    unfolding fresh_entry
    fresh_entry-OfKey = record { of_rule = refl; of_op = refl; of_subject = refl }

    state_append-Slots : (s : State N) → Slots s (state_append z alloc s rule_id op subject)
    unfolding state_append HasKey
    state_append-Slots s =
        let e = fresh_entry z rule_id op subject in
        let copied : Bool =
          alloc (if length op == 0 then 1 else length op)
          && alloc (if length subject == 0 then 1 else length subject) in
        elim (Option-cases (array_reserve alloc s.cap (length s.items + 1) 328 8)) [
          | inl q ↦ rw (q, state_append) (record { kept = λ j x h. h; right = λ i h. cc })
          | inr (cap, q) ↦
              rw (q, state_append)
                (if-both {A = Option ℕ × State N} (Slots s) copied
                  (λ _. record {
                    kept = λ j x h.
                        get_elem?-append_left s.items (e ∷ []) j (get_elem?-lt s.items j x h) ∙ h;
                    right = λ i h. (
                      e,
                      (
                        ap (get_elem? (s.items ++ e ∷ [])) (sym (ap position_or h))
                            ∙ get_elem?-length s.items [] e,
                        fresh_entry-OfKey,
                      ),
                    );
                  })
                  (λ _. record { kept = λ j x h. h; right = λ i h. cc }))
        ]

    -- `Slots` speaks of the entries of the state before only.
    Slots-same :
        (s s' : State N) (o : Option ℕ × State N) → s'.items ≡ s.items → Slots s' o → Slots s o
    Slots-same s s' o e w = record {
      kept = λ j x h. w.kept j x (ap (λ is. get_elem? is j) e ∙ h);
      right = w.right;
    }

    state_create-Slots : (s : State N) → Slots s (state_create z alloc s rule_id op subject)
    unfolding state_create
    state_create-Slots s =
        let o : Bool × State N =
          if not (length s.index == 0) || leb 8 (length s.items)
          then state_index_rebuild alloc s (length s.items + 1)
          else (true, s) in
        let same : o.1.items ≡ s.items =
          if-both {A = Bool × State N} (λ o. o.1.items ≡ s.items)
            (not (length s.index == 0) || leb 8 (length s.items))
            (λ _. state_index_rebuild-items s (length s.items + 1)) (λ _. refl) in
        if-both {A = Option ℕ × State N} (Slots s) o.0
          (λ _.
            Slots-same s o.1 (state_append z alloc o.1 rule_id op subject) same
              (state_append-Slots o.1))
          (λ _. record { kept = λ j x h. ap (λ is. get_elem? is j) same ∙ h; right = λ i h. cc })

    state_slot_kept : (s : State N) → Slots s (state_slot z alloc s rule_id op subject)
    unfolding state_slot
    state_slot_kept s =
        let s' : State N =
          if length s.index == 0 && leb 8 (length s.items)
          then (state_index_rebuild alloc s (length s.items)).1
          else s in
        let same : s'.items ≡ s.items =
          if-both {A = State N} (λ x. x.items ≡ s.items)
            (length s.index == 0 && leb 8 (length s.items))
            (λ _. state_index_rebuild-items s (length s.items)) (λ _. refl) in
        elim (Option-cases (state_find s' rule_id op subject)) [
          | inl q ↦
              rw (q, state_slot)
                (Slots-same s s' (state_create z alloc s' rule_id op subject) same
                  (state_create-Slots s'))
          | inr (i, q) ↦
              rw (q, state_slot)
                (record {
                  kept = λ j x h. ap (λ is. get_elem? is j) same ∙ h;
                  right = λ k h.
                      subst (λ k. HasKey s'.items k) (ap position_or h) (state_find-HasKey s' i q);
                })
        ]

    state_slot-Once : (s : State N) → Once s (state_slot z alloc s rule_id op subject)
    unfolding Once state_slot
    state_slot-Once s j h e small =
        let no_rebuild : leb 8 (length s.items) ≡ false = ground arith in
        let none_filed : (length s.index == 0) ≡ true = (==_iff (length s.index) 0).1 e in
        let (i, q) = state_find-finds s j h e in
        let s' : State N =
          if length s.index == 0 && leb 8 (length s.items)
          then (state_index_rebuild alloc s (length s.items)).1
          else s in
        let same : s' ≡ s = rw (none_filed, no_rebuild) refl in
        rw (ap (λ x. state_find x rule_id op subject) same ∙ q, state_slot)
          (ap (λ x. x.items) same, (i, refl))

    -- `state_slot` answers the position of an entry of the rule, the operation and the subject that
    -- are asked for, or NULL; every entry that there was stands where it stood and is unchanged,
    -- whatever the index says and wherever memory is refused. In a state without an index and with
    -- fewer than 8 entries, one that is there already is answered, and none is made.
    pub state_slot-Slots :
        (s : State N)
        → Slots s (state_slot z alloc s rule_id op subject)
          × Once s (state_slot z alloc s rule_id op subject)
    state_slot-Slots s = (state_slot_kept s, state_slot-Once s)
