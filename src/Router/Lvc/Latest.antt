-- ===== src/Router/Lvc/Latest.antt =====
-- What `mb_router_lvc_latest` answers after a value was stored.
use monoblok.Shared.{
  ℕ, ◌≡◌, inl, inr, Bool, true, false, not, ◌||◌, none, some, List, [], ◌∷◌, arith, Bytes,
  if◌then◌else◌, Bool-cases,
}
use monoblok.Slice.{slice_eq, slice_eq_iff}
use monoblok.Proto.Subjects.{subject_valid}
use monoblok.Router.Lvc.{
  Lvc, lvc_store, lvc_latest, cached_subject, lvc_subject_enabled, any_matches, any_stats_matches,
  lvc_stats_subject_enabled,
}
use monoblok.Router.Lvc.Valid.{IsValid}
use monoblok.Router.Lvc.Values.{value_of, payload_at-locate}
use monoblok.Router.Lvc.Store.{lvc_store-Stored}

any_stats_matches→ :
    (filters : List Bytes) (s : Bytes)
    → any_stats_matches filters s ≡ true
    → any_matches filters s ≡ true
unfolding any_matches any_stats_matches
any_stats_matches→ [] s h = h
any_stats_matches→ (f ∷ filters) s h = ground (arith, any_stats_matches→ filters s)

-- What is cached can also be read.
cached→enabled : (l : Lvc) (s : Bytes) → cached_subject l s ≡ true → lvc_subject_enabled l s ≡ true
unfolding cached_subject lvc_stats_subject_enabled lvc_subject_enabled
cached→enabled l s h = ground (arith, any_stats_matches→ l.filters s)

enabled-same :
    (l l' : Lvc) (s : Bytes)
    → (l'.filters ≡ l.filters) × (l'.enabled ≡ l.enabled)
    → lvc_subject_enabled l' s ≡ lvc_subject_enabled l s
unfolding lvc_subject_enabled
enabled-same l l' s (f, e) = rw (f, e)

-- The subject of a value that was cached is valid.
stored-valid :
    (alloc : ℕ → Bool) (l : Lvc) (s p : Bytes)
    → cached_subject l s ≡ true
    → (lvc_store alloc l s p).0 ≡ true
    → subject_valid s false ≡ true
unfolding lvc_store
stored-valid alloc l s p c h = ground arith

latest-value :
    (l : Lvc) (t : Bytes)
    → IsValid l
    → lvc_latest l t ≡ (
        if not (subject_valid t false) || not (lvc_subject_enabled l t)
        then none
        else value_of l.entries t)
unfolding lvc_latest
latest-value l t v = rw (payload_at-locate l t v)

-- On a valid cache, after `lvc_store` returned true for a subject that it caches, the latest value
-- of the subject is the one stored, and that of any other subject is what it was.
pub lvc_latest-lvc_store :
    (alloc : ℕ → Bool) (l : Lvc) (s p : Bytes)
    → IsValid l
    → cached_subject l s ≡ true
    → (lvc_store alloc l s p).0 ≡ true
    → (t : Bytes)
    → lvc_latest (lvc_store alloc l s p).1 t ≡ (if slice_eq s t then some p else lvc_latest l t)
lvc_latest-lvc_store alloc l s p v c ok t =
    let st = lvc_store-Stored alloc l s p v c in
    rw
      (
        latest-value (lvc_store alloc l s p).1 t st.valid,
        latest-value l t v,
        st.value ok t,
        enabled-same l (lvc_store alloc l s p).1 t st.filters,
      )
      (elim (Bool-cases (slice_eq s t)) [
        | inl same ↦
            rw (
              same,
              ← (slice_eq_iff s t).0 same,
              stored-valid alloc l s p c ok,
              cached→enabled l s c,
            )
        | inr other ↦ rw other
      ])
