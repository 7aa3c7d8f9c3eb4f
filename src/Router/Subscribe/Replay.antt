-- ===== src/Router/Subscribe/Replay.antt =====
-- What the replay of cached values does to the output of a connection.
use monoblok.Shared.{
  ℕ, ◌+◌, ◌-◌, ◌≤◌, ◌≡◌, refl, sym, ap, ◌∙◌, inl, inr, Bool, not, ◌||◌, Option, none, some, List,
  [], ◌∷◌, ◌++◌, append-nil, append_assoc, arith, Bytes, length, ltb, leb, size_max, Bool-cases,
  length-append, if-both,
}
use monoblok.Buffer.{Buf}
use monoblok.Buffer.Laws.{IsValid}
use monoblok.Proto.Frame.{msg_frame_len, write_msg}
use monoblok.Proto.Frame.Laws.{frame, msg_frame_len-eq}
use monoblok.Proto.Frame.Whole.{write_msg-Keeps}
use monoblok.Router.Match.{lvc_prefix, subject_matches}
use monoblok.Router.Lvc.{Lvc, LvcEntry, lvc_subject_enabled}
use monoblok.Router.Lvc.Entries.{Bufs}
use monoblok.Router.State.{max_pending}
use monoblok.Router.Evolve.{Extends, Extends-refl}
use monoblok.Router.Subscribe.{emit_framed, emit_entries}

-- The output is extended by a frame that was measured and found to fit.
module _ (alloc : ℕ → Bool) (out : Buf) (subject sid payload : Bytes) (v : IsValid out)
    (small : length payload ≤ size_max) where
  abbrev the_frame : Bytes
  the_frame = frame lvc_prefix subject sid [] payload

  frame_len-eq :
      (n : ℕ)
      → msg_frame_len (length lvc_prefix) subject sid [] payload ≡ some n
      → n ≡ length the_frame
  frame_len-eq n m =
      let f = msg_frame_len-eq lvc_prefix subject sid [] payload small in
      elim (Bool-cases (leb (length the_frame) size_max)) [
        | inl a ↦ ground arith
        | inr a ↦ ground arith
      ]

  write_msg-Extends :
      (n : ℕ)
      → msg_frame_len (length lvc_prefix) subject sid [] payload ≡ some n
      → length out.bytes + n ≤ max_pending
      → Extends out (write_msg alloc out lvc_prefix subject sid [] payload).1
  write_msg-Extends n m fits =
      let k = write_msg-Keeps alloc out lvc_prefix subject sid [] payload v small in
      elim (Bool-cases ((write_msg alloc out lvc_prefix subject sid [] payload).0)) [
        | inl done ↦ record {
          valid = k.valid;
          bounded =
              omega (
                arith,
                ap length (k.done done),
                length-append out.bytes the_frame,
                frame_len-eq n m,
              );
          rest = the_frame;
          appended = k.done done;
        }
        | inr undone ↦ record {
          valid = k.valid;
          bounded = omega (arith, ap (λ (b : Buf). length b.bytes) (k.undone undone));
          rest = [];
          appended = ap (λ (b : Buf). b.bytes) (k.undone undone) ∙ sym (append-nil out.bytes);
        }
      ]

  emit_framed-Extends :
      length out.bytes ≤ max_pending
      → (o : Option ℕ) (emitted : Bool × Buf)
      → msg_frame_len (length lvc_prefix) subject sid [] payload ≡ o
      → (Extends out (write_msg alloc out lvc_prefix subject sid [] payload).1
          → Extends out emitted.1)
      → Extends out
          (emit_framed alloc o out
            (write_msg alloc out lvc_prefix subject sid [] payload)
            emitted).1
  unfolding emit_framed
  emit_framed-Extends b none emitted m go = Extends-refl out v b
  emit_framed-Extends b (some n) emitted m go =
      let P : Bool × Buf → Type 0 = λ r. Extends out r.1 in
      let over = ltb max_pending (length out.bytes) || ltb (max_pending - length out.bytes) n in
      if-both P over (λ x. Extends-refl out v b)
        (λ x.
          let w = write_msg-Extends n m (ground arith) in
          if-both P ((write_msg alloc out lvc_prefix subject sid [] payload).0) (λ y. go w)
            (λ y. w))

Extends-trans : (a b c : Buf) → Extends a b → Extends b c → Extends a c
Extends-trans a b c p q = record {
  valid = q.valid;
  bounded = q.bounded;
  rest = p.rest ++ q.rest;
  appended = q.appended ∙ ap (λ z. z ++ q.rest) p.appended ∙ append_assoc a.bytes p.rest q.rest;
}

-- From an output that is valid and within `max_pending`, the replay of cached values whose buffers are
-- valid leaves one that is valid and within `max_pending` and has the old output as a prefix, also
-- where it fails.
pub emit_entries-Extends :
    (alloc : ℕ → Bool) (lvc : Lvc) (filter sid : Bytes) (entries : List LvcEntry) (out : Buf)
    → Bufs entries
    → IsValid out
    → length out.bytes ≤ max_pending
    → Extends out (emit_entries alloc lvc filter sid entries out).1
unfolding emit_entries
emit_entries-Extends alloc lvc filter sid [] out h v b = Extends-refl out v b
emit_entries-Extends alloc lvc filter sid (e ∷ entries) out h v b =
    let P : Bool × Buf → Type 0 = λ r. Extends out r.1 in
    let next = (write_msg alloc out lvc_prefix e.subject sid [] e.payload.bytes).1 in
    let skipped = emit_entries-Extends alloc lvc filter sid entries out h.1 v b in
    let emitted = emit_entries-Extends alloc lvc filter sid entries next h.1 in
    if-both P (not (lvc_subject_enabled lvc e.subject) || not (subject_matches filter e.subject))
      (λ x. skipped)
      (λ x.
        emit_framed-Extends alloc out e.subject sid e.payload.bytes v
          (omega (arith, h.0.within, h.0.in_range)) b
          (msg_frame_len (length lvc_prefix) e.subject sid [] e.payload.bytes)
          (emit_entries alloc lvc filter sid entries next) refl
          (λ w. Extends-trans out next _ w (emitted w.valid w.bounded)))
