-- ===== src/Router/Publish/Deliver/Output.antt =====
-- What one delivery does to the output of the connection.
use monoblok.Shared.{
  ℕ, ◌+◌, ◌-◌, ◌≤◌, ◌≡◌, refl, sym, ap, subst, ◌∙◌, inl, inr, Bool, true, not, ◌&&◌, ◌||◌, Option,
  none, some, [], append-nil, arith, Bytes, length, ltb, leb, ◌==◌, if◌then◌else◌, size_max,
  Bool-cases, length-append, if-both,
}
use monoblok.Buffer.{Buf}
use monoblok.Buffer.Laws.{IsValid}
use monoblok.Proto.Frame.{msg_frame_len, write_msg}
use monoblok.Proto.Frame.Laws.{frame, msg_frame_len-eq}
use monoblok.Proto.Frame.Whole.{write_msg-Keeps}
use monoblok.Router.Match.{lvc_prefix}
use monoblok.Router.State.{Conn, Sub, World, update, max_pending}
use monoblok.Router.Publish.Deliver.{
  Progress, queue_conn_close, note_kick, measure, write, deliver_frame, deliver_measured,
  deliver_to_sub,
}
use monoblok.Router.Evolve.{
  Extends, Evolves, Evolved, Evolves-kept, Evolved-refl, Evolved-trans, update-Evolves,
}

pub queue_conn_close-Evolved : (p : Progress) (c : ℕ) → Evolved p.world (queue_conn_close p c).world
unfolding queue_conn_close
queue_conn_close-Evolved p c =
    let w = p.world in
    let conn = w.conns c in
    elim (Bool-cases (conn.closed)) [
      | inl a ↦ rw a (Evolved-refl w)
      | inr a ↦
          elim (Bool-cases (not conn.has_close || conn.close_seen_epoch == w.router.kick_epoch)) [
            | inl b ↦ rw (a, b) marked
            | inr b ↦ elim (Bool-cases (leb w.router.close_cap (length p.closed))) [
              | inl d ↦ rw (a, b, d) marked
              | inr d ↦
                  rw (a, b, d)
                    (update-Evolves w.conns c
                      (record conn { closed = true; close_seen_epoch = w.router.kick_epoch })
                      (Evolves-kept conn _ refl refl refl (λ h. refl)))
            ]
          ]
    ]
  where
    marked :
        (k : ℕ)
        → Evolves
            (p.world.conns k)
            (update p.world.conns c (record (p.world.conns c) { closed = true }) k)
    marked =
        update-Evolves p.world.conns c (record (p.world.conns c) { closed = true })
          (Evolves-kept (p.world.conns c) _ refl refl refl (λ h. refl))

pub note_kick-Evolved : (p : Progress) (c : ℕ) → Evolved p.world (note_kick p c).world
unfolding note_kick
note_kick-Evolved p c =
    let w = p.world in
    let conn = w.conns c in
    elim (Bool-cases (conn.has_kick && not (conn.kick_seen_epoch == w.router.kick_epoch))) [
      | inl a ↦ rw a (
          update-Evolves w.conns c (record conn { kick_seen_epoch = w.router.kick_epoch })
            (Evolves-kept conn _ refl refl refl (λ h. h)))
      | inr a ↦ rw a (Evolved-refl w)
    ]

-- A frame that fits is written whole, or not at all.
module _ (alloc : ℕ → Bool) (conn : Conn) (prefix subject sid reply_to payload : Bytes) (n : ℕ)
    (small : length payload ≤ size_max)
    (measured : measure conn prefix subject sid reply_to payload ≡ some n)
    (fits : length conn.out.bytes + n ≤ max_pending) where
  abbrev the_frame : Bytes
  the_frame = frame prefix subject sid reply_to payload

  frame_len-eq : conn.msg_len ≡ none → n ≡ length the_frame
  unfolding measure
  frame_len-eq m =
      let e : msg_frame_len (length prefix) subject sid reply_to payload ≡ some n =
        subst
          (λ (o : Option (Bytes → Bytes → Bytes → Bytes → Bytes → Option ℕ)).
            (elim o [
              | none ↦ msg_frame_len (length prefix) subject sid reply_to payload
              | some f ↦ f prefix subject sid reply_to payload
            ])
            ≡ some n)
          m measured in
      let f = msg_frame_len-eq prefix subject sid reply_to payload small in
      elim (Bool-cases (leb (length the_frame) size_max)) [
        | inl a ↦ ground arith
        | inr a ↦ ground arith
      ]

  write_msg-Extends :
      conn.msg_len ≡ none
      → IsValid conn.out
      → Extends conn.out (write_msg alloc conn.out prefix subject sid reply_to payload).1
  write_msg-Extends m v =
      let k = write_msg-Keeps alloc conn.out prefix subject sid reply_to payload v small in
      elim (Bool-cases ((write_msg alloc conn.out prefix subject sid reply_to payload).0)) [
        | inl done ↦ record {
          valid = k.valid;
          bounded = omega (
            arith,
            ap length (k.done done),
            length-append conn.out.bytes the_frame,
            frame_len-eq m,
          );
          rest = the_frame;
          appended = k.done done;
        }
        | inr undone ↦ record {
          valid = k.valid;
          bounded = omega (arith, ap (λ (b : Buf). length b.bytes) (k.undone undone));
          rest = [];
          appended = ap (λ (b : Buf). b.bytes) (k.undone undone) ∙ sym (append-nil conn.out.bytes);
        }
      ]

  pub write-Evolves :
      Evolves conn (record conn { out = (write alloc conn prefix subject sid reply_to payload).1 })
  unfolding write
  write-Evolves = record {
    measures = refl;
    writes = refl;
    stays_closed = λ h. h;
    output = λ m w v h. rw (w, write) (write_msg-Extends m v);
  }

module _ (alloc : ℕ → Bool) (subject payload reply_to : Bytes)
    (small : length payload ≤ size_max) where
  deliver_frame-Evolved :
      (p : Progress) (sub : Sub) (prefix : Bytes) (n : ℕ)
      → measure (p.world.conns sub.conn) prefix subject sub.sid reply_to payload ≡ some n
      → Evolved p.world (deliver_frame alloc p sub prefix subject reply_to payload n).0.world
  unfolding deliver_frame
  deliver_frame-Evolved p sub prefix n m =
      let conn = p.world.conns sub.conn in
      let out = (write alloc conn prefix subject sub.sid reply_to payload).1 in
      let w : World = record (p.world) {
        conns = update p.world.conns sub.conn (record conn { out = out });
      } in
      let q : Progress = record p { world = w } in
      let P : Progress × Sub → Type 0 = λ r. Evolved p.world r.0.world in
      let over =
        ltb max_pending (length conn.out.bytes) || ltb (max_pending - length conn.out.bytes) n in
      if-both P (n == 0) (λ a. Evolved-refl p.world)
        (λ a.
          if-both P over (λ b. queue_conn_close-Evolved p sub.conn)
            (λ b.
              let fits : length conn.out.bytes + n ≤ max_pending = ground arith in
              let written : Evolved p.world w =
                update-Evolves p.world.conns sub.conn (record conn { out = out })
                  (write-Evolves alloc conn prefix subject sub.sid reply_to payload n small m
                    fits) in
              if-both P (not (write alloc conn prefix subject sub.sid reply_to payload).0)
                (λ d. written)
                (λ d.
                  Evolved-trans p.world w (note_kick q sub.conn).world written
                    (note_kick-Evolved q sub.conn))))

  deliver_measured-Evolved :
      (p : Progress) (sub : Sub) (prefix : Bytes) (o : Option ℕ)
      → measure (p.world.conns sub.conn) prefix subject sub.sid reply_to payload ≡ o
      → Evolved p.world (deliver_measured alloc o p sub prefix subject payload reply_to).0.world
  unfolding deliver_measured
  deliver_measured-Evolved p sub prefix none e = Evolved-refl p.world
  deliver_measured-Evolved p sub prefix (some n) e = deliver_frame-Evolved p sub prefix n e

  pub deliver_to_sub-Evolved :
      (p : Progress) (sub : Sub)
      → Evolved p.world (deliver_to_sub alloc p sub subject payload reply_to).0.world
  unfolding deliver_to_sub
  deliver_to_sub-Evolved p sub =
      let prefix = if sub.is_lvc then lvc_prefix else [] in
      deliver_measured-Evolved p sub prefix
        (measure (p.world.conns sub.conn) prefix subject sub.sid reply_to payload) refl
