-- ===== src/Socket/Send/Fill.antt =====
-- The loops of `send` put the message into the chunks.
use mathlib.Core.List.{append_assoc, append-nil, map-append}
use workd.Prelude.{
  ℕ, zero, suc, ◌+◌, ◌-◌, ◌^◌, ◌≤◌, ◌<◌, ◌≡◌, refl, sym, ap, ◌∙◌, List, [], ◌∷◌, ◌++◌, map, ltb,
  length, length-append, drop, length-drop, drop_all, ltb→ge, drop-drop, take-append-drop, u32, All,
  All-append, arith, ltb→lt, ge→ltb, Bool-cases, inl, inr,
}
use workd.Prelude.Outcome.{ok}
use workd.Memory.Chunk
use workd.Memory.Chunk.{Chunk}
use workd.Memory.Chunk.Laws.{IsValid, written, Wrote, write_lem, full→eq, full→ne}
use workd.Socket.Send.{total, fill_buffer, fill}

-- The bytes in front of the cursors, in the order of the chunks.
abbrev pub content : List Chunk → List ℕ
content [] = []
content (c ∷ cs) = written c ++ content cs

content-append : (xs ys : List Chunk) → content (xs ++ ys) ≡ content xs ++ content ys
content-append [] ys = refl
content-append (x ∷ xs) ys =
    ap (◌++◌ (written x)) (content-append xs ys)
    ∙ sym (append_assoc (written x) (content xs) (content ys))

-- A chunk that nothing has been put in, and that has room.
abbrev pub IsFresh : Chunk → Type 0
IsFresh c = IsValid c × (c.offset ≡ 0) × (0 < c.bytes)

-- The chunks from the iterator on: only the first may hold bytes, and it has room too.
abbrev pub Open : List Chunk → Type 0
Open [] = Unit {0}
Open (c ∷ cs) = IsValid c × (c.offset < c.bytes) × All IsFresh cs

abbrev pub room : List Chunk → ℕ
room [] = 0
room (c ∷ cs) = (c.bytes - c.offset) + room cs

-- What a chunk keeps while it is written.
abbrev pub identity : Chunk → ℕ × ℕ × ℕ
identity c = (c.buffer, c.bytes, c.lkey)

pub Open-fresh : (cs : List Chunk) → All IsFresh cs → Open cs
Open-fresh [] h = tt
Open-fresh (c ∷ cs) h = (h.0.0, omega arith, h.1)

pub content-fresh : (cs : List Chunk) → All IsFresh cs → content cs ≡ []
content-fresh [] h = refl
content-fresh (c ∷ cs) h = rw (h.0.1, content-fresh cs h.1)

-- What a loop has done with the bytes `src`, from `done` and `rest` on.
pub record Filled (done rest : List Chunk) (src : List ℕ) (out : List Chunk × List Chunk)
    : Type 0 where
  pub valid : All IsValid out.0
  pub ahead : Open out.1
  pub content_out : content (out.0 ++ out.1) ≡ content (done ++ rest) ++ src
  pub room_out : room out.1 + length src ≡ room rest
  pub same : map identity (out.0 ++ out.1) ≡ map identity (done ++ rest)

module _ (c : Chunk) (buf : List ℕ) (copied n : ℕ) (r : ℕ × Chunk)
    (w : Wrote c (drop copied buf) n r) where
  -- What one call of `write` takes from the rest of the buffer goes behind the content.
  content-write :
      (done cs : List Chunk)
      → content cs ≡ []
      → content (done ++ r.1 ∷ cs) ++ drop (copied + r.0) buf
        ≡ content (done ++ c ∷ cs) ++ drop copied buf
  content-write done cs e =
      rw
        (
          content-append done (r.1 ∷ cs),
          content-append done (c ∷ cs),
          e,
          append-nil (written r.1),
          append-nil (written c),
          w.content,
          ← drop-drop r.0 copied buf,
        )
        (simp append_assoc (rw (take-append-drop r.0 (drop copied buf))))

  identity-write :
      (done cs : List Chunk) → map identity (done ++ r.1 ∷ cs) ≡ map identity (done ++ c ∷ cs)
  identity-write done cs = rw (
    map-append identity done (r.1 ∷ cs),
    map-append identity done (c ∷ cs),
    w.place,
    w.size,
    w.key,
  )

Filled-step :
    (done' rest' done rest : List Chunk) (src' src : List ℕ) (out : List Chunk × List Chunk)
    → content (done' ++ rest') ++ src' ≡ content (done ++ rest) ++ src
    → room rest' + length src ≡ room rest + length src'
    → map identity (done' ++ rest') ≡ map identity (done ++ rest)
    → Filled done' rest' src' out
    → Filled done rest src out
Filled-step done' rest' done rest src' src out e k i f = record {
  valid = f.valid;
  ahead = f.ahead;
  content_out = f.content_out ∙ e;
  room_out = omega (arith, f.room_out, k);
  same = f.same ∙ i;
}

Filled-none :
    (done rest : List Chunk) (src : List ℕ)
    → All IsValid done
    → Open rest
    → src ≡ []
    → Filled done rest src (done, rest)
Filled-none done rest src vd vr e = record {
  valid = vd;
  ahead = vr;
  content_out = rw (e, append-nil (content (done ++ rest)));
  room_out = omega (arith, ap length e);
  same = refl;
}

fill_buffer-Filled :
    (fuel : ℕ) (buf : List ℕ) (copied : ℕ) (done rest : List Chunk)
    → All IsValid done
    → Open rest
    → length buf < 2 ^ 32
    → copied ≤ length buf
    → length buf - copied ≤ room rest
    → length buf - copied < fuel
    → (out : List Chunk × List Chunk) × (fill_buffer fuel buf copied done rest ≡ ok out)
      × Filled done rest (drop copied buf) out
unfolding fill_buffer
fill_buffer-Filled zero buf copied done rest vd vr small le fits h = absurd (omega arith)
fill_buffer-Filled (suc fuel) buf copied done [] vd vr small le fits h = (
  (done, []),
  rw (ge→ltb copied (length buf) (omega arith), fill_buffer),
  Filled-none done [] (drop copied buf) vd vr (drop_all copied buf (omega arith)),
)
fill_buffer-Filled (suc fuel) buf copied done (c ∷ cs) vd vr small le fits h =
    elim (Bool-cases (ltb copied (length buf))) [
      | inr stop ↦ (
        (done, c ∷ cs),
        rw (stop, fill_buffer),
        Filled-none done (c ∷ cs) (drop copied buf) vd vr
            (drop_all copied buf (ltb→ge copied (length buf) stop)),
      )
      | inl more ↦ elim (Bool-cases (Chunk.full r.1)) [
        | inl f ↦
            let (out, e, filled) =
              fill_buffer-Filled fuel buf (copied + r.0) (done ++ r.1 ∷ []) cs
                (All-append IsValid done (r.1 ∷ []) vd (w.valid, tt)) (Open-fresh cs vr.2) small
                (omega
                  (arith, w.count, w.moved, w.size, ltb→lt copied (length buf) more, full→eq r.1 f))
                (omega
                  (arith, w.count, w.moved, w.size, ltb→lt copied (length buf) more, full→eq r.1 f))
                (omega (
                  arith,
                  w.count,
                  w.moved,
                  w.size,
                  ltb→lt copied (length buf) more,
                  full→eq r.1 f,
                )) in
            (
              out,
              rw (more, f, wraps, fill_buffer) e,
              Filled-step (done ++ r.1 ∷ []) cs done (c ∷ cs) (drop (copied + r.0) buf)
                  (drop copied buf) out
                  (rw append_assoc
                    (content-write c buf copied n r w done cs (content-fresh cs vr.2)))
                  (omega (
                    arith,
                    w.count,
                    w.moved,
                    w.size,
                    full→eq r.1 f,
                    length-drop copied buf,
                    length-drop (copied + r.0) buf,
                  ))
                  (rw append_assoc (identity-write c buf copied n r w done cs)) filled,
            )
        | inr f ↦
            let (out, e, filled) =
              fill_buffer-Filled fuel buf (copied + r.0) done (r.1 ∷ cs) vd
                (w.valid, (omega (arith, w.valid.cursor, full→ne r.1 f)), vr.2) small
                (omega (arith, w.count, w.moved, w.size, ltb→lt copied (length buf) more))
                (omega (arith, w.count, w.moved, w.size, ltb→lt copied (length buf) more))
                (omega (arith, w.count, w.moved, w.size, ltb→lt copied (length buf) more)) in
            (
              out,
              rw (more, f, wraps, fill_buffer) e,
              Filled-step done (r.1 ∷ cs) done (c ∷ cs) (drop (copied + r.0) buf) (drop copied buf)
                  out (content-write c buf copied n r w done cs (content-fresh cs vr.2))
                  (omega (
                    arith,
                    w.count,
                    w.moved,
                    w.size,
                    length-drop copied buf,
                    length-drop (copied + r.0) buf,
                  ))
                  (identity-write c buf copied n r w done cs) filled,
            )
      ]
    ]
  where
    n : ℕ
    n = length buf - copied

    r : ℕ × Chunk
    r = Chunk.write c (drop copied buf) n

    w : Wrote c (drop copied buf) n r
    w = write_lem c (drop copied buf) n vr.0 (omega (arith, length-drop copied buf))

    wraps : u32 (copied + r.0) ≡ copied + r.0
    wraps = omega (arith, w.count)

-- The bytes of a message.
abbrev pub message : List (List ℕ) → List ℕ
message [] = []
message (b ∷ bl) = b ++ message bl

pub length-message : (bl : List (List ℕ)) → length (message bl) ≡ total bl
unfolding total
length-message [] = refl
length-message (b ∷ bl) = omega (arith, length-append b (message bl), length-message bl)

-- With room for the whole message and fuel for its longest buffer the loops return, and the
-- message stands in the chunks, in order.
pub fill-Filled :
    (fuel : ℕ) (bl : List (List ℕ)) (done rest : List Chunk)
    → All IsValid done
    → Open rest
    → All (λ b. (length b < 2 ^ 32) × (length b < fuel)) bl
    → total bl ≤ room rest
    → (out : List Chunk × List Chunk) × (fill fuel bl done rest ≡ ok out)
      × Filled done rest (message bl) out
unfolding fill total
fill-Filled fuel [] done rest vd vr h fits =
    ((done, rest), refl, Filled-none done rest [] vd vr refl)
fill-Filled fuel (b ∷ bl) done rest vd vr h fits =
    let (out, e, f) =
      fill_buffer-Filled fuel b 0 done rest vd vr h.0.0 (omega arith) (omega arith)
        (omega (arith, h.0.1)) in
    let (out', e', f') =
      fill-Filled fuel bl out.0 out.1 f.valid f.ahead h.1 (omega (arith, f.room_out)) in
    (
      out',
      rw (e, fill) e',
      Filled-step out.0 out.1 done rest (message bl) (b ++ message bl) out'
          (rw f.content_out (append_assoc (content (done ++ rest)) b (message bl)))
          (omega (arith, f.room_out, length-append b (message bl))) f.same f',
    )
