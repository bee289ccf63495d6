-- ===== src/Network/SendTo/Front.antt =====
-- What `BufferSendTo` sends and what it keeps.
use zltool_kit.Kit.{
  ℕ, ◌+◌, ◌-◌, ◌≤◌, ◌<◌, ◌≡◌, refl, sym, ap, ◌∙◌, Bool, true, false, List, [], ◌∷◌, ◌++◌, Option,
  none, some, All, ◌==◌, length, take, drop, inl, inr, Bool-cases, pick_false, arith, append_assoc,
  take-append-drop, drop-drop, take_all, length-drop, take-append_le,
}
use mathlib.Core.Path.{subst}
use zltool_kit.Buffer.Laws.{drop-append_le}
use zltool_kit.Network.Kernel.{Answer, room, interrupted, refused, Chunk}
use zltool_kit.Network.SendMsg.{calls_for, ids_of, bytes_of}
use zltool_kit.Network.SendTo.{SendTo, sent_now, advance, send_to}

-- The offset is inside the front buffer, and no buffer is empty.
abbrev pub IsInside : ℕ → List Chunk → Type 0
IsInside offset [] = offset ≡ 0
IsInside offset (c ∷ cs) = (offset < length c.rest) × All (λ c. 0 < length c.rest) cs

-- Answers that end in a refusal, none of them with no room.
abbrev pub IsFair : List Answer → Type 0
IsFair [] = 1 ≤ 0
IsFair (interrupted ∷ rest) = IsFair rest
IsFair (refused e ∷ rest) = Unit
IsFair (room r ∷ rest) = (0 < r) × IsFair rest

pub record Forwards (s t : SendTo) : Type 0 where
  pub inside : IsInside t.offset t.chunks
  pub bytes :
      t.wire ++ drop t.offset (bytes_of t.chunks) ≡ s.wire ++ drop s.offset (bytes_of s.chunks)
  pub calls :
      t.called ++ calls_for true (ids_of t.chunks) ≡ s.called ++ calls_for true (ids_of s.chunks)

start-IsInside : (cs : List Chunk) → All (λ c. 0 < length c.rest) cs → IsInside 0 cs
start-IsInside [] v = refl
start-IsInside (c ∷ cs) v = v

advance-Forwards :
    (n : ℕ) (c : Chunk) (cs : List Chunk) (s : SendTo)
    → s.chunks ≡ c ∷ cs
    → IsInside s.offset (c ∷ cs)
    → n ≤ length c.rest - s.offset
    → Forwards s (advance n c cs s)
unfolding advance
advance-Forwards n c cs s e v h =
    let within : s.offset ≤ length c.rest = omega (arith, v.0) in
    let start : drop s.offset (bytes_of s.chunks) ≡ drop s.offset c.rest ++ bytes_of cs =
      ap (λ x. drop s.offset (bytes_of x)) e
      ∙ drop-append_le s.offset c.rest (bytes_of cs) within in
    elim (Bool-cases ((s.offset + n) == length c.rest)) [
      | inl all ↦
          let whole : take n (drop s.offset c.rest) ≡ drop s.offset c.rest =
            take_all n (drop s.offset c.rest) (ground (arith, length-drop s.offset c.rest)) in
          rw (all, whole)
            (record {
              inside = start-IsInside cs v.1;
              bytes =
                  append_assoc s.wire (drop s.offset c.rest) (bytes_of cs)
                  ∙ ap (◌++◌ s.wire) (sym start);
              calls =
                  append_assoc s.called ((c.id, true) ∷ []) (calls_for true (ids_of cs))
                  ∙ ap (λ x. s.called ++ calls_for true (ids_of x)) (sym e);
            })
      | inr part ↦
          let all = bytes_of s.chunks in
          let short : n ≤ length (drop s.offset c.rest) =
            omega (arith, h, length-drop s.offset c.rest) in
          let sent : take n (drop s.offset c.rest) ≡ take n (drop s.offset all) =
            sym (ap (take n) start ∙ take-append_le n (drop s.offset c.rest) (bytes_of cs) short) in
          rw (part, sent)
            (record {
              inside = subst (IsInside (s.offset + n)) (sym e) (ground (arith, v.0), v.1);
              bytes =
                  append_assoc s.wire (take n (drop s.offset all)) (drop (s.offset + n) all)
                  ∙ ap (λ x. s.wire ++ (take n (drop s.offset all) ++ x))
                      (sym (drop-drop s.offset n all))
                  ∙ ap (◌++◌ s.wire) (take-append-drop n (drop s.offset all));
              calls = refl;
            })
    ]

sent_now-bounds :
    (udp : Bool) (left r : ℕ)
    → 0 < left
    → 0 < r
    → (0 < sent_now udp left r) × (sent_now udp left r ≤ left)
sent_now-bounds true left r a b = (a, omega arith)
sent_now-bounds false left r a b = (omega (arith, a, b), omega arith)

Forwards-trans : {s t u : SendTo} → Forwards s t → Forwards t u → Forwards s u
Forwards-trans a b = record {
  inside = b.inside;
  bytes = b.bytes ∙ a.bytes;
  calls = b.calls ∙ a.calls;
}

Forwards-refl : (s : SendTo) → IsInside s.offset s.chunks → Forwards s s
Forwards-refl s v = record { inside = v; bytes = refl; calls = refl }

-- Whatever part of a buffer the kernel takes at each call, if only it takes something, and however often it is
-- interrupted: if it refuses at some time, `send` returns without the `assert`; no byte is lost,
-- repeated or moved; the callback has been called with success once for each buffer that is out, in order; and
-- if there was no error, all are out. For UDP each call takes the buffer whole.
pub send_to_lem :
    (answers : List Answer) (s : SendTo)
    → IsInside s.offset s.chunks
    → IsFair answers
    → (t : SendTo) × (error : Option ℕ) × (rest : List Answer) × (send_to answers s.chunks s
        ≡ some (t, (error, rest)))
      × Forwards s t
      × (error ≡ none → t.chunks ≡ [])
unfolding send_to
send_to_lem answers s v w = from answers s.chunks s refl v w
  where
    from :
        (answers : List Answer) (cs : List Chunk) (s : SendTo)
        → s.chunks ≡ cs
        → IsInside s.offset s.chunks
        → IsFair answers
        → (t : SendTo) × (error : Option ℕ) × (rest : List Answer) × (send_to answers cs s
            ≡ some (t, (error, rest)))
          × Forwards s t
          × (error ≡ none → t.chunks ≡ [])
    from answers [] s e v w = (s, none, answers, refl, Forwards-refl s v, λ x. e)
    from [] (c ∷ cs) s e v w = absurd (omega (arith, w))
    from (interrupted ∷ rest) (c ∷ cs) s e v w = from rest (c ∷ cs) s e v w
    from (refused d ∷ rest) (c ∷ cs) s e v w =
        (s, some d, rest, refl, Forwards-refl s v, λ (x : some d ≡ none). cc)
    from (room r ∷ rest) (c ∷ cs) s e v w =
        let inside : IsInside s.offset (c ∷ cs) = subst (IsInside s.offset) e v in
        let left : 0 < length c.rest - s.offset = omega (arith, inside.0) in
        let (more, within) = sent_now-bounds s.is_udp (length c.rest - s.offset) r left w.0 in
        let n = sent_now s.is_udp (length c.rest - s.offset) r in
        let taken : (n == 0) ≡ false = ground (arith, more) in
        let a = advance-Forwards n c cs s e inside within in
        let u = advance n c cs s in
        let (t, error, last, f, x, done) = from rest u.chunks u refl a.inside w.1 in
        (t, error, last, pick_false _ _ taken ∙ f, Forwards-trans a x, done)
