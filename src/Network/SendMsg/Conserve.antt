-- ===== src/Network/SendMsg/Conserve.antt =====
-- What `BufferSendMsg` sends and what it keeps.
use zltool_kit.Kit.{
  ℕ, zero, suc, ◌+◌, ◌-◌, ◌≤◌, ◌<◌, ◌^◌, ◌≡◌, inl, inr, refl, pick_true, pick_false, All, sym, ap,
  ◌∙◌, Bool, true, false, List, [], ◌∷◌, ◌++◌, Option, none, some, ltb, leb, ◌==◌, length, take,
  drop, min, arith, append_assoc, append-nil, length-append, length-drop, take-append-drop,
  drop-append_length, take_all, take-append_le, drop-append_add, Bool-cases,
}
use zltool_kit.Kit.Words.{u64, sub64}
use zltool_kit.Network.SendMsg.Cut.{
  HasBytes, cut, IsLeft, cut-zero, cut_all, IsLeft-HasBytes, IsLeft-refl, IsLeft-trans,
}
use zltool_kit.Buffer.Laws.{drop-append_le}
use zltool_kit.Network.Kernel.{Answer, room, interrupted, refused, Chunk}
use zltool_kit.Network.SendMsg.{
  SendMsg, iov_max, bytes_of, ids_of, calls_for, send_completed, skip_sent, re_offset, offered,
  take_out, send_loop,
}

-- The size is that of the bytes that are left, and each buffer that is left has bytes to send.
pub record IsWhole (s : SendMsg) : Type 0 where
  pub drained : s.remain_size ≡ 0 → s.chunks ≡ []
  pub filled : All HasBytes s.chunks
  pub sized : s.remain_size ≡ length (bytes_of s.chunks)
  pub small : length (bytes_of s.chunks) < 2 ^ 63

-- From `s` to `t`: no byte is lost, repeated or moved; the buffers left are those of which the bytes are not all
-- out, the first without its bytes that are out; and each of the others is called for once, in order, with success.
pub record Advances (s t : SendMsg) : Type 0 where
  pub whole : IsWhole t
  pub bytes : t.wire ++ bytes_of t.chunks ≡ s.wire ++ bytes_of s.chunks
  pub left : IsLeft s.chunks t.chunks
  pub calls :
      t.called ++ calls_for true (ids_of t.chunks) ≡ s.called ++ calls_for true (ids_of s.chunks)

-- The loop finds `n` bytes of the list from `offset` on.
record Skips (n : ℕ) (cs : List Chunk) (r : List ℕ × List Chunk) : Type 0 where
  pub left : bytes_of r.1 ≡ drop n (bytes_of cs)
  pub chunks : r.1 ≡ cut n cs
  pub ids : calls_for true (ids_of cs) ≡ calls_for true r.0 ++ calls_for true (ids_of r.1)

skip_sent-Skips :
    (n offset : ℕ) (cs : List Chunk)
    → offset < n
    → n ≤ offset + length (bytes_of cs)
    → offset + length (bytes_of cs) < 2 ^ 63
    → All HasBytes cs
    → Skips (n - offset) cs (skip_sent n offset cs)
unfolding skip_sent
skip_sent-Skips n offset [] h l w f = absurd (omega arith)
skip_sent-Skips n offset (c ∷ cs) h l w f =
    let sized = length-append c.rest (bytes_of cs) in
    let end : u64 (offset + length c.rest) ≡ offset + length c.rest = omega (arith, sized) in
    elim (Bool-cases (ltb (offset + length c.rest) n)) [
      | inl before ↦
          let below : offset + length c.rest < n = ground arith in
          let more =
            skip_sent-Skips n (offset + length c.rest) cs below (omega (arith, sized))
              (omega (arith, sized)) f.1 in
          let past : leb (length c.rest) (n - offset) ≡ true = ground (arith, below) in
          let rest : (n - offset) - length c.rest ≡ n - (offset + length c.rest) = omega arith in
          let cut_at : n - offset ≡ length c.rest + (n - (offset + length c.rest)) = omega arith in
          rw (end, before)
            (record {
              left =
                  more.left
                  ∙ sym (
                      ap (λ k. drop k (c.rest ++ bytes_of cs)) cut_at
                      ∙ drop-append_add c.rest (bytes_of cs) (n - (offset + length c.rest)));
              chunks = more.chunks ∙ ap (λ k. cut k cs) (sym rest) ∙ sym (pick_true _ _ past);
              ids = ap (◌∷◌ (c.id, true)) more.ids;
            })
      | inr last ↦ elim (Bool-cases ((offset + length c.rest) == n)) [
        | inl exact ↦
            let same : n - offset ≡ length c.rest = ground arith in
            let past : leb (length c.rest) (n - offset) ≡ true = ground (arith, same) in
            let none_more : (n - offset) - length c.rest ≡ 0 = omega (arith, same) in
            rw (end, last, exact)
              (record {
                left = sym (
                    ap (λ k. drop k (c.rest ++ bytes_of cs)) same
                    ∙ drop-append_length c.rest (bytes_of cs));
                chunks = sym (pick_true _ _ past ∙ ap (λ k. cut k cs) none_more ∙ cut-zero cs f.1);
                ids = refl;
              })
        | inr partial ↦
            let inside : n - offset ≤ length c.rest = ground arith in
            let short : leb (length c.rest) (n - offset) ≡ false = ground (arith, last, partial) in
            let kept : length c.rest - sub64 (offset + length c.rest) n ≡ n - offset =
              ground arith in
            rw (end, last, partial, kept)
              (record {
                left = sym (drop-append_le (n - offset) c.rest (bytes_of cs) inside);
                chunks = sym (pick_false _ _ short);
                ids = refl;
              })
      ]
    ]

pub bytes_of-append : (cs ds : List Chunk) → bytes_of (cs ++ ds) ≡ bytes_of cs ++ bytes_of ds
bytes_of-append [] ds = refl
bytes_of-append (c ∷ cs) ds =
    ap (◌++◌ c.rest) (bytes_of-append cs ds) ∙ sym (append_assoc c.rest (bytes_of cs) (bytes_of ds))

pub ids_of-append : (cs ds : List Chunk) → ids_of (cs ++ ds) ≡ ids_of cs ++ ids_of ds
ids_of-append [] ds = refl
ids_of-append (c ∷ cs) ds = ap (◌∷◌ c.id) (ids_of-append cs ds)

bytes_take : (n : ℕ) (cs : List Chunk) → bytes_of cs ≡ bytes_of (take n cs) ++ bytes_of (drop n cs)
bytes_take zero cs = refl
bytes_take (suc n) [] = refl
bytes_take (suc n) (c ∷ cs) =
    ap (◌++◌ c.rest) (bytes_take n cs)
    ∙ sym (append_assoc c.rest (bytes_of (take n cs)) (bytes_of (drop n cs)))

take-offered :
    (n : ℕ) (s : SendMsg)
    → n ≤ length (offered s)
    → (take n (offered s) ≡ take n (bytes_of s.chunks)) × (n ≤ length (bytes_of s.chunks))
take-offered n s h =
    let split = bytes_take iov_max s.chunks in
    let behind = bytes_of (drop iov_max s.chunks) in
    (
      sym (ap (take n) split ∙ take-append_le n (offered s) behind h),
      omega (arith, h, ap length split, length-append (offered s) behind),
    )

pub calls_for-append :
    (flag : Bool) (is js : List ℕ)
    → calls_for flag (is ++ js) ≡ calls_for flag is ++ calls_for flag js
calls_for-append flag [] js = refl
calls_for-append flag (i ∷ is) js = ap (◌∷◌ (i, flag)) (calls_for-append flag is js)

re_offset-Advances :
    (n : ℕ) (s : SendMsg)
    → IsWhole s
    → 0 < n
    → n < s.remain_size
    → Advances s (re_offset n (record s { wire = s.wire ++ take n (bytes_of s.chunks) }))
unfolding re_offset
re_offset-Advances n s v pos part =
    let x =
      skip_sent-Skips n 0 s.chunks pos (omega (arith, v.sized, part)) (omega (arith, v.small))
        v.filled in
    let r = skip_sent n 0 s.chunks in
    let left : bytes_of r.1 ≡ drop n (bytes_of s.chunks) =
      x.left ∙ ap (λ k. drop k (bytes_of s.chunks)) (omega arith) in
    let chunks : r.1 ≡ cut n s.chunks = x.chunks ∙ ap (λ k. cut k s.chunks) (omega arith) in
    record {
      whole = record {
        drained = λ z. absurd (
            omega (
              arith,
              z,
              ap length left,
              length-drop n (bytes_of s.chunks),
              part,
              v.sized,
              v.small,
            ));
        filled = IsLeft-HasBytes s.chunks r.1 v.filled (n, chunks);
        sized = omega (arith, ap length left, length-drop n (bytes_of s.chunks), v.sized, v.small);
        small = omega (arith, ap length left, length-drop n (bytes_of s.chunks), v.small);
      };
      bytes =
          append_assoc s.wire (take n (bytes_of s.chunks)) (bytes_of r.1)
          ∙ ap (λ b. s.wire ++ (take n (bytes_of s.chunks) ++ b)) left
          ∙ ap (◌++◌ s.wire) (take-append-drop n (bytes_of s.chunks));
      left = (n, chunks);
      calls =
          append_assoc s.called (calls_for true r.0) (calls_for true (ids_of r.1))
          ∙ ap (◌++◌ s.called) (sym x.ids);
    }

take_out-Advances : (r : ℕ) (s : SendMsg) → IsWhole s → Advances s (take_out r s)
unfolding take_out send_completed
take_out-Advances r s v =
    let n = min r (length (offered s)) in
    let (same, within) = take-offered n s (omega arith) in
    elim (Bool-cases (leb s.remain_size n)) [
      | inl all ↦
          let everything : length (bytes_of s.chunks) ≤ n = ground (arith, v.sized) in
          rw (all, same, take_all n (bytes_of s.chunks) everything)
            (record {
              whole = record {
                drained = λ z. refl;
                filled = tt;
                sized = refl;
                small = omega arith;
              };
              bytes = append-nil (s.wire ++ bytes_of s.chunks);
              left = (n, sym (cut_all n s.chunks everything));
              calls = append-nil (s.called ++ calls_for true (ids_of s.chunks));
            })
      | inr part ↦ elim (Bool-cases (ltb 0 n)) [
        | inl moved ↦
            rw (part, moved, same) (re_offset-Advances n s v (ground arith) (ground arith))
        | inr nothing ↦
            let zero_taken : n ≡ 0 = ground arith in
            rw (part, nothing, zero_taken)
              (record {
                whole = record {
                  drained = v.drained;
                  filled = v.filled;
                  sized = v.sized;
                  small = v.small;
                };
                bytes = ap (λ w. w ++ bytes_of s.chunks) (append-nil s.wire);
                left = IsLeft-refl s.chunks v.filled;
                calls = refl;
              })
      ]
    ]

Advances-trans : {s t u : SendMsg} → Advances s t → Advances t u → Advances s u
Advances-trans {s} {t} {u} a b = record {
  left = IsLeft-trans s.chunks t.chunks u.chunks a.left b.left;
  whole = b.whole;
  bytes = b.bytes ∙ a.bytes;
  calls = b.calls ∙ a.calls;
}

Advances-refl : (s : SendMsg) → IsWhole s → Advances s s
Advances-refl s v = record {
  whole = v;
  left = IsLeft-refl s.chunks v.filled;
  bytes = refl;
  calls = refl;
}

-- Whether the answers end in one that stops the loop.
abbrev pub stops : List Answer → Bool
stops [] = false
stops (refused e ∷ rest) = true
stops (interrupted ∷ rest) = stops rest
stops (room r ∷ rest) = stops rest

-- The error of the first answer that stops the loop.
abbrev pub refusal : List Answer → Option ℕ
refusal [] = none
refusal (refused e ∷ rest) = some e
refusal (interrupted ∷ rest) = refusal rest
refusal (room r ∷ rest) = refusal rest

-- What `send` returns to the socket: with no error the buffers are out, and then the refusal is still to
-- come; an error is that of the refusal.
pub record Sends (answers : List Answer) (s t : SendMsg) (error : Option ℕ) (rest : List Answer)
    : Type 0 where
  pub advances : Advances s t
  pub finished : error ≡ none → t.remain_size ≡ 0
  pub pending : t.remain_size ≡ 0 → stops rest ≡ true
  pub still : t.remain_size ≡ 0 → refusal rest ≡ refusal answers
  pub told : (e : ℕ) → error ≡ some e → refusal answers ≡ some e

finished :
    (s : SendMsg) (rest : List Answer)
    → IsWhole s
    → stops rest ≡ true
    → (s.remain_size == 0) ≡ true
    → Sends rest s s none rest
finished s rest v w out = record {
  advances = Advances-refl s v;
  finished = λ e. ground arith;
  pending = λ e. w;
  still = λ e. refl;
  told = λ e (f : none ≡ some e). cc;
}

-- Whatever the kernel takes at each call, and however often it is interrupted: if it refuses at some
-- time, `send` returns; the bytes taken and the bytes left are the bytes there were, in order; the buffers left
-- are those with bytes that are not out, the first without its bytes that are; the callback has been called
-- with success once for each of the others, in order, and for no other; the size is that of what is left; if there was
-- no error, all is out; if all is out, the refusal has not been met; and an error is that of the
-- refusal. The buffers given all have bytes.
pub send_loop_lem :
    (answers : List Answer) (s : SendMsg)
    → IsWhole s
    → stops answers ≡ true
    → (t : SendMsg) × (error : Option ℕ) × (rest : List Answer) × (send_loop answers s
        ≡ some (t, (error, rest)))
      × Sends answers s t error rest
unfolding send_loop
send_loop_lem [] s v w = cc
send_loop_lem (interrupted ∷ rest) s v w = elim (Bool-cases (s.remain_size == 0)) [
  | inl out ↦ (s, none, interrupted ∷ rest, rw out refl, finished s (interrupted ∷ rest) v w out)
  | inr more ↦
      let (t, error, left, e, x) = send_loop_lem rest s v w in
      (
        t,
        error,
        left,
        rw more e,
        record {
          advances = x.advances;
          finished = x.finished;
          pending = x.pending;
          still = x.still;
          told = x.told;
        },
      )
]
send_loop_lem (refused e ∷ rest) s v w = elim (Bool-cases (s.remain_size == 0)) [
  | inl out ↦ (s, none, refused e ∷ rest, rw out refl, finished s (refused e ∷ rest) v w out)
  | inr more ↦ (
    s,
    some e,
    rest,
    rw more refl,
    record {
      advances = Advances-refl s v;
      finished = λ (f : some e ≡ none). cc;
      pending = λ (z : s.remain_size ≡ 0). absurd (ground arith);
      still = λ (z : s.remain_size ≡ 0). absurd (ground arith);
      told = λ d f. f;
    },
  )
]
send_loop_lem (room r ∷ rest) s v w = elim (Bool-cases (s.remain_size == 0)) [
  | inl out ↦ (s, none, room r ∷ rest, rw out refl, finished s (room r ∷ rest) v w out)
  | inr more ↦
      let a = take_out-Advances r s v in
      let (t, error, left, e, x) = send_loop_lem rest (take_out r s) a.whole w in
      (
        t,
        error,
        left,
        rw more e,
        record {
          advances = Advances-trans a x.advances;
          finished = x.finished;
          pending = x.pending;
          still = x.still;
          told = x.told;
        },
      )
]
