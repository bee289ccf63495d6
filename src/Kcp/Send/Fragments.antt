-- ===== src/Kcp/Send/Fragments.antt =====
-- The fragments that `send` makes of a message.
use zltool_kit.Kit.{
  ℕ, zero, suc, ◌%◌, ◌+◌, ◌-◌, ◌*◌, ◌/◌, ◌≤◌, ◌<◌, ◌^◌, ◌≡◌, refl, ap, ◌∙◌, Bool, false, List, [],
  ◌∷◌, ◌++◌, arith, length, All, if◌then◌else◌, take, drop, min, map, concat, length-take,
  length-drop, take-append-drop,
}
use zltool_kit.Kit.Words.{u8}
use zltool_kit.Buffer.{memcpy_at}
use zltool_kit.Buffer.Laws.{take-drop-memcpy_at}
use zltool_kit.Kcp.Packet.{Packet, Uninit, payload}
use zltool_kit.Kcp.Send.{make_fragment, fragments, enqueue, merge_send_queue}
use zltool_kit.Kcp.State.{Kcp}

ceiling : (len mss : ℕ) → 0 < mss → len ≤ (len + mss - 1) / mss * mss
ceiling len mss h = grind arith

merge_send_queue_plain :
    (u : Uninit) (buffer : List ℕ) (k : Kcp)
    → k.settings.stream ≡ false
    → merge_send_queue u buffer k ≡ (0, k)
unfolding merge_send_queue
merge_send_queue_plain u buffer k plain = ground arith

module _ (u : Uninit) (sized : (n : ℕ) → length (u.bytes n) ≡ n) where
  -- A fragment holds the first `n` bytes, for a size that fits the 32-bit length field.
  pub payload-make_fragment :
      (conv frg n : ℕ) (buffer : List ℕ)
      → n ≤ length buffer
      → n < 2 ^ 32
      → payload (make_fragment u conv frg n buffer) ≡ take n buffer
  unfolding make_fragment
  payload-make_fragment conv frg n buffer h w =
      ap (λ j. take j (drop 24 (memcpy_at 24 (take n buffer) (u.bytes (n + 24 + 1)))))
        {x = n % 2 ^ 32} {y = length (take n buffer)} (omega (arith, length-take n buffer))
      ∙ take-drop-memcpy_at 24 (take n buffer) (u.bytes (n + 24 + 1))
          (omega (arith, sized (n + 24 + 1)))

  -- What is true of each fragment of a message.
  pub record IsFragment (mss : ℕ) (p : Packet) : Type 0 where
    pub within : p.header.len ≤ mss
    pub sized_as : p.raw.size ≡ p.header.len + 24
    pub whole : length (payload p) ≡ p.header.len

  make_fragment-IsFragment :
      (conv frg n mss : ℕ) (buffer : List ℕ)
      → n ≤ length buffer
      → n ≤ mss
      → mss < 2 ^ 32
      → IsFragment mss (make_fragment u conv frg n buffer)
  make_fragment-IsFragment conv frg n mss buffer h w b =
      let e : (make_fragment u conv frg n buffer).header.len ≡ n =
        unfold make_fragment in omega arith in
      record {
        within = omega (arith, e);
        sized_as = unfold make_fragment in omega arith;
        whole = omega (
          arith,
          e,
          ap length (payload-make_fragment conv frg n buffer h (omega arith)),
          length-take n buffer,
        );
      }

  -- The fragment numbers of a message of `n` fragments.
  abbrev pub countdown : ℕ → List ℕ
  countdown zero = []
  countdown (suc n) = u8 n ∷ countdown n

  frg_numbers :
      (conv mss n : ℕ) (buffer : List ℕ)
      → map (λ p. p.header.frg) (fragments u false conv mss n buffer) ≡ countdown n
  unfolding fragments make_fragment
  frg_numbers conv mss zero buffer = refl
  frg_numbers conv mss (suc n) buffer =
      ap (◌∷◌ (u8 n)) (frg_numbers conv mss n (drop (min (length buffer) mss) buffer))

  -- Enough fragments carry every byte, in order.
  pub concat-fragments :
      (stream : Bool) (conv mss n : ℕ) (buffer : List ℕ)
      → mss < 2 ^ 32
      → length buffer ≤ n * mss
      → concat (map payload (fragments u stream conv mss n buffer)) ≡ buffer
  unfolding fragments
  concat-fragments stream conv mss zero [] b h = refl
  concat-fragments stream conv mss zero (x ∷ buffer) b h = absurd (omega arith)
  concat-fragments stream conv mss (suc n) buffer b h =
      let m = min (length buffer) mss in
      rw
        (
          payload-make_fragment conv (if stream then 0 else u8 n) m buffer (omega arith)
              (omega arith),
          concat-fragments stream conv mss n (drop m buffer) b
              (omega (arith, length-drop m buffer)),
        )
        (take-append-drop m buffer)

  All-fragments :
      (stream : Bool) (conv mss n : ℕ) (buffer : List ℕ)
      → mss < 2 ^ 32
      → All (IsFragment mss) (fragments u stream conv mss n buffer)
  unfolding fragments
  All-fragments stream conv mss zero buffer b = tt
  All-fragments stream conv mss (suc n) buffer b =
      let m = min (length buffer) mss in
      (
        make_fragment-IsFragment conv (if stream then 0 else u8 n) m mss buffer (omega arith)
            (omega arith) b,
        All-fragments stream conv mss n (drop m buffer) b,
      )

  -- Outside stream mode, with a positive `_mss`, a message is appended to the send queue as
  -- fragments of at most `_mss` bytes whose payloads put together are the message, numbered
  -- downwards to 0.
  pub enqueue_message :
      (buffer : List ℕ) (k : Kcp)
      → k.settings.stream ≡ false
      → 0 < k.settings.mss
      → k.settings.mss < 2 ^ 32
      → (fs : List Packet) × ((enqueue u buffer k).snd_queue ≡ k.snd_queue ++ fs)
        × (concat (map payload fs) ≡ buffer)
        × All (IsFragment k.settings.mss) fs
        × (map (λ p. p.header.frg) fs
            ≡ countdown ((length buffer + k.settings.mss - 1) / k.settings.mss))
  unfolding enqueue
  enqueue_message buffer k plain pos w =
      let mss = k.settings.mss in
      let count = (length buffer + mss - 1) / mss in
      (
        fragments u false k.conv mss count buffer,
        rw (merge_send_queue_plain u buffer k plain, plain, enqueue),
        concat-fragments false k.conv mss count buffer w (ceiling (length buffer) mss pos),
        All-fragments false k.conv mss count buffer w,
        frg_numbers k.conv mss count buffer,
      )
