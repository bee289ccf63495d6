-- ===== src/Network/UdpServer/Keeps.antt =====
-- The helpers: a helper keeps its peer and its poller.
use zltool_kit.Kit.{
  ℕ, zero, suc, ◌<◌, ◌≡◌, refl, ap, ◌∙◌, List, [], ◌∷◌, ◌++◌, length, get_or, set, arith,
  length-append,
}
use zltool_kit.Network.UdpServer.{
  Datagram, Helper, no_helper, Task, creates, receives, receives_weak,
}

abbrev pub Helpers : Type 0
Helpers = List Helper

abbrev pub at : Helpers → ℕ → Helper
at hs h = get_or hs h no_helper

-- The helper exists and is its peer's.
abbrev pub IsPeer : Helpers → ℕ → ℕ → Type 0
IsPeer hs h peer = (h < length hs) × ((at hs h).peer ≡ peer)

abbrev pub IsOn : Helpers → ℕ → ℕ → Type 0
IsOn hs h p = (at hs h).poller ≡ p

abbrev pub Keeps : Helpers → Helpers → Type 0
Keeps hs gs =
    (h : ℕ)
    → h < length hs
    → (h < length gs) × ((at gs h).peer ≡ (at hs h).peer) × ((at gs h).poller ≡ (at hs h).poller)

pub Keeps_same : (hs : Helpers) → Keeps hs hs
Keeps_same hs h b = (b, refl, refl)

pub at-append : (hs gs : Helpers) (h : ℕ) → h < length hs → at (hs ++ gs) h ≡ at hs h
at-append [] gs h b = absurd (omega (arith, b))
at-append (x ∷ hs) gs zero b = refl
at-append (x ∷ hs) gs (suc h) b = at-append hs gs h (omega (arith, b))

pub at_last : (hs : Helpers) (x : Helper) → at (hs ++ (x ∷ [])) (length hs) ≡ x
at_last [] x = refl
at_last (y ∷ hs) x = at_last hs x

pub Keeps-append : (hs gs : Helpers) → Keeps hs (hs ++ gs)
Keeps-append hs gs h b =
    let e = at-append hs gs h b in
    (omega (arith, b, length-append hs gs), ap (λ x. x.peer) e, ap (λ x. x.poller) e)

-- A helper is replaced by one with its peer and its poller.
pub Keeps-set :
    (hs : Helpers) (k : ℕ) (x : Helper)
    → x.peer ≡ (at hs k).peer
    → x.poller ≡ (at hs k).poller
    → Keeps hs (set hs k x)
Keeps-set [] k x p q h b = absurd (omega (arith, b))
Keeps-set (y ∷ hs) zero x p q zero b = (omega (arith, b), p, q)
Keeps-set (y ∷ hs) zero x p q (suc h) b = (omega (arith, b), refl, refl)
Keeps-set (y ∷ hs) (suc k) x p q zero b = (omega arith, refl, refl)
Keeps-set (y ∷ hs) (suc k) x p q (suc h) b =
    let (c, e, f) = Keeps-set hs k x p q h (omega (arith, b)) in (omega (arith, c), e, f)

pub IsPeer-Keeps :
    (hs gs : Helpers) (h peer : ℕ) → Keeps hs gs → IsPeer hs h peer → IsPeer gs h peer
IsPeer-Keeps hs gs h peer k (b, e) = let (c, f, g) = k h b in (c, f ∙ e)

pub IsOn-Keeps :
    (hs gs : Helpers) (h p : ℕ) → Keeps hs gs → h < length hs → IsOn hs h p → IsOn gs h p
IsOn-Keeps hs gs h p k b e = (k h b).2 ∙ e

-- A task for a session waits for the poller of its socket, with a datagram of its peer.
abbrev pub IsMine : Helpers → ℕ → ℕ → Datagram → Type 0
IsMine hs p h d = IsPeer hs h d.from × IsOn hs h p

abbrev pub IsTask : Helpers → ℕ → Task → Type 0
IsTask hs p (creates d) = Unit
IsTask hs p (receives h d) = IsMine hs p h d
IsTask hs p (receives_weak h d) = IsMine hs p h d

pub IsMine-Keeps :
    (hs gs : Helpers) (p h : ℕ) (d : Datagram) → Keeps hs gs → IsMine hs p h d → IsMine gs p h d
IsMine-Keeps hs gs p h d k (a, b) = (IsPeer-Keeps hs gs h d.from k a, IsOn-Keeps hs gs h p k a.0 b)

pub IsTask-Keeps :
    (hs gs : Helpers) (p : ℕ) (t : Task) → Keeps hs gs → IsTask hs p t → IsTask gs p t
IsTask-Keeps hs gs p (creates d) k x = tt
IsTask-Keeps hs gs p (receives h d) k x = IsMine-Keeps hs gs p h d k x
IsTask-Keeps hs gs p (receives_weak h d) k x = IsMine-Keeps hs gs p h d k x
