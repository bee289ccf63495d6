-- ===== src/Network/UdpServer/PeerId.antt =====
-- makeSockId of src/Network/UdpServer.cpp: the 18 bytes by which a peer is known. A port is the number that stands in
-- the socket address, an address the list of its bytes.
use zltool_kit.Kit.{
  ℕ, ◌/◌, ◌%◌, ◌<◌, ◌≡◌, refl, ap, ◌∙◌, List, [], ◌∷◌, ◌++◌, Option, none, some, drop, arith,
}

pub data SockAddr : Type 0 where
  inet : (port : ℕ) (addr : List ℕ) → SockAddr
  inet6 : (port : ℕ) (addr : List ℕ) → SockAddr
  other_family : SockAddr

abbrev pub addr_mapped : List ℕ
addr_mapped = 0 ∷ 0 ∷ 0 ∷ 0 ∷ 0 ∷ 0 ∷ 0 ∷ 0 ∷ 0 ∷ 0 ∷ 255 ∷ 255 ∷ []

abbrev pub put_port : ℕ → List ℕ → List ℕ
put_port port rest = (port / 256) % 256 ∷ port % 256 ∷ rest

unfoldable pub make_sock_id : SockAddr → Option (List ℕ)
make_sock_id (inet port addr) = some (put_port port (addr_mapped ++ addr))
make_sock_id (inet6 port addr) = some (put_port port addr)
make_sock_id other_family = none

abbrev pub end_at : ℕ → List ℕ → Option (ℕ × List ℕ)
end_at port addr = some (port, addr)

-- A port and the IPv6 form of an address: an IPv4 address is mapped.
abbrev pub end_point : SockAddr → Option (ℕ × List ℕ)
end_point (inet port addr) = end_at port (addr_mapped ++ addr)
end_point (inet6 port addr) = end_at port addr
end_point other_family = none

abbrev pub IsPort : SockAddr → Type 0
IsPort (inet port addr) = port < 65536
IsPort (inet6 port addr) = port < 65536
IsPort other_family = Unit

first : ℕ → List ℕ → ℕ
first d [] = d
first d (x ∷ xs) = x

second : List ℕ → ℕ
second xs = first 0 (drop 1 xs)

id_bytes : List ℕ → Option (List ℕ) → List ℕ
id_bytes d none = d
id_bytes d (some xs) = xs

halves :
    (p q : ℕ)
    → p < 65536
    → q < 65536
    → (p / 256) % 256 ≡ (q / 256) % 256
    → p % 256 ≡ q % 256
    → p ≡ q
halves p q a b h l = omega (arith, a, b, h, l)

put_port-inj :
    (p q : ℕ) (xs ys : List ℕ)
    → p < 65536
    → q < 65536
    → some (put_port p xs) ≡ some (put_port q ys)
    → end_at p xs ≡ end_at q ys
unfolding id_bytes first second
put_port-inj p q xs ys a b h =
    let e : put_port p xs ≡ put_port q ys = ap (id_bytes (put_port p xs)) h in
    let port = halves p q a b (ap (first 0) e) (ap second e) in
    let rest : xs ≡ ys = ap (drop 2) e in ap (λ k. end_at k xs) port ∙ ap (end_at q) rest

-- Two socket addresses have the same id only if they name the same port and, with IPv4 addresses mapped to IPv6, the
-- same address.
pub make_sock_id_lem :
    (a b : SockAddr)
    → IsPort a
    → IsPort b
    → make_sock_id a ≡ make_sock_id b
    → end_point a ≡ end_point b
unfolding make_sock_id
make_sock_id_lem (inet p xs) (inet q ys) v w h =
    put_port-inj p q (addr_mapped ++ xs) (addr_mapped ++ ys) v w h
make_sock_id_lem (inet p xs) (inet6 q ys) v w h = put_port-inj p q (addr_mapped ++ xs) ys v w h
make_sock_id_lem (inet6 p xs) (inet q ys) v w h = put_port-inj p q xs (addr_mapped ++ ys) v w h
make_sock_id_lem (inet6 p xs) (inet6 q ys) v w h = put_port-inj p q xs ys v w h
make_sock_id_lem other_family other_family v w h = refl
make_sock_id_lem other_family (inet q ys) v w h = absurd (ground (arith, h))
make_sock_id_lem other_family (inet6 q ys) v w h = absurd (ground (arith, h))
make_sock_id_lem (inet p xs) other_family v w h = absurd (ground (arith, h))
make_sock_id_lem (inet6 p xs) other_family v w h = absurd (ground (arith, h))
