-- ===== src/Routing/Preference.antt =====
-- Which of two sources goes before the other, told without the ranks and the comparison of the code.
use file_sync_engine.Prelude.{
  String, ◌≡◌, ◌≢◌, ◌<◌, ◌↔◌, ◌⊎◌, refl, true, List, arith, ltb, ◌==◌, inl, inr, Bool-cases, ap,
  sym, ◌∙◌,
}
use file_sync_engine.Prelude.Lists.{In}
use file_sync_engine.Prelude.Text.{str_lt}
use file_sync_engine.Routing.{
  PathKind, direct_path, relay_path, mesh_relay_path, other_path, NetworkKind, unknown_network,
  local_network, wan_network, vpn_network, container_bridge_network, other_network, CandidateSource,
  path_rank, network_rank,
}

-- A candidate that can be reached and has the content.
abbrev pub IsOffer : String → List CandidateSource → CandidateSource → Type 0
IsOffer content_id candidates c =
    In c candidates × (c.reachable ≡ true) × (c.content_id ≡ content_id)

-- A direct path goes before every other, a relay before a mesh relay, and a path that has no name
-- after all of them.
abbrev pub PathAhead : PathKind → PathKind → Type 0
PathAhead p q =
    ((p ≡ direct_path) × (q ≢ direct_path))
    ⊎ ((p ≡ relay_path) × ((q ≡ mesh_relay_path) ⊎ (q ≡ other_path)))
    ⊎ ((p ≡ mesh_relay_path) × (q ≡ other_path))

abbrev pub IsCostly : NetworkKind → Type 0
IsCostly n = (n ≡ container_bridge_network) ⊎ (n ≡ other_network)

-- A local network goes before every other, and a container bridge or a network that has no name
-- after all others.
abbrev pub NetworkAhead : NetworkKind → NetworkKind → Type 0
NetworkAhead m n = ((m ≡ local_network) × (n ≢ local_network)) ⊎ ((¬ IsCostly m) × IsCostly n)

-- The peer offers the content, and another offer is reached through it.
abbrev pub IsCarrier : String → List CandidateSource → String → Type 0
IsCarrier content_id candidates peer_id =
    (peer_id ≢ "")
    × ((c : CandidateSource) × IsOffer content_id candidates c × (c.relay_via_peer_id ≡ peer_id))
    × ((a : CandidateSource) × IsOffer content_id candidates a × (a.peer_id ≡ peer_id))

-- Of two sources with the same kind of path and of network, a carrier goes before a peer that is
-- none, and otherwise the order of the ids decides.
abbrev pub PeerAhead : (String → Type 0) → String → String → Type 0
PeerAhead Carries p q = (Carries p × ¬ Carries q) ⊎ ((Carries p ↔ Carries q) × (str_lt p q ≡ true))

-- The path decides first, then the network, and then the peer.
abbrev pub GoesBefore : (String → Type 0) → CandidateSource → CandidateSource → Type 0
GoesBefore Carries c d =
    PathAhead c.path d.path
    ⊎ ((c.path ≡ d.path)
        × (NetworkAhead c.network d.network
            ⊎ ((¬ NetworkAhead c.network d.network)
                × (¬ NetworkAhead d.network c.network)
                × PeerAhead Carries c.peer_id d.peer_id)))

direct_first : (q : PathKind) → q ≢ direct_path → 0 < path_rank q
unfolding path_rank
direct_first direct_path n = absurd (n refl)
direct_first relay_path n = omega arith
direct_first mesh_relay_path n = omega arith
direct_first other_path n = omega arith

pub path_rank-PathAhead : (p q : PathKind) → PathAhead p q → path_rank p < path_rank q
unfolding path_rank
path_rank-PathAhead p q (inl (e, n)) = omega (arith, ap path_rank e, direct_first q n)
path_rank-PathAhead p q (inr (inl (e, inl f))) = omega (arith, ap path_rank e, ap path_rank f)
path_rank-PathAhead p q (inr (inl (e, inr f))) = omega (arith, ap path_rank e, ap path_rank f)
path_rank-PathAhead p q (inr (inr (e, f))) = omega (arith, ap path_rank e, ap path_rank f)

local_first : (n : NetworkKind) → n ≢ local_network → 0 < network_rank n
unfolding network_rank
local_first local_network n = absurd (n refl)
local_first wan_network n = omega arith
local_first vpn_network n = omega arith
local_first unknown_network n = omega arith
local_first container_bridge_network n = omega arith
local_first other_network n = omega arith

cheap_first : (n : NetworkKind) → ¬ IsCostly n → network_rank n < 2
unfolding network_rank
cheap_first local_network n = omega arith
cheap_first wan_network n = omega arith
cheap_first vpn_network n = omega arith
cheap_first unknown_network n = omega arith
cheap_first container_bridge_network n = absurd (n (inl refl))
cheap_first other_network n = absurd (n (inr refl))

costly_last : (n : NetworkKind) → IsCostly n → network_rank n ≡ 2
unfolding network_rank
costly_last n (inl e) = ap network_rank e
costly_last n (inr e) = ap network_rank e

pub network_rank-NetworkAhead :
    (m n : NetworkKind) → NetworkAhead m n → network_rank m < network_rank n
unfolding network_rank
network_rank-NetworkAhead m n (inl (e, k)) = omega (arith, ap network_rank e, local_first n k)
network_rank-NetworkAhead m n (inr (k, c)) = omega (arith, cheap_first m k, costly_last n c)

rank_local : (n : NetworkKind) → network_rank n ≡ 0 → n ≡ local_network
unfolding network_rank
rank_local local_network e = refl
rank_local wan_network e = absurd (omega (arith, e))
rank_local vpn_network e = absurd (omega (arith, e))
rank_local unknown_network e = absurd (omega (arith, e))
rank_local container_bridge_network e = absurd (omega (arith, e))
rank_local other_network e = absurd (omega (arith, e))

network_rank-IsCostly : (n : NetworkKind) → 1 < network_rank n → IsCostly n
unfolding network_rank
network_rank-IsCostly local_network e = absurd (omega (arith, e))
network_rank-IsCostly wan_network e = absurd (omega (arith, e))
network_rank-IsCostly vpn_network e = absurd (omega (arith, e))
network_rank-IsCostly unknown_network e = absurd (omega (arith, e))
network_rank-IsCostly container_bridge_network e = inl refl
network_rank-IsCostly other_network e = inr refl

rank_bound : (n : NetworkKind) → network_rank n < 3
unfolding network_rank
rank_bound local_network = omega arith
rank_bound wan_network = omega arith
rank_bound vpn_network = omega arith
rank_bound unknown_network = omega arith
rank_bound container_bridge_network = omega arith
rank_bound other_network = omega arith

ahead_of_rank : (m n : NetworkKind) → network_rank m < network_rank n → NetworkAhead m n
ahead_of_rank m n l = elim (Bool-cases (network_rank m == 0)) [
  | inl e ↦ inl (
    rank_local m (ground (arith, e)),
    (λ f.
        absurd
          (ground (arith, e, l, ap network_rank (f ∙ sym (rank_local m (ground (arith, e))))))),
  )
  | inr e ↦ inr (
    (λ c. absurd (omega (arith, l, costly_last m c, rank_bound n))),
    network_rank-IsCostly n (ground (arith, e, l)),
  )
]

pub same_rank :
    (m n : NetworkKind) → ¬ NetworkAhead m n → ¬ NetworkAhead n m → network_rank m ≡ network_rank n
same_rank m n k l = elim (Bool-cases (ltb (network_rank m) (network_rank n))) [
  | inl e ↦ absurd (k (ahead_of_rank m n (ground (arith, e))))
  | inr e ↦ elim (Bool-cases (ltb (network_rank n) (network_rank m))) [
    | inl f ↦ absurd (l (ahead_of_rank n m (ground (arith, f))))
    | inr f ↦ ground (arith, e, f)
  ]
]
