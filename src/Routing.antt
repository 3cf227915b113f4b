-- ===== src/Routing.antt =====
-- internal/routing/source_selection.go, as far as `ChooseTransferSource`: which peer a block or a
-- file is taken from.
pub mod Best
pub mod Preference
pub mod Carriers
use file_sync_engine.Prelude.{
  ℕ, String, ◌≡◌, Bool, true, false, not, ◌&&◌, ◌||◌, Option, none, some, List, [], ◌∷◌, ltb, ◌==◌,
  str_eq, if◌then◌else◌,
}
use file_sync_engine.Prelude.Lists.{keep}
use file_sync_engine.Prelude.Text.{str_lt}
use file_sync_engine.Prelude.Sort.{sort_stable}

-- `other_path` stands for the strings that name no path.
pub data PathKind : Type 0 where
  direct_path : PathKind
  relay_path : PathKind
  mesh_relay_path : PathKind
  other_path : PathKind

pub data NetworkKind : Type 0 where
  unknown_network : NetworkKind
  local_network : NetworkKind
  wan_network : NetworkKind
  vpn_network : NetworkKind
  container_bridge_network : NetworkKind
  other_network : NetworkKind

pub data SelectionReason : Type 0 where
  direct_preferred : SelectionReason
  local_preferred : SelectionReason
  relay_carrier_preferred : SelectionReason
  only_available_source : SelectionReason

pub record CandidateSource : Type 0 where
  pub peer_id : String
  pub content_id : String
  pub path : PathKind
  pub network : NetworkKind
  pub relay_via_peer_id : String
  pub reachable : Bool

pub record SourceChoice : Type 0 where
  pub source : CandidateSource
  pub reason : SelectionReason

unfoldable pub path_rank : PathKind → ℕ
path_rank direct_path = 0
path_rank relay_path = 1
path_rank mesh_relay_path = 2
path_rank other_path = 3

unfoldable pub network_rank : NetworkKind → ℕ
network_rank local_network = 0
network_rank wan_network = 1
network_rank vpn_network = 1
network_rank unknown_network = 1
network_rank container_bridge_network = 2
network_rank other_network = 2

unfoldable pub is_local : NetworkKind → Bool
is_local local_network = true
is_local wan_network = false
is_local vpn_network = false
is_local unknown_network = false
is_local container_bridge_network = false
is_local other_network = false

unfoldable pub is_direct : PathKind → Bool
is_direct direct_path = true
is_direct relay_path = false
is_direct mesh_relay_path = false
is_direct other_path = false

unfoldable pub is_relay : PathKind → Bool
is_relay direct_path = false
is_relay relay_path = true
is_relay mesh_relay_path = true
is_relay other_path = false

unfoldable pub any_candidate : (CandidateSource → Bool) → List CandidateSource → Bool
any_candidate test [] = false
any_candidate test (c ∷ candidates) = let rest = any_candidate test candidates in test c || rest

abbrev pub has_relay_candidate : List CandidateSource → Bool
has_relay_candidate = any_candidate (λ c. is_relay c.path)

abbrev pub has_non_local_candidate : List CandidateSource → Bool
has_non_local_candidate = any_candidate (λ c. not (is_local c.network))

unfoldable pub has_peer_behind_relay : List CandidateSource → String → Bool
unfolding any_candidate
has_peer_behind_relay candidates relay_peer_id =
    any_candidate (λ c. str_eq c.relay_via_peer_id relay_peer_id) candidates

-- `relayCarrierPeers(candidates)[peer_id]`: a candidate is reached through this peer, which is a
-- candidate itself.
unfoldable pub is_relay_carrier : List CandidateSource → String → Bool
unfolding any_candidate
is_relay_carrier candidates peer_id =
    any_candidate
      (λ c.
        not (str_eq c.relay_via_peer_id "")
        && str_eq c.relay_via_peer_id peer_id
        && any_candidate (λ a. str_eq a.peer_id c.relay_via_peer_id) candidates)
      candidates

-- The comparison that `sort.SliceStable` gets.
unfoldable pub preferred : (String → Bool) → CandidateSource → CandidateSource → Bool
unfolding path_rank network_rank
preferred carries left right =
    if not (path_rank left.path == path_rank right.path)
    then ltb (path_rank left.path) (path_rank right.path)
    else if not (network_rank left.network == network_rank right.network)
    then ltb (network_rank left.network) (network_rank right.network)
    else if carries left.peer_id
    then if carries right.peer_id then str_lt left.peer_id right.peer_id else true
    else if carries right.peer_id
    then false
    else str_lt left.peer_id right.peer_id

unfoldable pub is_match : String → CandidateSource → Bool
is_match content_id candidate = candidate.reachable && str_eq candidate.content_id content_id

unfoldable pub reason_of : List CandidateSource → CandidateSource → SelectionReason
unfolding is_local is_direct is_relay any_candidate is_relay_carrier has_peer_behind_relay
reason_of matches choice =
    if is_relay_carrier matches choice.peer_id && has_peer_behind_relay matches choice.peer_id
    then relay_carrier_preferred
    else if is_local choice.network && has_non_local_candidate matches
    then local_preferred
    else if is_direct choice.path && has_relay_candidate matches
    then direct_preferred
    else only_available_source

-- `matches[0]` of the sorted candidates, with its reason.
unfoldable pub first_choice : List CandidateSource → List CandidateSource → Option SourceChoice
unfolding reason_of
first_choice matches [] = none
first_choice matches (best ∷ others) =
    some (record { source = best; reason = reason_of matches best })

-- `ChooseTransferSource` for the content and the candidates of a request.
unfoldable pub choose_transfer_source : String → List CandidateSource → Option SourceChoice
unfolding is_match preferred is_relay_carrier first_choice
choose_transfer_source content_id candidates =
    let matches = keep (is_match content_id) candidates in
    first_choice matches (sort_stable (preferred (is_relay_carrier matches)) matches)
