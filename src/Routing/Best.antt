-- ===== src/Routing/Best.antt =====
-- The source that is chosen, against all candidates.
use file_sync_engine.Prelude.{
  String, ◌≡◌, ◌≢◌, Bool-cases, Bool, true, false, none, some, List, [], ◌∷◌, arith, ap, subst, inl,
  inr,
}
use file_sync_engine.Prelude.Lists.{All, All-map, All-In, All-In-self, In}
use file_sync_engine.Prelude.Text.{str_lt_trans, str_lt_total, str_lt_asym}
use file_sync_engine.Prelude.Sort.{
  sort_stable, sort_stable-IsSorted, sort_stable-All, sort_stable-In, IsSorted,
}
use file_sync_engine.Routing.Preference.{
  IsOffer, IsCarrier, GoesBefore, path_rank-PathAhead, network_rank-NetworkAhead, same_rank,
}
use file_sync_engine.Routing.Carriers.{matches, matched, offered, IsCarrier-found, carrier_known}
use file_sync_engine.Routing.{
  path_rank, CandidateSource, SourceChoice, is_relay_carrier, preferred, first_choice,
  choose_transfer_source,
}

preferred_asym :
    (carries : String → Bool) (x y : CandidateSource)
    → preferred carries x y ≡ true
    → preferred carries y x ≡ false
unfolding preferred
preferred_asym carries x y h = ground (arith, str_lt_asym x.peer_id y.peer_id)

preferred_trans :
    (carries : String → Bool) (x y z : CandidateSource)
    → preferred carries y x ≡ false
    → preferred carries z y ≡ false
    → preferred carries z x ≡ false
unfolding preferred
preferred_trans carries x y z h k = ground (
  arith,
  str_lt_asym x.peer_id y.peer_id,
  str_lt_trans z.peer_id x.peer_id y.peer_id,
  str_lt_total y.peer_id x.peer_id,
  str_lt_trans x.peer_id y.peer_id z.peer_id,
  str_lt_total z.peer_id y.peer_id,
)

-- The head of a sorted list that has exactly the offers.
head_is_best :
    (carries : String → Bool) (content_id : String)
    (candidates matches sorted : List CandidateSource) (choice : SourceChoice)
    → IsSorted (preferred carries) sorted
    → All (IsOffer content_id candidates) sorted
    → ((c : CandidateSource) → IsOffer content_id candidates c → In c sorted)
    → first_choice matches sorted ≡ some choice
    → IsOffer content_id candidates choice.source
      × ((c : CandidateSource)
          → IsOffer content_id candidates c
          → preferred carries c choice.source ≡ false)
unfolding first_choice
head_is_best carries content_id candidates matches [] choice s a all e = absurd (ground (arith, e))
head_is_best carries content_id candidates matches (best ∷ others) choice s a all e =
    subst
      (λ (b : CandidateSource).
        IsOffer content_id candidates b
        × ((c : CandidateSource) → IsOffer content_id candidates c → preferred carries c b ≡ false))
      (ground (arith, e))
      (
        a.0,
        (λ c o. elim (all c o) [
          | inl h ↦ ground (
            arith,
            preferred_asym carries c c,
            ap (λ d. preferred carries d best) h,
            preferred_asym carries best best,
          )
          | inr i ↦ All-In (λ d. preferred carries d best ≡ false) others c s.0 i
        ]),
      )

GoesBefore-preferred :
    (content_id : String) (candidates : List CandidateSource) (c d : CandidateSource)
    → GoesBefore (IsCarrier content_id candidates) c d
    → preferred (is_relay_carrier (matches content_id candidates)) c d ≡ true
unfolding preferred
GoesBefore-preferred content_id candidates c d (inl p) =
    ground (arith, path_rank-PathAhead c.path d.path p)
GoesBefore-preferred content_id candidates c d (inr (e, inl n)) =
    ground (arith, ap path_rank e, network_rank-NetworkAhead c.network d.network n)
GoesBefore-preferred content_id candidates c d (inr (e, inr (k, l, inl (y, n)))) =
    let other : is_relay_carrier (matches content_id candidates) d.peer_id ≡ false =
      elim (Bool-cases (is_relay_carrier (matches content_id candidates) d.peer_id)) [
        | inl h ↦ absurd (n (IsCarrier-found content_id candidates d.peer_id h))
        | inr h ↦ h
      ] in
    ground (
      arith,
      ap path_rank e,
      same_rank c.network d.network k l,
      carrier_known content_id candidates c.peer_id y,
      other,
    )
GoesBefore-preferred content_id candidates c d (inr (e, inr (k, l, inr (y, n)))) =
    let carries = is_relay_carrier (matches content_id candidates) in
    let there : carries c.peer_id ≡ true → carries d.peer_id ≡ true = λ h.
      carrier_known content_id candidates d.peer_id
        (y.0 (IsCarrier-found content_id candidates c.peer_id h)) in
    let back : carries d.peer_id ≡ true → carries c.peer_id ≡ true = λ h.
      carrier_known content_id candidates c.peer_id
        (y.1 (IsCarrier-found content_id candidates d.peer_id h)) in
    ground (arith, ap path_rank e, same_rank c.network d.network k l, n, there, back)

-- The source that is chosen can be reached and offers the content, and no candidate that does goes
-- before it: a direct path goes before a relay, a relay before a mesh relay and that before a path
-- without a name; on the same path a local network goes before all others and a container bridge,
-- or a network without a name, after them; then a peer through which another offer is reached goes
-- before one that is none, and at last the ids decide.
pub choose_transfer_source-best :
    (content_id : String) (candidates : List CandidateSource) (choice : SourceChoice)
    → choose_transfer_source content_id candidates ≡ some choice
    → IsOffer content_id candidates choice.source
      × ((c : CandidateSource)
          → IsOffer content_id candidates c
          → ¬ GoesBefore (IsCarrier content_id candidates) c choice.source)
unfolding choose_transfer_source
choose_transfer_source-best content_id candidates choice chosen =
    let mine = matches content_id candidates in
    let carries = is_relay_carrier mine in
    let best =
      head_is_best carries content_id candidates mine (sort_stable (preferred carries) mine) choice
        (sort_stable-IsSorted (preferred carries) (preferred_asym carries) (preferred_trans carries)
          mine)
        (sort_stable-All (preferred carries) (IsOffer content_id candidates) mine
          (All-map (λ c i. offered content_id candidates c i) mine (All-In-self mine)))
        (λ c o. sort_stable-In (preferred carries) mine c (matched content_id candidates c o))
        chosen in
    (
      best.0,
      (λ c o b. absurd (
          ground
            (arith, best.1 c o, GoesBefore-preferred content_id candidates c choice.source b))),
    )

not_empty :
    (matches sorted : List CandidateSource) (c : CandidateSource)
    → In c sorted
    → first_choice matches sorted ≢ none
unfolding first_choice
not_empty matches [] c i e = elim i [ ]
not_empty matches (b ∷ others) c i e = absurd (ground (arith, e))

-- Some source is chosen wherever a candidate offers the content.
pub choose_transfer_source-found :
    (content_id : String) (candidates : List CandidateSource) (c : CandidateSource)
    → IsOffer content_id candidates c
    → choose_transfer_source content_id candidates ≢ none
unfolding choose_transfer_source
choose_transfer_source-found content_id candidates c offer none_chosen =
    let mine = matches content_id candidates in
    let carries = is_relay_carrier mine in
    not_empty mine (sort_stable (preferred carries) mine) c
      (sort_stable-In (preferred carries) mine c (matched content_id candidates c offer))
      none_chosen
