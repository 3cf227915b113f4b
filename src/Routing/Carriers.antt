-- ===== src/Routing/Carriers.antt =====
-- The offers among the candidates, and the peers through which others are reached.
use file_sync_engine.Prelude.{
  String, ◌≡◌, refl, Bool, true, false, List, [], ◌∷◌, arith, str_eq, eq_iff, inl, inr, Bool-cases,
  ap, sym, ◌∙◌,
}
use file_sync_engine.Prelude.Lists.{keep, All, All-In, All-map, In, In-keep}
use file_sync_engine.Routing.{CandidateSource, any_candidate, is_relay_carrier, is_match}
use file_sync_engine.Routing.Preference.{IsOffer, IsCarrier}

any_candidate-In :
    (test : CandidateSource → Bool) (xs : List CandidateSource) (c : CandidateSource)
    → In c xs
    → test c ≡ true
    → any_candidate test xs ≡ true
unfolding any_candidate
any_candidate-In test [] c i t = elim i [ ]
any_candidate-In test (x ∷ xs) c (inl e) t = ground (arith, ap test e, t)
any_candidate-In test (x ∷ xs) c (inr i) t = ground (arith, any_candidate-In test xs c i t)

any_found :
    (test : CandidateSource → Bool) (xs : List CandidateSource)
    → any_candidate test xs ≡ true
    → (c : CandidateSource) × In c xs × (test c ≡ true)
unfolding any_candidate
any_found test [] h = absurd (ground (arith, h))
any_found test (x ∷ xs) h = elim (Bool-cases (test x)) [
  | inl e ↦ (x, inl refl, e)
  | inr e ↦ let (c, i, t) = any_found test xs (ground (arith, e, h)) in (c, inr i, t)
]

kept :
    (p : CandidateSource → Bool) (xs : List CandidateSource)
    → All (λ c. In c xs × (p c ≡ true)) (keep p xs)
kept p [] = tt
kept p (x ∷ xs) =
    let rest : All (λ c. In c (x ∷ xs) × (p c ≡ true)) (keep p xs) =
      All-map (λ c (k : In c xs × (p c ≡ true)). (inr k.0, k.1)) (keep p xs) (kept p xs) in
    elim (Bool-cases (p x)) [ inl e ↦ rw e ((inl refl, e), rest) | inr e ↦ rw e rest ]

offer_match :
    (content_id : String) (c : CandidateSource)
    → (c.reachable ≡ true)
    → c.content_id ≡ content_id
    → is_match content_id c ≡ true
unfolding is_match
offer_match content_id c r e = ground (arith, r, eq_iff c.content_id content_id, e)

match_offer :
    (content_id : String) (c : CandidateSource)
    → is_match content_id c ≡ true
    → (c.reachable ≡ true) × (c.content_id ≡ content_id)
unfolding is_match
match_offer content_id c h =
    (ground (arith, h), (eq_iff c.content_id content_id).0 (ground (arith, h)))

module _ (content_id : String) (candidates : List CandidateSource) where
  abbrev pub matches : List CandidateSource
  matches = keep (is_match content_id) candidates

  pub matched : (c : CandidateSource) → IsOffer content_id candidates c → In c matches
  matched c (i, r, e) = In-keep (is_match content_id) candidates c i (offer_match content_id c r e)

  pub offered : (c : CandidateSource) → In c matches → IsOffer content_id candidates c
  offered c i =
      let k = All-In _ matches c (kept (is_match content_id) candidates) i in
      let m = match_offer content_id c k.1 in (k.0, m.0, m.1)

  pub IsCarrier-found :
      (p : String) → is_relay_carrier matches p ≡ true → IsCarrier content_id candidates p
  unfolding is_relay_carrier
  IsCarrier-found p h =
      let (c, i, t) = any_found _ matches h in
      let (a, j, u) =
        any_found (λ b. str_eq b.peer_id c.relay_via_peer_id) matches (ground (arith, t)) in
      let via : c.relay_via_peer_id ≡ p = (eq_iff c.relay_via_peer_id p).0 (ground (arith, t)) in
      (
        (λ e. absurd (ground (arith, t, (eq_iff c.relay_via_peer_id "").1 (via ∙ e)))),
        (c, offered c i, via),
        (a, offered a j, (eq_iff a.peer_id c.relay_via_peer_id).0 u ∙ via),
      )

  pub carrier_known :
      (p : String) → IsCarrier content_id candidates p → is_relay_carrier matches p ≡ true
  unfolding is_relay_carrier
  carrier_known p (n, (c, o, e), (a, q, f)) =
      let there : any_candidate (λ b. str_eq b.peer_id c.relay_via_peer_id) matches ≡ true =
        any_candidate-In _ matches a (matched a q)
          ((eq_iff a.peer_id c.relay_via_peer_id).1 (f ∙ sym e)) in
      let named : str_eq c.relay_via_peer_id "" ≡ false =
        elim (Bool-cases (str_eq c.relay_via_peer_id "")) [
          | inl g ↦ absurd (n (sym e ∙ (eq_iff c.relay_via_peer_id "").0 g))
          | inr g ↦ g
        ] in
      any_candidate-In _ matches c (matched c o)
        (rw (named, (eq_iff c.relay_via_peer_id p).1 e, there) refl)
