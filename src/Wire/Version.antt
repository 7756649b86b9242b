-- ===== src/Wire/Version.antt =====
-- Negotiation of the protocol's version (crates/cq-protocol/src/version.rs).
use cqserver.Prelude.{
  ℕ, ◌≡◌, ◌≤◌, ◌⊎◌, refl, ap, subst, sym, ◌∙◌, Bool, true, Option, none, some, List, [], ◌∷◌, arith,
  inl, inr, Bool-cases, Option-cases, any, leb, nat_eq, if◌then◌else◌,
}

abbrev pub supported_versions : List ℕ
supported_versions = 1 ∷ 2 ∷ []

abbrev pub default_legacy_version : ℕ
default_legacy_version = 1

pub data NegotiationOutcome : Type 0 where
  negotiated : ℕ → NegotiationOutcome
  no_overlap : NegotiationOutcome

abbrev pub contains : ℕ → List ℕ → Bool
contains v vs = any (λ x. nat_eq x v) vs

-- The loop over the client's versions.
unfoldable pub best_of : List ℕ → List ℕ → Option ℕ → Option ℕ
best_of server [] best = best
best_of server (v ∷ client) best = best_of server client (
    if contains v server
    then some (elim best [ some prev ↦ if leb v prev then prev else v | none ↦ v ])
    else best)

unfoldable pub negotiate : List ℕ → List ℕ → NegotiationOutcome
negotiate [] server =
    if contains default_legacy_version server then negotiated default_legacy_version else no_overlap
negotiate (v ∷ client) server = elim (best_of server (v ∷ client) none) [
  | some best ↦ negotiated best
  | none ↦ no_overlap
]

abbrev pub IsCommon : List ℕ → List ℕ → ℕ → Type 0
IsCommon client server w = (contains w client ≡ true) × (contains w server ≡ true)

-- The outcome names the highest version that both sides have; or there is none, and it says so.
abbrev pub IsHighest : List ℕ → List ℕ → NegotiationOutcome → Type 0
IsHighest client server (negotiated v) =
    IsCommon client server v × ((w : ℕ) → IsCommon client server w → w ≤ v)
IsHighest client server no_overlap = (w : ℕ) → IsCommon client server w → ⊥

abbrev AtMost : ℕ → Option ℕ → Type 0
AtMost w none = ⊥
AtMost w (some q) = w ≤ q

-- What the loop returns, from the best version so far: a bound of that and of the common ones, and
-- one of them.
record Best (server client : List ℕ) (best result : Option ℕ) : Type 0 where
  keeps : (p : ℕ) → best ≡ some p → AtMost p result
  bounds : (w : ℕ) → IsCommon client server w → AtMost w result
  origin : (q : ℕ) → result ≡ some q → (best ≡ some q) ⊎ IsCommon client server q

IsCommon-cases :
    (v : ℕ) (client server : List ℕ) (w : ℕ)
    → IsCommon (v ∷ client) server w
    → (v ≡ w) ⊎ IsCommon client server w
IsCommon-cases v client server w c = ground (arith, c.0, c.1)

IsCommon-later :
    (v : ℕ) (client server : List ℕ) (w : ℕ)
    → IsCommon client server w
    → IsCommon (v ∷ client) server w
IsCommon-later v client server w c = ground (arith, c.0, c.1)

IsCommon-now :
    (v : ℕ) (client server : List ℕ) → contains v server ≡ true → IsCommon (v ∷ client) server v
IsCommon-now v client server h = ground (arith, h)

AtMost-trans : (p q : ℕ) (r : Option ℕ) → p ≤ q → AtMost q r → AtMost p r
AtMost-trans p q none le a = a
AtMost-trans p q (some r) le a = omega (arith, le, a)

-- The best version so far, against the next common one.
abbrev raise : ℕ → Option ℕ → ℕ
raise v best = elim best [ some prev ↦ if leb v prev then prev else v | none ↦ v ]

raise_lem :
    (v : ℕ) (best : Option ℕ)
    → (v ≤ raise v best)
      × ((p : ℕ) → best ≡ some p → p ≤ raise v best)
      × ((raise v best ≡ v) ⊎ (best ≡ some (raise v best)))
raise_lem v none = (omega arith, λ p e. cc, inl refl)
raise_lem v (some prev) = ground arith

best_of-Best :
    (server client : List ℕ) (best : Option ℕ)
    → Best server client best (best_of server client best)
unfolding best_of
best_of-Best server [] best = record {
  keeps = λ p e. rw e (omega arith);
  bounds = λ w c. absurd (ground (arith, c.0));
  origin = λ q e. inl e;
}
best_of-Best server (v ∷ client) best = elim (Bool-cases (contains v server)) [
  | inr foreign ↦
      let ih = best_of-Best server client best in
      rw foreign (record {
        keeps = ih.keeps;
        bounds = λ w c. elim (IsCommon-cases v client server w c) [
          | inl here ↦ absurd (cc (foreign, here, c.1))
          | inr there ↦ ih.bounds w there
        ];
        origin = λ q e. elim (ih.origin q e) [
          | inl old ↦ inl old
          | inr c ↦ inr (IsCommon-later v client server q c)
        ];
      })
  | inl shared ↦
      let raised = raise v best in
      let ih = best_of-Best server client (some raised) in
      let result = best_of server client (some raised) in
      let (over_v, over_best, same) = raise_lem v best in
      let held : AtMost raised result = ih.keeps raised refl in
      rw shared (record {
        keeps = λ p e. AtMost-trans p raised result (over_best p e) held;
        bounds = λ w c. elim (IsCommon-cases v client server w c) [
          | inl here ↦ AtMost-trans w raised result (omega (arith, here, over_v)) held
          | inr there ↦ ih.bounds w there
        ];
        origin = λ q e. elim (ih.origin q e) [
          | inr c ↦ inr (IsCommon-later v client server q c)
          | inl old ↦
              let at : raised ≡ q = cc old in
              elim same [
                | inl is_v ↦
                    let e' : v ≡ q = sym is_v ∙ at in
                    inr (
                      subst (λ x. IsCommon (v ∷ client) server x) e'
                        (IsCommon-now v client server shared))
                | inr is_best ↦ inl (is_best ∙ ap (λ x. some x) at)
              ]
        ];
      })
]

-- A client that lists its versions and a server agree on the highest version that both list, or find
-- that they share none.
pub negotiate-IsHighest :
    (v : ℕ) (client server : List ℕ) → IsHighest (v ∷ client) server (negotiate (v ∷ client) server)
unfolding negotiate
negotiate-IsHighest v client server =
    let b = best_of-Best server (v ∷ client) none in
    elim (Option-cases (best_of server (v ∷ client) none)) [
      | inl e ↦ rw (e, IsHighest) (λ w c. subst (AtMost w) e (b.bounds w c))
      | inr (q, e) ↦
          let here : IsCommon (v ∷ client) server q = elim (b.origin q e) [
            | inl none_yet ↦ absurd (cc none_yet)
            | inr c ↦ c
          ] in
          rw (e, IsHighest) (here, λ w c. subst (AtMost w) e (b.bounds w c))
    ]
