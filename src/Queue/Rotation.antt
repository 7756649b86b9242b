-- ===== src/Queue/Rotation.antt =====
-- The choice of a consumer: who can be chosen, and what the rotation keeps.
use mathlib.Core.List.{head?, append_assoc, append-nil}
use cqserver.Prelude.{
  ◌≡◌, refl, ap, sym, ◌∙◌, String, Bool, ◌||◌, Option, none, some, List, [], ◌∷◌, ◌++◌, arith,
  if◌then◌else◌, length, any, Bool-cases, Option-cases, ◌==◌, string_eq, inl, inr,
}
use cqserver.Queue.State.{Inner}
use cqserver.Queue.Routing.{rotate_to_other, pick_next_consumer_excluding}

-- Whether a consumer is connected.
abbrev pub connected : String → List String → Bool
connected c = any (λ s. s == c)

pub connected-rotate :
    (c x : String) (xs : List String) → connected c (xs ++ x ∷ []) ≡ connected c (x ∷ xs)
connected-rotate c x [] = refl
connected-rotate c x (y ∷ xs) = ground (arith, connected-rotate c x xs)

-- The first consumer that is not `original`, and the line when the rotation stops there.
abbrev pub first_other : String → List String → Option String
first_other original [] = none
first_other original (x ∷ xs) = if x == original then first_other original xs else some x

line_after : String → List String → List String → List String
line_after original [] ys = ys
line_after original (x ∷ xs) ys =
    if x == original then line_after original xs (ys ++ x ∷ []) else xs ++ ys ++ x ∷ []

rotate_to_other_lem :
    (original : String) (xs ys : List String)
    → rotate_to_other (length xs) original (xs ++ ys)
      ≡ (first_other original xs, line_after original xs ys)
unfolding rotate_to_other line_after
rotate_to_other_lem o [] ys = refl
rotate_to_other_lem o (x ∷ xs) ys = elim (Bool-cases (x == o)) [
  | inl same ↦ rw (same, append_assoc) (rotate_to_other_lem o xs (ys ++ x ∷ []))
  | inr other ↦ rw (other, append_assoc)
]

pub connected-append :
    (c : String) (xs ys : List String) → connected c (xs ++ ys) ≡ (connected c xs || connected c ys)
connected-append c [] ys = refl
connected-append c (x ∷ xs) ys = ground (arith, connected-append c xs ys)

connected-line_after :
    (c original : String) (xs ys : List String)
    → connected c (line_after original xs ys) ≡ connected c (xs ++ ys)
unfolding line_after
connected-line_after c o [] ys = refl
connected-line_after c o (x ∷ xs) ys = elim (Bool-cases (x == o)) [
  | inl same ↦ rw same (
      ground (
        arith,
        connected-line_after c o xs (ys ++ x ∷ []),
        connected-append c xs (ys ++ x ∷ []),
        connected-append c ys (x ∷ []),
        connected-append c xs ys,
      ))
  | inr other ↦ rw other (connected-rotate c x (xs ++ ys))
]

-- The line that is left when nobody else was found is the line of before.
line_after-none :
    (original : String) (xs ys : List String)
    → first_other original xs ≡ none
    → line_after original xs ys ≡ ys ++ xs
unfolding line_after
line_after-none o [] ys h = sym (append-nil ys)
line_after-none o (x ∷ xs) ys h = elim (Bool-cases (x == o)) [
  | inl same ↦
      rw same (line_after-none o xs (ys ++ x ∷ []) (ground arith) ∙ append_assoc ys (x ∷ []) xs)
  | inr other ↦ absurd (ground (arith, other))
]

rotate_to_other_whole :
    (original : String) (cs : List String)
    → rotate_to_other (length cs) original cs ≡ (first_other original cs, line_after original cs [])
rotate_to_other_whole o cs = rw append-nil at (rotate_to_other_lem o cs [])

rotate_alone :
    (original : String) (cs : List String)
    → first_other original cs ≡ none
    → rotate_to_other (length cs) original cs ≡ (none, cs)
rotate_alone o cs alone = rw (rotate_to_other_whole, alone, line_after-none o cs [] alone)

module _ {V : Type 0} where
  -- A redelivery goes to the next consumer in the rotation other than `original`; to the head of
  -- the line if there is no other; and to nobody only if nobody is connected.
  pub pick_next_consumer_excluding_lem :
      (original : String) (g : Inner V)
      → (pick_next_consumer_excluding original g).0
        ≡ elim (first_other original g.consumers) [ some c ↦ some c | none ↦ head? g.consumers ]
  unfolding pick_next_consumer_excluding
  pick_next_consumer_excluding_lem o g = elim (Option-cases (first_other o g.consumers)) [
    | inl alone ↦
        rw (alone, rotate_alone o g.consumers alone, pick_next_consumer_excluding)
          (rw (rotate_alone o g.consumers alone))
    | inr (c, found) ↦ rw (rotate_to_other_whole, found, pick_next_consumer_excluding)
  ]

  -- The rotation connects and disconnects nobody.
  pub connected-pick_next :
      (c original : String) (g : Inner V)
      → connected c (pick_next_consumer_excluding original g).1.consumers ≡ connected c g.consumers
  unfolding pick_next_consumer_excluding
  connected-pick_next c o g = elim (Option-cases (first_other o g.consumers)) [
    | inl alone ↦
        rw (rotate_alone o g.consumers alone, pick_next_consumer_excluding)
          (rw (rotate_alone o g.consumers alone))
    | inr (d, found) ↦
        rw (rotate_to_other_whole, found, pick_next_consumer_excluding)
          (rw rotate_to_other_whole
            (connected-line_after c o g.consumers [] ∙ ap (connected c) (append-nil g.consumers)))
  ]
