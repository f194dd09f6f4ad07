-- ===== src/Proxy/Telemetry/Split.antt =====
-- Splitting a text at its dashes and joining the pieces.
use vortex_proxy.Prelude.{
  ℕ, ◌≡◌, ◌≢◌, refl, ap, ◌∙◌, arith, List, [], ◌∷◌, ◌++◌, All, Text, ◌==◌, Bool-cases, inl, inr,
}
use vortex_proxy.Proxy.Telemetry.{dash, extend, split}

-- No dash in it.
abbrev pub IsPiece : Text → Type 0
IsPiece [] = Unit
IsPiece (b ∷ s) = (b ≢ dash) × IsPiece s

abbrev pub join : List Text → Text
join [] = []
join (piece ∷ []) = piece
join (piece ∷ next ∷ pieces) = piece ++ dash ∷ join (next ∷ pieces)

-- At least one piece.
abbrev pub IsSplit : List Text → Type 0
IsSplit [] = ⊥
IsSplit (piece ∷ pieces) = All IsPiece (piece ∷ pieces)

join-extend :
    (b : ℕ) (pieces : List Text) → IsSplit pieces → join (extend b pieces) ≡ b ∷ join pieces
join-extend b [] h = absurd h
join-extend b (piece ∷ []) h = refl
join-extend b (piece ∷ next ∷ pieces) h = refl

join-dash : (pieces : List Text) → IsSplit pieces → join ([] ∷ pieces) ≡ dash ∷ join pieces
join-dash [] h = absurd h
join-dash (piece ∷ pieces) h = refl

extend-IsSplit :
    (b : ℕ) (pieces : List Text) → b ≢ dash → IsSplit pieces → IsSplit (extend b pieces)
extend-IsSplit b [] n h = absurd h
extend-IsSplit b (piece ∷ pieces) n (h, hs) = ((n, h), hs)

cons-IsSplit : (pieces : List Text) → IsSplit pieces → IsSplit ([] ∷ pieces)
cons-IsSplit [] h = absurd h
cons-IsSplit (piece ∷ pieces) h = (tt, h)

pub split-IsSplit : (s : Text) → IsSplit (split s)
unfolding split
split-IsSplit [] = (tt, tt)
split-IsSplit (b ∷ s) = elim (Bool-cases (b == dash)) [
  | inl e ↦ rw e (cons-IsSplit (split s) (split-IsSplit s))
  | inr e ↦ rw e (extend-IsSplit b (split s) (ground arith) (split-IsSplit s))
]

-- Joining the pieces gives the text back.
pub join-split : (s : Text) → join (split s) ≡ s
unfolding split
join-split [] = refl
join-split (b ∷ s) = elim (Bool-cases (b == dash)) [
  | inl e ↦ rw e (join-dash (split s) (split-IsSplit s) ∙ ground (arith, join-split s))
  | inr e ↦ rw e (join-extend b (split s) (split-IsSplit s) ∙ ap (λ r. b ∷ r) (join-split s))
]

split-piece : (piece : Text) → IsPiece piece → split piece ≡ piece ∷ []
unfolding split
split-piece [] h = refl
split-piece (b ∷ piece) (n, h) = ground (arith, split-piece piece h)

split-append :
    (piece rest : Text) → IsPiece piece → split (piece ++ dash ∷ rest) ≡ piece ∷ split rest
unfolding split
split-append [] rest h = refl
split-append (b ∷ piece) rest (n, h) = ground (arith, split-append piece rest h)

-- Splitting joined pieces gives the pieces back.
pub split-join : (pieces : List Text) → IsSplit pieces → split (join pieces) ≡ pieces
split-join [] h = absurd h
split-join (piece ∷ []) (h, hs) = split-piece piece h
split-join (piece ∷ next ∷ pieces) (h, hs) =
    split-append piece (join (next ∷ pieces)) h
    ∙ ap (λ r. piece ∷ r) (split-join (next ∷ pieces) hs)
