-- ===== src/Scraper/Fetch/Capped.antt =====
-- The cap on what is read of a body.
use flow_ai.Common.{
  ℕ, ◌+◌, ◌≤◌, ◌<◌, ◌≡◌, refl, List, [], ◌∷◌, ◌++◌, arith, ltb, length, length-append, Bool-cases,
  inl, inr, ◌⊎◌, ap, ◌∙◌,
}
use mathlib.Core.List.{append_assoc}
use flow_ai.Scraper.Fetch.{max_bytes, read_from, read_capped}

abbrev pub whole : List (List ℕ) → List ℕ
whole [] = []
whole (chunk ∷ chunks) = chunk ++ whole chunks

from_capped :
    (total : ℕ) (body : List (List ℕ))
    → total ≤ max_bytes
    → (total + length (read_from total body) ≤ max_bytes)
      × (rest : List ℕ) × (read_from total body ++ rest ≡ whole body)
      × ((read_from total body ≡ whole body) ⊎ (max_bytes < total + length (whole body)))
unfolding read_from
from_capped total [] h = (omega arith, [], refl, inl refl)
from_capped total (chunk ∷ chunks) h = elim (Bool-cases (ltb max_bytes (total + length chunk))) [
  | inl over ↦
      rw (over, read_from)
        (
          omega arith,
          whole (chunk ∷ chunks),
          refl,
          inr (ground (arith, length-append chunk (whole chunks))),
        )
  | inr fits ↦
      let (a, rest, b, c) = from_capped (total + length chunk) chunks (ground arith) in
      rw (fits, read_from)
        (
          omega (arith, a, length-append chunk (read_from (total + length chunk) chunks)),
          rest,
          append_assoc chunk _ rest ∙ ap (λ l. chunk ++ l) b,
          elim c [
            | inl e ↦ inl (ap (λ l. chunk ++ l) e)
            | inr l ↦ inr (omega (arith, l, length-append chunk (whole chunks)))
          ],
        )
]

-- However long a body is, in whatever chunks it comes and whatever its declared length, no more
-- than two megabytes of it are kept, and they are a beginning of it; a body that fits is kept whole.
pub read_within_cap :
    (body : List (List ℕ))
    → (length (read_capped body) ≤ max_bytes)
      × (rest : List ℕ) × (read_capped body ++ rest ≡ whole body)
      × ((read_capped body ≡ whole body) ⊎ (max_bytes < length (whole body)))
unfolding read_capped
read_within_cap body =
    let (a, rest, b, c) = from_capped 0 body (omega arith) in
    (omega (arith, a), rest, b, elim c [ inl e ↦ inl e | inr l ↦ inr (omega (arith, l)) ])
