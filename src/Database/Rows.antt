-- ===== src/Database/Rows.antt =====
-- A table that keeps its rows in a list, the position being the id and a deleted row leaving a
-- gap. It meets every law of `Table`, so what is proved of all tables holds of some.
use mathlib.Core.Option
use flow_ai.Common.{
  ℕ, zero, suc, ◌≡◌, refl, Bool, true, false, Option, none, some, List, [], ◌∷◌, ◌++◌, arith, ◌==◌,
  if◌then◌else◌, length,
}
use flow_ai.Database.{Table, surviving, updated}

module _ {Row : Type 0} where
  abbrev pub at : List (Option Row) → ℕ → Option Row
  at [] i = none
  at (o ∷ s) zero = o
  at (o ∷ s) (suc i) = at s i

  abbrev pub shift : Option (ℕ × Row) → Option (ℕ × Row)
  shift none = none
  shift (some (i, r)) = some (suc i, r)

  abbrev pub first : List (Option Row) → (ℕ → Row → Bool) → Option (ℕ × Row)
  first [] p = none
  first (none ∷ s) p = shift (first s (λ i. p (suc i)))
  first (some r ∷ s) p = if p 0 r then some (0, r) else shift (first s (λ i. p (suc i)))

  abbrev pub alter : List (Option Row) → ℕ → (Row → Row) → List (Option Row)
  alter [] i f = []
  alter (o ∷ s) zero f = Option.map f o ∷ s
  alter (o ∷ s) (suc i) f = o ∷ alter s i f

  abbrev pub drop_where : List (Option Row) → (ℕ → Row → Bool) → List (Option Row)
  drop_where [] p = []
  drop_where (o ∷ s) p = surviving (p 0) o ∷ drop_where s (λ i. p (suc i))

  abbrev pub alter_where : List (Option Row) → (ℕ → Row → Bool) → (Row → Row) → List (Option Row)
  alter_where [] p f = []
  alter_where (o ∷ s) p f = updated (p 0) f o ∷ alter_where s (λ i. p (suc i)) f

  pub first-some :
      (s : List (Option Row)) (p : ℕ → Row → Bool) (i : ℕ) (r : Row)
      → first s p ≡ some (i, r)
      → (at s i ≡ some r) × (p i r ≡ true)
  first-some [] p i r e = ground arith
  first-some (none ∷ s) p zero r e = ground arith
  first-some (none ∷ s) p (suc i) r e = ground (arith, first-some s (λ j. p (suc j)) i r)
  first-some (some q ∷ s) p zero r e = ground arith
  first-some (some q ∷ s) p (suc i) r e = ground (arith, first-some s (λ j. p (suc j)) i r)

  pub first-none :
      (s : List (Option Row)) (p : ℕ → Row → Bool) (i : ℕ) (r : Row)
      → first s p ≡ none
      → at s i ≡ some r
      → p i r ≡ false
  first-none [] p i r n e = ground arith
  first-none (none ∷ s) p zero r n e = ground arith
  first-none (none ∷ s) p (suc i) r n e = ground (arith, first-none s (λ j. p (suc j)) i r)
  first-none (some q ∷ s) p zero r n e = ground arith
  first-none (some q ∷ s) p (suc i) r n e = ground (arith, first-none s (λ j. p (suc j)) i r)

  pub at_fresh : (s : List (Option Row)) → at s (length s) ≡ none
  at_fresh [] = refl
  at_fresh (o ∷ s) = at_fresh s

  pub at-append :
      (s : List (Option Row)) (r : Row) (j : ℕ)
      → at (s ++ some r ∷ []) j ≡ (if length s == j then some r else at s j)
  at-append [] r zero = refl
  at-append [] r (suc j) = ground arith
  at-append (o ∷ s) r zero = ground arith
  at-append (o ∷ s) r (suc j) = ground (arith, at-append s r j)

  pub at-alter :
      (s : List (Option Row)) (i : ℕ) (f : Row → Row) (j : ℕ)
      → at (alter s i f) j ≡ (if i == j then Option.map f (at s i) else at s j)
  at-alter [] i f j = ground arith
  at-alter (o ∷ s) zero f zero = refl
  at-alter (o ∷ s) zero f (suc j) = ground arith
  at-alter (o ∷ s) (suc i) f zero = ground arith
  at-alter (o ∷ s) (suc i) f (suc j) = ground (arith, at-alter s i f j)

  pub at-drop_where :
      (s : List (Option Row)) (p : ℕ → Row → Bool) (j : ℕ)
      → at (drop_where s p) j ≡ surviving (p j) (at s j)
  at-drop_where [] p j = refl
  at-drop_where (o ∷ s) p zero = refl
  at-drop_where (o ∷ s) p (suc j) = at-drop_where s (λ i. p (suc i)) j

  pub at-alter_where :
      (s : List (Option Row)) (p : ℕ → Row → Bool) (f : Row → Row) (j : ℕ)
      → at (alter_where s p f) j ≡ updated (p j) f (at s j)
  at-alter_where [] p f j = refl
  at-alter_where (o ∷ s) p f zero = refl
  at-alter_where (o ∷ s) p f (suc j) = at-alter_where s (λ i. p (suc i)) f j

abbrev pub rows : (Row : Type 0) → Table Row
rows Row = record {
  State = List (Option Row);
  find = at;
  find_first = first;
  create = λ s r. (length s, s ++ some r ∷ []);
  update = λ s i f. (Option.map f (at s i), alter s i f);
  delete_many = drop_where;
  update_many = alter_where;
  find_first-some = first-some;
  find_first-none = first-none;
  create-fresh = λ s r. at_fresh s;
  find-create = at-append;
  update_reply = λ s i f. refl;
  find-update = at-alter;
  find-delete_many = at-drop_where;
  find-update_many = at-alter_where;
}
