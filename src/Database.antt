-- ===== src/Database.antt =====
-- Prisma's table operations, as the services call them (src/database/prisma.service.ts hands out
-- the client; the client is a third-party package). A table is a parameter: an abstract state,
-- the operations, and the documented behaviour of each in terms of `find`, the row of an id.
-- Ids and the other opaque strings of the schema are numbers here: the code only compares them.
pub mod Laws
pub mod Ownership
pub mod Rows
use flow_ai.Common.{
  ℕ, ◌≡◌, Bool, true, false, Option, none, some, ◌==◌, if◌then◌else◌, Result, ok, failed,
  server_error,
}
use mathlib.Core.Option

module _ {A : Type 0} where
  -- The row if it satisfies a where clause.
  abbrev pub matching : (A → Bool) → Option A → Option A
  matching p none = none
  matching p (some a) = if p a then some a else none

  -- The row unless a deleteMany removes it.
  abbrev pub surviving : (A → Bool) → Option A → Option A
  surviving p none = none
  surviving p (some a) = if p a then none else some a

  -- The row after an updateMany.
  abbrev pub updated : (A → Bool) → (A → A) → Option A → Option A
  updated p f none = none
  updated p f (some a) = some (if p a then f a else a)

pub record Table (Row : Type 0) : Type 1 where
  pub State : Type 0
  -- findUnique by id
  pub find : State → ℕ → Option Row
  -- findFirst and findUnique with a where clause over the id and the row
  pub find_first : State → (ℕ → Row → Bool) → Option (ℕ × Row)
  -- create, with an id that the database makes up
  pub create : State → Row → ℕ × State
  -- update by id: no row is an error
  pub update : State → ℕ → (Row → Row) → Option Row × State
  -- deleteMany and updateMany with a where clause, and delete by id
  pub delete_many : State → (ℕ → Row → Bool) → State
  pub update_many : State → (ℕ → Row → Bool) → (Row → Row) → State
  pub find_first-some :
      (s : State) (p : ℕ → Row → Bool) (i : ℕ) (r : Row)
      → find_first s p ≡ some (i, r)
      → (find s i ≡ some r) × (p i r ≡ true)
  pub find_first-none :
      (s : State) (p : ℕ → Row → Bool) (i : ℕ) (r : Row)
      → find_first s p ≡ none
      → find s i ≡ some r
      → p i r ≡ false
  pub create-fresh : (s : State) (r : Row) → find s (create s r).0 ≡ none
  pub find-create :
      (s : State) (r : Row) (j : ℕ)
      → find (create s r).1 j ≡ (if (create s r).0 == j then some r else find s j)
  pub update_reply :
      (s : State) (i : ℕ) (f : Row → Row) → (update s i f).0 ≡ Option.map f (find s i)
  pub find-update :
      (s : State) (i : ℕ) (f : Row → Row) (j : ℕ)
      → find (update s i f).1 j ≡ (if i == j then Option.map f (find s i) else find s j)
  pub find-delete_many :
      (s : State) (p : ℕ → Row → Bool) (j : ℕ)
      → find (delete_many s p) j ≡ surviving (p j) (find s j)
  pub find-update_many :
      (s : State) (p : ℕ → Row → Bool) (f : Row → Row) (j : ℕ)
      → find (update_many s p f) j ≡ updated (p j) f (find s j)

-- delete by id: no row is an error of the client.
unfoldable pub delete_row : {Row : Type 0} (t : Table Row) → t.State → ℕ → Result ℕ × t.State
delete_row t s id =
    let s' = t.delete_many s (λ i _. i == id) in
    elim (t.find s id) [ none ↦ (failed server_error, s) | some _ ↦ (ok id, s') ]
