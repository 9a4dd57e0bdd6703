-- ===== src/Tenancy/Decisions.antt =====
-- The decision on a request as a lookup of an active row, and when a change of the members
-- leaves the decision on a key as it was.
use mathlib.Core.Option
use flow_ai.Common.{
  ℕ, ◌≡◌, ◌⊎◌, sym, ◌∙◌, ap, Bool, ◌&&◌, some, arith, Bool-cases, Option-cases, inl, inr,
}
use flow_ai.Database.{Table}
use flow_ai.Database.Laws.{AtMostOne, scoped, find_first-congr, find_first_unique}
use flow_ai.Tenancy.{Role, Member, MembershipKey, is_active}
use flow_ai.Tenancy.Guard.{stored, held_by}
use flow_ai.Tenancy.Coherence.{active_of, IsUnique}

abbrev pub active_held : MembershipKey → ℕ → Member → Bool
active_held k i m = held_by k i m && is_active m.status

abbrev entry : ℕ × Member → Role × ℕ
entry (i, m) = (m.role, i)

module _ (t : Table Member) (members : t.State) (u : IsUnique t members) (k : MembershipKey) where
  active-AtMostOne : AtMostOne t members (active_held k)
  active-AtMostOne i j r q ei ej hi hj = u k i j r q ei ej (ground arith) (ground arith)

  active_stored :
      active_of (stored t members k) ≡ Option.map entry (t.find_first members (active_held k))
  unfolding stored
  active_stored = elim (Option-cases (t.find_first members (held_by k))) [
    | inl n ↦ elim (Option-cases (t.find_first members (active_held k))) [
      | inl n' ↦ ground arith
      | inr ((i, m), f) ↦
          let (e, h) = t.find_first-some members (active_held k) i m f in
          ground (arith, t.find_first-none members (held_by k) i m n e)
    ]
    | inr ((i, m), f) ↦
        let (e, h) = t.find_first-some members (held_by k) i m f in
        elim (Bool-cases (is_active m.status)) [
          | inl live ↦
              let f' =
                find_first_unique t members (active_held k) i m active-AtMostOne e (ground arith) in
              ground arith
          | inr idle ↦ elim (Option-cases (t.find_first members (active_held k))) [
            | inl n' ↦ ground arith
            | inr ((j, q), f') ↦
                let (e', h') = t.find_first-some members (active_held k) j q f' in
                let same : i ≡ j = u k i j m q e e' h (ground arith) in ground arith
          ]
        ]
  ]

-- The decision on a key depends on the active rows of the key alone.
pub decision-congr :
    (t : Table Member) (before after : t.State) (k : MembershipKey)
    → IsUnique t before
    → IsUnique t after
    → ((i : ℕ) → scoped t after (active_held k) i ≡ scoped t before (active_held k) i)
    → active_of (stored t after k) ≡ active_of (stored t before k)
decision-congr t before after k u u' same =
    active_stored t after u' k
    ∙ ap (Option.map entry)
        (find_first-congr t before after (active_held k) (active-AtMostOne t before u k) same)
    ∙ sym (active_stored t before u k)

-- A change that adds no row and moves none to another organization or user keeps the index.
pub IsUnique-keeps :
    (t : Table Member) (before after : t.State)
    → IsUnique t before
    → ((i : ℕ) (m : Member)
        → t.find after i ≡ some m
        → (m' : Member) × (t.find before i ≡ some m')
          × (m'.organization_id ≡ m.organization_id)
          × (m'.user_id ≡ m.user_id))
    → IsUnique t after
IsUnique-keeps t before after u old k i j m q ei ej hi hj =
    let (m', fi, oi, ui) = old i m ei in
    let (q', fj, oj, uj) = old j q ej in u k i j m' q' fi fj (ground arith) (ground arith)

module _ (t : Table Member) (before : t.State) (id : ℕ) (f : Member → Member) where
  -- A row after an update is an old row or the changed one.
  pub old_or_changed_row :
      (i : ℕ) (m : Member)
      → t.find (t.update before id f).1 i ≡ some m
      → (m' : Member) × (t.find before i ≡ some m') × ((m ≡ m') ⊎ ((id ≡ i) × (m ≡ f m')))
  old_or_changed_row i m e = elim (Option-cases (t.find before i)) [
    | inl n ↦
        absurd (ground (arith, t.find-update before id f i, ap (t.find before) {x = id} {y = i}))
    | inr (m', g) ↦
        (m', g, ground (arith, t.find-update before id f i, ap (t.find before) {x = id} {y = i}))
  ]

  pub update-IsUnique :
      ((m : Member) → ((f m).organization_id ≡ m.organization_id) × ((f m).user_id ≡ m.user_id))
      → IsUnique t before
      → IsUnique t (t.update before id f).1
  update-IsUnique keeps u = IsUnique-keeps t before (t.update before id f).1 u λ i m e.
      let (m', g, c) = old_or_changed_row i m e in
      (m', g, ground (arith, keeps m'), ground (arith, keeps m'))
