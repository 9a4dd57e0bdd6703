-- ===== src/Clients/Contacts.antt =====
-- The primary contact of a client.
use flow_ai.Common.{
  ℕ, ◌≡◌, refl, Bool, true, false, some, arith, ◌==◌, ◌&&◌, Option-cases, Bool-cases, inl, inr, ok,
  ap, ◌∙◌, none, ==_refl,
}
use flow_ai.Database.{Table}
use flow_ai.Database.Laws.{find_first_by_id}
use flow_ai.Clients.{
  Client, ClientContact, CreateClientContactDto, contact_of, add_contact, find_one,
}

abbrev pub is_primary_of : ℕ → ℕ → ClientContact → Bool
is_primary_of client_id i r = r.client_id == client_id && r.is_primary

module _ (clients : Table Client) (contacts : Table ClientContact) where
  demoted_none :
      (c : contacts.State) (client_id j : ℕ) (q : ClientContact)
      → contacts.find
          (contacts.update_many c
            (λ _ r. r.client_id == client_id)
            (λ r. record r { is_primary = false }))
          j
        ≡ some q
      → is_primary_of client_id j q ≡ false
  demoted_none c client_id j q e = elim (Option-cases (contacts.find c j)) [
    | inl n ↦ ground (
      arith,
      contacts.find-update_many c (λ _ r. r.client_id == client_id)
          (λ r. record r { is_primary = false }) j,
    )
    | inr (r, f) ↦ ground (
      arith,
      contacts.find-update_many c (λ _ r. r.client_id == client_id)
          (λ r. record r { is_primary = false }) j,
    )
  ]

  abbrev demoted : ℕ → contacts.State → contacts.State
  demoted client_id c =
      contacts.update_many c (λ _ r. r.client_id == client_id)
        (λ r. record r { is_primary = false })

  added :
      (org client_id : ℕ) (dto : CreateClientContactDto) (s : clients.State) (c : contacts.State)
      (client : Client)
      → clients.find s client_id ≡ some client
      → client.organization_id ≡ org
      → dto.is_primary ≡ some true
      → let (id, c') = contacts.create (demoted client_id c) (contact_of client_id dto) in
        add_contact clients contacts org client_id dto s c ≡ (ok id, c')
  unfolding add_contact find_one
  added org client_id dto s c client e o d =
      let own : find_one clients org client_id s ≡ ok (client_id, client) =
        ground (arith, find_first_by_id clients s (λ r. r.organization_id == org) client_id) in
      rw (own, d, add_contact) refl

  -- Whether the contact of an id is a primary one of the client.
  abbrev pub primary_at : ℕ → contacts.State → ℕ → Bool
  primary_at client_id c j = elim (contacts.find c j) [
    | none ↦ false
    | some q ↦ is_primary_of client_id j q
  ]

  demoted_at :
      (c : contacts.State) (client_id j : ℕ) → primary_at client_id (demoted client_id c) j ≡ false
  demoted_at c client_id j = elim (Option-cases (contacts.find (demoted client_id c) j)) [
    | inl n ↦ ground arith
    | inr (q, e) ↦ ground (arith, demoted_none c client_id j q e)
  ]

  created_at :
      (c : contacts.State) (client_id j : ℕ) (dto : CreateClientContactDto)
      → dto.is_primary ≡ some true
      → let (id, c') = contacts.create (demoted client_id c) (contact_of client_id dto) in
        primary_at client_id c' j ≡ (id == j)
  created_at c client_id j dto d =
      let (id, c') = contacts.create (demoted client_id c) (contact_of client_id dto) in
      let made = contacts.find-create (demoted client_id c) (contact_of client_id dto) j in
      elim (Bool-cases (id == j)) [
        | inl here ↦ ground (arith, made, ==_refl client_id)
        | inr other ↦ ground (arith, made, demoted_at c client_id j)
      ]

  -- A contact added as the primary one of a client of the organization is stored as a primary
  -- contact of that client, and is the only one, however many there were before.
  pub new_primary_alone :
      (org client_id : ℕ) (dto : CreateClientContactDto) (s : clients.State) (c : contacts.State)
      (client : Client) (j : ℕ)
      → clients.find s client_id ≡ some client
      → client.organization_id ≡ org
      → dto.is_primary ≡ some true
      → (id : ℕ) × ((add_contact clients contacts org client_id dto s c).0 ≡ ok id)
        × (primary_at client_id (add_contact clients contacts org client_id dto s c).1 j
            ≡ (id == j))
  new_primary_alone org client_id dto s c client j e o d =
      let a = added org client_id dto s c client e o d in
      (
        (contacts.create (demoted client_id c) (contact_of client_id dto)).0,
        ap (λ x. x.0) a,
        ap (λ x. primary_at client_id x.1 j) a ∙ created_at c client_id j dto d,
      )
