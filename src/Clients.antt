-- ===== src/Clients.antt =====
-- src/modules/clients/clients.service.ts: the clients of an organization and their contacts.
pub mod Contacts
pub mod Isolation
pub mod Tests
use flow_ai.Common.{
  ℕ, Bool, true, false, ◌&&◌, Option, none, some, or_default, or_else, ◌==◌, if◌then◌else◌, Result,
  ok, failed, not_found,
}
use flow_ai.Database.{Table, delete_row}

pub record Client : Type 0 where
  pub organization_id : ℕ
  pub created_by_id : ℕ
  pub company_name : ℕ
  pub contact_person : Option ℕ
  pub email : Option ℕ
  pub phone : Option ℕ
  pub notes : Option ℕ
  pub is_active : Bool

pub record ClientContact : Type 0 where
  pub client_id : ℕ
  pub name : ℕ
  pub email : Option ℕ
  pub phone : Option ℕ
  pub is_primary : Bool

pub record CreateClientDto : Type 0 where
  pub company_name : ℕ
  pub contact_person : Option ℕ
  pub email : Option ℕ
  pub phone : Option ℕ
  pub notes : Option ℕ

pub record UpdateClientDto : Type 0 where
  pub company_name : Option ℕ
  pub contact_person : Option ℕ
  pub email : Option ℕ
  pub phone : Option ℕ
  pub notes : Option ℕ

pub record CreateClientContactDto : Type 0 where
  pub name : ℕ
  pub email : Option ℕ
  pub phone : Option ℕ
  pub is_primary : Option Bool

abbrev pub changed : UpdateClientDto → Client → Client
changed dto r = record r {
  company_name = or_default dto.company_name r.company_name;
  contact_person = or_else dto.contact_person r.contact_person;
  email = or_else dto.email r.email;
  phone = or_else dto.phone r.phone;
  notes = or_else dto.notes r.notes;
}

abbrev pub archived : Client → Client
archived r = record r { is_active = false }

abbrev pub contact_of : ℕ → CreateClientContactDto → ClientContact
contact_of client_id dto = record {
  client_id = client_id;
  name = dto.name;
  email = dto.email;
  phone = dto.phone;
  is_primary = or_default dto.is_primary false;
}

module _ (clients : Table Client) where
  pub create : ℕ → ℕ → CreateClientDto → clients.State → ℕ × clients.State
  create org user dto s = clients.create s (record {
    organization_id = org;
    created_by_id = user;
    company_name = dto.company_name;
    contact_person = dto.contact_person;
    email = dto.email;
    phone = dto.phone;
    notes = dto.notes;
    is_active = true;
  })

  pub find_one : ℕ → ℕ → clients.State → Result (ℕ × Client)
  find_one org id s = elim (clients.find_first s (λ i r. i == id && r.organization_id == org)) [
    | none ↦ failed not_found
    | some x ↦ ok x
  ]

  pub update : ℕ → ℕ → UpdateClientDto → clients.State → Result (Option Client) × clients.State
  update org id dto s =
      let (row, s') = clients.update s id (changed dto) in
      elim (find_one org id s) [ failed e ↦ (failed e, s) | ok _ ↦ (ok row, s') ]

  -- A client is archived, not removed.
  pub delete : ℕ → ℕ → clients.State → Result ℕ × clients.State
  delete org id s =
      let (row, s') = clients.update s id archived in
      elim (find_one org id s) [ failed e ↦ (failed e, s) | ok _ ↦ (ok id, s') ]

  module _ (contacts : Table ClientContact) where
    pub add_contact :
        ℕ → ℕ → CreateClientContactDto → clients.State → contacts.State → Result ℕ × contacts.State
    add_contact org client_id dto s c =
        let demoted =
          contacts.update_many c (λ _ r. r.client_id == client_id)
            (λ r. record r { is_primary = false }) in
        let c₁ = if or_default dto.is_primary false then demoted else c in
        let (id, c₂) = contacts.create c₁ (contact_of client_id dto) in
        elim (find_one org client_id s) [ failed e ↦ (failed e, c) | ok _ ↦ (ok id, c₂) ]

    pub remove_contact : ℕ → ℕ → ℕ → clients.State → contacts.State → Result ℕ × contacts.State
    remove_contact org client_id contact_id s c = elim (find_one org client_id s) [
      | failed e ↦ (failed e, c)
      | ok _ ↦ delete_row contacts c contact_id
    ]
