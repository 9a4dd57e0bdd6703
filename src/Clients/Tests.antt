-- ===== src/Clients/Tests.antt =====
-- The theorems on clients at a client of organization 1 with a primary contact, and a client of
-- organization 2.
use flow_ai.Common.{◌==◌, ℕ, ◌≡◌, refl, true, Option, none, some, List, [], ◌∷◌, ok}
use flow_ai.Database.Rows.{rows}
use flow_ai.Database.Ownership.{Isolated}
use flow_ai.Clients.{Client, ClientContact, CreateClientContactDto, contact_of, add_contact}
use flow_ai.Clients.Isolation.{Request, deletes, run, clients-Isolated}
use flow_ai.Clients.Contacts.{primary_at, new_primary_alone}

abbrev client_of : ℕ → Client
client_of org = record {
  organization_id = org;
  created_by_id = 0;
  company_name = 1;
  contact_person = none;
  email = none;
  phone = none;
  notes = none;
  is_active = true;
}

abbrev table : List (Option Client)
table = some (client_of 1) ∷ some (client_of 2) ∷ []

abbrev requests : List Request
requests = deletes 1 ∷ deletes 0 ∷ []

clients-Isolated_example :
    Isolated (rows Client) (λ r. r.organization_id) 1 table (run (rows Client) 1 requests table)
clients-Isolated_example = clients-Isolated (rows Client) 1 requests table

abbrev primary : CreateClientContactDto
primary = record { name = 3; email = none; phone = none; is_primary = some true }

abbrev contacts : List (Option ClientContact)
contacts = some (contact_of 0 primary) ∷ []

new_primary_alone_example :
    (id : ℕ) × ((add_contact (rows Client) (rows ClientContact) 1 0 primary table contacts).0
      ≡ ok id)
    × (primary_at
          (rows Client)
          (rows ClientContact)
          0
          (add_contact (rows Client) (rows ClientContact) 1 0 primary table contacts).1
          1
        ≡ (id == 1))
new_primary_alone_example =
    new_primary_alone (rows Client) (rows ClientContact) 1 0 primary table contacts (client_of 1) 1
      refl refl refl
