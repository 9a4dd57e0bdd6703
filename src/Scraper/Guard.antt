-- ===== src/Scraper/Guard.antt =====
-- assertSafeUrl of src/modules/content/scraper.service.ts. `new URL` is the parameter `parse_url`,
-- and the network the parameter `Net`: name servers and servers answer as they like, and may answer
-- otherwise the next time.
use flow_ai.Common.{
  ℕ, Bool, false, ◌||◌, not, Option, none, some, List, [], ◌∷◌, ◌==◌, if◌then◌else◌, is_empty, Text,
  codes, same_text,
}
use flow_ai.Scraper.Address.{is_private_address}

pub record Url : Type 0 where
  pub protocol : Text
  pub username : Text
  pub password : Text
  pub hostname : Text
  pub origin : Text
  pub pathname : Text

-- The headers that the scraper reads, and the chunks of the body.
pub record Response : Type 0 where
  pub status : ℕ
  pub location : Option Text
  pub content_type : Text
  pub content_length : Option ℕ
  pub body : List (List ℕ)

pub record Net : Type 1 where
  pub State : Type 0
  -- dns.lookup of all addresses, which may throw
  pub lookup : State → Text → Option (List Text) × State
  -- the request with its connection to an address, which may throw
  pub send : State → Url → Text → Option Response × State
  -- fetch of an origin's robots.txt: its body, or `none` for any failure
  pub robots : State → Text → Option Text × State

pub data Unsafe : Type 0 where
  malformed_url blocked_scheme has_credentials unresolved no_address blocked_address : Unsafe

pub data Checked : Type 0 where
  safe : Text → Checked
  unsafe : Unsafe → Checked

-- host.replace(/^\[|\]$/g, '')
abbrev pub without_end : Text → Text
without_end [] = []
without_end (c ∷ []) = if c == b']' then [] else c ∷ []
without_end (c ∷ d ∷ s) = c ∷ without_end (d ∷ s)

abbrev pub without_brackets : Text → Text
without_brackets [] = []
without_brackets (c ∷ s) = if c == b'[' then without_end s else without_end (c ∷ s)

module _ (is_ip : Text → ℕ) where
  abbrev pub any_private : List Text → Bool
  any_private [] = false
  any_private (a ∷ l) = is_private_address is_ip a || any_private l

  -- All addresses are checked, and the first one is used.
  abbrev pub first_public : List Text → Checked
  first_public [] = unsafe no_address
  first_public (a ∷ l) = if any_private (a ∷ l) then unsafe blocked_address else safe a

  module _ (net : Net) (parse_url : Text → Option Url) where
    unfoldable pub assert_safe_url : Text → net.State → Checked × net.State
    assert_safe_url raw n = elim (parse_url raw) [
      | none ↦ (unsafe malformed_url, n)
      | some url ↦
          let host = without_brackets url.hostname in
          let (found, n') = net.lookup n host in
          if not (same_text url.protocol (codes "http:") || same_text url.protocol (codes "https:"))
          then (unsafe blocked_scheme, n)
          else if not (is_empty url.username) || not (is_empty url.password)
          then (unsafe has_credentials, n)
          else if not (is_ip host == 0)
          then (first_public (host ∷ []), n)
          else elim found [
            | none ↦ (unsafe unresolved, n')
            | some addresses ↦ (first_public addresses, n')
          ]
    ]
