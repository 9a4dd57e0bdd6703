-- ===== src/Scraper/Fetch/Public.antt =====
-- No connection of the scraper's pages goes to an address that is not public.
use flow_ai.Common.{
  ℕ, zero, suc, ◌*◌, ◌≤◌, ◌≡◌, refl, Bool, true, false, Option, none, some, List, [], ◌∷◌, arith,
  ltb, leb, length, length-append, ◌&&◌, if◌then◌else◌, Text, All, All-append, Option-cases,
  Bool-cases, inl, inr,
}
use flow_ai.Scraper.Address.{is_private_address}
use flow_ai.Scraper.Guard.{
  Url, Response, Net, Checked, safe, unsafe, first_public, without_brackets, assert_safe_url,
}
use flow_ai.Scraper.Fetch.{
  World, Connection, Fetched, fetch_from, fetch_page, scrape_all, scrape, permitted, first_urls,
  unique_from, redirected, answered, visited, read_response, error, disallowed_by_robots,
}

first-Public :
    (is_ip : Text → ℕ) (l : List Text) (a : Text)
    → first_public is_ip l ≡ safe a
    → is_private_address is_ip a ≡ false
first-Public is_ip [] a e = absurd (ground arith)
first-Public is_ip (b ∷ l) a e = elim (Bool-cases (is_private_address is_ip b)) [
  | inl h ↦ absurd (ground arith)
  | inr h ↦ ground arith
]

module _ (is_ip : Text → ℕ) (net : Net) (parse_url : Text → Option Url)
    (resolve : Text → Text → Option Text) (extract_text : List ℕ → Text)
    (respect_robots : Bool) where
  -- A connection to a public address.
  abbrev pub Public : Connection → Type 0
  Public c = is_private_address is_ip c.address ≡ false

  checked-Public :
      (url : Text) (n : net.State) (a : Text)
      → (assert_safe_url is_ip net parse_url url n).0 ≡ safe a
      → is_private_address is_ip a ≡ false
  unfolding assert_safe_url
  checked-Public url n a e = elim (Option-cases (parse_url url)) [
    | inl f ↦ absurd (ground arith)
    | inr (u, f) ↦
        let host = without_brackets u.hostname in
        elim (Option-cases (net.lookup n host).0) [
          | inl g ↦ ground (arith, first-Public is_ip (host ∷ []) a)
          | inr (l, g) ↦ ground (arith, first-Public is_ip (host ∷ []) a, first-Public is_ip l a)
        ]
  ]

  -- All connections are to public addresses, and there are no more of them than hops.
  abbrev pub Bounded : ℕ → Fetched × List Connection × World net → Type 0
  Bounded hops (fetched, log, w) = All Public log × (length log ≤ hops)

  if-Bounded :
      (hops : ℕ) (b : Bool) (x y : Fetched × List Connection × World net)
      → Bounded hops x
      → Bounded hops y
      → Bounded hops (if b then x else y)
  if-Bounded hops true x y h k = h
  if-Bounded hops false x y h k = k

  module _ (go_on : Text → World net → Fetched × List Connection × World net) (hops : ℕ)
      (rest : (url : Text) (w : World net) → Bounded hops (go_on url w)) where
    redirected-Bounded :
        (url : Text) (made : Connection) (w : World net) (location : Option Text)
        → Public made
        → Bounded (suc hops) (
            redirected is_ip net parse_url resolve extract_text respect_robots go_on url made w
              location)
    redirected-Bounded url made w none h = ((h, tt), omega arith)
    redirected-Bounded url made w (some location) h = elim (Option-cases (resolve location url)) [
      | inl e ↦ rw (e, redirected) ((h, tt), omega arith)
      | inr (next, e) ↦ let (a, b) = rest next w in rw (e, redirected) ((h, a), omega (arith, b))
    ]

    answered-Bounded :
        (url : Text) (made : Connection) (w : World net) (response : Option Response)
        → Public made
        → Bounded (suc hops) (
            answered is_ip net parse_url resolve extract_text respect_robots go_on url made w
              response)
    answered-Bounded url made w none h = ((h, tt), omega arith)
    answered-Bounded url made w (some r) h =
        if-Bounded (suc hops) (leb 300 r.status && ltb r.status 400) _
          (
            read_response is_ip net parse_url resolve extract_text respect_robots url r,
            made ∷ [],
            w,
          )
          (redirected-Bounded url made w r.location h) ((h, tt), omega arith)

    visited-Bounded :
        (url : Text) (w : World net) (parsed : Option Url) (checked : Checked)
        → ((a : Text) → checked ≡ safe a → is_private_address is_ip a ≡ false)
        → Bounded (suc hops) (
            visited is_ip net parse_url resolve extract_text respect_robots go_on url w parsed
              checked)
    visited-Bounded url w parsed (unsafe why) h = (tt, omega arith)
    visited-Bounded url w none (safe address) h = (tt, omega arith)
    visited-Bounded url w (some u) (safe address) h =
        let (allowed, (cache, n)) =
          permitted is_ip net parse_url resolve extract_text respect_robots u w in
        let (response, m) = net.send n u address in
        let made : Connection = record { url = url; address = address } in
        if-Bounded (suc hops) allowed
          (answered is_ip net parse_url resolve extract_text respect_robots go_on url made
            (cache, m) response)
          (error disallowed_by_robots, [], (cache, n))
          (answered-Bounded url made (cache, m) response (h address refl)) (tt, omega arith)

  fetch-Bounded :
      (hops : ℕ) (url : Text) (w : World net)
      → Bounded hops (fetch_from is_ip net parse_url resolve extract_text respect_robots hops url w)
  unfolding fetch_from
  fetch-Bounded zero url w = (tt, omega arith)
  fetch-Bounded (suc hops) url (cache, n) =
      let (checked, n') = assert_safe_url is_ip net parse_url url n in
      visited-Bounded (fetch_from is_ip net parse_url resolve extract_text respect_robots hops) hops
        (fetch-Bounded hops) url (cache, n') (parse_url url) checked (checked-Public url n)

  scrape_all-Bounded :
      (urls : List Text) (w : World net)
      → let (outcome, log, w') =
          scrape_all is_ip net parse_url resolve extract_text respect_robots urls w in
        All Public log × (length log ≤ 4 * length urls)
  unfolding scrape_all fetch_page
  scrape_all-Bounded [] w = (tt, omega arith)
  scrape_all-Bounded (u ∷ us) w =
      let first = fetch_page is_ip net parse_url resolve extract_text respect_robots u w in
      let (a, b) = fetch-Bounded 4 u w in
      let (c, d) = scrape_all-Bounded us first.2 in
      let log = (scrape_all is_ip net parse_url resolve extract_text respect_robots us first.2).1 in
      (All-append Public first.1 log a c, omega (arith, b, d, length-append first.1 log))

  length-first_urls : (n : ℕ) (us : List Text) → length (first_urls n us) ≤ n
  length-first_urls zero us = omega arith
  length-first_urls (suc n) [] = omega arith
  length-first_urls (suc n) (u ∷ us) = omega (arith, length-first_urls n us)

  -- Whatever URLs the scraper is given and whatever the name servers and the servers answer, each
  -- connection for a page goes to an address that is not private, and there are at most four of
  -- them for each of the URLs that the limit allows.
  pub scraped-Public :
      (enabled : Bool) (urls : List Text) (limit : ℕ) (w : World net)
      → let (outcome, log, w') =
          scrape is_ip net parse_url resolve extract_text respect_robots enabled urls limit w in
        All Public log × (length log ≤ 4 * limit)
  unfolding scrape
  scraped-Public false urls limit w = (tt, omega arith)
  scraped-Public true urls limit w =
      let (a, b) = scrape_all-Bounded (first_urls limit (unique_from [] urls)) w in
      (a, omega (arith, b, length-first_urls limit (unique_from [] urls)))
