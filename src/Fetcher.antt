-- ===== src/Fetcher.antt =====
-- internal/service/card_fetcher.go. An address is a number, of 32 bits or of 128; net.IP's form of a
-- 32-bit address in 128 bits counts as the former. The packages net, url and http are the record
-- Network.

mod Ranges
mod Safety
mod Tests
use agentlens.Common.{
  ℕ, ◌-◌, ◌/◌, ◌^◌, suc, zero, String, Bool, true, false, not, ◌&&◌, ◌||◌, Option, none, some, List,
  [], ◌∷◌, any, eqb, leb, ltb, Text, codes, contains, ◌==◌, if◌then◌else◌,
}

pub data Ip : Type 0 where
  v4 : ℕ → Ip
  v6 : ℕ → Ip

pub record Cidr : Type 0 where
  pub network : Ip
  pub ones : ℕ

abbrev pub same_prefix : (width ones base n : ℕ) → Bool
same_prefix width ones base n = eqb (n / 2 ^ (width - ones)) (base / 2 ^ (width - ones))

-- `network.Contains(ip)`
abbrev pub contains_ip : Cidr → Ip → Bool
contains_ip cidr (v4 n) = elim cidr.network as (λ _. Bool) [
  | v4 base ↦ same_prefix 32 cidr.ones base n
  | v6 base ↦ false
]
contains_ip cidr (v6 n) = elim cidr.network as (λ _. Bool) [
  | v4 base ↦ false
  | v6 base ↦ same_prefix 128 cidr.ones base n
]

-- 127.0.0.0/8, 10.0.0.0/8, 172.16.0.0/12, 192.168.0.0/16, 169.254.0.0/16, ::1/128, fc00::/7 and
-- fe80::/10.
abbrev pub private : List Cidr
private =
    record { network = v4 2130706432; ones = 8 }
    ∷ record { network = v4 167772160; ones = 8 }
    ∷ record { network = v4 2886729728; ones = 12 }
    ∷ record { network = v4 3232235520; ones = 16 }
    ∷ record { network = v4 2851995648; ones = 16 }
    ∷ record { network = v6 1; ones = 128 }
    ∷ record { network = v6 334965454937798799971759379190646833152; ones = 7 }
    ∷ record { network = v6 338288524927261089654018896841347694592; ones = 10 }
    ∷ []

unfoldable pub is_private_ip : Ip → Bool
is_private_ip ip = any (λ cidr. contains_ip cidr ip) private

pub record Url : Type 0 where
  pub scheme : String
  pub host : String
  pub hostname : String

-- What a request meets after it is connected.
pub data Answer : Type 0 where
  failed : Answer
  redirect : (location : String) → Answer
  response : (status : ℕ) → Text → Answer

-- url.Parse, strings.TrimSpace and ToLower, net.ParseIP, net.LookupHost with ParseIP on each address,
-- the addresses that the dialer tries for a URL, and what the request meets, failed where none of
-- those that may be connected to accepts.
pub record Network : Type 0 where
  pub parse : String → Option Url
  pub trim : String → String
  pub lower : String → String
  pub parse_ip : String → Option Ip
  pub lookup_host : String → Option (List (Option Ip))
  pub dialed : String → List (Option Ip)
  pub answer : String → Answer

module _ (net : Network) where
  abbrev pub is_private : Option Ip → Bool
  is_private none = false
  is_private (some ip) = is_private_ip ip

  abbrev pub is_private_hostname : String → Bool
  is_private_hostname hostname =
      if net.lower hostname == "localhost" || net.lower hostname == "localhost."
      then true
      else is_private (net.parse_ip hostname)

  abbrev pub resolves_private : Option (List (Option Ip)) → Bool
  resolves_private none = false
  resolves_private (some addrs) = any is_private addrs

  -- The error, if there is one.
  abbrev pub check_private_host : String → Option String
  check_private_host hostname =
      if is_private_hostname hostname
      then some "url points to a private or reserved address"
      else if resolves_private (net.lookup_host hostname)
      then some "url resolves to a private or reserved address"
      else none

  abbrev pub check_parsed : Option Url → Option String
  check_parsed none = some "invalid url"
  check_parsed (some u) =
      if not (u.scheme == "http") && not (u.scheme == "https")
      then some "url scheme must be http or https"
      else if u.host == ""
      then some "url must include a host"
      else check_private_host u.hostname

  unfoldable pub validate_url : String → Option String
  validate_url raw =
      if net.trim raw == "" then some "url is required" else check_parsed (net.parse raw)

  -- The dialer's Control, which it calls for each address: the address, if it is connected to.
  abbrev pub control : Option Ip → Option Ip
  control none = none
  control (some ip) = if is_private_ip ip then none else some ip

  abbrev pub add_allowed : Option Ip → List Ip → List Ip
  add_allowed none ips = ips
  add_allowed (some ip) ips = ip ∷ ips

  abbrev pub allowed : List (Option Ip) → List Ip
  allowed [] = []
  allowed (address ∷ addresses) = add_allowed (control address) (allowed addresses)

  -- The last answer, and for each request that connects the addresses that the dialer connects to.
  abbrev pub Trip : Type 0
  Trip = Option (ℕ × Text) × List (List Ip)

  abbrev pub redirected : (String → Trip) → List Ip → String → Option String → Trip
  redirected next ips location (some unsafe_target) = (none, ips ∷ [])
  redirected next ips location none = let rest = next location in (rest.0, ips ∷ rest.1)

  -- One request, over the addresses that may be connected to.
  abbrev pub request : (String → Trip) → List Ip → Answer → Trip
  request next [] answer = (none, [])
  request next (ip ∷ ips) failed = (none, (ip ∷ ips) ∷ [])
  request next (ip ∷ ips) (response status body) = (some (status, body), (ip ∷ ips) ∷ [])
  request next (ip ∷ ips) (redirect location) =
      redirected next (ip ∷ ips) location (validate_url location)

  -- `left` is `maxRedirects` less `len(via)`, the number of requests made, at the next call of
  -- CheckRedirect: at zero it refuses.
  unfoldable pub client_do : ℕ → String → Trip
  client_do zero url = request (λ location. (none, [])) (allowed (net.dialed url)) (net.answer url)
  client_do (suc left) url =
      request (λ location. client_do left location) (allowed (net.dialed url)) (net.answer url)

  -- json.Valid, and the keys of the JSON object that the body is.
  module _ (valid : Text → Bool) (keys : Text → Option (List String)) where
    abbrev pub by_content : Option (List String) → String
    by_content none = ""
    by_content (some names) =
        if any (λ n. n == "skills") names
        then "a2a"
        else if any (λ n. n == "tools") names
        then "mcp"
        else ""

    abbrev pub detect_protocol : String → Text → String
    detect_protocol url body =
        if contains (codes (net.lower url)) (codes "/.well-known/agent")
        then "a2a"
        else if contains (codes (net.lower url)) (codes "/mcp")
        then "mcp"
        else by_content (keys body)

    abbrev pub accept : String → Option (ℕ × Text) → Option (Text × String)
    accept url none = none
    accept url (some (status, body)) =
        if ltb status 200 || leb 300 status
        then none
        else if not (valid body)
        then none
        else some (body, detect_protocol url body)

    abbrev pub max_redirects : ℕ
    max_redirects = 3

    abbrev pub fetch_valid : String → Option String → Option (Text × String) × List (List Ip)
    fetch_valid url (some refused) = (none, [])
    fetch_valid url none =
        let trip = client_do (max_redirects - 1) url in (accept url (trip.0), trip.1)

    -- The body and its protocol, and for each request that connects the addresses connected to.
    unfoldable pub fetch : String → Option (Text × String) × List (List Ip)
    fetch url = fetch_valid url (validate_url url)
