-- ===== src/Fetcher/Safety.antt =====
-- Where Fetch connects to.
use agentlens.Common.{
  ℕ, zero, suc, ◌+◌, ◌≤◌, String, ◌≡◌, refl, Bool, true, false, Option, none, some, List, [], ◌∷◌,
  All, length, Text, if◌then◌else◌, arith,
}
use agentlens.Fetcher.{
  Ip, is_private_ip, Answer, failed, redirect, response, Network, validate_url, add_allowed,
  allowed, redirected, request, client_do, fetch_valid, fetch, Trip,
}

module _ (net : Network) where
  abbrev pub IsPublic : Ip → Type 0
  IsPublic ip = is_private_ip ip ≡ false

  -- Public addresses only, over at most so many requests.
  abbrev pub IsSafe : ℕ → List (List Ip) → Type 0
  IsSafe most trips = All (All IsPublic) trips × (length trips ≤ most)

  allowed-IsPublic : (addresses : List (Option Ip)) → All IsPublic (allowed net addresses)
  allowed-IsPublic [] = tt
  allowed-IsPublic (none ∷ addresses) = allowed-IsPublic addresses
  allowed-IsPublic (some ip ∷ addresses) = go (allowed-IsPublic addresses) (is_private_ip ip) refl
    where
      go :
          All IsPublic (allowed net addresses)
          → (b : Bool) → is_private_ip ip ≡ b
          → All IsPublic (add_allowed net (if b then none else some ip) (allowed net addresses))
      go rest true e = rest
      go rest false e = (e, rest)

  redirected-IsSafe :
      (next : String → Trip net) (n : ℕ) (ips : List Ip) (location : String)
      (refusal : Option String)
      → ((l : String) → IsSafe n (next l).1)
      → All IsPublic ips
      → IsSafe (n + 1) (redirected net next ips location refusal).1
  redirected-IsSafe next n ips location (some e) safe p = ((p, tt), omega arith)
  redirected-IsSafe next n ips location none safe p =
      let (ok, bound) = safe location in ((p, ok), omega arith)

  request-IsSafe :
      (next : String → Trip net) (n : ℕ) (ips : List Ip) (answer : Answer)
      → ((l : String) → IsSafe n (next l).1)
      → All IsPublic ips
      → IsSafe (n + 1) (request net next ips answer).1
  request-IsSafe next n [] answer safe p = (tt, omega arith)
  request-IsSafe next n (ip ∷ ips) failed safe p = ((p, tt), omega arith)
  request-IsSafe next n (ip ∷ ips) (response status body) safe p = ((p, tt), omega arith)
  request-IsSafe next n (ip ∷ ips) (redirect location) safe p =
      redirected-IsSafe next n (ip ∷ ips) location (validate_url net location) safe p

  client_do-IsSafe : (left : ℕ) (url : String) → IsSafe (left + 1) (client_do net left url).1
  unfolding client_do
  client_do-IsSafe zero url =
      request-IsSafe (λ location. (none, [])) 0 (allowed net (net.dialed url)) (net.answer url)
        (λ location. (tt, omega arith)) (allowed-IsPublic (net.dialed url))
  client_do-IsSafe (suc left) url =
      let (ok, bound) =
        request-IsSafe (λ location. client_do net left location) (left + 1)
          (allowed net (net.dialed url)) (net.answer url)
          (λ location. client_do-IsSafe left location) (allowed-IsPublic (net.dialed url)) in
      (ok, omega arith)

  -- Fetch connects to no address of a blocked range, not after a redirect either and whichever of the
  -- addresses of a name the dialer tries, and makes at most three requests, whatever names resolve to
  -- and servers answer.
  pub fetch-IsSafe :
      (valid : Text → Bool) (keys : Text → Option (List String)) (url : String)
      → All (All IsPublic) (fetch net valid keys url).1 × (length (fetch net valid keys url).1 ≤ 3)
  unfolding fetch
  fetch-IsSafe valid keys url = go (validate_url net url)
    where
      go : (refusal : Option String) → IsSafe 3 (fetch_valid net valid keys url refusal).1
      go (some e) = (tt, omega arith)
      go none = client_do-IsSafe 2 url
