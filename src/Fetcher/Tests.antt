-- ===== src/Fetcher/Tests.antt =====
-- Runs of the card fetcher against servers that redirect.
use agentlens.Common.{
  ◌↔◌, ◌⊎◌, ◌≤◌, String, ◌≡◌, refl, true, false, Option, none, some, List, [], ◌∷◌, All, length,
  Text, codes, ◌==◌, if◌then◌else◌,
}
use agentlens.Fetcher.{
  Ip, v4, v6, is_private_ip, redirect, response, Network, validate_url, client_do, fetch,
}
use agentlens.Fetcher.Ranges.{is_private_ip_v4_iff}
use agentlens.Fetcher.Safety.{IsPublic, fetch-IsSafe}

-- 8.8.8.8 and 127.0.0.1.
abbrev public_ip : Ip
public_ip = v4 134744072

abbrev dials : List Ip
dials = public_ip ∷ []

abbrev loopback : Ip
loopback = v4 2130706433

-- Every server redirects to itself; the name `bad` resolves to the loopback only when it is
-- dialed, other names to it and to a public address.
abbrev looping : Network
looping = record {
  parse = λ raw. some (record { scheme = "http"; host = raw; hostname = raw });
  trim = λ s. s;
  lower = λ s. s;
  parse_ip = λ s. none;
  lookup_host = λ host. none;
  dialed = λ url. if url == "bad" then some loopback ∷ [] else some loopback ∷ some public_ip ∷ [];
  answer = λ url. redirect url;
}

abbrev serving : Network
serving = record looping {
  answer = λ url. if url == "old" then redirect "new" else response 200 (codes "{}");
}

runs : Unit {0}
unfolding fetch client_do validate_url is_private_ip
runs = tt

abbrev no_keys : Text → Option (List String)
no_keys body = some []

fetch_tests :
    (fetch looping (λ body. true) no_keys "good" ≡ (none, dials ∷ dials ∷ dials ∷ []))
    × (fetch looping (λ body. true) no_keys "bad" ≡ (none, []))
    × (fetch serving (λ body. true) no_keys "old" ≡ (some (codes "{}", ""), dials ∷ dials ∷ []))
    × (is_private_ip (v6 1) ≡ true)
    × (is_private_ip (v6 338620831926207318622244848606417780737) ≡ false)
unfolding runs
fetch_tests = (refl, refl, refl, refl, refl)

fetch-IsSafe_example :
    All (All (IsPublic looping)) (fetch looping (λ body. true) no_keys "good").1
    × (length (fetch looping (λ body. true) no_keys "good").1 ≤ 3)
fetch-IsSafe_example = fetch-IsSafe looping (λ body. true) no_keys "good"

is_private_ip_v4_iff_example : (is_private_ip loopback ≡ true) ↔ (
    ((167772160 ≤ 2130706433) × (2130706433 ≤ 184549375))
    ⊎ ((2130706432 ≤ 2130706433) × (2130706433 ≤ 2147483647))
    ⊎ ((2851995648 ≤ 2130706433) × (2130706433 ≤ 2852061183))
    ⊎ ((2886729728 ≤ 2130706433) × (2130706433 ≤ 2887778303))
    ⊎ ((3232235520 ≤ 2130706433) × (2130706433 ≤ 3232301055)))
is_private_ip_v4_iff_example = is_private_ip_v4_iff 2130706433
