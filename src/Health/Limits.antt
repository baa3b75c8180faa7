-- ===== src/Health/Limits.antt =====
-- How long the error text of a probe may become.
use agentlens.Common.{
  ℕ, ◌≤◌, ◌<◌, inl, inr, Text, codes, length, length-append, length-take, leb, leb→le, Bool-cases,
  ◌==◌, arith,
}
use agentlens.Health.{
  deprecated, Health, CatalogEntry, health, Plugin, Reply, invalid_url, no_answer, answered, is_2xx,
  truncate_str, resolve_prob_url, probe_one, health_after,
}

truncate_str-length : (s : Text) (max_len : ℕ) → length (truncate_str s max_len) ≤ max_len
unfolding truncate_str
truncate_str-length s max_len = elim (Bool-cases (leb (length s) max_len)) [
  | inl fits ↦ rw fits (leb→le (length s) max_len fits)
  | inr long ↦ rw long (length-take max_len s)
]

-- A status code of an HTTP answer has three digits.
abbrev pub IsHttp : Reply → Type 0
IsHttp (answered status_code latency) = status_code < 1000
IsHttp _ = Unit

-- What `%d` prints for such a code is no longer.
abbrev pub IsDecimal : (ℕ → Text) → Type 0
IsDecimal print = (n : ℕ) → n < 1000 → length (print n) ≤ 3

module _ (print : ℕ → Text) (p : Plugin) (now : ℕ) where
  health_after_short :
      IsDecimal print
      → (current : Health) (reply : Reply) → IsHttp reply
      → length (health_after print p now current reply).last_error ≤ 512
  health_after_short digits current (invalid_url err) http = truncate_str-length _ 512
  health_after_short digits current (no_answer err) http = truncate_str-length err 512
  health_after_short digits current (answered status_code latency) http =
      elim (Bool-cases (is_2xx status_code)) [
        | inl ok ↦ rw ok (omega arith)
        | inr bad ↦
            let few = digits status_code http in
            let joined = length-append (codes "HTTP ") (print status_code) in rw bad (ground arith)
      ]

  -- No probe leaves an error text of more than 512 bytes, where `%d` prints at most three bytes for
  -- a status code below 1000 and the text that the entry had before is no longer either.
  pub probe_one_error_fits :
      IsDecimal print
      → (e : CatalogEntry) (reply : Reply) → IsHttp reply
      → length e.health_last_error ≤ 512
      → length (probe_one print p now e reply).last_error ≤ 512
  unfolding probe_one
  probe_one_error_fits digits e reply http fits = elim (Bool-cases (e.status == deprecated)) [
    | inl kept ↦ rw kept fits
    | inr live ↦ elim (Bool-cases (resolve_prob_url e == "")) [
      | inl missing ↦ rw live (rw missing (omega arith))
      | inr url ↦ rw live (rw url (health_after_short digits (health e) reply http))
    ]
  ]
