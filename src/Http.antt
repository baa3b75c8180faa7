-- ===== src/Http.antt =====
-- internal/api/responses.go: what a handler sends, and the state that it leaves.
use agentlens.Common.{ℕ, String, Text, codes}
use agentlens.Sql.{World, Outcome, done, raised}

pub data Reply (A : Type 0) : Type 0 where
  error_response : (status : ℕ) → Text → Reply A
  sent : (status : ℕ) → A → Reply A

abbrev pub fail : {S A : Type 0} → ℕ → String → World S → Reply A × World S
fail status text w = (error_response status (codes text), w)

-- The answer to a store call: an error has one status and text, a result is sent.
abbrev pub answer : {S A : Type 0} → ℕ → String → ℕ → Outcome S A → Reply A × World S
answer failed text status (done a w) = (sent status a, w)
answer failed text status (raised e w) = fail failed text w
