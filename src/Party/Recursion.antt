-- ===== src/Party/Recursion.antt =====
-- The database's `WITH RECURSIVE … UNION …`, which internal/store/party_store.go relies on and
-- does not implement: an interface with the documented meaning of such a query.
use agentlens.Common.{String, List, Member}
use agentlens.Party.Graph.{Edge, Derived}

-- The rows of the query, given the rows of the initial select and of the table that is joined.
pub record RecursiveQuery : Type 0 where
  pub rows : List Edge → List Edge → List Edge
  pub sound :
      (initial joined : List Edge) (a b : String)
      → Member (a, b) (rows initial joined)
      → Derived initial joined a b
  pub complete :
      (initial joined : List Edge) (a b : String)
      → Derived initial joined a b
      → Member (a, b) (rows initial joined)
