-- ===== src/Party/Graph.antt =====
-- Walks over directed edges, the relation that the closure table of internal/store/party_store.go
-- stands for. An edge leads from a member to what contains it.
use agentlens.Common.{String, ◌≡◌, sym, ap, subst, ◌⊎◌, inl, inr, List, ◌∷◌, Member, arith}

abbrev pub Edge : Type 0
Edge = String × String

-- The rows of `WITH RECURSIVE pairs AS (initial UNION SELECT p.member_id, joined.to … JOIN …)`:
-- those of the initial select, and those that a join adds to a row.
pub data Derived (initial joined : List Edge) : String → String → Type 0 where
  start : {a b : String} → Member (a, b) initial → Derived initial joined a b
  join :
      {a b c : String}
      → Derived initial joined a b
      → Member (b, c) joined
      → Derived initial joined a c

-- A walk of one edge or more.
abbrev pub Chain : List Edge → String → String → Type 0
Chain es = Derived es es

-- A walk of no edge or more.
abbrev pub Near : List Edge → String → String → Type 0
Near es a b = (a ≡ b) ⊎ Chain es a b

abbrev pub IsAcyclic : List Edge → Type 0
IsAcyclic es = (a : String) → ¬ Chain es a a

abbrev pub Subset : List Edge → List Edge → Type 0
Subset es fs = (a b : String) → Member (a, b) es → Member (a, b) fs

pub Chain-mono : {es fs : List Edge} {a b : String} → Subset es fs → Chain es a b → Chain fs a b
Chain-mono h (start {a} {b} m) = start (h a b m)
Chain-mono h (join {b} {c} d m) = join (Chain-mono h d) (h b c m)

pub IsAcyclic-anti : {es fs : List Edge} → Subset es fs → IsAcyclic fs → IsAcyclic es
IsAcyclic-anti h acyclic a c = acyclic a (Chain-mono h c)

pub Chain-trans : {es : List Edge} {a b c : String} → Chain es a b → Chain es b c → Chain es a c
Chain-trans d (start m) = join d m
Chain-trans d (join e m) = join (Chain-trans d e) m

Near-join : {es : List Edge} {a b c : String} → Near es a b → Member (b, c) es → Chain es a c
Near-join {es} {c} (inl e) m = start (subst (λ x. Member (x, c) es) (sym e) m)
Near-join (inr d) m = join d m

Chain-Near : {es : List Edge} {a b c : String} → Chain es a b → Near es b c → Chain es a c
Chain-Near {es} {a} d (inl e) = subst (λ x. Chain es a x) e d
Chain-Near d (inr c) = Chain-trans d c

pub Near-Chain : {es : List Edge} {a b c : String} → Near es a b → Chain es b c → Chain es a c
Near-Chain {es} {c} (inl e) d = subst (λ x. Chain es x c) (sym e) d
Near-Chain (inr c) d = Chain-trans c d

-- A walk over one edge more keeps to the old edges, or its first and last use of the new edge
-- leave a walk over old edges before and after.
pub Chain-cons :
    {a b : String} {es : List Edge} {x y : String}
    → Chain ((a, b) ∷ es) x y
    → Chain es x y ⊎ (Near es x a × Near es b y)
Chain-cons (start (inl e)) = inr (inl (sym (ap (λ p. p.0) e)), inl (ap (λ p. p.1) e))
Chain-cons (start (inr m)) = inl (start m)
Chain-cons {a} {b} {es} (join {a = x} {b = m} {c = z} d e) = step (Chain-cons d) e
  where
    step :
        Chain es x m ⊎ (Near es x a × Near es b m)
        → Member (m, z) ((a, b) ∷ es)
        → Chain es x z ⊎ (Near es x a × Near es b z)
    step (inl c) (inl e) =
        inr (inr (Chain-Near c (inl (sym (ap (λ p. p.0) e)))), inl (ap (λ p. p.1) e))
    step (inl c) (inr e) = inl (join c e)
    step (inr (p, q)) (inl e) = inr (p, inl (ap (λ p. p.1) e))
    step (inr (p, q)) (inr e) = inr (p, inr (Near-join q e))

-- A new edge closes no cycle if its end does not reach its beginning.
pub IsAcyclic-cons :
    (a b : String) (es : List Edge) → IsAcyclic es → ¬ Near es b a → IsAcyclic ((a, b) ∷ es)
IsAcyclic-cons a b es acyclic h x c = go (Chain-cons c)
  where
    go : Chain es x x ⊎ (Near es x a × Near es b x) → ⊥
    go (inl c) = acyclic x c
    go (inr (inl e, inl f)) = h (inl (ground arith))
    go (inr (inl e, inr d)) = h (inr (subst (λ z. Chain es b z) e d))
    go (inr (inr c, q)) = h (inr (Near-Chain q c))
