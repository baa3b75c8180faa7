-- ===== src/Party/Incremental.antt =====
-- An implementation of the interface of Recursion, by adding one edge at a time: it shows that
-- the interface can be met, and runs the examples.
use agentlens.Common.{
  String, ◌≡◌, refl, sym, ap, ap₂, subst, ◌⊎◌, inl, inr, List, [], ◌∷◌, ◌++◌, map, Member,
  Member-append_left, Member-append_right, Member-of_append, Member-map, Member-of_map,
  Member-filter, Member-of_filter, filter, ◌==◌, eq_iff,
}
use agentlens.Party.Graph.{Edge, Derived, start, join, Chain, Subset, Chain-mono, Chain-trans}
use agentlens.Party.Recursion.{RecursiveQuery}

product : List String → List String → List Edge
product [] ys = []
product (x ∷ xs) ys = map (λ y. (x, y)) ys ++ product xs ys

Member-product :
    (xs ys : List String) (x y : String) → Member x xs → Member y ys → Member (x, y) (product xs ys)
unfolding product
Member-product [] ys x y m n = elim m [ ]
Member-product (z ∷ xs) ys x y (inl e) n =
    Member-append_left (x, y) (map (λ v. (z, v)) ys) (product xs ys)
      (subst (λ w. Member {A = Edge} (x, y) (map (λ v. (w, v)) ys)) (sym e)
        (Member-map (λ v. (x, v)) ys y n))
Member-product (z ∷ xs) ys x y (inr m) n =
    Member-append_right (x, y) (map (λ v. (z, v)) ys) (product xs ys) (Member-product xs ys x y m n)

Member-of_product :
    (xs ys : List String) (x y : String) → Member (x, y) (product xs ys) → Member x xs × Member y ys
unfolding product
Member-of_product [] ys x y m = elim m [ ]
Member-of_product (z ∷ xs) ys x y m =
    go (Member-of_product xs ys x y) (Member-of_append _ (map (λ v. (z, v)) ys) _ m)
  where
    go :
        (Member {A = Edge} (x, y) (product xs ys) → Member x xs × Member y ys)
        → Member {A = Edge} (x, y) (map (λ v. (z, v)) ys) ⊎ Member {A = Edge} (x, y) (product xs ys)
        → Member x (z ∷ xs) × Member y ys
    go rest (inl n) =
        let (v, k, e) = Member-of_map (λ v. (z, v)) ys (x, y) n in
        (inl (ap (λ p. p.0) e), subst (λ w. Member w ys) (ap (λ p. p.1) e) k)
    go rest (inr n) = let (p, q) = rest n in (inr p, q)

-- What leads to `a`, and what `a` leads to.
sources : List Edge → String → List String
sources es a = map (λ e. e.0) (filter (λ e. e.1 == a) es)

targets : List Edge → String → List String
targets es a = map (λ e. e.1) (filter (λ e. e.0 == a) es)

Member-sources : (es : List Edge) (x a : String) → Member (x, a) es → Member x (sources es a)
unfolding sources
Member-sources es x a m =
    Member-map (λ e. e.0) _ (x, a) (Member-filter (λ e. e.1 == a) es (x, a) m ((eq_iff a a).1 refl))

Member-targets : (es : List Edge) (a x : String) → Member (a, x) es → Member x (targets es a)
unfolding targets
Member-targets es a x m =
    Member-map (λ e. e.1) _ (a, x) (Member-filter (λ e. e.0 == a) es (a, x) m ((eq_iff a a).1 refl))

Member-of_sources : (es : List Edge) (x a : String) → Member x (sources es a) → Member (x, a) es
unfolding sources
Member-of_sources es x a m =
    let (e, k, p) = Member-of_map (λ e. e.0) (filter (λ e. e.1 == a) es) x m in
    let (n, t) = Member-of_filter (λ e. e.1 == a) es e k in
    subst (λ z. Member z es) (ap₂ (λ u v. (u, v)) p ((eq_iff e.1 a).0 t)) n

Member-of_targets : (es : List Edge) (a x : String) → Member x (targets es a) → Member (a, x) es
unfolding targets
Member-of_targets es a x m =
    let (e, k, p) = Member-of_map (λ e. e.1) (filter (λ e. e.0 == a) es) x m in
    let (n, t) = Member-of_filter (λ e. e.0 == a) es e k in
    subst (λ z. Member z es) (ap₂ (λ u v. (u, v)) ((eq_iff e.0 a).0 t) p) n

-- All walks, one edge added at a time.
closure : List Edge → List Edge
closure [] = []
closure ((a, b) ∷ es) =
    let old = closure es in old ++ product (a ∷ sources old a) (b ∷ targets old b)

-- A row, or no step at all.
abbrev Linked : List Edge → String → String → Type 0
Linked rows x y = (x ≡ y) ⊎ Member (x, y) rows

module _ (a b : String) (es : List Edge) where
  closure-cons :
      (x y : String)
      → Member (x, y) (closure ((a, b) ∷ es))
      → Member (x, y) (closure es) ⊎ (Linked (closure es) x a × Linked (closure es) b y)
  unfolding closure
  closure-cons x y m = go (Member-of_append _ (closure es) _ m)
    where
      from : Member x (a ∷ sources (closure es) a) → Linked (closure es) x a
      from (inl e) = inl (sym e)
      from (inr k) = inr (Member-of_sources (closure es) x a k)

      to : Member y (b ∷ targets (closure es) b) → Linked (closure es) b y
      to (inl e) = inl e
      to (inr k) = inr (Member-of_targets (closure es) b y k)

      go :
          Member (x, y) (closure es)
            ⊎ Member {A = Edge}
                (x, y)
                (product (a ∷ sources (closure es) a) (b ∷ targets (closure es) b))
          → Member (x, y) (closure es) ⊎ (Linked (closure es) x a × Linked (closure es) b y)
      go (inl k) = inl k
      go (inr k) = let (p, q) = Member-of_product _ _ x y k in inr (from p, to q)

  closure-old : (x y : String) → Member (x, y) (closure es) → Member (x, y) (closure ((a, b) ∷ es))
  unfolding closure
  closure-old x y m = Member-append_left (x, y) (closure es) _ m

  closure-new :
      (x y : String)
      → Linked (closure es) x a
      → Linked (closure es) b y
      → Member (x, y) (closure ((a, b) ∷ es))
  unfolding closure
  closure-new x y p q =
      Member-append_right (x, y) (closure es) _ (Member-product _ _ x y (from p) (to q))
    where
      from : Linked (closure es) x a → Member x (a ∷ sources (closure es) a)
      from (inl e) = inl (sym e)
      from (inr k) = inr (Member-sources (closure es) x a k)

      to : Linked (closure es) b y → Member y (b ∷ targets (closure es) b)
      to (inl e) = inl e
      to (inr k) = inr (Member-targets (closure es) b y k)

abbrev IsTransitive : List Edge → Type 0
IsTransitive rows = (x y z : String) → Member (x, y) rows → Member (y, z) rows → Member (x, z) rows

module _ (rows : List Edge) (trans : IsTransitive rows) where
  Linked-Member : (x y z : String) → Linked rows x y → Member (y, z) rows → Member (x, z) rows
  Linked-Member x y z (inl e) m = subst (λ w. Member (w, z) rows) (sym e) m
  Linked-Member x y z (inr k) m = trans x y z k m

  Member-Linked : (x y z : String) → Member (x, y) rows → Linked rows y z → Member (x, z) rows
  Member-Linked x y z m (inl e) = subst (λ w. Member (x, w) rows) e m
  Member-Linked x y z m (inr k) = trans x y z m k

closure-IsTransitive : (es : List Edge) → IsTransitive (closure es)
unfolding closure
closure-IsTransitive [] x y z m n = elim m [ ]
closure-IsTransitive ((a, b) ∷ es) x y z m n =
    go (closure-IsTransitive es) (closure-cons a b es x y m) (closure-cons a b es y z n)
  where
    go :
        IsTransitive (closure es)
        → Member (x, y) (closure es) ⊎ (Linked (closure es) x a × Linked (closure es) b y)
        → Member (y, z) (closure es) ⊎ (Linked (closure es) y a × Linked (closure es) b z)
        → Member (x, z) (closure ((a, b) ∷ es))
    go trans (inl p) (inl q) = closure-old a b es x z (trans x y z p q)
    go trans (inl p) (inr (q, r)) =
        closure-new a b es x z (inr (Member-Linked (closure es) trans x y a p q)) r
    go trans (inr (p, q)) (inl r) =
        closure-new a b es x z p (inr (Linked-Member (closure es) trans b y z q r))
    go trans (inr (p, q)) (inr (r, s)) = closure-new a b es x z p s

closure-Subset : (es : List Edge) → Subset es (closure es)
closure-Subset [] x y m = elim m [ ]
closure-Subset ((a, b) ∷ es) x y (inl e) =
    closure-new a b es x y (inl (sym (ap (λ p. p.0) e))) (inl (ap (λ p. p.1) e))
closure-Subset ((a, b) ∷ es) x y (inr m) = closure-old a b es x y (closure-Subset es x y m)

closure-Chain : (es : List Edge) (x y : String) → Member (x, y) (closure es) → Chain es x y
unfolding closure
closure-Chain [] x y m = elim m [ ]
closure-Chain ((a, b) ∷ es) x y m = go (closure-Chain es) (closure-cons a b es x y m)
  where
    later : {u v : String} → Chain es u v → Chain ((a, b) ∷ es) u v
    later c = Chain-mono (λ u v k. inr k) c

    edge : Chain ((a, b) ∷ es) a b
    edge = start (inl refl)

    before :
        ((u v : String) → Member (u, v) (closure es) → Chain es u v)
        → Linked (closure es) x a
        → Chain ((a, b) ∷ es) x b
    before ih (inl e) = subst (λ w. Chain ((a, b) ∷ es) w b) (sym e) edge
    before ih (inr k) = Chain-trans (later (ih x a k)) edge

    go :
        ((u v : String) → Member (u, v) (closure es) → Chain es u v)
        → Member (x, y) (closure es) ⊎ (Linked (closure es) x a × Linked (closure es) b y)
        → Chain ((a, b) ∷ es) x y
    go ih (inl k) = later (ih x y k)
    go ih (inr (p, inl e)) = subst (λ w. Chain ((a, b) ∷ es) x w) e (before ih p)
    go ih (inr (p, inr k)) = Chain-trans (before ih p) (later (ih b y k))

-- The rows that begin with an edge of the initial select.
pub incremental_rows : List Edge → List Edge → List Edge
incremental_rows [] joined = []
incremental_rows ((a, m) ∷ initial) joined =
    product (a ∷ []) (m ∷ targets (closure joined) m) ++ incremental_rows initial joined

Derived-Chain :
    {initial joined : List Edge} {a m b : String}
    → Derived initial joined a m
    → Chain joined m b
    → Derived initial joined a b
Derived-Chain d (start k) = join d k
Derived-Chain d (join c k) = join (Derived-Chain d c) k

Derived-mono :
    {initial more joined : List Edge} {a b : String}
    → Subset initial more
    → Derived initial joined a b
    → Derived more joined a b
Derived-mono h (start {a} {b} m) = start (h a b m)
Derived-mono h (join d m) = join (Derived-mono h d) m

pub rows_sound :
    (initial joined : List Edge) (a b : String)
    → Member (a, b) (incremental_rows initial joined)
    → Derived initial joined a b
unfolding incremental_rows
rows_sound [] joined a b m = elim m [ ]
rows_sound ((x, y) ∷ initial) joined a b m =
    go (rows_sound initial joined a b)
      (Member-of_append _ (product (x ∷ []) (y ∷ targets (closure joined) y)) _ m)
  where
    head :
        Member a (x ∷ [])
        → Member b (y ∷ targets (closure joined) y)
        → Derived ((x, y) ∷ initial) joined a b
    head (inl e) (inl f) = start (inl (ap₂ (λ u v. (u, v)) e f))
    head (inr n) _ = elim n [ ]
    head (inl e) (inr k) =
        Derived-Chain (start (inl (ap (λ u. (u, y)) e)))
          (closure-Chain joined y b (Member-of_targets (closure joined) y b k))

    go :
        (Member {A = Edge} (a, b) (incremental_rows initial joined) → Derived initial joined a b)
        → Member {A = Edge} (a, b) (product (x ∷ []) (y ∷ targets (closure joined) y))
          ⊎ Member {A = Edge} (a, b) (incremental_rows initial joined)
        → Derived ((x, y) ∷ initial) joined a b
    go rest (inl k) = let (p, q) = Member-of_product _ _ a b k in head p q
    go rest (inr k) = Derived-mono (λ u v n. inr n) (rest k)

rows_start :
    (initial joined : List Edge) (a b : String)
    → Member (a, b) initial
    → Member (a, b) (incremental_rows initial joined)
unfolding incremental_rows
rows_start [] joined a b m = elim m [ ]
rows_start ((x, y) ∷ initial) joined a b (inl e) =
    Member-append_left (a, b) _ _
      (Member-product (x ∷ []) _ a b (inl (ap (λ p. p.0) e)) (inl (ap (λ p. p.1) e)))
rows_start ((x, y) ∷ initial) joined a b (inr m) =
    Member-append_right (a, b) _ _ (rows_start initial joined a b m)

rows_join :
    (initial joined : List Edge) (a b c : String)
    → Member (a, b) (incremental_rows initial joined)
    → Member (b, c) joined
    → Member (a, c) (incremental_rows initial joined)
unfolding incremental_rows
rows_join [] joined a b c m n = elim m [ ]
rows_join ((x, y) ∷ initial) joined a b c m n =
    go (λ k. rows_join initial joined a b c k n)
      (Member-of_append _ (product (x ∷ []) (y ∷ targets (closure joined) y)) _ m)
  where
    step : Member b (y ∷ targets (closure joined) y) → Member c (y ∷ targets (closure joined) y)
    step (inl e) = inr (
        Member-targets (closure joined) y c
          (subst (λ w. Member (w, c) (closure joined)) (sym e) (closure-Subset joined b c n)))
    step (inr k) = inr (
        Member-targets (closure joined) y c (
          closure-IsTransitive joined y b c (Member-of_targets (closure joined) y b k)
            (closure-Subset joined b c n)))

    go :
        (Member {A = Edge} (a, b) (incremental_rows initial joined)
          → Member {A = Edge} (a, c) (incremental_rows initial joined))
        → Member {A = Edge} (a, b) (product (x ∷ []) (y ∷ targets (closure joined) y))
          ⊎ Member {A = Edge} (a, b) (incremental_rows initial joined)
        → Member {A = Edge} (a, c) (incremental_rows ((x, y) ∷ initial) joined)
    go rest (inl k) =
        let (p, q) = Member-of_product _ _ a b k in
        Member-append_left (a, c) _ _ (Member-product (x ∷ []) _ a c p (step q))
    go rest (inr k) = Member-append_right (a, c) _ _ (rest k)

pub rows_complete :
    {initial joined : List Edge} {a b : String}
    → Derived initial joined a b
    → Member (a, b) (incremental_rows initial joined)
rows_complete {initial} {joined} (start {a} {b} m) = rows_start initial joined a b m
rows_complete {initial} {joined} (join {a} {b} {c} d m) =
    rows_join initial joined a b c (rows_complete d) m

-- `abbrev`, so that the examples run.
abbrev pub incremental : RecursiveQuery
incremental = record {
  rows = incremental_rows;
  sound = rows_sound;
  complete = λ initial joined a b d. rows_complete d;
}

-- One line opens what a run of `incremental` calls.
unfoldable pub incremental_run : Unit {0}
unfolding incremental_rows closure product sources targets
incremental_run = tt
