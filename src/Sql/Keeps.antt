-- ===== src/Sql/Keeps.antt =====
-- A property of the tables that a method keeps, whatever fails in it, with a rule for each form
-- of a method.
use agentlens.Common.{
  Text, ◌≡◌, refl, sym, subst, String, Bool, true, false, Option, some, arith, if◌then◌else◌,
}
use agentlens.Sql.{
  Error, World, Outcome, done, raised, M, world, follow, ◌>>=◌, return, raise, relabel, relabel_for,
  context, context_for, attempt, query, execute, transaction,
}
use agentlens.Sql.Laws.{attempt-done, attempt-raised, transaction-keeps}

pub record Keeps {S A : Type 0} (P : S → Type 0) (m : M S A) : Type 0 where
  pub after : (w : World S) → P w.tables → P (world (m w)).tables

world-relabel : {S A : Type 0} (text : String) (o : Outcome S A) → world (relabel text o) ≡ world o
world-relabel text (done a w) = refl
world-relabel text (raised e w) = refl

world-relabel_for :
    {S A : Type 0} (text : Text) (o : Outcome S A) → world (relabel_for text o) ≡ world o
world-relabel_for text (done a w) = refl
world-relabel_for text (raised e w) = refl

module _ {S A : Type 0} {P : S → Type 0} where
  pub Keeps-return : (a : A) → Keeps {S = S} P (return a)
  Keeps-return a = record { after = λ w p. p }

  pub Keeps-raise : (e : Error) → Keeps {S = S} {A = A} P (raise e)
  Keeps-raise e = record { after = λ w p. p }

  pub Keeps-if : (b : Bool) {m n : M S A} → Keeps P m → Keeps P n → Keeps P (if b then m else n)
  Keeps-if true k l = k
  Keeps-if false k l = l

  -- The same where the branches use the test.
  pub Keeps-test :
      (b : Bool) {m n : M S A}
      → (b ≡ true → Keeps P m)
      → (b ≡ false → Keeps P n)
      → Keeps P (if b then m else n)
  Keeps-test true k l = k refl
  Keeps-test false k l = l refl

  pub Keeps-context : (text : String) {m : M S A} → Keeps P m → Keeps P (context text m)
  unfolding context
  Keeps-context text {m} k = record {
    after = λ w p. subst (λ v. P v.tables) (sym (world-relabel text (m w))) (k.after w p);
  }

  pub Keeps-context_for : (text : Text) {m : M S A} → Keeps P m → Keeps P (context_for text m)
  unfolding context_for
  Keeps-context_for text {m} k = record {
    after = λ w p. subst (λ v. P v.tables) (sym (world-relabel_for text (m w))) (k.after w p);
  }

  pub Keeps-attempt :
      (f : S → Option (A × S))
      → ((t t' : S) (a : A) → P t → f t ≡ some (a, t') → P t')
      → Keeps P (attempt f)
  Keeps-attempt f h = record { after = λ w p. go w p (attempt f w) refl }
    where
      go : (w : World S) → P w.tables → (o : Outcome S A) → attempt f w ≡ o → P (world o).tables
      go w p (done a v) e = h w.tables v.tables a p (attempt-done f w a v e)
      go w p (raised x v) e = subst P (sym (attempt-raised f w x v e)) p

  pub Keeps-transaction :
      {m : M S A}
      → ((w v : World S) (a : A) → P w.tables → m w ≡ done a v → P v.tables)
      → Keeps P (transaction m)
  Keeps-transaction {m} h = record {
    after = λ w p. transaction-keeps P m w (λ a v e. h w v a p e) p;
  }

module _ {S A B : Type 0} {P : S → Type 0} where
  follow-keeps :
      (o : Outcome S A) (f : A → M S B)
      → ((a : A) → Keeps P (f a))
      → P (world o).tables
      → P (world (follow o f)).tables
  follow-keeps (done a w) f k p = (k a).after w p
  follow-keeps (raised e w) f k p = p

  pub Keeps-bind :
      {m : M S A} {f : A → M S B} → Keeps P m → ((a : A) → Keeps P (f a)) → Keeps P (m >>= f)
  unfolding ◌>>=◌
  Keeps-bind {m} {f} k l = record { after = λ w p. follow-keeps (m w) f l (k.after w p) }

  -- The same where what follows uses what the first half gave.
  pub bind-keeps :
      (m : M S A) (f : A → M S B) (w : World S)
      → Keeps P m
      → ((a : A) (v : World S) → m w ≡ done a v → P v.tables → P (world (f a v)).tables)
      → P w.tables
      → P (world ((m >>= f) w)).tables
  unfolding ◌>>=◌
  bind-keeps m f w k l p = go (m w) refl (k.after w p)
    where
      go : (o : Outcome S A) → m w ≡ o → P (world o).tables → P (world (follow o f)).tables
      go (done a v) e q = l a v e q
      go (raised x v) e q = q

  -- A handler answers to a store call.
  pub answer-keeps :
      (m : M S A) (f : Outcome S A → B × World S) (w : World S)
      → Keeps P m
      → ((a : A) (v : World S) → m w ≡ done a v → P v.tables → P (f (done a v)).1.tables)
      → ((e : Error) (v : World S) → P v.tables → P (f (raised e v)).1.tables)
      → P w.tables
      → P (f (m w)).1.tables
  answer-keeps m f w k l r p = go (m w) refl (k.after w p)
    where
      go : (o : Outcome S A) → m w ≡ o → P (world o).tables → P (f o).1.tables
      go (done a v) e q = l a v e q
      go (raised x v) e q = r x v q

-- A read keeps everything.
pub Keeps-query : {S A : Type 0} {P : S → Type 0} (f : S → A) → Keeps P (query f)
Keeps-query {P} f =
    Keeps-attempt (λ t. some (f t, t))
      λ t t' a p e. let same : t ≡ t' = ground arith in subst P same p

-- A write keeps what its meaning on the tables keeps.
pub Keeps-execute :
    {S : Type 0} {P : S → Type 0} (g : S → S) → ((t : S) → P t → P (g t)) → Keeps P (execute g)
Keeps-execute {P} g h =
    Keeps-attempt (λ t. some (tt, g t))
      λ t t' a p e. let same : g t ≡ t' = ground arith in subst P same (h t p)

-- The same at one state.
pub execute_keeps :
    {S : Type 0} (P : S → Type 0) (text : String) (g : S → S) (w : World S)
    → P w.tables
    → P (g w.tables)
    → P (world (context text (execute g) w)).tables
unfolding context
execute_keeps {S} P text g w p q =
    subst (λ v. P v.tables) (sym (world-relabel text (execute g w))) (go (execute g w) refl)
  where
    go : (o : Outcome S (Unit {0})) → execute g w ≡ o → P (world o).tables
    go (done a v) e =
        let h = attempt-done (λ t. some (tt, g t)) w a v e in
        let same : g w.tables ≡ v.tables = ground arith in subst P same q
    go (raised x v) e = subst P (sym (attempt-raised (λ t. some (tt, g t)) w x v e)) p
