-- ===== src/Sql/Laws.antt =====
-- What a statement and a transaction guarantee, whatever fails.
use agentlens.Common.{
  Bool, true, false, ◌⊎◌, inl, inr, if◌then◌else◌, ◌≡◌, refl, String, List, [], ◌∷◌, Option, none,
  some, Text, codes, arith,
}
use agentlens.Sql.{
  Error, database, wrap, World, Outcome, done, raised, M, world, follow, ◌>>=◌, relabel,
  relabel_for, context, context_for, answer, run_attempt, attempt, statement, finish, settle,
  transaction,
}

module _ {S A : Type 0} where
  answer-done :
      (o : Option (A × S)) (t : S) (faults : List (Option Text)) (a : A) (w' : World S)
      → answer o t faults ≡ done a w'
      → o ≡ some (a, w'.tables)
  unfolding answer
  answer-done (some (b, t')) t faults a w' h = ground arith
  answer-done none t faults a w' h = cc

  answer-raised :
      (o : Option (A × S)) (t : S) (faults : List (Option Text)) (e : Error) (w' : World S)
      → answer o t faults ≡ raised e w'
      → w'.tables ≡ t
  unfolding answer
  answer-raised (some (b, t')) t faults e w' h = cc
  answer-raised none t faults e w' h = ground arith

  run_attempt-done :
      (f : S → Option (A × S)) (t : S) (faults : List (Option Text)) (a : A) (w' : World S)
      → run_attempt f t faults ≡ done a w'
      → f t ≡ some (a, w'.tables)
  unfolding run_attempt
  run_attempt-done f t [] a w' h = answer-done (f t) t [] a w' h
  run_attempt-done f t (none ∷ faults) a w' h = answer-done (f t) t faults a w' h
  run_attempt-done f t (some cause ∷ faults) a w' h = cc

  run_attempt-raised :
      (f : S → Option (A × S)) (t : S) (faults : List (Option Text)) (e : Error) (w' : World S)
      → run_attempt f t faults ≡ raised e w'
      → w'.tables ≡ t
  unfolding run_attempt
  run_attempt-raised f t [] e w' h = answer-raised (f t) t [] e w' h
  run_attempt-raised f t (none ∷ faults) e w' h = answer-raised (f t) t faults e w' h
  run_attempt-raised f t (some cause ∷ faults) e w' h = ground arith

  -- A statement that succeeds has its meaning on the tables.
  pub attempt-done :
      (f : S → Option (A × S)) (w : World S) (a : A) (w' : World S)
      → attempt f w ≡ done a w'
      → f w.tables ≡ some (a, w'.tables)
  unfolding attempt
  attempt-done f w a w' h = run_attempt-done f w.tables w.faults a w' h

  pub statement-done :
      (f : S → A × S) (w : World S) (a : A) (w' : World S)
      → statement f w ≡ done a w'
      → ((f w.tables).0 ≡ a) × ((f w.tables).1 ≡ w'.tables)
  statement-done f w a w' h =
      let e = attempt-done (λ t. some (f t)) w a w' h in (ground arith, ground arith)

  -- A statement that fails changes nothing.
  pub attempt-raised :
      (f : S → Option (A × S)) (w : World S) (e : Error) (w' : World S)
      → attempt f w ≡ raised e w'
      → w'.tables ≡ w.tables
  unfolding attempt
  attempt-raised f w e w' h = run_attempt-raised f w.tables w.faults e w' h

  -- With no fault to come, a statement succeeds, and no fault is left to come.
  pub statement_calm :
      (f : S → A × S) (t : S)
      → statement f (record { tables = t; faults = [] })
        ≡ done (f t).0 (record { tables = (f t).1; faults = [] })
  unfolding attempt
  statement_calm f t = refl

  pub attempt_calm :
      (f : S → Option (A × S)) {t t' : S} {a : A}
      → f t ≡ some (a, t')
      → attempt f (record { tables = t; faults = [] })
        ≡ done a (record { tables = t'; faults = [] })
  unfolding attempt run_attempt answer
  attempt_calm f h = rw h refl

  -- What a constraint refuses.
  pub attempt_refused :
      (f : S → Option (A × S)) {t : S}
      → f t ≡ none
      → attempt f (record { tables = t; faults = [] })
        ≡ raised (database (codes "constraint failed")) (record { tables = t; faults = [] })
  unfolding attempt run_attempt answer
  attempt_refused f h = rw h refl

  finish-done :
      (a b : A) (t : S) (w w' : World S) (faults : List (Option Text))
      → finish a t w faults ≡ done b w'
      → (a ≡ b) × (w'.tables ≡ w.tables)
  unfolding finish
  finish-done a b t w w' [] h = ground arith
  finish-done a b t w w' (none ∷ faults) h = ground arith
  finish-done a b t w w' (some cause ∷ faults) h = cc

  finish-raised :
      (a : A) (e : Error) (t : S) (w w' : World S) (faults : List (Option Text))
      → finish a t w faults ≡ raised e w'
      → w'.tables ≡ t
  unfolding finish
  finish-raised a e t w w' [] h = cc
  finish-raised a e t w w' (none ∷ faults) h = cc
  finish-raised a e t w w' (some cause ∷ faults) h = ground arith

  settle-done :
      (before : S) (o : Outcome S A) (a : A) (w' : World S)
      → settle before o ≡ done a w'
      → (v : World S) × (o ≡ done a v) × (w'.tables ≡ v.tables)
  unfolding settle
  settle-done before (done b v) a w' h =
      let (e, t) = finish-done b a before v w' v.faults h in (v, ground arith, t)
  settle-done before (raised e v) a w' h = cc

  settle-raised :
      (before : S) (o : Outcome S A) (e : Error) (w' : World S)
      → settle before o ≡ raised e w'
      → w'.tables ≡ before
  unfolding settle
  settle-raised before (done b v) e w' h = finish-raised b e before v w' v.faults h
  settle-raised before (raised e' v) e w' h = ground arith

  -- A committed transaction leaves what its function left.
  pub transaction-done :
      (m : M S A) (w : World S) (a : A) (w' : World S)
      → transaction m w ≡ done a w'
      → (v : World S) × (m w ≡ done a v) × (w'.tables ≡ v.tables)
  unfolding transaction
  transaction-done m w a w' h = settle-done w.tables (m w) a w' h

  -- A transaction that fails, at whatever statement, changes nothing.
  pub transaction-raised :
      (m : M S A) (w : World S) (e : Error) (w' : World S)
      → transaction m w ≡ raised e w'
      → w'.tables ≡ w.tables
  unfolding transaction
  transaction-raised m w e w' h = settle-raised w.tables (m w) e w' h

  -- A property of the tables that the committing runs of a function keep, its transaction keeps.
  pub transaction-keeps :
      (P : S → Type 0) (m : M S A) (w : World S)
      → ((a : A) (v : World S) → m w ≡ done a v → P v.tables)
      → P w.tables
      → P (world (transaction m w)).tables
  transaction-keeps P m w keep p = go (transaction m w) refl
    where
      go : (o : Outcome S A) → transaction m w ≡ o → P (world o).tables
      go (done a w') h = let (v, ran, same) = transaction-done m w a w' h in rw same (keep a v ran)
      go (raised e w') h = rw (transaction-raised m w e w' h) p

follow-done :
    {S A B : Type 0} (o : Outcome S A) (f : A → M S B) (w' : World S) (b : B)
    → follow o f ≡ done b w'
    → (a : A) × (v : World S) × (o ≡ done a v) × (f a v ≡ done b w')
follow-done (done a v) f w' b h = (a, v, refl, h)
follow-done (raised e v) f w' b h = cc

-- A chain that succeeds has two halves that do.
pub bind-done :
    {S A B : Type 0} (m : M S A) (f : A → M S B) (w w' : World S) (b : B)
    → (m >>= f) w ≡ done b w'
    → (a : A) × (v : World S) × (m w ≡ done a v) × (f a v ≡ done b w')
unfolding ◌>>=◌
bind-done m f w w' b h = follow-done (m w) f w' b h

follow-raised :
    {S A B : Type 0} (o : Outcome S A) (f : A → M S B) (w' : World S) (e : Error)
    → follow o f ≡ raised e w'
    → (o ≡ raised e w') ⊎ ((a : A) × (v : World S) × (o ≡ done a v) × (f a v ≡ raised e w'))
follow-raised (done a v) f w' e h = inr (a, v, refl, h)
follow-raised (raised x v) f w' e h = inl (ground arith)

-- A chain that fails, fails in one of its halves.
pub bind-raised :
    {S A B : Type 0} (m : M S A) (f : A → M S B) (w w' : World S) (e : Error)
    → (m >>= f) w ≡ raised e w'
    → (m w ≡ raised e w') ⊎ ((a : A) × (v : World S) × (m w ≡ done a v) × (f a v ≡ raised e w'))
unfolding ◌>>=◌
bind-raised m f w w' e h = follow-raised (m w) f w' e h

relabel-done :
    {S A : Type 0} (text : String) (o : Outcome S A) (w' : World S) (a : A)
    → relabel text o ≡ done a w'
    → o ≡ done a w'
relabel-done text (done b v) w' a h = h
relabel-done text (raised e v) w' a h = cc

pub context-done :
    {S A : Type 0} (text : String) (m : M S A) (w w' : World S) (a : A)
    → context text m w ≡ done a w'
    → m w ≡ done a w'
unfolding context
context-done text m w w' a h = relabel-done text (m w) w' a h

relabel-raised :
    {S A : Type 0} (text : String) (o : Outcome S A) (w' : World S) (e : Error)
    → relabel text o ≡ raised e w'
    → (cause : Error) × (o ≡ raised cause w')
relabel-raised text (done b v) w' e h = cc
relabel-raised text (raised x v) w' e h = (x, ground arith)

pub context-raised :
    {S A : Type 0} (text : String) (m : M S A) (w w' : World S) (e : Error)
    → context text m w ≡ raised e w'
    → (cause : Error) × (m w ≡ raised cause w')
unfolding context
context-raised text m w w' e h = relabel-raised text (m w) w' e h

relabel_for-done :
    {S A : Type 0} (text : Text) (o : Outcome S A) (w' : World S) (a : A)
    → relabel_for text o ≡ done a w'
    → o ≡ done a w'
relabel_for-done text (done b v) w' a h = h
relabel_for-done text (raised e v) w' a h = cc

pub context_for-done :
    {S A : Type 0} (text : Text) (m : M S A) (w w' : World S) (a : A)
    → context_for text m w ≡ done a w'
    → m w ≡ done a w'
unfolding context_for
context_for-done text m w w' a h = relabel_for-done text (m w) w' a h

pub if_run_true :
    {S A : Type 0} {b : Bool} (m n : M S A) (w : World S) → b ≡ true → (if b then m else n) w ≡ m w
if_run_true m n w h = rw h

pub if_run_false :
    {S A : Type 0} {b : Bool} (m n : M S A) (w : World S) → b ≡ false → (if b then m else n) w ≡ n w
if_run_false m n w h = rw h

-- The forward reading of a chain and of a wrapped error.
pub bind_run :
    {S A B : Type 0} (m : M S A) (f : A → M S B) {w v : World S} {a : A}
    → m w ≡ done a v
    → (m >>= f) w ≡ f a v
unfolding ◌>>=◌
bind_run m f h = rw h

pub context_run :
    {S A : Type 0} (text : String) (m : M S A) {w v : World S} {a : A}
    → m w ≡ done a v
    → context text m w ≡ done a v
unfolding context
context_run text m h = rw h

pub context_for_run :
    {S A : Type 0} (text : Text) (m : M S A) {w v : World S} {a : A}
    → m w ≡ done a v
    → context_for text m w ≡ done a v
unfolding context_for
context_for_run text m h = rw h

-- An error ends a chain, under the text of its context.
pub bind_refused :
    {S A B : Type 0} (m : M S A) (f : A → M S B) {w v : World S} {e : Error}
    → m w ≡ raised e v
    → (m >>= f) w ≡ raised e v
unfolding ◌>>=◌
bind_refused m f h = rw h refl

pub context_refused :
    {S A : Type 0} (text : String) (m : M S A) {w v : World S} {e : Error}
    → m w ≡ raised e v
    → context text m w ≡ raised (wrap (codes text) e) v
unfolding context
context_refused text m h = rw h refl

-- With no fault to come, a transaction keeps what its function did.
pub transaction_calm :
    {S A : Type 0} (m : M S A) (w : World S) (a : A) (t : S)
    → m w ≡ done a (record { tables = t; faults = [] })
    → transaction m w ≡ done a (record { tables = t; faults = [] })
unfolding transaction settle finish
transaction_calm m w a t h = rw h

-- and undoes it where the function returned an error.
pub transaction_refused :
    {S A : Type 0} (m : M S A) (w : World S) (e : Error) (v : World S)
    → m w ≡ raised e v
    → transaction m w ≡ raised e (record v { tables = w.tables })
unfolding transaction settle
transaction_refused m w e v h = rw h

pub if-done :
    {S A : Type 0} (b : Bool) (m n : M S A) (w w' : World S) (a : A)
    → (if b then m else n) w ≡ done a w'
    → ((b ≡ true) × (m w ≡ done a w')) ⊎ ((b ≡ false) × (n w ≡ done a w'))
if-done true m n w w' a h = inl (refl, h)
if-done false m n w w' a h = inr (refl, h)

-- What follows a store call, case by case.
pub run-cases {ℓ} :
    {S A R : Type 0} (Q : R → Type ℓ) (m : M S A) (f : Outcome S A → R) (w : World S)
    → ((a : A) (v : World S) → m w ≡ done a v → Q (f (done a v)))
    → ((e : Error) (v : World S) → m w ≡ raised e v → Q (f (raised e v)))
    → Q (f (m w))
run-cases {S} {A} Q m f w l r = go (m w) refl
  where
    go : (o : Outcome S A) → m w ≡ o → Q (f o)
    go (done a v) e = l a v e
    go (raised x v) e = r x v e
