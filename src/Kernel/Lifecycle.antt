-- ===== src/Kernel/Lifecycle.antt =====
-- The registry agrees with the plugins that were initialized, and a shutdown stops them backwards.
use agentlens.Common.{
  ℕ, zero, suc, ◌≤◌, String, ◌≡◌, refl, sym, ap, ◌∙◌, inl, inr, Bool, true, false, Option, none,
  some, List, [], ◌∷◌, ◌++◌, map, length, take, Bool-cases, if◌then◌else◌, ◌==◌, eq_iff, Text,
  find-filter_other, append_nil, append_assoc, arith,
}
use agentlens.Kernel.{
  InitError, license_required, init_failed, Core, Behaviour, register_parser, register_card_store,
  second, parser, PluginManager, register_parsers, register_stores, initialize, after_init,
  init_each, init_all, after_start, start_each, start_all, nth, stop_at, stop_from, stop_all,
}

module _ {A : Type 0} where
  -- The last element that passes the test.
  abbrev pub or_last : Option A → Option A → Option A
  or_last first none = first
  or_last first (some later) = some later

  abbrev pub last_with : (A → Bool) → List A → Option A
  last_with test [] = none
  last_with test (x ∷ xs) = or_last (if test x then some x else none) (last_with test xs)

  or_last_assoc : (a b c : Option A) → or_last a (or_last b c) ≡ or_last (or_last a b) c
  or_last_assoc a none none = refl
  or_last_assoc a (some b) none = refl
  or_last_assoc a b (some c) = refl

  last_with-append :
      (test : A → Bool) (xs : List A) (x : A)
      → last_with test (xs ++ x ∷ [])
        ≡ or_last (last_with test xs) (if test x then some x else none)
  last_with-append test [] x = refl_last (if test x then some x else none)
    where
      refl_last : (o : Option A) → or_last o none ≡ or_last none o
      refl_last none = refl
      refl_last (some a) = refl
  last_with-append test (y ∷ xs) x =
      ap (or_last (if test y then some y else none)) (last_with-append test xs x)
      ∙ or_last_assoc (if test y then some y else none) (last_with test xs)
          (if test x then some x else none)

  abbrev pub reverse : List A → List A
  reverse [] = []
  reverse (x ∷ xs) = reverse xs ++ x ∷ []

module _ {P S : Type 0} (b : Behaviour P S) where
  abbrev pub is_protocol : String → Option String → Bool
  is_protocol protocol none = false
  is_protocol protocol (some q) = q == protocol

  abbrev pub parses : String → P → Bool
  parses protocol p = is_protocol protocol (b.protocol p)

  -- A protocol's parser is the plugin that was initialized last for it, and likewise the card store.
  pub record IsRegistered (pm : PluginManager P) : Type 0 where
    pub parsers :
        (protocol : String) → parser pm.core protocol ≡ last_with (parses protocol) pm.initialized
    pub card_store : pm.core.card_store ≡ last_with b.is_card_store pm.initialized

  parser-register :
      (q : String) (p : P) (c : Core P) (protocol : String)
      → parser (register_parser q p c) protocol
        ≡ (if q == protocol then some p else parser c protocol)
  unfolding parser register_parser
  parser-register q p c protocol = elim (Bool-cases (q == protocol)) [
    | inl hit ↦ rw hit refl
    | inr miss ↦ rw miss (
        ap second (
          find-filter_other (λ (e : String × P). e.0) protocol q c.parsers
            (λ e. let clash = (eq_iff q protocol).1 (sym e) in cc)))
  ]

  if_some :
      (c : Bool) (o : Option P) (p : P)
      → (if c then some p else o) ≡ or_last o (if c then some p else none)
  if_some true o p = refl
  if_some false o p = refl

  parser-register_parsers :
      (protocol : String) (p : P) (o : Option String) (c : Core P)
      → parser (register_parsers b p o c) protocol
        ≡ or_last (parser c protocol) (if is_protocol protocol o then some p else none)
  parser-register_parsers protocol p none c = refl
  parser-register_parsers protocol p (some q) c =
      parser-register q p c protocol ∙ if_some (q == protocol) (parser c protocol) p

  card_store-register_parsers :
      (p : P) (o : Option String) (c : Core P)
      → (register_parsers b p o c).card_store ≡ c.card_store
  unfolding register_parser
  card_store-register_parsers p none c = refl
  card_store-register_parsers p (some q) c = refl

  parser-register_stores :
      (protocol : String) (p : P) (c : Core P)
      → parser (register_stores b p c) protocol ≡ parser c protocol
  unfolding parser register_card_store
  parser-register_stores protocol p c = elim (Bool-cases (b.is_card_store p)) [
    | inl e ↦ rw e refl
    | inr e ↦ rw e refl
  ]

  card_store-register_stores :
      (p : P) (c : Core P)
      → (register_stores b p c).card_store
        ≡ or_last c.card_store (if b.is_card_store p then some p else none)
  unfolding register_card_store
  card_store-register_stores p c = elim (Bool-cases (b.is_card_store p)) [
    | inl e ↦ rw e refl
    | inr e ↦ rw e refl
  ]

  initialize-IsRegistered :
      (p : P) (pm : PluginManager P) → IsRegistered pm → IsRegistered (initialize b p pm)
  initialize-IsRegistered p pm h = record {
    parsers = λ protocol.
        parser-register_stores protocol p (register_parsers b p (b.protocol p) pm.core)
        ∙ parser-register_parsers protocol p (b.protocol p) pm.core
        ∙ ap (λ o. or_last o (if parses protocol p then some p else none)) (h.parsers protocol)
        ∙ sym (last_with-append (parses protocol) pm.initialized p);
    card_store =
        card_store-register_stores p (register_parsers b p (b.protocol p) pm.core)
        ∙ ap (λ o. or_last o (if b.is_card_store p then some p else none))
            (card_store-register_parsers p (b.protocol p) pm.core ∙ h.card_store)
        ∙ sym (last_with-append b.is_card_store pm.initialized p);
  }

  after_init-IsRegistered :
      (rest : PluginManager P → S → Option Text × (PluginManager P × S)) (p : P)
      (pm : PluginManager P) (r : Option InitError × S)
      → ((q : PluginManager P) (t : S) → IsRegistered q → IsRegistered (rest q t).1.0)
      → IsRegistered pm
      → IsRegistered (after_init b rest p pm r).1.0
  after_init-IsRegistered rest p pm (none, t) k h =
      k (initialize b p pm) t (initialize-IsRegistered p pm h)
  after_init-IsRegistered rest p pm (some license_required, t) k h = k pm t h
  after_init-IsRegistered rest p pm (some (init_failed err), t) k h = h

  init_each-IsRegistered :
      (ps : List P) (pm : PluginManager P) (s : S)
      → IsRegistered pm
      → IsRegistered (init_each b ps pm s).1.0
  unfolding init_each
  init_each-IsRegistered [] pm s h = h
  init_each-IsRegistered (p ∷ ps) pm s h =
      after_init-IsRegistered (λ pm s. init_each b ps pm s) p pm (b.init p pm.core s)
        (λ q t k. init_each-IsRegistered ps q t k) h

  -- Whatever the plugins do, and also when an Init fails: after InitAll the parser of each protocol is
  -- the plugin that was initialized last for it, and the card store the card store plugin that was
  -- initialized last, where that was so before.
  pub init_all-IsRegistered :
      (pm : PluginManager P) (s : S) → IsRegistered pm → IsRegistered (init_all b pm s).1.0
  unfolding init_all
  init_all-IsRegistered pm s h = init_each-IsRegistered pm.plugins pm s h

-- What the manager does to plugins, on record.
pub data Event (P : Type 0) : Type 0 where
  inited : P → Event P
  started : P → Event P
  stopped : P → Event P

abbrev pub logged : {P S : Type 0} → Behaviour P S → Behaviour P (List (Event P) × S)
logged b = record {
  name = b.name;
  protocol = b.protocol;
  is_card_store = b.is_card_store;
  init = λ p c (t, s). let (e, s') = b.init p c s in (e, (t ++ inited p ∷ [], s'));
  start = λ p (t, s). let (e, s') = b.start p s in (e, (t ++ started p ∷ [], s'));
  stop = λ p (t, s). let (e, s') = b.stop p s in (e, (t ++ stopped p ∷ [], s'));
}

module _ {A : Type 0} where
  take_all : (xs : List A) → take (length xs) xs ≡ xs
  take_all [] = refl
  take_all (x ∷ xs) = ap (λ l. x ∷ l) (take_all xs)

module _ {P S : Type 0} (b : Behaviour P S) where
  nth-take :
      (i : ℕ) (ps : List P)
      → suc i ≤ length ps
      → (p : P) × ((nth b i ps ≡ some p) × (reverse (take (suc i) ps) ≡ p ∷ reverse (take i ps)))
  nth-take i [] h = let never : ⊥ = omega arith in elim never [ ]
  nth-take zero (p ∷ ps) h = (p, (refl, refl))
  nth-take (suc i) (p ∷ ps) h =
      let (q, (found, back)) = nth-take i ps (omega arith) in
      (q, (found, ap (λ l. l ++ p ∷ []) back))

  stop_from-logged :
      (i : ℕ) (ps : List P) (t : List (Event P)) (s : S)
      → i ≤ length ps
      → (stop_from (logged b) i ps (t, s)).1.0 ≡ t ++ map stopped (reverse (take i ps))
  unfolding stop_from
  stop_from-logged zero ps t s h = sym (append_nil t)
  stop_from-logged (suc i) ps t s h =
      let (p, (found, back)) = nth-take i ps h in
      ap (λ o. (let (errs, u) = stop_at (logged b) o (t, s) in stop_from (logged b) i ps u).1.0)
        found
      ∙ stop_from-logged i ps (t ++ stopped p ∷ []) (b.stop p s).1 (omega arith)
      ∙ append_assoc t (stopped p ∷ []) (map stopped (reverse (take i ps)))
      ∙ ap (λ l. t ++ map stopped l) (sym back)

  -- What is started is a first part of the list, the whole of it where no Start fails.
  pub record IsStarted (ps : List P) (t : List (Event P)) (r : Option Text × (List (Event P) × S))
      : Type 0 where
    pub many : ℕ
    pub within : many ≤ length ps
    pub events : r.1.0 ≡ t ++ map started (take many ps)
    pub all_started : r.0 ≡ none → many ≡ length ps

  after_start-IsStarted :
      (rest : List (Event P) × S → Option Text × (List (Event P) × S)) (p : P) (ps : List P)
      (t : List (Event P)) (r : Option Text × S)
      → ((s : S) → IsStarted ps (t ++ started p ∷ []) (rest (t ++ started p ∷ [], s)))
      → IsStarted (p ∷ ps) t (after_start (logged b) rest p (r.0, (t ++ started p ∷ [], r.1)))
  after_start-IsStarted rest p ps t (none, s) h = record {
    many = suc (h s).many;
    within = let w = (h s).within in omega arith;
    events = (h s).events ∙ append_assoc t (started p ∷ []) (map started (take (h s).many ps));
    all_started = λ e. let w = (h s).all_started e in omega arith;
  }
  after_start-IsStarted rest p ps t (some err, s) h = record {
    many = 1;
    within = omega arith;
    events = refl;
    all_started = λ e. let clash = e in cc;
  }

  start_each-IsStarted :
      (ps : List P) (t : List (Event P)) (s : S) → IsStarted ps t (start_each (logged b) ps (t, s))
  unfolding start_each
  start_each-IsStarted [] t s = record {
    many = 0;
    within = omega arith;
    events = sym (append_nil t);
    all_started = λ e. refl;
  }
  start_each-IsStarted (p ∷ ps) t s =
      after_start-IsStarted (λ u. start_each (logged b) ps u) p ps t (b.start p s)
        λ s. start_each-IsStarted ps (t ++ started p ∷ []) s

  -- StartAll starts a first part of the initialized plugins in their order, all of them where it
  -- returns no error, and StopAll then stops every initialized plugin, the last one first, whatever
  -- the plugins' Stop functions return.
  pub stop_all-start_all :
      (pm : PluginManager P) (s : S)
      → (many : ℕ) × ((many ≤ length pm.initialized)
          × (((start_all (logged b) pm ([], s)).0 ≡ none → many ≡ length pm.initialized)
              × ((stop_all (logged b) pm (start_all (logged b) pm ([], s)).1).1.0
                  ≡ map started (take many pm.initialized)
                    ++ map stopped (reverse pm.initialized))))
  unfolding start_all stop_all
  stop_all-start_all pm s =
      let h = start_each-IsStarted pm.initialized [] s in
      let after = start_each (logged b) pm.initialized ([], s) in
      (
        h.many,
        (
          h.within,
          (
            h.all_started,
            stop_from-logged (length pm.initialized) pm.initialized after.1.0 after.1.1
                  (omega arith)
                ∙ ap (λ l. after.1.0 ++ map stopped (reverse l)) (take_all pm.initialized)
                ∙ ap (λ t. t ++ map stopped (reverse pm.initialized)) h.events,
          ),
        ),
      )
