-- ===== src/Kernel.antt =====
-- internal/kernel/plugin_manager.go and the registry of parsers and card stores of kernel.go and
-- core_registry.go. A plugin is a value of the type `P`; what it does is the record Behaviour over a
-- state `S` of its own. Routes, middlewares and the log are left out.
mod Lifecycle
mod Tests
use agentlens.Common.{
  ℕ, zero, suc, String, Bool, true, false, Option, none, some, List, [], ◌∷◌, ◌++◌, find?, filter,
  not, length, Text, codes, ◌==◌, if◌then◌else◌,
}

-- An error of Init: one that wraps ErrLicenseRequired, or another.
pub data InitError : Type 0 where
  license_required : InitError
  init_failed : Text → InitError

pub record Core (P : Type 0) : Type 0 where
  pub parsers : List (String × P)
  pub card_store : Option P

-- `protocol` is that of a ParserPlugin, and `is_card_store` says that the plugin is a CardStorePlugin.
pub record Behaviour (P S : Type 0) : Type 0 where
  pub name : P → String
  pub protocol : P → Option String
  pub is_card_store : P → Bool
  pub init : P → Core P → S → Option InitError × S
  pub start : P → S → Option Text × S
  pub stop : P → S → Option Text × S

module _ {P : Type 0} where
  abbrev pub has_protocol : String → String × P → Bool
  has_protocol protocol (q, p) = q == protocol

  unfoldable pub register_parser : String → P → Core P → Core P
  register_parser protocol p c = record c {
    parsers = (protocol, p) ∷ filter (λ e. not (has_protocol protocol e)) c.parsers;
  }

  unfoldable pub register_card_store : P → Core P → Core P
  register_card_store p c = record c { card_store = some p }

  abbrev pub second : Option (String × P) → Option P
  second none = none
  second (some (q, p)) = some p

  unfoldable pub parser : Core P → String → Option P
  parser c protocol = second (find? (has_protocol protocol) c.parsers)

pub record PluginManager (P : Type 0) : Type 0 where
  pub plugins : List P
  pub initialized : List P
  pub core : Core P

unfoldable pub new_plugin_manager : {P : Type 0} → Core P → PluginManager P
new_plugin_manager core = record { plugins = []; initialized = []; core = core }

unfoldable pub register : {P : Type 0} → P → PluginManager P → PluginManager P
register p pm = record pm { plugins = pm.plugins ++ p ∷ [] }

module _ {P S : Type 0} (b : Behaviour P S) where
  abbrev pub register_parsers : P → Option String → Core P → Core P
  register_parsers p none c = c
  register_parsers p (some protocol) c = register_parser protocol p c

  abbrev pub register_stores : P → Core P → Core P
  register_stores p c = if b.is_card_store p then register_card_store p c else c

  abbrev pub initialize : P → PluginManager P → PluginManager P
  initialize p pm = record pm {
    initialized = pm.initialized ++ p ∷ [];
    core = register_stores p (register_parsers p (b.protocol p) pm.core);
  }

  abbrev pub failed_to : String → P → Text → Text
  failed_to doing p err = codes doing ++ codes (b.name p) ++ codes ": " ++ err

  -- The loop goes on only after a success or a missing license.
  abbrev pub after_init :
      (PluginManager P → S → Option Text × (PluginManager P × S))
      → P
      → PluginManager P
      → Option InitError × S
      → Option Text × (PluginManager P × S)
  after_init rest p pm (none, s) = rest (initialize p pm) s
  after_init rest p pm (some license_required, s) = rest pm s
  after_init rest p pm (some (init_failed err), s) =
      (some (failed_to "initializing plugin " p err), (pm, s))

  unfoldable pub init_each : List P → PluginManager P → S → Option Text × (PluginManager P × S)
  init_each [] pm s = (none, (pm, s))
  init_each (p ∷ ps) pm s = after_init (λ pm s. init_each ps pm s) p pm (b.init p pm.core s)

  unfoldable pub init_all : PluginManager P → S → Option Text × (PluginManager P × S)
  init_all pm s = init_each pm.plugins pm s

  abbrev pub after_start : (S → Option Text × S) → P → Option Text × S → Option Text × S
  after_start rest p (none, s) = rest s
  after_start rest p (some err, s) = (some (failed_to "starting plugin " p err), s)

  unfoldable pub start_each : List P → S → Option Text × S
  start_each [] s = (none, s)
  start_each (p ∷ ps) s = after_start (λ s. start_each ps s) p (b.start p s)

  unfoldable pub start_all : PluginManager P → S → Option Text × S
  start_all pm s = start_each pm.initialized s

  abbrev pub nth : ℕ → List P → Option P
  nth i [] = none
  nth zero (p ∷ ps) = some p
  nth (suc i) (p ∷ ps) = nth i ps

  abbrev pub stop_error : P → Option Text → List Text
  stop_error p none = []
  stop_error p (some err) = failed_to "stopping plugin " p err ∷ []

  -- `suc i` stands for the index i of the loop, and zero for its end.
  abbrev pub stop_at : Option P → S → List Text × S
  stop_at none s = ([], s)
  stop_at (some p) s = let (err, s) = b.stop p s in (stop_error p err, s)

  unfoldable pub stop_from : ℕ → List P → S → List Text × S
  stop_from zero ps s = ([], s)
  stop_from (suc i) ps s =
      let (errs, s) = stop_at (nth i ps) s in let (more, s) = stop_from i ps s in (errs ++ more, s)

  unfoldable pub stop_all : PluginManager P → S → List Text × S
  stop_all pm s = stop_from (length pm.initialized) pm.initialized s
