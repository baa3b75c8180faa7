-- ===== src/Kernel/Tests.antt =====
-- The plugin manager on three plugins: a parser, one without a license, and a card store.
use agentlens.Common.{
  ℕ, ◌≤◌, String, ◌≡◌, refl, none, some, [], ◌∷◌, ◌++◌, map, take, length, ◌==◌, if◌then◌else◌,
}
use agentlens.Kernel.{
  license_required, Behaviour, PluginManager, init_each, init_all, start_all, stop_all, parser,
  register_parser, register_card_store,
}
use agentlens.Kernel.Lifecycle.{
  IsRegistered, init_all-IsRegistered, started, stopped, logged, reverse, stop_all-start_all,
}

abbrev plugin_behaviour : Behaviour String (Unit {0})
plugin_behaviour = record {
  name = λ p. p;
  protocol = λ p. if p == "a2a" then some "a2a" else none;
  is_card_store = λ p. p == "cards";
  init = λ p c s. (if p == "sso" then some license_required else none, s);
  start = λ p s. (none, s);
  stop = λ p s. (none, s);
}

abbrev manager : PluginManager String
manager = record {
  plugins = "a2a" ∷ "sso" ∷ "cards" ∷ [];
  initialized = [];
  core = record { parsers = []; card_store = none };
}

abbrev running : PluginManager String
running = (init_all plugin_behaviour manager tt).1.0

running_initialized : running.initialized ≡ "a2a" ∷ "cards" ∷ []
unfolding init_all init_each register_parser register_card_store
running_initialized = refl

manager-IsRegistered : IsRegistered plugin_behaviour manager
unfolding parser
manager-IsRegistered = record { parsers = λ protocol. refl; card_store = refl }

init_all-IsRegistered_example :
    IsRegistered plugin_behaviour (init_all plugin_behaviour manager tt).1.0
init_all-IsRegistered_example =
    init_all-IsRegistered plugin_behaviour manager tt manager-IsRegistered

stop_all-start_all_example :
    (many : ℕ) × ((many ≤ length running.initialized)
      × (((start_all (logged plugin_behaviour) running ([], tt)).0 ≡ none
            → many ≡ length running.initialized)
          × ((stop_all
                (logged plugin_behaviour)
                running
                (start_all (logged plugin_behaviour) running ([], tt)).1).1.0
              ≡ map started (take many running.initialized)
                ++ map stopped (reverse running.initialized))))
stop_all-start_all_example = stop_all-start_all plugin_behaviour running tt
