-- ===== src/Migrate/Sorted.antt =====
-- What NewMigrator makes of the migrations.
use agentlens.Common.{ℕ, ◌<◌, ◌≡◌, ◌≢◌, inl, inr, false, List, [], ◌∷◌, All, ltb, Bool-cases, arith}
use agentlens.Migrate.{Migration, insert_by_version, new_migrator}
use agentlens.Migrate.Resumes.{Ascending}

module _ {T : Type 0} where
  abbrev pub IsNew : ℕ → List (Migration T) → Type 0
  IsNew v ms = All (λ (n : Migration T). n.version ≢ v) ms

  abbrev pub DistinctVersions : List (Migration T) → Type 0
  DistinctVersions [] = Unit
  DistinctVersions (m ∷ ms) = (0 < m.version) × (IsNew m.version ms × DistinctVersions ms)

  insert-IsNew :
      (v : ℕ) (m : Migration T) (ms : List (Migration T))
      → m.version ≢ v
      → IsNew v ms
      → IsNew v (insert_by_version m ms)
  insert-IsNew v m [] new h = (new, tt)
  insert-IsNew v m (n ∷ ns) new (other, h) = elim (Bool-cases (ltb n.version m.version)) [
    | inl below ↦ rw below (other, insert-IsNew v m ns new h)
    | inr above ↦ rw above (new, (other, h))
  ]

  new_migrator-IsNew : (v : ℕ) (ms : List (Migration T)) → IsNew v ms → IsNew v (new_migrator ms)
  unfolding new_migrator
  new_migrator-IsNew v [] h = tt
  new_migrator-IsNew v (m ∷ ms) (other, h) =
      insert-IsNew v m (new_migrator ms) other (new_migrator-IsNew v ms h)

  not_before :
      (n m : Migration T)
      → ltb n.version m.version ≡ false
      → n.version ≢ m.version
      → m.version < n.version
  not_before n m later other = ground arith

  insert-Ascending :
      (low : ℕ) (m : Migration T) (ms : List (Migration T))
      → low < m.version
      → IsNew m.version ms
      → Ascending low ms
      → Ascending low (insert_by_version m ms)
  insert-Ascending low m [] above new h = (above, tt)
  insert-Ascending low m (n ∷ ns) above (other, new) (below, h) =
      elim (Bool-cases (ltb n.version m.version)) [
        | inl before ↦ rw before (below, insert-Ascending n.version m ns (ground arith) new h)
        | inr later ↦ rw later (above, (not_before n m later other, h))
      ]

  -- NewMigrator puts migrations of distinct positive versions in ascending order.
  pub new_migrator-Ascending :
      (ms : List (Migration T)) → DistinctVersions ms → Ascending 0 (new_migrator ms)
  unfolding new_migrator
  new_migrator-Ascending [] h = tt
  new_migrator-Ascending (m ∷ ms) (positive, (new, h)) =
      insert-Ascending 0 m (new_migrator ms) positive (new_migrator-IsNew m.version ms new)
        (new_migrator-Ascending ms h)
