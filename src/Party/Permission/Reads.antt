-- ===== src/Party/Permission/Reads.antt =====
-- What the middleware's reads give where no statement fails.
use agentlens.Common.{
  String, ◌≡◌, refl, sym, ap, ◌∙◌, inl, inr, Bool, true, ◌||◌, Option, none, some, List, [], ◌∷◌,
  map, any, filter, find?, length, ltb, join_on, Bool-cases, if◌then◌else◌, ◌==◌, arith,
}
use agentlens.Sql.{done, calm, return}
use agentlens.Sql.Laws.{bind_run, context_run, statement_calm, if_run_true, if_run_false}
use agentlens.Tables.{Role, Party, GlobalPartyRole, Tables, one_of}
use agentlens.Party.Store.{is_value, get_party_by_user_id, ancestor_group_ids}
use agentlens.Party.Projects.{get_project_roles, get_roles_for_parties, is_project_role}
use agentlens.Party.Permission.{
  has_permission, project_role_has_permission, cached_ancestor_ids, resolve_for,
}

-- What the four reads give.
abbrev pub person : String → Tables → Option Party
person user_id t = find? (λ p. is_value p.user_id user_id) t.parties

unfoldable pub ancestors : String → Tables → List String
ancestors id t = map (λ c. c.ancestor_party_id) (filter (λ c. c.member_party_id == id) t.closures)

unfoldable pub group_roles : List String → Tables → List Role
group_roles ids t =
    map (λ row. row.0)
      (join_on (λ role g. g.role_id == role.id) t.roles
        (filter (λ g. one_of ids g.party_id) t.global_roles))

unfoldable pub project_roles : List String → String → Tables → List String
project_roles ids project t =
    map (λ r. r.from_role) (filter (is_project_role ids project) t.relationships)

group_roles-nil : (t : Tables) → group_roles [] t ≡ []
unfolding group_roles
group_roles-nil t = go t.roles t.global_roles
  where
    none_fit : (gs : List GlobalPartyRole) → filter (λ g. one_of [] g.party_id) gs ≡ []
    none_fit [] = refl
    none_fit (g ∷ gs) = none_fit gs

    go :
        (rs : List Role) (gs : List GlobalPartyRole)
        → map
            (λ row. row.0)
            (join_on (λ role g. g.role_id == role.id) rs (filter (λ g. one_of [] g.party_id) gs))
          ≡ []
    go [] gs = refl
    go (r ∷ rs) gs = rw (none_fit gs) (rw (none_fit gs) at (go rs gs))

read_group_roles :
    (t : Tables) (ids : List String)
    → (if ltb 0 (length ids) then get_roles_for_parties ids else return []) (calm t)
      ≡ done (group_roles ids t) (calm t)
unfolding get_roles_for_parties
read_group_roles t [] = ap (λ rs. done rs (calm t)) (sym (group_roles-nil t))
read_group_roles t (id ∷ ids) =
    if_run_true (get_roles_for_parties (id ∷ ids)) (return []) (calm t) (ground arith)
    ∙ context_run _ _ (unfold group_roles in statement_calm _ t)

read_project_roles :
    (t : Tables) (id : String) (ids : List String) (project : String)
    → get_project_roles (id ∷ ids) project (calm t)
      ≡ done (project_roles (id ∷ ids) project t) (calm t)
unfolding get_project_roles project_roles
read_project_roles t id ids project = context_run _ _ (statement_calm _ t)

read_ancestors :
    (t : Tables) (id : String)
    → cached_ancestor_ids none id (calm t) ≡ done (ancestors id t) (calm t)
unfolding cached_ancestor_ids ancestor_group_ids ancestors
read_ancestors t id = context_run _ _ (statement_calm _ t)

pub read_person :
    (t : Tables) (user_id : String)
    → get_party_by_user_id user_id (calm t) ≡ done (person user_id t) (calm t)
unfolding get_party_by_user_id
read_person t user_id = context_run _ _ (statement_calm _ t)

module _ (project_id permission : String) (t : Tables) where
  unfoldable pub by_group : Party → Bool
  by_group p =
      any (λ role. has_permission role.permissions permission) (group_roles (ancestors p.id t) t)

  unfoldable pub by_project : Party → Bool
  by_project p =
      any (λ role. project_role_has_permission role permission)
        (project_roles (p.id ∷ ancestors p.id t) project_id t)

  pub resolve_run :
      (p : Party)
      → resolve_for none project_id permission (some p) (calm t)
        ≡ done (by_group p || by_project p) (calm t)
  unfolding by_group by_project
  resolve_run p =
      bind_run _ _ (read_ancestors t p.id)
      ∙ bind_run _ _ (read_group_roles t (ancestors p.id t))
      ∙ elim (Bool-cases (by_group p)) [
        | inl yes_group ↦ if_run_true (return true) _ (calm t) yes_group ∙ rw yes_group
        | inr no_group ↦
            if_run_false (return true) _ (calm t) no_group
            ∙ bind_run _ _ (read_project_roles t p.id (ancestors p.id t) project_id)
            ∙ rw no_group
      ]
