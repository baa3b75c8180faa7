-- ===== src/Party/Roles.antt =====
-- What ResolveUserProjects reports: every project in which the user has a role, with the best one, by
-- rank, among the roles of the user and of the groups that contain the user.
use agentlens.Common.{
  any_of_Member, Member-map, Member-filter, Member-join_on, Member-of_join_on, subst₂, ◌&&◌, Bool,
  ◌≤◌, String, ◌≡◌, refl, sym, ap, subst, ◌∙◌, inl, inr, true, some, List, [], ◌∷◌, map, filter,
  Member, Member-of_map, Member-of_filter, any-true, find?, Bool-cases, ◌==◌, eq_iff, eq_refl,
  arith,
}
use agentlens.Sql.{done, calm}
use agentlens.Sql.Laws.{bind_run, context_for_run, context_run, statement_calm}
use agentlens.Tables.{
  PartyRelationship, project_member, project_kind, Party, UserProjectMembership, Tables, one_of,
}
use agentlens.Party.Store.{is_value}
use agentlens.Party.Projects.{
  Best, rank_role, role_of, best_roles, name_le, insert_by_name, order_by_name, project_rows,
  role_or_empty, membership_of, fetch_projects, resolve_user_projects,
}
use agentlens.Party.Permission.Reads.{ancestors, read_person}
use agentlens.Party.BestRoles.{keyed, best_roles_reach, best_roles-IsBestRole, role_of-keyed}
use agentlens.Party.Graph.{Near}
use agentlens.Party.Closure.{containment_edges}
use agentlens.Party.Invariant.{IsWellFormed}
use agentlens.Party.Permission.Decides.{one_of_iff, ancestors_iff}

insert_by_name-Member :
    (q p : Party) (ps : List Party) → Member q (insert_by_name p ps) → Member q (p ∷ ps)
insert_by_name-Member q p [] m = m
insert_by_name-Member q p (r ∷ ps) m = elim (Bool-cases (name_le p r)) [
  | inl first ↦ rw first at m
  | inr later ↦ go (insert_by_name-Member q p ps) (rw later at m)
]
  where
    go :
        (Member q (insert_by_name p ps) → Member q (p ∷ ps))
        → Member q (r ∷ insert_by_name p ps)
        → Member q (p ∷ r ∷ ps)
    go rest (inl e) = inr (inl e)
    go rest (inr k) = elim (rest k) [ inl e ↦ inl e | inr n ↦ inr (inr n) ]

order_by_name-Member : (q : Party) (ps : List Party) → Member q (order_by_name ps) → Member q ps
order_by_name-Member q [] m = m
order_by_name-Member q (p ∷ ps) m = elim (insert_by_name-Member q p (order_by_name ps) m) [
  | inl e ↦ inl e
  | inr n ↦ inr (order_by_name-Member q ps n)
]

insert_by_name-first : (p : Party) (ps : List Party) → Member p (insert_by_name p ps)
insert_by_name-first p [] = inl refl
insert_by_name-first p (r ∷ ps) = elim (Bool-cases (name_le p r)) [
  | inl first ↦ rw first (inl refl)
  | inr later ↦ rw later (inr (insert_by_name-first p ps))
]

insert_by_name-rest : (q p : Party) (ps : List Party) → Member q ps → Member q (insert_by_name p ps)
insert_by_name-rest q p [] m = elim m [ ]
insert_by_name-rest q p (r ∷ ps) m = elim (Bool-cases (name_le p r)) [
  | inl first ↦ rw first (inr m)
  | inr later ↦ rw later (elim m [ inl e ↦ inl e | inr n ↦ inr (insert_by_name-rest q p ps n) ])
]

Member-order_by_name : (q : Party) (ps : List Party) → Member q ps → Member q (order_by_name ps)
Member-order_by_name q [] m = m
Member-order_by_name q (p ∷ ps) (inl e) =
    subst (λ x. Member x (insert_by_name p (order_by_name ps))) e
      (insert_by_name-first p (order_by_name ps))
Member-order_by_name q (p ∷ ps) (inr m) =
    insert_by_name-rest q p (order_by_name ps) (Member-order_by_name q ps m)

abbrev IsFetched : Best → Tables → Type 0
IsFetched best t =
    (ms : List UserProjectMembership) × (fetch_projects best (calm t) ≡ done ms (calm t))
    × ((m : UserProjectMembership)
        → Member m ms
        → Member m.project t.parties × (role_of m.project.id best ≡ some m.role))
    × ((p : Party) (role : String)
        → Member p t.parties
        → role_of p.id best ≡ some role
        → Member (membership_of best p) ms)

fetch_projects-IsFetched : (best : Best) (t : Tables) → IsFetched best t
fetch_projects-IsFetched [] t = ([], refl, λ m k. elim k [ ], λ p role k h. cc)
fetch_projects-IsFetched (b ∷ bs) t =
    (_, bind_run _ _ (context_run _ _ (statement_calm _ t)), has_role, fetched)
  where
    names : List String
    names = map (λ e. e.0) (b ∷ bs)

    named : (p : Party) → one_of names p.id ≡ true → Member p.id names
    named p h =
        let (key, k, same) = any-true (λ n. n == p.id) names h in
        subst (λ x. Member x names) ((eq_iff key p.id).0 same) k

    has_role :
        (m : UserProjectMembership)
        → Member m (
            map
              (membership_of (b ∷ bs))
              (order_by_name (filter (λ p. one_of names p.id) t.parties)))
        → Member m.project t.parties × (role_of m.project.id (b ∷ bs) ≡ some m.role)
    has_role m k =
        let (p, n, same) = Member-of_map (membership_of (b ∷ bs)) _ m k in
        let (listed, passed) =
          Member-of_filter (λ p. one_of names p.id) t.parties p (order_by_name-Member p _ n) in
        let (role, e) = keyed (b ∷ bs) p.id (named p passed) in
        (
          subst (λ x. Member x.project t.parties) same listed,
          ap (λ x. role_of x.project.id (b ∷ bs)) (sym same)
              ∙ e
              ∙ ap some (sym (ap role_or_empty e))
              ∙ ap (λ x. some x.role) same,
        )

    fetched :
        (p : Party) (role : String)
        → Member p t.parties
        → role_of p.id (b ∷ bs) ≡ some role
        → Member (membership_of (b ∷ bs) p) (
            map
              (membership_of (b ∷ bs))
              (order_by_name (filter (λ p. one_of names p.id) t.parties)))
    fetched p role m h = Member-map (membership_of (b ∷ bs)) _ p (
        Member-order_by_name p _ (
          Member-filter (λ p. one_of names p.id) t.parties p m
            (any_of_Member (λ n. n == p.id) names p.id (role_of-keyed (b ∷ bs) p.id h)
              (eq_refl p.id))))

-- The user has the role in the project: a project_member row to a party of the kind project, from the
-- user's person or from a party that a walk of containment edges leads to from it.
pub record HasRole (t : Tables) (user : Party) (project role : String) : Type 0 where
  pub row : PartyRelationship
  pub listed : Member row t.relationships
  pub named : row.relationship_name ≡ project_member
  pub of_project : row.to_party_id ≡ project
  pub of_role : row.from_role ≡ role
  pub reached : Near (containment_edges t.relationships) user.id row.from_party_id
  pub target : Party
  pub target_listed : Member target t.parties
  pub target_id : target.id ≡ project
  pub target_kind : target.kind ≡ project_kind

module _ (t : Tables) (v : IsWellFormed t) (user : Party) where
  abbrev reachable : List String
  reachable = user.id ∷ ancestors user.id t

  abbrev fits : PartyRelationship → Bool
  fits r = one_of reachable r.from_party_id && r.relationship_name == project_member

  row-HasRole :
      (project role : String)
      → Member (project, role) (project_rows reachable t)
      → HasRole t user project role
  row-HasRole project role m =
      let (pair, k, e) =
        Member-of_map (λ row. (row.0.to_party_id, row.0.from_role)) _ (project, role) m in
      let (n, o, f) = Member-of_join_on (λ r p. p.id == r.to_party_id) _ _ pair.0 pair.1 k in
      let (row_listed, passed) = Member-of_filter fits t.relationships pair.0 n in
      let (party_listed, kind) =
        Member-of_filter (λ p. p.kind == project_kind) t.parties pair.1 o in
      let to_project : pair.0.to_party_id ≡ project = ap (λ x. x.0) e in
      record {
        row = pair.0;
        listed = row_listed;
        named = (eq_iff pair.0.relationship_name project_member).0 (ground arith);
        of_project = to_project;
        of_role = ap (λ x. x.1) e;
        reached =
            near pair.0.from_party_id
              ((one_of_iff reachable pair.0.from_party_id).0 (ground arith));
        target = pair.1;
        target_listed = party_listed;
        target_id = (eq_iff pair.1.id pair.0.to_party_id).0 f ∙ to_project;
        target_kind = (eq_iff pair.1.kind project_kind).0 kind;
      }
    where
      near : (a : String) → Member a reachable → Near (containment_edges t.relationships) user.id a
      near a (inl e) = inl e
      near a (inr m) = inr ((ancestors_iff t v user.id a).0 m)

  HasRole-row :
      (project role : String)
      → HasRole t user project role
      → Member (project, role) (project_rows reachable t)
  HasRole-row project role h =
      let from_here = (one_of_iff reachable h.row.from_party_id).1 (listed h.reached) in
      let of_kind : (h.row.relationship_name == project_member) ≡ true =
        (eq_iff h.row.relationship_name project_member).1 h.named in
      subst₂ (λ a b. Member {A = String × String} (a, b) (project_rows reachable t)) h.of_project
        h.of_role
        (Member-map (λ row. (row.0.to_party_id, row.0.from_role)) _ (h.row, h.target)
          (Member-join_on (λ r p. p.id == r.to_party_id) _ _ h.row h.target
            (Member-filter fits t.relationships h.row h.listed (ground arith))
            (Member-filter (λ p. p.kind == project_kind) t.parties h.target h.target_listed
              ((eq_iff h.target.kind project_kind).1 h.target_kind))
            ((eq_iff h.target.id h.row.to_party_id).1 (h.target_id ∙ sym h.of_project))))
    where
      listed :
          {a : String} → Near (containment_edges t.relationships) user.id a → Member a reachable
      listed (inl e) = inl e
      listed (inr d) = inr ((ancestors_iff t v user.id _).1 d)

-- The best role of a user in a project.
abbrev pub IsBest : Tables → Party → String → String → Type 0
IsBest t user project role =
    HasRole t user project role
    × ((other : String) → HasRole t user project other → rank_role other ≤ rank_role role)

-- Where no statement fails, the invariant holds and the user has a person, ResolveUserProjects
-- succeeds. Each project that it gives is a party, with a role that the user has there, directly or
-- by a group that contains the person, and that no other such role exceeds in rank; and it gives
-- every project in which the user has a role.
pub resolve_user_projects-IsBest :
    (user_id : String) (t : Tables) (user : Party)
    → IsWellFormed t
    → find? (λ p. is_value p.user_id user_id) t.parties ≡ some user
    → (ms : List UserProjectMembership) × (resolve_user_projects user_id (calm t)
        ≡ done ms (calm t))
      × ((m : UserProjectMembership)
          → Member m ms
          → Member m.project t.parties × IsBest t user m.project.id m.role)
      × ((project role : String)
          → HasRole t user project role
          → (m : UserProjectMembership) × Member m ms × (m.project.id ≡ project))
unfolding resolve_user_projects ancestors
resolve_user_projects-IsBest user_id t user v found =
    let rows = project_rows (user.id ∷ ancestors user.id t) t in
    let best = best_roles rows [] in
    let (ms, ran, roles, fetched) = fetch_projects-IsFetched best t in
    (
      ms,
      bind_run _ _ (context_for_run _ _ (read_person t user_id ∙ ap (λ o. done o (calm t)) found))
          ∙ bind_run _ _ (context_run _ _ (statement_calm _ t))
          ∙ bind_run _ _ (context_run _ _ (statement_calm _ t))
          ∙ ran,
      λ m k.
          let (listed, role) = roles m k in
          let (source, most) = best_roles-IsBestRole rows m.project.id m.role role in
          (
            listed,
            (
              row-HasRole t v user m.project.id m.role source,
              λ other h. most other (HasRole-row t v user m.project.id other h),
            ),
          ),
      λ project role h.
          let (kept, e, bound) =
            best_roles_reach rows [] project role (HasRole-row t v user project role h) in
          (
            membership_of best h.target,
            fetched h.target kept h.target_listed (ap (λ x. role_of x best) h.target_id ∙ e),
            h.target_id,
          ),
    )
