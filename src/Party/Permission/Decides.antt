-- ===== src/Party/Permission/Decides.antt =====
-- The middleware against the order of resolution that its comment gives, stated over walks of
-- containment edges.
use agentlens.Common.{
  String, ◌≡◌, ◌↔◌, refl, sym, subst, subst₂, ap, ◌∙◌, ◌⊎◌, inl, inr, Bool, true, false, ◌||◌,
  Option, none, some, List, ◌∷◌, filter, find?, Member, Member-map, Member-of_map, Member-filter,
  Member-of_filter, Member-join_on, Member-of_join_on, any-true, any_of_Member, Bool-cases,
  Option-cases, ◌==◌, eq_iff, eq_refl, arith,
}
use agentlens.Sql.{World, done, calm, ◌>>=◌}
use agentlens.Sql.Laws.{bind_run}
use agentlens.Tables.{
  Role, Party, PartyRelationship, GlobalPartyRole, Tables, one_of, project_member,
}
use agentlens.Party.Graph.{Chain, Near}
use agentlens.Party.Store.{closure_row, is_value, get_party_by_user_id}
use agentlens.Party.Projects.{is_project_role}
use agentlens.Party.Closure.{containment_edges}
use agentlens.Party.Invariant.{IsWellFormed}
use agentlens.Party.Permission.Reads.{
  person, ancestors, group_roles, project_roles, read_person, by_group, by_project, resolve_run,
}
use agentlens.Party.Permission.{
  has_permission, project_role_has_permission, next, resolve_for, decision,
  require_project_permission,
}

-- A group that contains the user has been given a global role with the permission.
pub record ByGroup (permission : String) (t : Tables) (user : Party) : Type 0 where
  pub role : Role
  pub grant : GlobalPartyRole
  pub role_listed : Member role t.roles
  pub grant_listed : Member grant t.global_roles
  pub granted : grant.role_id ≡ role.id
  pub contained : Chain (containment_edges t.relationships) user.id grant.party_id
  pub permits : Member permission role.permissions

-- The user, or a group that contains the user, is a member of the project in a role that permits.
pub record ByProject (project_id permission : String) (t : Tables) (user : Party) : Type 0 where
  pub row : PartyRelationship
  pub listed : Member row t.relationships
  pub kind : row.relationship_name ≡ project_member
  pub project : row.to_party_id ≡ project_id
  pub contained : Near (containment_edges t.relationships) user.id row.from_party_id
  pub permits : project_role_has_permission row.from_role permission ≡ true

has_permission_iff :
    (perms : List String) (p : String) → (has_permission perms p ≡ true) ↔ Member p perms
unfolding has_permission
has_permission_iff perms p = (
  λ h.
      let (q, m, e) = any-true (λ x. x == p) perms h in
      subst (λ z. Member z perms) ((eq_iff q p).0 e) m,
  λ m. any_of_Member (λ x. x == p) perms p m (eq_refl p),
)

pub one_of_iff : (names : List String) (n : String) → (one_of names n ≡ true) ↔ Member n names
one_of_iff names n = (
  λ h.
      let (q, m, e) = any-true (λ x. x == n) names h in
      subst (λ z. Member z names) ((eq_iff q n).0 e) m,
  λ m. any_of_Member (λ x. x == n) names n m (eq_refl n),
)

is_project_role_iff :
    (ids : List String) (project : String) (r : PartyRelationship)
    → (is_project_role ids project r ≡ true) ↔ (
        (r.relationship_name ≡ project_member)
        × (r.to_party_id ≡ project)
        × Member r.from_party_id ids)
is_project_role_iff ids project r = (
  λ h. (
    ground (arith, eq_iff r.relationship_name project_member),
    ground (arith, eq_iff r.to_party_id project),
    (one_of_iff ids r.from_party_id).0 (ground arith),
  ),
  λ (a, b, m).
      let c = (one_of_iff ids r.from_party_id).1 m in
      ground (arith, eq_iff r.relationship_name project_member, eq_iff r.to_party_id project),
)

module _ (t : Tables) (v : IsWellFormed t) where
  pub ancestors_iff :
      (id a : String) → Member a (ancestors id t) ↔ Chain (containment_edges t.relationships) id a
  unfolding ancestors
  ancestors_iff id a = (to, from)
    where
      to : Member a (ancestors id t) → Chain (containment_edges t.relationships) id a
      to m =
          let (c, k, e) =
            Member-of_map (λ c. c.ancestor_party_id)
              (filter (λ c. c.member_party_id == id) t.closures) a m in
          let (n, p) = Member-of_filter (λ c. c.member_party_id == id) t.closures c k in
          subst₂ (Chain (containment_edges t.relationships)) ((eq_iff c.member_party_id id).0 p) e
            ((v.accurate c.member_party_id c.ancestor_party_id).0 n)

      from : Chain (containment_edges t.relationships) id a → Member a (ancestors id t)
      from d =
          Member-map (λ c. c.ancestor_party_id) _ (closure_row (id, a))
            (Member-filter (λ c. c.member_party_id == id) t.closures _ ((v.accurate id a).1 d)
              (eq_refl id))

  by_group_iff :
      (project_id permission : String) (user : Party)
      → (by_group project_id permission t user ≡ true) ↔ ByGroup permission t user
  unfolding by_group group_roles
  by_group_iff project_id permission user = (to, from)
    where
      to : by_group project_id permission t user ≡ true → ByGroup permission t user
      to h =
          let (role, m, p) =
            any-true (λ role. has_permission role.permissions permission)
              (group_roles (ancestors user.id t) t) h in
          let (row, k, e) = Member-of_map (λ row. row.0) _ role m in
          let (n, o, f) =
            Member-of_join_on (λ role g. g.role_id == role.id) t.roles _ row.0 row.1 k in
          let (g, q) =
            Member-of_filter (λ g. one_of (ancestors user.id t) g.party_id) t.global_roles row.1
              o in
          record {
            role = row.0;
            grant = row.1;
            role_listed = n;
            grant_listed = g;
            granted = (eq_iff _ _).0 f;
            contained = (ancestors_iff user.id row.1.party_id).0 ((one_of_iff _ _).0 q);
            permits =
                (has_permission_iff row.0.permissions permission).0
                  (subst (λ r. has_permission r.permissions permission ≡ true) (sym e) p);
          }

      from : ByGroup permission t user → by_group project_id permission t user ≡ true
      from b =
          any_of_Member (λ role. has_permission role.permissions permission)
            (group_roles (ancestors user.id t) t) b.role
            (Member-map (λ row. row.0) _ (b.role, b.grant)
              (Member-join_on (λ role g. g.role_id == role.id) t.roles _ b.role b.grant
                b.role_listed
                (Member-filter (λ g. one_of (ancestors user.id t) g.party_id) t.global_roles b.grant
                  b.grant_listed
                  ((one_of_iff _ _).1 ((ancestors_iff user.id b.grant.party_id).1 b.contained)))
                ((eq_iff _ _).1 b.granted)))
            ((has_permission_iff b.role.permissions permission).1 b.permits)

  by_project_iff :
      (project_id permission : String) (user : Party)
      → (by_project project_id permission t user ≡ true) ↔ ByProject project_id permission t user
  unfolding by_project project_roles
  by_project_iff project_id permission user = (to, from)
    where
      reachable : List String
      reachable = user.id ∷ ancestors user.id t

      near : (a : String) → Member a reachable → Near (containment_edges t.relationships) user.id a
      near a (inl e) = inl e
      near a (inr m) = inr ((ancestors_iff user.id a).0 m)

      listed :
          (a : String) → Near (containment_edges t.relationships) user.id a → Member a reachable
      listed a (inl e) = inl e
      listed a (inr d) = inr ((ancestors_iff user.id a).1 d)

      to : by_project project_id permission t user ≡ true → ByProject project_id permission t user
      to h =
          let (role, m, p) =
            any-true (λ role. project_role_has_permission role permission)
              (project_roles reachable project_id t) h in
          let (row, k, e) = Member-of_map (λ r. r.from_role) _ role m in
          let (n, q) =
            Member-of_filter (is_project_role reachable project_id) t.relationships row k in
          let (a, b, c) = (is_project_role_iff reachable project_id row).0 q in
          record {
            row = row;
            listed = n;
            kind = a;
            project = b;
            contained = near row.from_party_id c;
            permits = subst (λ r. project_role_has_permission r permission ≡ true) (sym e) p;
          }

      from : ByProject project_id permission t user → by_project project_id permission t user ≡ true
      from b =
          any_of_Member (λ role. project_role_has_permission role permission)
            (project_roles reachable project_id t) b.row.from_role
            (Member-map (λ r. r.from_role) _ b.row
              (Member-filter (is_project_role reachable project_id) t.relationships b.row b.listed (
                (is_project_role_iff reachable project_id b.row).1
                  (b.kind, b.project, listed _ b.contained))))
            b.permits

either_iff :
    {A B : Type 0} {a b : Bool} → (a ≡ true) ↔ A → (b ≡ true) ↔ B → (a || b ≡ true) ↔ (A ⊎ B)
either_iff {A} {B} {a} {b} f g = (λ h. to (Bool-cases a) h, from)
  where
    to : (a ≡ true) ⊎ (a ≡ false) → a || b ≡ true → A ⊎ B
    to (inl p) h = inl (f.0 p)
    to (inr n) h = inr (g.0 (ground arith))

    from : A ⊎ B → a || b ≡ true
    from (inl x) = let p = f.1 x in ground arith
    from (inr y) = let q = g.1 y in ground arith

some_inj : {A : Type 0} {x y : A} → some x ≡ some y → x ≡ y
some_inj e = cc

abbrev Allows : String → String → String → Tables → Type 0
Allows user_id project_id permission t =
    (user : Party) × (find? (λ p. is_value p.user_id user_id) t.parties ≡ some user)
    × (ByGroup permission t user ⊎ ByProject project_id permission t user)

module _ (project_id permission : String) where
  decision-next :
      (b : Bool) (w : World Tables)
      → (decision none project_id permission (done b w) ≡ next) ↔ (b ≡ true)
  decision-next true w = ground arith
  decision-next false w = ground arith

  -- Steps 2 and 3 of the resolution, once the person has been read.
  answer_of :
      (user_id : String) (t : Tables) {o : Option Party}
      → person user_id t ≡ o
      → decision none project_id permission
          ((get_party_by_user_id user_id >>= resolve_for none project_id permission) (calm t))
        ≡ decision none project_id permission (resolve_for none project_id permission o (calm t))
  answer_of user_id t e =
      ap (decision none project_id permission)
        (bind_run _ _ (read_person t user_id ∙ ap (λ o. done o (calm t)) e))

  resolve_iff :
      (user_id : String) (t : Tables)
      → IsWellFormed t
      → (decision none project_id permission
            ((get_party_by_user_id user_id >>= resolve_for none project_id permission) (calm t))
          ≡ next)
        ↔ Allows user_id project_id permission t
  resolve_iff user_id t v = elim (Option-cases (person user_id t)) [
    | inl missing ↦ (
      λ h. let clash = sym (answer_of user_id t missing) ∙ h in cc,
      λ a. let clash = sym (a.1) ∙ missing in cc,
    )
    | inr (user, found) ↦
        let answer =
          answer_of user_id t found
          ∙ ap (decision none project_id permission) (resolve_run project_id permission t user) in
        let (to, from) =
          either_iff (by_group_iff t v project_id permission user)
            (by_project_iff t v project_id permission user) in
        let goes_on = decision-next _ (calm t) in
        (
          λ h. (user, found, to (goes_on.0 (sym answer ∙ h))),
          λ (other, listed, allowed).
              let same = some_inj (sym listed ∙ found) in
              answer
              ∙ goes_on.1 (
                  from (
                    subst (λ x. ByGroup permission t x ⊎ ByProject project_id permission t x) same
                      allowed)),
        )
  ]

only_later :
    (perms : List String) (permission : String) {B : Type 0}
    → has_permission perms permission ≡ false
    → Member permission perms ⊎ B
    → B
only_later perms permission e (inl m) =
    let clash = sym e ∙ (has_permission_iff perms permission).1 m in cc
only_later perms permission e (inr b) = b

-- Where no statement fails and the invariant of the party graph holds, the request goes on exactly
-- if the token has the permission, or the user has a person party and a group that contains it has
-- a global role with the permission, or the person or such a group is a member of the project in a
-- role that grants the permission.
pub require_project_permission_iff :
    (perms : List String) (user_id project_id permission : String) (t : Tables)
    → IsWellFormed t
    → (require_project_permission none project_id permission perms user_id (calm t) ≡ next) ↔ (
        Member permission perms
        ⊎ ((user : Party) × (find? (λ p. is_value p.user_id user_id) t.parties ≡ some user)
            × (ByGroup permission t user ⊎ ByProject project_id permission t user)))
unfolding require_project_permission
require_project_permission_iff perms user_id project_id permission t v =
    elim (Bool-cases (has_permission perms permission)) [
      | inl e ↦ rw e (λ _. inl ((has_permission_iff perms permission).0 e), λ _. refl)
      | inr e ↦
          let (to, from) = resolve_iff project_id permission user_id t v in
          rw e (λ h. inr (to h), λ a. from (only_later perms permission e a))
    ]
