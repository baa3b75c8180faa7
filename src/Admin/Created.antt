-- ===== src/Admin/Created.antt =====
-- Creation of a user over the API, with the person party that belongs to the user.
use agentlens.Common.{String, ◌≡◌, ◌⊎◌, true, none, some, List, [], ◌∷◌, ◌++◌}
use agentlens.Http.{error_response, sent}
use agentlens.Sql.{Error, World, done, raised}
use agentlens.Sql.Keeps.{Keeps}
use agentlens.Tables.{Role, User, Tables}
use agentlens.Party.Persons.{create_person_for_user}
use agentlens.Auth.Users.{create_user, get_by_username, get_role_by_id, delete_user}
use agentlens.Auth.Hashing.{Hashed, hashed}
use agentlens.Admin.Roles.{Response}
use agentlens.Admin.Users.{CreateUserRequest, new_user}
use agentlens.Admin.UserSteps.{has_person}

-- How a user can be left without being answered: with the username free and the role found, the user
-- was stored, its person was not, and the deletion that was to take it back failed.
pub record IsLeftOver (fresh fresh_party : String) (hash : String → Hashed)
    (req : CreateUserRequest) (w v : World Tables) : Type 0 where
  pub unnamed : World Tables
  pub named_free : get_by_username req.username w ≡ done none unnamed
  pub with_role : World Tables
  pub role : Role
  pub role_found : get_role_by_id req.role_id unnamed ≡ done (some role) with_role
  pub digest : String
  pub hashing : hash req.password ≡ hashed digest
  pub stored : World Tables
  pub user_stored : create_user (new_user fresh req digest) with_role ≡ done tt stored
  pub unsynced : World Tables
  pub sync_error : Error
  pub person_refused :
      create_person_for_user fresh_party (new_user fresh req digest) stored
      ≡ raised sync_error unsynced
  pub delete_error : Error
  pub deletion_refused : delete_user fresh unsynced ≡ raised delete_error v
  pub left : v.tables.users ≡ w.tables.users ++ new_user fresh req digest ∷ []

module _ (fresh fresh_party : String) (hash : String → Hashed) (req : CreateUserRequest)
    (before : World Tables) where
  -- The one user that the request adds.
  abbrev AddedTo : List User → Type 0
  AddedTo vs =
      (h : String) × ((hash req.password ≡ hashed h)
        × (vs ≡ before.tables.users ++ new_user fresh req h ∷ []))

  -- A request that is answered with a user has added the user and its person; one that is answered
  -- with an error has left the users as they were, or the deletion that takes the user back failed.
  abbrev pub Registers : Response User → Type 0
  Registers (sent status u, v) = AddedTo v.tables.users × (has_person fresh v.tables ≡ true)
  Registers (error_response status text, v) =
      (v.tables.users ≡ before.tables.users) ⊎ IsLeftOver fresh fresh_party hash req before v
