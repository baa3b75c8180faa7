-- ===== src/Auth/Generated/Tests.antt =====
-- A bootstrap with a source of randomness that counts.
use agentlens.Common.{
  ℕ, zero, suc, ◌+◌, ◌%◌, ◌≡◌, refl, ◌&&◌, ◌||◌, none, [], length, leb, eqb, Text, codes, arith,
}
use agentlens.Sql.{calm}
use agentlens.Tables.{Tables}
use agentlens.Auth.Password.{Unicode, validate_password_strength}
use agentlens.Auth.Hashing.{hashed}
use agentlens.Auth.Bootstrap.{
  got, Random, password_length, next_free, random_int, random_char, fill_from, place_all,
  generate_password, bootstrap_admin,
}
use agentlens.Auth.Generated.{IsFair, KnowsAscii, generate_password-validate}
use agentlens.Auth.FirstUser.{IsBootstrap, bootstrap_admin-IsBootstrap}

abbrev go_ascii : Unicode
go_ascii = record {
  is_upper = λ r. leb 65 r && leb r 90;
  is_lower = λ r. leb 97 r && leb r 122;
  is_digit = λ r. leb 48 r && leb r 57;
  is_punct = λ r. (leb 33 r && leb r 47) || eqb r 64;
  is_symbol = λ r. eqb r 94;
}

go_ascii_known : KnowsAscii go_ascii
go_ascii_known = record { upper = refl; lower = refl; digit = refl; special = refl }

-- The state, or what is left of it by the bound.
abbrev counter : Random ℕ
counter = record { int = λ max r. (got (elim max [ zero ↦ 0 | suc m ↦ r % suc m ]), r + 7) }

counter-IsFair : IsFair counter
counter-IsFair zero r h = let never : ⊥ = omega arith in elim never [ ]
counter-IsFair (suc m) r h = (r % suc m, (omega arith, (r + 7, refl)))

counted_password : (generate_password counter 13).0 ≡ got (codes "*8ELSZginu18^UC#JQXe")
unfolding generate_password place_all random_int random_char fill_from next_free
counted_password = refl

generate_password-validate_example :
    (password : Text) × ((s : ℕ) × ((generate_password counter 13 ≡ (got password, s))
        × ((length password ≡ password_length)
            × (validate_password_strength go_ascii password ≡ none))))
generate_password-validate_example =
    generate_password-validate counter counter-IsFair go_ascii 13 go_ascii_known

abbrev no_tables : Tables
no_tables = record {
  users = [];
  roles = [];
  parties = [];
  relationships = [];
  closures = [];
  global_roles = [];
  memberships = [];
}

bootstrap_admin-IsBootstrap_example :
    IsBootstrap counter
      (λ p. hashed "hash")
      "u1"
      13
      no_tables
      (bootstrap_admin counter (λ p. hashed "hash") "u1" 13 (calm no_tables))
bootstrap_admin-IsBootstrap_example =
    bootstrap_admin-IsBootstrap counter (λ p. hashed "hash") "u1" 13 (calm no_tables)
