-- ===== src/Address/Gcp/Users.antt =====
-- `createUserMap` of internal/address/gcp.go.
use kubeip.Base.{
  String, Bool, true, false, Option, none, some, List, [], ◌∷◌, ◌≡◌, refl, arith, any, ◌==◌,
  if◌then◌else◌,
}
use kubeip.Base.Dict
use kubeip.Base.Dict.{Dict}
use kubeip.Cloud.Gcp.{Address}
use kubeip.Address.Gcp.Parts.{add_users, user_map_from, create_user_map}

abbrev pub or_else : {A : Type 0} → Option A → Option A → Option A
or_else none other = other
or_else (some x) other = some x

or_else_assoc : {A : Type 0} (x y z : Option A) → or_else (or_else x y) z ≡ or_else x (or_else y z)
or_else_assoc none y z = refl
or_else_assoc (some a) y z = refl

-- The address, when the user is among its users.
abbrev pub used_by : String → Address → Option String
used_by user a = if any (λ u. u == user) a.users then some a.address else none

-- The last address of a list that has the user.
abbrev pub last_used_by : String → List Address → Option String
last_used_by user [] = none
last_used_by user (a ∷ rest) = or_else (last_used_by user rest) (used_by user a)

add_users_lem :
    (user : String) (us : List String) (address : String) (users : Dict String)
    → Dict.lookup user (add_users us address users)
      ≡ (if any (λ u. u == user) us then some address else Dict.lookup user users)
unfolding add_users
add_users_lem user [] address users = refl
add_users_lem user (u ∷ us) address users = ground (
  arith,
  add_users_lem user us address (Dict.insert u address users),
  Dict.lookup-insert user u address users,
)

if-or_else :
    {A : Type 0} (b : Bool) (x : A) (o : Option A)
    → (if b then some x else o) ≡ or_else (if b then some x else none) o
if-or_else true x o = refl
if-or_else false x o = refl

user_map_from_lem :
    (user : String) (assigned : List Address) (users : Dict String)
    → Dict.lookup user (user_map_from assigned users)
      ≡ or_else (last_used_by user assigned) (Dict.lookup user users)
unfolding user_map_from
user_map_from_lem user [] users = refl
user_map_from_lem user (a ∷ rest) users =
    rw
      (
        user_map_from_lem user rest (add_users a.users a.address users),
        add_users_lem user a.users a.address users,
        if-or_else (any (λ u. u == user) a.users) a.address (Dict.lookup user users),
        or_else_assoc (last_used_by user rest) (used_by user a) (Dict.lookup user users),
      )
      refl

or_else-none : {A : Type 0} (x : Option A) → or_else x none ≡ x
or_else-none none = refl
or_else-none (some a) = refl

-- The map of users gives for each user the last of the addresses that name it, and nothing for a
-- user that none of them names.
pub create_user_map_lem :
    (user : String) (assigned : List Address)
    → Dict.lookup user (create_user_map assigned) ≡ last_used_by user assigned
unfolding create_user_map Dict.lookup
create_user_map_lem user assigned =
    rw (user_map_from_lem user assigned []) (or_else-none (last_used_by user assigned))
