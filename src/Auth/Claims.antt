-- ===== src/Auth/Claims.antt =====
-- internal/infra/auth/oidc.py, `_principal_from_claims` and what it calls
-- A mapping that was parsed has each key once; `find_field` reads the first.
pub mod Paths
use washing.Prelude.{
  ℕ, Bool, true, false, ◌||◌, Option, none, some, List, [], ◌∷◌, ◌++◌, Text, codes, eq_text,
  elem_text, if◌then◌else◌,
}
use washing.Security.{
  Json, null, bool, int, float, str, moment, other, dict, list, Fields, end, field, Items, nil,
  cons,
}
use washing.Queue.Context.{to_list, get_field}
use washing.Auth.Settings.{OidcSettings, split_on}

-- `value[head]` where `head in value`
unfoldable pub find_field : Text → Fields → Option Json
unfolding eq_text
find_field k end = none
find_field k (field j v fs) = if eq_text j k then some v else find_field k fs

unfoldable pub values_of : Fields → List Json
values_of end = []
values_of (field k v fs) = v ∷ values_of fs

-- The values that a wildcard goes through: none but of a mapping or a list.
unfoldable pub children : Json → List Json
unfolding values_of to_list
children null = []
children (bool b) = []
children (int n) = []
children (float x) = []
children (str s) = []
children (moment s) = []
children (other s) = []
children (dict fs) = values_of fs
children (list xs) = to_list xs

unfoldable pub find_key : Text → Json → Option Json
unfolding find_field
find_key k null = none
find_key k (bool b) = none
find_key k (int n) = none
find_key k (float x) = none
find_key k (str s) = none
find_key k (moment s) = none
find_key k (other s) = none
find_key k (dict fs) = find_field k fs
find_key k (list xs) = none

module _ {A B : Type 0} where
  -- `values.extend(f(child))` for each child
  unfoldable pub concat_map : (A → List B) → List A → List B
  concat_map f [] = []
  concat_map f (x ∷ xs) = f x ++ concat_map f xs

  unfoldable pub values_at : (A → List B) → Option A → List B
  values_at f none = []
  values_at f (some x) = f x

abbrev pub wildcard : Text
wildcard = codes "*"

-- `_extract_path_values`
unfoldable pub extract_path_values : List Text → Json → List Json
unfolding concat_map values_at children find_key eq_text
extract_path_values [] v = v ∷ []
extract_path_values (head ∷ tail) v =
    if eq_text head wildcard
    then concat_map (extract_path_values tail) (children v)
    else values_at (extract_path_values tail) (find_key head v)

-- `isinstance(item, str) and item`
abbrev pub role_of : Json → List Text
role_of (str (c ∷ s)) = (c ∷ s) ∷ []
role_of (str []) = []
role_of null = []
role_of (bool b) = []
role_of (int n) = []
role_of (float x) = []
role_of (moment s) = []
role_of (other s) = []
role_of (dict fs) = []
role_of (list xs) = []

unfoldable pub roles_of_value : Json → List Text
unfolding concat_map to_list
roles_of_value (list xs) = concat_map role_of (to_list xs)
roles_of_value (str s) = role_of (str s)
roles_of_value v = []

-- `_extract_roles`; a set is a list that is only searched.
unfoldable pub extract_roles : Json → List Text → List Text
unfolding concat_map roles_of_value extract_path_values split_on
extract_roles claims paths =
    concat_map (λ path. concat_map roles_of_value (extract_path_values (split_on 46 path) claims))
      paths

pub record AuthenticatedPrincipal : Type 0 where
  pub subject : Text
  pub username : Option Text
  pub roles : List Text

abbrev pub text_of : Json → Option Text
text_of (str s) = some s
text_of null = none
text_of (bool b) = none
text_of (int n) = none
text_of (float x) = none
text_of (moment s) = none
text_of (other s) = none
text_of (dict fs) = none
text_of (list xs) = none

abbrev pub first_text : Option Text → Option Text → Option Text
first_text none second = second
first_text (some s) second = some s

unfoldable pub can_read : AuthenticatedPrincipal → OidcSettings → Bool
unfolding elem_text
can_read p s = elem_text s.oidc_user_role_name p.roles || elem_text s.oidc_admin_role_name p.roles

unfoldable pub can_write : AuthenticatedPrincipal → OidcSettings → Bool
unfolding elem_text
can_write p s = elem_text s.oidc_admin_role_name p.roles

abbrev pub principal_of : Option Text → Option Text → List Text → Option AuthenticatedPrincipal
principal_of none username roles = none
principal_of (some []) username roles = none
principal_of (some (c ∷ s)) username roles =
    some (record { subject = c ∷ s; username = username; roles = roles })

-- `_principal_from_claims`: `none` where it raises 401, "invalid bearer token"
unfoldable pub principal_from_claims : Fields → List Text → Option AuthenticatedPrincipal
unfolding get_field extract_roles
principal_from_claims claims paths =
    principal_of (text_of (get_field (codes "sub") claims))
      (first_text (text_of (get_field (codes "preferred_username") claims))
        (text_of (get_field (codes "email") claims)))
      (extract_roles (dict claims) paths)
