-- ===== src/Database/Permissions.antt =====
-- `class Permissions` of ServerIList/Database.cpp.
use server_ilist.Prelude.{ℕ, Bool, true, false, leb, ◌==◌, if◌then◌else◌}
use server_ilist.Text.{Text, lit, text_eq}

pub record Permission : Type 0 where
  pub permission_string : Text
  pub permission_level : ℕ

-- `Permission::operator==` compares the levels alone.
abbrev pub same_permission : Permission → Permission → Bool
same_permission p q = q.permission_level == p.permission_level

abbrev pub admin : Permission
admin = record { permission_string = lit "admin"; permission_level = 4 }

abbrev pub full_control : Permission
full_control = record { permission_string = lit "fc"; permission_level = 3 }

abbrev pub read_write : Permission
read_write = record { permission_string = lit "rw"; permission_level = 2 }

abbrev pub read : Permission
read = record { permission_string = lit "r"; permission_level = 1 }

abbrev pub non : Permission
non = record { permission_string = lit ""; permission_level = 0 }

-- `isAuthorized` of two permissions
abbrev pub is_authorized : Permission → Permission → Bool
is_authorized user_permission requested_permission =
    leb requested_permission.permission_level user_permission.permission_level

-- `getPermission` of a status text
unfoldable pub permission_of : Text → Permission
permission_of user_permission =
    if text_eq user_permission admin.permission_string
    then admin
    else if text_eq user_permission full_control.permission_string
    then full_control
    else if text_eq user_permission read_write.permission_string
    then read_write
    else if text_eq user_permission read.permission_string
    then read
    else non

-- `isAuthorized` of a status text and a permission
unfoldable pub is_authorized_text : Text → Permission → Bool
unfolding permission_of
is_authorized_text user_permission requested_permission =
    if is_authorized (permission_of user_permission) requested_permission then true else false
