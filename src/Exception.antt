-- ===== src/Exception.antt =====
-- The exception classes of ServerIList/Exception.h, and how a call can end.
use server_ilist.Prelude.{ℕ}
use server_ilist.Text.{Text, lit}

-- One constructor for each class; those that are given a path carry it.
pub data Exception : Type 0 where
  system : Exception
  syntax_error : Exception
  sql_injection : Text → Exception
  invalid_code_number : Exception
  wrong_arguments_number : Exception
  invalid_username_or_password : Exception
  wrong_username_or_password : Exception
  user_not_avilable : Exception
  wrong_username : Exception
  failed_create_group : Exception
  user_is_offline : Exception
  no_such_user_in_the_group : Text → Exception
  permission_is_denied : Text → Exception
  full_group : Text → Exception

-- `getErrorCode`
unfoldable pub get_error_code : Exception → ℕ
get_error_code system = 0
get_error_code syntax_error = 1
get_error_code (sql_injection p) = 2
get_error_code invalid_code_number = 3
get_error_code wrong_arguments_number = 4
get_error_code invalid_username_or_password = 5
get_error_code wrong_username_or_password = 6
get_error_code user_not_avilable = 7
get_error_code wrong_username = 8
get_error_code failed_create_group = 9
get_error_code user_is_offline = 10
get_error_code (no_such_user_in_the_group p) = 11
get_error_code (permission_is_denied p) = 12
get_error_code (full_group p) = 13

unfoldable pub what : Exception → Text
what system = lit "SystemException"
what syntax_error = lit "SyntaxErrorException"
what (sql_injection p) = lit "SqlInjectionException"
what invalid_code_number = lit "InvalidCodeNumberException"
what wrong_arguments_number = lit "WrongArgumentsNumberException"
what invalid_username_or_password = lit "InvalidUsernameOrPasswordException"
what wrong_username_or_password = lit "WrongUernameOrPasswordException"
what user_not_avilable = lit "UserNotAvilableException"
what wrong_username = lit "WrongUsernameException"
what failed_create_group = lit "FailedCreateGroupException"
what user_is_offline = lit "UserIsOfflineException"
what (no_such_user_in_the_group p) = lit "NoSuchUserInTheGroupException"
what (permission_is_denied p) = lit "PermissionIsDeniedException"
what (full_group p) = lit "FullGroupException"

-- What stops a call: a thrown `Exception`; a standard exception (`stoi`); a subscript past the end
-- of a vector, which C++ leaves undefined; a `lock` of a mutex that is never released.
pub data Failure : Type 0 where
  thrown : Exception → Failure
  standard : Failure
  out_of_bounds : Failure
  deadlock : Failure

pub data Outcome (A : Type 0) : Type 0 where
  ok : A → Outcome A
  fails : Failure → Outcome A
