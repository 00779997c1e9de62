-- ===== src/Protocol/Command.antt =====
-- library/protocol/user_settings_protocol_types.h: the types of commands and a decoded command.
use irnas_usersettings_lib.Base.{ℕ, Option, none, some, replicate, Bytes, ◌==◌, if◌then◌else◌}

-- The enumerators, with the values 1 to 9.
pub data CommandType : Type 0 where
  uspc_get uspc_get_full uspc_list uspc_list_full uspc_set : CommandType
  uspc_set_default uspc_restore uspc_list_some uspc_list_some_full : CommandType

abbrev pub command_code : CommandType → ℕ
command_code uspc_get = 1
command_code uspc_get_full = 2
command_code uspc_list = 3
command_code uspc_list_full = 4
command_code uspc_set = 5
command_code uspc_set_default = 6
command_code uspc_restore = 7
command_code uspc_list_some = 8
command_code uspc_list_some_full = 9

-- The case of a `switch` over the type that a byte selects; `none` is `default`.
abbrev pub command_of : ℕ → Option CommandType
command_of t =
    if t == 1
    then some uspc_get
    else if t == 2
    then some uspc_get_full
    else if t == 3
    then some uspc_list
    else if t == 4
    then some uspc_list_full
    else if t == 5
    then some uspc_set
    else if t == 6
    then some uspc_set_default
    else if t == 7
    then some uspc_restore
    else if t == 8
    then some uspc_list_some
    else if t == 9
    then some uspc_list_some_full
    else none

-- struct user_settings_protocol_command; the type is the byte that was received.
pub record Command : Type 0 where
  pub command_type : ℕ
  pub id : ℕ
  pub value_len : ℕ
  pub value : Bytes

-- sizeof(value)
abbrev pub value_size : ℕ
value_size = 256

abbrev pub zero_command : Command
zero_command = record { command_type = 0; id = 0; value_len = 0; value = replicate value_size 0 }
