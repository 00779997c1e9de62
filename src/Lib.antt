-- ===== src/Lib.antt =====
-- A verification library for the user settings library: named, typed settings that are kept in
-- memory, persisted through Zephyr's settings subsystem, and served over a binary protocol.
--
-- The parts of the program and the files that model them (paths from the repository's root):
--
-- - Setting: struct user_setting (library/user_settings/user_settings_list.h) and the types of
--   library/include/user_settings_types.h. A value or default is a block of max_size bytes of which
--   a length is in use, as in C.
-- - Platform: what is called of Zephyr, as a record of functions, with its documented behaviour as
--   the record PlatformLaws: settings_runtime_set calls the registered callback with the bytes
--   given, a saved pair is what is stored under its name, saving no bytes deletes it.
-- - State: the static variables of user_settings.c and user_settings_list.c. A pointer to a setting
--   is its position in the list; following one that is not there is a fault.
-- - SettingsList: library/user_settings/user_settings_list.c. get_by_key, get_by_id,
--   prv_user_settings_list_add, iter_start and iter_next are the functions of these names; `iterate`
--   and `for_each` are the loops `while ((s = user_settings_list_iter_next(&ctx)) != NULL)`.
--   SettingsList.Free is user_settings_list_free, with a record of the blocks that were given back to
--   the heap: reading or freeing one of them is a fault. Walk is the same loop where the settings are only
--   read and the body changes a state of its own.
-- - Settings: library/user_settings/user_settings.c. Handlers has the three callbacks of the
--   settings subsystem, Init the functions init, add and load, Change the functions that set values,
--   defaults and flags, Restore the defaults and the clearing of flags, Query the getters, Iter the
--   iterators. A function user_settings_f is called f here, a static function keeps its name.
--   Settings.Loading, Restart and Survival are about user_settings_load and what is stored: the
--   record LoadLaws of Restart says that settings_load_subtree delivers each stored pair of a subtree once.
--   Settings.Abstract is the view that a client has of the settings, a table of entries by key, and
--   Settings.Abstract.Refinement compares the calls with requests to that table;
--   Settings.Abstract.Stored and Reload are about what is stored of it, and the table after a restart.
-- - Protocol.Command: library/protocol/user_settings_protocol_types.h. Protocol.Binary.Decode and
--   Encode: library/protocol/binary/user_settings_protocol_binary.c. Protocol.Executor:
--   library/protocol/executor/user_settings_protocol_executor.c, where struct usp_executor is the
--   record UspExecutor and the transport is its field write_response; the int that it returns is a
--   Result, `ok n` for n of zero or more and an error for less, as the code tests it.
-- - BtUss: library/bt_service/bt_uss.c, with the Bluetooth stack as the record BtStack.
-- - Memory: numbers in memory, the conversions between integer types, and C strings. Hex: bytes as
--   hexadecimal text, as JSON and the shell read and write it.
-- - Json: library/user_settings/user_settings_json.c. Json.Values has the values that the code
--   exports, numbers converted to int, and Json.Plain the values without conversions. A cJSON object is the list of its items, what
--   is called of cJSON is the record CJson, and HasMemory is its behaviour while it has memory.
-- - Shell: library/user_settings/user_settings_shell.c. What a command prints is added to the lines
--   of a Session; strtol and strtoll are the record NumberParser.
-- - Startup: what an application does before its calls, as the `main` of the programs in samples/:
--   init, an add for each setting it declares, load. Startup.Init has the record StartLaws, what the
--   documentation says of settings_subsys_init and settings_register. Startup.Deliveries is about a
--   load from any storage, where reads and subtrees may fail. Startup.Lifetime is about a
--   device that is powered on again and again; a power-on keeps the stored pairs and nothing else.
-- - ValidationHelpers: library/include/user_settings_validation_helpers.h. What stands in memory
--   after the data is the parameter `after`.
-- - Samples: the programs in samples/. basic_main is the main of samples/basic/src/main.c;
--   Samples.Validation, Callbacks, Bluetooth and Encoding are the main.c of samples/validation,
--   samples/callbacks, samples/bluetooth_service and samples/binary_encoding. Samples.Start has the
--   steps that they share.
-- - Base: the native numbers, bytes, lists, results, and the monad M of code that reads and changes
--   a state and may fault. A fault is a failed assertion, a dangling pointer, an access outside a
--   buffer, or a loop that ran out of rounds.
-- - TestStorage and Tests: a concrete platform and library, and the theorems applied to them.
--
-- Assumptions and bounds. Assertions are enabled. size_t has 32 bits and numbers are little endian,
-- as on the microcontrollers the library is built for. Calls are not concurrent, and callbacks of
-- the application change no settings; that they are called is recorded, in order. A validation
-- callback is a function of the ID, the key and the bytes. Loops over the list get one round for
-- each setting and one for the end, which is enough: the theorems on them say that they return.
-- The fault no_fuel is among those that call_all-IsSafe excludes.
--
-- The items of a JSON object have names and strings without a zero byte. Characters are unsigned, as
-- on ARM, and long has 32 bits.
--
-- A callback that only logs is a number. The callbacks of samples/callbacks that read the library
-- are modelled as functions on its state, and compared with what is registered for them.
--
-- Not modelled: the table of commands that is handed to the shell of Zephyr; how printf writes a
-- number; log messages; the tests.
pub mod Base
pub mod Memory
pub mod Hex
pub mod Setting
pub mod Platform
pub mod State
pub mod SettingsList
pub mod Settings
pub mod Walk
pub mod Json
pub mod Shell
pub mod Protocol
pub mod BtUss
pub mod ValidationHelpers
pub mod Startup
pub mod Samples
pub mod TestStorage
pub mod Tests
