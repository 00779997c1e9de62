-- ===== src/Settings/Outcomes.antt =====
-- The outcomes of prv_user_settings_set of library/user_settings/user_settings.c.
use irnas_usersettings_lib.Platform.{Platform}
use irnas_usersettings_lib.State.{State}
