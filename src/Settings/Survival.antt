-- ===== src/Settings/Survival.antt =====
-- A value that was set is there after a restart (user_settings_load of
-- library/user_settings/user_settings.c).
use irnas_usersettings_lib.Base.{◌≡◌, refl, ◌∙◌, Option, none, some, [], ◌∷◌, arith, Bytes}
use irnas_usersettings_lib.Setting.{UserSetting}
use irnas_usersettings_lib.Platform.{Platform, PlatformLaws, default_sh, value_sh, changed_sh}
use irnas_usersettings_lib.State.{State}
use irnas_usersettings_lib.Settings.Loading.{restored_opt}
use irnas_usersettings_lib.Settings.Restart.{LoadLaws, from_storage, from_store-key}

pub default_keeps_size :
    (o : Option Bytes) (us : UserSetting) → (restored_opt default_sh o us).max_size ≡ us.max_size
default_keeps_size none us = refl
default_keeps_size (some []) us = refl
default_keeps_size (some (b ∷ bs)) us = ground arith

module _ {Subsys Heap : Type 0} {z : Platform Subsys Heap} (laws : PlatformLaws z)
    (load_laws : LoadLaws laws) where
  pub from_storage-key : (sub : Subsys) (us : UserSetting) → (from_storage laws sub us).key ≡ us.key
  from_storage-key sub us =
      from_store-key laws load_laws sub changed_sh _
      ∙ from_store-key laws load_laws sub value_sh _
      ∙ from_store-key laws load_laws sub default_sh us
