-- ===== src/Samples.antt =====
-- The programs in samples/: how an application starts the library and uses it.
pub mod Settings
pub mod Start
pub mod Basic
pub mod Validation
pub mod Bluetooth
pub mod Callbacks
pub mod Encoding
use irnas_usersettings_lib.Base.{ℕ, List, [], ◌∷◌, M, ◌>>=◌, ◌>>◌, pure}
use irnas_usersettings_lib.Setting.{
  type_bool, type_u8, type_u16, type_u32, type_u64, type_i8, type_i16, type_i32, type_i64, type_str,
  type_bytes,
}
use irnas_usersettings_lib.Platform.{Platform, codes}
use irnas_usersettings_lib.State.{State}
use irnas_usersettings_lib.Settings.Init.{init, add, add_sized, load}

module _ {Subsys Heap : Type 0} (z : Platform Subsys Heap) where
  -- The settings that every sample but one adds, one of each type.
  unfoldable pub add_t1_t11 : M (State Subsys Heap) (Unit {0})
  add_t1_t11 = do
    add z 1 (codes "t1") type_bool
    add z 2 (codes "t2") type_u8
    add z 3 (codes "t3") type_u16
    add z 4 (codes "t4") type_u32
    add z 5 (codes "t5") type_u64
    add z 6 (codes "t6") type_i8
    add z 7 (codes "t7") type_i16
    add z 8 (codes "t8") type_i32
    add z 9 (codes "t9") type_i64
    add_sized z 10 (codes "t10") type_str 10
    add_sized z 11 (codes "t11") type_bytes 8
    pure tt

  -- samples/basic/src/main.c
  unfoldable pub basic_main : M (State Subsys Heap) ℕ
  unfolding add_t1_t11
  basic_main = do err ← init z; add_t1_t11; load z; pure 0
