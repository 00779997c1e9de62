-- ===== src/Samples/Settings.antt =====
-- The settings that the programs in samples/ declare.
use irnas_usersettings_lib.Base.{
  ℕ, ◌+◌, Bytes, ◌≤◌, ◌≡◌, refl, arith, List, [], ◌∷◌, map, length, All, Distinct,
}
use irnas_usersettings_lib.Setting.{
  UserSetting, IsSound, type_bool, type_u8, type_u16, type_u32, type_u64, type_i8, type_i16,
  type_i32, type_i64, type_str, type_bytes,
}
use irnas_usersettings_lib.Platform.{
  Platform, codes, Handler, default_sh, value_sh, changed_sh, full_name,
}
use irnas_usersettings_lib.SettingsList.Lookup.{IsWellFormed, ids, keys}
use irnas_usersettings_lib.Settings.Saving.{NameFits}
use irnas_usersettings_lib.Startup.{Declaration, plain, sized, IsProper, declared, declare_all}
use irnas_usersettings_lib.Samples.{add_t1_t11}

abbrev pub t1_t11 : List Declaration
t1_t11 =
    plain 1 (codes "t1") type_bool
    ∷ plain 2 (codes "t2") type_u8
    ∷ plain 3 (codes "t3") type_u16
    ∷ plain 4 (codes "t4") type_u32
    ∷ plain 5 (codes "t5") type_u64
    ∷ plain 6 (codes "t6") type_i8
    ∷ plain 7 (codes "t7") type_i16
    ∷ plain 8 (codes "t8") type_i32
    ∷ plain 9 (codes "t9") type_i64
    ∷ sized 10 (codes "t10") type_str 10
    ∷ sized 11 (codes "t11") type_bytes 8
    ∷ []

pub add_t1_t11-declare_all :
    {Subsys Heap : Type 0} (z : Platform Subsys Heap) → add_t1_t11 z ≡ declare_all z t1_t11
unfolding add_t1_t11 declare_all
add_t1_t11-declare_all z = refl

pub t1_t11-IsProper : All IsProper t1_t11
t1_t11-IsProper = ground arith

t1_t11-ids : Distinct (ids (map declared t1_t11))
t1_t11-ids = ground arith

t1_t11-keys : Distinct (keys (map declared t1_t11))
t1_t11-keys = ground arith

t1_t11-IsSound : All IsSound (map declared t1_t11)
t1_t11-IsSound = ground arith

pub t1_t11-IsWellFormed : IsWellFormed (map declared t1_t11)
t1_t11-IsWellFormed = record {
  distinct_ids = t1_t11-ids;
  distinct_keys = t1_t11-keys;
  sound = t1_t11-IsSound;
}

-- The prefix "user_changed/" has 13 characters.
full_name-length :
    (h : Handler) (key : Bytes) (limit : ℕ)
    → 13 + length key ≤ limit
    → length (full_name h key) ≤ limit
full_name-length default_sh key limit h = omega (arith, h)
full_name-length value_sh key limit h = omega (arith, h)
full_name-length changed_sh key limit h = omega (arith, h)

short-NameFits :
    (n limit : ℕ) (l : List UserSetting)
    → 13 + n ≤ limit
    → All (λ us. length us.key ≤ n) l
    → All (NameFits limit) l
short-NameFits n limit [] h keys = tt
short-NameFits n limit (us ∷ l) h keys = (
  λ g. full_name-length g us.key limit (omega (arith, h, keys.0)),
  short-NameFits n limit l h keys.1,
)

pub t1_t11-NameFits : (limit : ℕ) → 16 ≤ limit → All (NameFits limit) (map declared t1_t11)
t1_t11-NameFits limit h = short-NameFits 3 limit (map declared t1_t11) h (ground arith)
