-- ===== src/Samples/Encoding.antt =====
-- The program samples/binary_encoding/src/main.c.
pub mod Printing
use irnas_usersettings_lib.Base.{
  ℕ, zero, suc, ◌+◌, Bool, Option, none, some, List, [], ◌∷◌, ◌++◌, length, take, map, Bytes, ltb,
  if◌then◌else◌, Result, ok, err, M, ◌>>=◌, ◌>>◌, pure, stop, gets, done, fault, bad_pointer,
  out_of_bounds,
}
use irnas_usersettings_lib.Memory.{pos, negsuc, to_unsigned, le_bytes}
use irnas_usersettings_lib.Setting.{
  UserSetting, type_bool, type_u8, type_u16, type_u32, type_u64, type_i8, type_i16, type_i32,
  type_i64, type_str, type_bytes,
}
use irnas_usersettings_lib.Platform.{Platform, codes}
use irnas_usersettings_lib.State.{State, deref}
use irnas_usersettings_lib.SettingsList.{get_by_id}
use irnas_usersettings_lib.Settings.Init.{init, add, add_sized, load}
use irnas_usersettings_lib.Settings.Change.{set_with_id, set_default_with_id}
use irnas_usersettings_lib.Protocol.Binary.Encode.{Writer, encode, encode_full}

module _ {Subsys Heap : Type 0} (z : Platform Subsys Heap) where
  unfoldable pub add_settings : M (State Subsys Heap) (Unit {0})
  add_settings = do
    add z 1 (codes "enabled") type_bool
    add z 2 (codes "number") type_u8
    add z 3 (codes "hey") type_u16
    add z 4 (codes "yo") type_u32
    add z 5 (codes "lets") type_u64
    add z 6 (codes "go") type_i8
    add z 7 (codes "t7") type_i16
    add z 8 (codes "t8") type_i32
    add z 9 (codes "ttt") type_i64
    add_sized z 10 (codes "text") type_str 10
    add_sized z 11 (codes "secret") type_bytes 8

  unfoldable pub set_defaults : M (State Subsys Heap) (Unit {0})
  set_defaults = do
    set_default_with_id z 2 (le_bytes 1 13)
    set_default_with_id z 3 (le_bytes 2 1337)
    set_default_with_id z 4 (le_bytes 4 1234567)
    set_default_with_id z 6 (le_bytes 1 (to_unsigned 8 (negsuc 0)))
    set_default_with_id z 7 (le_bytes 2 505)
    set_default_with_id z 9 (le_bytes 8 65432123456)
    set_default_with_id z 10 (codes "banana" ++ 0 ∷ [])
    set_default_with_id z 11 (1 ∷ 2 ∷ 3 ∷ 4 ∷ 5 ∷ 6 ∷ [])
    pure tt

  unfoldable pub set_values : M (State Subsys Heap) (Unit {0})
  set_values = do
    set_with_id z 2 (le_bytes 1 69)
    set_with_id z 4 (le_bytes 4 7654321)
    set_with_id z 5 (le_bytes 8 1)
    set_with_id z 6 (le_bytes 1 (to_unsigned 8 (negsuc 1)))
    set_with_id z 7 (le_bytes 2 202)
    set_with_id z 8 (le_bytes 4 (to_unsigned 32 (negsuc 7654320)))
    set_with_id z 9 (le_bytes 8 987656789)
    set_with_id z 10 (codes "apple" ++ 0 ∷ [])
    set_with_id z 11 (map (λ b. b + 7) (1 ∷ 2 ∷ 3 ∷ 4 ∷ 5 ∷ 6 ∷ []))
    pure tt

-- The library, the buffer of `main`, and the texts that print_buf has printed, as bytes.
pub record EncodingState (Subsys Heap : Type 0) : Type 0 where
  pub library : State Subsys Heap
  pub buffer : Bytes
  pub printouts : List Bytes

module _ {Subsys Heap : Type 0} where
  abbrev pub in_library : {A : Type 0} → M (State Subsys Heap) A → M (EncodingState Subsys Heap) A
  in_library m d = elim (m d.library) [
    | done (a, s) ↦ done (a, record d { library = s })
    | fault e ↦ fault e
  ]

  -- An error number, converted to size_t, is a length past any buffer.
  unfoldable pub print_buf : Result ℕ → M (EncodingState Subsys Heap) (Unit {0})
  print_buf (err e) d = fault out_of_bounds
  print_buf (ok n) d =
      if ltb (length d.buffer) n
      then fault out_of_bounds
      else done (tt, record d { printouts = d.printouts ++ take n d.buffer ∷ [] })

  -- An encoder, with the buffer of 256 bytes.
  abbrev pub encode_to_buffer :
      (UserSetting → ℕ → M Writer (Result ℕ))
      → UserSetting
      → M (EncodingState Subsys Heap) (Result ℕ)
  encode_to_buffer encode us d = elim (encode us 256 (record { written = []; space = d.buffer })) [
    | done (r, w) ↦ done (r, record d { buffer = w.written ++ w.space })
    | fault e ↦ fault e
  ]

  abbrev pub find_setting : Option ℕ → M (EncodingState Subsys Heap) UserSetting
  find_setting none = stop bad_pointer
  find_setting (some p) = in_library (deref p)

  unfoldable pub encode_setting : ℕ → M (EncodingState Subsys Heap) (Unit {0})
  unfolding print_buf
  encode_setting i = do
    p ← gets (λ d. get_by_id i d.library.settings)
    us ← find_setting p
    ret ← encode_to_buffer encode us
    print_buf ret
    ret ← encode_to_buffer encode_full us
    print_buf ret

  -- `n` rounds of the loop from `i` on.
  unfoldable pub encode_from : ℕ → ℕ → M (EncodingState Subsys Heap) (Unit {0})
  unfolding encode_setting
  encode_from zero i = pure tt
  encode_from (suc n) i = do encode_setting i; encode_from n (suc i)

  unfoldable pub encoding_main : Platform Subsys Heap → M (EncodingState Subsys Heap) ℕ
  unfolding add_settings set_defaults set_values encode_from
  encoding_main z = do
    e ← in_library (init z)
    in_library (add_settings z)
    in_library (load z)
    in_library (set_defaults z)
    in_library (set_values z)
    encode_from 11 1
    pure 0
