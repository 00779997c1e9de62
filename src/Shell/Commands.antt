-- ===== src/Shell/Commands.antt =====
-- What the commands of library/user_settings/user_settings_shell.c do to the library.
use irnas_usersettings_lib.Base.{
  ℕ, ◌/◌, ◌*◌, ◌≤◌, ◌≡◌, ◌∙◌, sym, arith, false, none, some, [], ◌∷◌, ◌++◌, length, take, get_elem?,
  All, Bytes, ltb, ok, err, enoent, Outcome, Status, done, fault, M,
}
use irnas_usersettings_lib.Setting.{UserSetting, type_bytes}
use irnas_usersettings_lib.Platform.{Platform, PlatformLaws}
use irnas_usersettings_lib.State.{State}
use irnas_usersettings_lib.Memory.{IsByte}
use irnas_usersettings_lib.Hex.{hex_encode, hex_decode-encode, length-hex_encode}
use irnas_usersettings_lib.SettingsList.{get_by_key}
use irnas_usersettings_lib.SettingsList.Lookup.{get_by_key_iff}
use irnas_usersettings_lib.Settings.Change.{set_with_key}
use irnas_usersettings_lib.Settings.Query.{get_with_key}
use irnas_usersettings_lib.Settings.Saving.{IsReady}
use irnas_usersettings_lib.Settings.RoundTrip.{get-set_with_key}
use irnas_usersettings_lib.Shell.{
  NumberParser, Session, key_not_found, in_library, cmd_get, cmd_set, cmd_set_default,
  cmd_restore_one, cmd_clear_changed_one, with_setting, shell_bytes, prv_set_helper,
}

module _ {Subsys Heap : Type 0} (z : Platform Subsys Heap) (c : NumberParser) where
  -- For a key that is not known, each of `get`, `set`, `set_default`, `restore_one` and
  -- `clear_changed_one` prints that it is not found, returns -ENOENT and leaves the library alone.
  pub cmd_unknown_key :
      (key value : Bytes) (e : Session Subsys Heap)
      → get_by_key key e.library.settings ≡ none
      → let refused : Outcome (Status × Session Subsys Heap) =
          done (err enoent, record e { lines = e.lines ++ key_not_found key ∷ [] }) in
        (cmd_get key e ≡ refused)
        × (cmd_set z c key value e ≡ refused)
        × (cmd_set_default z c key value e ≡ refused)
        × (cmd_restore_one z key e ≡ refused)
        × (cmd_clear_changed_one z key e ≡ refused)
  unfolding cmd_get cmd_set cmd_set_default cmd_restore_one cmd_clear_changed_one with_setting
  cmd_unknown_key key value e unknown =
      (ground arith, ground arith, ground arith, ground arith, ground arith)

module _ {Subsys Heap : Type 0} where
  ok_in_library :
      (m : M (State Subsys Heap) Status) (e e' : Session Subsys Heap)
      → in_library m e ≡ done (ok tt, e')
      → m e.library ≡ done (ok tt, e'.library)
  ok_in_library m e e' h = from_outcome (m e.library) h
    where
      from_outcome :
          (o : Outcome (Status × State Subsys Heap))
          → elim o as (λ _. Outcome (Status × Session Subsys Heap)) [
            | done (a, s) ↦ done (a, record e { library = s })
            | fault f ↦ fault f
          ]
            ≡ done (ok tt, e')
          → o ≡ done (ok tt, e'.library)
      from_outcome (done (a, s)) h = ground arith
      from_outcome (fault f) h = cc

module _ {Subsys Heap : Type 0} {z : Platform Subsys Heap} (laws : PlatformLaws z)
    (c : NumberParser) (key value : Bytes) (p : ℕ) (us : UserSetting) (e : Session Subsys Heap)
    (ready : IsReady laws e.library) (found : get_by_key key e.library.settings ≡ some p)
    (here : get_elem? e.library.settings p ≡ some us) where
  same_key : us.key ≡ key
  same_key =
      let (x, there, same) = (get_by_key_iff key e.library.settings p ready.well_formed).0 found in
      cc

  cmd_set_known :
      (bs : Bytes)
      → shell_bytes c us.setting_type value e.library ≡ done (bs, e.library)
      → cmd_set z c key value e ≡ in_library (set_with_key z key bs) e
  unfolding cmd_set with_setting prv_set_helper
  cmd_set_known bs run = ground (arith, found, here, run, same_key)

  -- The text of bytes that the command has room for.
  hex_bytes :
      (bs : Bytes)
      → us.setting_type ≡ type_bytes
      → All IsByte bs
      → length bs ≤ 1024
      → value ≡ hex_encode bs
      → shell_bytes c us.setting_type value e.library ≡ done (bs, e.library)
  unfolding shell_bytes
  hex_bytes bs is_bytes h room is_hex =
      let long : length (hex_encode bs) ≡ 2 * length bs = length-hex_encode bs in
      let short = within (length (hex_encode bs)) (length bs) long room in
      let back = hex_decode-encode bs h in ground (arith, is_bytes, is_hex, short, back)
    where
      within : (m n : ℕ) → m ≡ 2 * n → n ≤ 1024 → ltb 1024 (m / 2) ≡ false
      within m n e h = ground arith

  get-cmd_set :
      (b : ℕ) (bs : Bytes) (e' : Session Subsys Heap)
      → shell_bytes c us.setting_type value e.library ≡ done (b ∷ bs, e.library)
      → cmd_set z c key value e ≡ done (ok tt, e')
      → (block : Bytes) × (len : ℕ) × (get_with_key key e'.library
          ≡ done (some (block, len), e'.library))
        × (take len block ≡ b ∷ bs)
  get-cmd_set b bs e' run set =
      let set' =
        ok_in_library (set_with_key z key (b ∷ bs)) e e' (sym (cmd_set_known (b ∷ bs) run) ∙ set) in
      get-set_with_key laws e.library e'.library ready b bs key p found set'

  -- A setting of bytes: for a known key, `set` with the hexadecimal text of at least one and at most
  -- 1024 bytes, when it returns 0, makes user_settings_get_with_key return exactly these bytes.
  pub get-cmd_set_hex :
      (b : ℕ) (bs : Bytes) (e' : Session Subsys Heap)
      → us.setting_type ≡ type_bytes
      → All IsByte (b ∷ bs)
      → length (b ∷ bs) ≤ 1024
      → value ≡ hex_encode (b ∷ bs)
      → cmd_set z c key value e ≡ done (ok tt, e')
      → (block : Bytes) × (len : ℕ) × (get_with_key key e'.library
          ≡ done (some (block, len), e'.library))
        × (take len block ≡ b ∷ bs)
  get-cmd_set_hex b bs e' is_bytes h room is_hex set =
      get-cmd_set b bs e' (hex_bytes (b ∷ bs) is_bytes h room is_hex) set
