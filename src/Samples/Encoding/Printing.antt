-- ===== src/Samples/Encoding/Printing.antt =====
-- What the last loop of samples/binary_encoding/src/main.c prints.
use mathlib.Core.List.{append_assoc, append-nil}
use irnas_usersettings_lib.Base.{
  ℕ, suc, ◌≡◌, ap, ◌∙◌, sym, arith, Bool, true, false, ltb, Outcome, Result, fault, some, List, [],
  ◌∷◌, ◌++◌, length, drop, take-append, length-append, length-drop, drop_cons, get_elem?, All,
  Bytes, done, bind_done, bind_assoc, ◌>>=◌,
}
use irnas_usersettings_lib.Setting.{UserSetting}
use irnas_usersettings_lib.SettingsList.{get_by_id}
use irnas_usersettings_lib.SettingsList.Lookup.{IsWellFormed, get_by_id_self}
use irnas_usersettings_lib.Protocol.Binary.Wire.{wire, wire_full}
use irnas_usersettings_lib.Protocol.Binary.Encode.{encode, encode_full}
use irnas_usersettings_lib.Protocol.Executor.Responses.{Fits, form, encoder, encoder_lem}
use irnas_usersettings_lib.Samples.Encoding.{
  EncodingState, find_setting, print_buf, encode_to_buffer, encode_setting, encode_from,
}

-- What is printed for each setting: the short encoding, and the full one.
abbrev pub encodings : List UserSetting → List Bytes
encodings [] = []
encodings (us ∷ l) = wire us ∷ wire_full us ∷ encodings l

-- 1, 2, 3 and so on, from a number on
abbrev pub IsNumbered : ℕ → List UserSetting → Type 0
IsNumbered i [] = Unit
IsNumbered i (us ∷ l) = (us.id ≡ i) × IsNumbered (suc i) l

module _ {Subsys Heap : Type 0} where
  -- One encoder and its print.
  print_form :
      (full : Bool) (us : UserSetting) (d : EncodingState Subsys Heap)
      → Fits 256 full us
      → length d.buffer ≡ 256
      → (buffer : Bytes) × (length buffer ≡ 256)
        × ((encode_to_buffer (encoder full) us >>= print_buf) d
            ≡ done (tt, record d { buffer = buffer; printouts = d.printouts ++ form full us ∷ [] }))
  unfolding print_buf
  print_form full us d fits room =
      let after = form full us ++ drop (length (form full us)) d.buffer in
      let size : length after ≡ 256 = omega (
        arith,
        length-append (form full us) (drop (length (form full us)) d.buffer),
        length-drop (length (form full us)) d.buffer,
        fits.1,
        room,
      ) in
      let enough : ltb (length after) (length (form full us)) ≡ false =
        ground (arith, size, fits.1) in
      (
        after,
        size,
        bind_done (encode_to_buffer (encoder full) us) d print_buf (
              ap
                (λ o. elim o as (λ _. Outcome (Result ℕ × EncodingState Subsys Heap)) [
                  | done (r, w) ↦ done (r, record d { buffer = w.written ++ w.space })
                  | fault e ↦ fault e
                ])
                (encoder_lem 256 full us d.buffer fits (omega (arith, room))))
            ∙ ground
                (arith, enough, take-append (form full us) (drop (length (form full us)) d.buffer)),
      )

  deref_run :
      (p : ℕ) (us : UserSetting) (d : EncodingState Subsys Heap)
      → get_elem? d.library.settings p ≡ some us
      → find_setting (some p) d ≡ done (us, d)
  deref_run p us d here = ground (arith, here)

  setting_run :
      (i p : ℕ) (us : UserSetting) (d : EncodingState Subsys Heap)
      → IsWellFormed d.library.settings
      → get_elem? d.library.settings p ≡ some us
      → us.id ≡ i
      → Fits 256 false us
      → Fits 256 true us
      → length d.buffer ≡ 256
      → (buffer : Bytes) × (length buffer ≡ 256)
        × (encode_setting i d
            ≡ done (
              tt,
              record d { buffer = buffer; printouts = d.printouts ++ wire us ∷ wire_full us ∷ [] },
            ))
  unfolding encode_setting
  setting_run i p us d w here id_is fits fits_full room =
      let (b₁, size₁, run₁) = print_form false us d fits room in
      let d₁ = record d { buffer = b₁; printouts = d.printouts ++ wire us ∷ [] } in
      let (b₂, size₂, run₂) = print_form true us d₁ fits_full size₁ in
      let found : get_by_id i d.library.settings ≡ some p =
        ap (λ k. get_by_id k d.library.settings) (sym id_is) ∙ get_by_id_self p us w here in
      let both = append_assoc d.printouts (wire us ∷ []) (wire_full us ∷ []) in
      let full = encode_to_buffer encode_full us >>= print_buf in
      let each = λ (us : UserSetting). encode_to_buffer encode us >>= λ ret.
      print_buf ret >>= λ _. encode_to_buffer encode_full us >>= print_buf in
      (
        b₂,
        size₂,
        bind_done (find_setting (get_by_id i d.library.settings)) d each
              (ap (λ o. find_setting o d) found ∙ deref_run p us d here)
            ∙ sym (bind_assoc print_buf (λ _. full) (encode_to_buffer encode us) d)
            ∙ bind_done (encode_to_buffer encode us >>= print_buf) d (λ _. full) run₁
            ∙ run₂
            ∙ ap (λ texts. done (tt, record d { buffer = b₂; printouts = texts })) both,
      )

  -- In a well-formed library, for settings at the end of the list with consecutive IDs from their
  -- position on, whose short and full encodings each have at most 256 bytes: the loop over their IDs
  -- returns, leaves the library alone, and prints for each setting exactly its short and then its full
  -- encoding.
  pub encode_from-encodings :
      (rest : List UserSetting) (p : ℕ) (d : EncodingState Subsys Heap)
      → IsWellFormed d.library.settings
      → drop p d.library.settings ≡ rest
      → IsNumbered (suc p) rest
      → All (Fits 256 false) rest
      → All (Fits 256 true) rest
      → length d.buffer ≡ 256
      → (buffer : Bytes) × (length buffer ≡ 256)
        × (encode_from (length rest) (suc p) d
            ≡ done (tt, record d { buffer = buffer; printouts = d.printouts ++ encodings rest }))
  unfolding encode_from
  encode_from-encodings [] p d w here nums fits fits_full room = (
    d.buffer,
    room,
    ap (λ texts. done (tt, record d { printouts = texts })) (sym (append-nil d.printouts)),
  )
  encode_from-encodings (us ∷ rest) p d w here nums fits fits_full room =
      let (at, next) = drop_cons p d.library.settings here in
      let (b₁, size₁, run₁) = setting_run (suc p) p us d w at nums.0 fits.0 fits_full.0 room in
      let d₁ = record d { buffer = b₁; printouts = d.printouts ++ wire us ∷ wire_full us ∷ [] } in
      let (b₂, size₂, run₂) =
        encode_from-encodings rest (suc p) d₁ w next nums.1 fits.1 fits_full.1 size₁ in
      (
        b₂,
        size₂,
        bind_done (encode_setting (suc p)) d (λ _. encode_from (length rest) (suc (suc p))) run₁
            ∙ run₂
            ∙ ap (λ texts. done (tt, record d { buffer = b₂; printouts = texts }))
                (append_assoc d.printouts (wire us ∷ wire_full us ∷ []) (encodings rest)),
      )
