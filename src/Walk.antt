-- ===== src/Walk.antt =====
-- Loops over the settings that only read them, as in library/user_settings/user_settings_json.c
-- and library/user_settings/user_settings_shell.c, on a state of their own.
use irnas_usersettings_lib.Base.{
  ℕ, zero, suc, ◌≡◌, refl, ap, ◌∙◌, Option, none, some, List, [], ◌∷◌, length, drop, drop_cons,
  get_elem?, M, bind_cong, done, no_fuel, bad_pointer, ◌>>=◌, pure, stop,
}
use irnas_usersettings_lib.Setting.{UserSetting}
use irnas_usersettings_lib.SettingsList.{IterCtx, iter_start, iter_next}
use irnas_usersettings_lib.Settings.Changed.{before, iter_next-before, iter_next_done}

module _ {S : Type 0} (body : UserSetting → M S (Unit {0})) where
  -- while ((setting = user_settings_list_iter_next(&ctx)) != NULL) { body }
  unfoldable pub walk_loop : ℕ → IterCtx → List UserSetting → M S (Unit {0})
  walk_loop zero ctx l = stop no_fuel
  walk_loop (suc fuel) ctx l =
      let (node, ctx') = iter_next ctx l in
      elim node [
        | none ↦ pure tt
        | some p ↦ elim (get_elem? l p) [
          | none ↦ stop bad_pointer
          | some us ↦ body us >>= λ _. walk_loop fuel ctx' l
        ]
      ]

  -- From user_settings_list_iter_start, with a round for each setting and one for the end.
  unfoldable pub walk : List UserSetting → M S (Unit {0})
  unfolding walk_loop
  walk l = walk_loop (suc (length l)) iter_start l

  -- The body at each setting of a list, in order.
  abbrev pub in_order : List UserSetting → M S (Unit {0})
  in_order [] = pure tt
  in_order (us ∷ l) = body us >>= λ _. in_order l

  walk_end :
      (fuel : ℕ) (ctx : IterCtx) (l : List UserSetting) (s : S) {ctx' : IterCtx}
      → iter_next ctx l ≡ (none, ctx')
      → walk_loop (suc fuel) ctx l s ≡ done (tt, s)
  unfolding walk_loop
  walk_end fuel ctx l s h = rw (h, walk_loop) refl

  walk_round :
      (fuel p : ℕ) (ctx ctx' : IterCtx) (l : List UserSetting) (s : S) {us : UserSetting}
      → iter_next ctx l ≡ (some p, ctx')
      → get_elem? l p ≡ some us
      → walk_loop (suc fuel) ctx l s ≡ (body us >>= λ _. walk_loop fuel ctx' l) s
  unfolding walk_loop
  walk_round fuel p ctx ctx' l s {us} h at =
      rw (h, walk_loop)
        (rw at (
          ap (λ c. (body us >>= λ _. walk_loop fuel c l) s)
            (ap (λ (r : Option ℕ × IterCtx). r.1) h)))

  walk_loop-in_order :
      (rest l : List UserSetting) (p : ℕ) (s : S)
      → drop p l ≡ rest
      → walk_loop (suc (length rest)) (before p) l s ≡ in_order rest s
  walk_loop-in_order [] l p s e = walk_end 0 (before p) l s (iter_next_done p l e)
  walk_loop-in_order (us ∷ rest) l p s e =
      walk_round (suc (length rest)) p (before p) (before (suc p)) l s (iter_next-before p l e)
        (drop_cons p l e).0
      ∙ bind_cong (body us) s (λ _. walk_loop (suc (length rest)) (before (suc p)) l)
          (λ _. in_order rest)
          (λ a s' run. walk_loop-in_order rest l (suc p) s' (drop_cons p l e).1)

  -- The loop visits every setting once, in the order of the list, and ends.
  pub walk-in_order : (l : List UserSetting) (s : S) → walk l s ≡ in_order l s
  unfolding walk
  walk-in_order l s = walk_loop-in_order l l 0 s refl
