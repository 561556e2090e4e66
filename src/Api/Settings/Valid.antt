-- ===== src/Api/Settings/Valid.antt =====
-- What putSettings leaves in the store.
use post_lite.Base.{
  Bool-cases, Option-cases, any, All, Str, codes, str_eq, str_eq_iff, trim_space, split, lookup,
  lookup-insert, ℕ, ◌≡◌, refl, ◌≢◌, ◌⊎◌, inl, inr, true, Option, none, some, List, [], ◌∷◌, ◌++◌,
  map, arith,
}
use post_lite.Store.{User, Db, is_admin}
use post_lite.Store.Settings.{get_setting, set_setting}
use post_lite.Executor.Target.{Net, parse_parts, parse_whitelist}
use post_lite.Api.{State, ret, fail}
use post_lite.Api.Settings.{
  whitelist_key, allowed_settings, setting_or, validate_setting, check_settings, save_settings,
  put_settings_handler,
}

module _ (parse_duration : Str → Option ℕ) (n : Net) where
  -- A key that may be written, with a value that its reader can parse
  abbrev IsGood : Str × Str → Type 0
  IsGood (k, v) =
      (any (str_eq k) allowed_settings ≡ true) × (validate_setting parse_duration n k v ≡ true)

  check_settings-cases :
      (b : List (Str × Str)) (s : State)
      → ((check_settings parse_duration n b s ≡ (ret tt, s)) × All IsGood b)
        ⊎ (check_settings parse_duration n b s ≡ (fail 400 "bad_request", s))
  unfolding check_settings
  check_settings-cases [] s = inl (refl, tt)
  check_settings-cases ((k, v) ∷ b) s = elim (Bool-cases (any (str_eq k) allowed_settings)) [
    | inr bad ↦ inr (ground arith)
    | inl allowed ↦ elim (Bool-cases (validate_setting parse_duration n k v)) [
      | inr bad ↦ inr (ground arith)
      | inl valid ↦ elim (check_settings-cases b s) [
        | inl (ok, good) ↦ inl (ground arith, ((allowed, valid), good))
        | inr failed ↦ inr (ground arith)
      ]
    ]
  ]

  -- The settings after the entries were written one after the other
  unfoldable pub with_settings : List (Str × Str) → Db → Db
  with_settings [] db = db
  with_settings ((k, v) ∷ b) db = with_settings b (set_setting k v db)

  save_settings-db :
      (u : User) (b : List (Str × Str)) (s : State)
      → let m = save_settings parse_duration n u b s in
        (m.0 ≡ ret (map (λ e. e.0) b)) × (m.1.db ≡ with_settings b s.db)
  unfolding save_settings with_settings
  save_settings-db u [] s = (refl, refl)
  save_settings-db u ((k, v) ∷ b) s =
      let written : State = record s {
        db = set_setting k v s.db;
        audit =
            s.audit
            ++ record {
              actor = u.username;
              action = "settings.put";
              id = 0;
              name = k ++ codes "=" ++ v;
            }
              ∷ [];
      } in
      let (answer, after) = save_settings-db u b written in (ground arith, ground arith)

  -- putSettings writes all or nothing: either every key may be written and every value can be parsed, and
  -- then all are saved, or the answer is 400 and nothing has changed.
  pub put_settings_lem :
      (u : User) (b : List (Str × Str)) (s : State)
      → is_admin u ≡ true
      → let (answer, after) = put_settings_handler parse_duration n (some u) (some b) s in
        (All IsGood b × (answer ≡ ret (map (λ e. e.0) b)) × (after.db ≡ with_settings b s.db))
        ⊎ ((answer ≡ fail 400 "bad_request") × (after ≡ s))
  unfolding put_settings_handler
  put_settings_lem u b s admin = elim (check_settings-cases b s) [
    | inl (ok, good) ↦
        inl (good, ground (arith, save_settings-db u b s), ground (arith, save_settings-db u b s))
    | inr failed ↦ inr (ground arith, ground arith)
  ]

  -- Every setting that may be written is blank or can be parsed.
  abbrev pub IsValid : Db → Type 0
  IsValid db =
      (k v : Str)
      → any (str_eq k) allowed_settings ≡ true
      → get_setting k db ≡ some v
      → validate_setting parse_duration n k v ≡ true

  with_settings-IsValid :
      (b : List (Str × Str)) (db : Db) → All IsGood b → IsValid db → IsValid (with_settings b db)
  unfolding with_settings set_setting get_setting
  with_settings-IsValid [] db good h = h
  with_settings-IsValid ((k, v) ∷ b) db good h =
      with_settings-IsValid b (set_setting k v db) good.1 (λ j w allowed found.
        ground (arith, h j w allowed, lookup-insert k j v db.settings, str_eq_iff k j, good.0))

  put_as-IsValid :
      (u : User) (body : Option (List (Str × Str))) (s : State)
      → is_admin u ≡ true
      → IsValid s.db
      → IsValid (put_settings_handler parse_duration n (some u) body s).1.db
  unfolding put_settings_handler
  put_as-IsValid u none s admin h = rw admin h
  put_as-IsValid u (some b) s admin h = elim (put_settings_lem u b s admin) [
    | inl (good, answer, after) ↦ rw after (with_settings-IsValid b s.db good h)
    | inr (answer, after) ↦ rw after h
  ]

  put_settings-IsValid :
      (requester : Option User) (body : Option (List (Str × Str))) (s : State)
      → IsValid s.db
      → IsValid (put_settings_handler parse_duration n requester body s).1.db
  unfolding put_settings_handler
  put_settings-IsValid none body s h = h
  put_settings-IsValid (some u) body s h = elim (Bool-cases (is_admin u)) [
    | inr plain ↦ rw plain h
    | inl admin ↦ put_as-IsValid u body s admin h
  ]

  blank_split : (v : Str) → trim_space v ≡ [] → split b',' v ≡ v ∷ []
  blank_split [] blank = refl
  blank_split (c ∷ v) blank = ground (arith, blank_split v)

  blank_whitelist : (v : Str) → trim_space v ≡ [] → parse_whitelist n v ≡ some []
  unfolding parse_whitelist parse_parts
  blank_whitelist v blank = rw (blank_split v blank) (ground (arith))

  valid_whitelist :
      (v : Str)
      → validate_setting parse_duration n whitelist_key v ≡ true
      → parse_whitelist n v ≢ none
  unfolding validate_setting
  valid_whitelist v valid e = ground (arith, blank_whitelist v, str_eq_iff (trim_space v) [])

  unfoldable pub put_all : List (Option User × Option (List (Str × Str))) → State → State
  put_all [] s = s
  put_all ((requester, body) ∷ calls) s =
      (put_settings_handler parse_duration n requester body (put_all calls s)).1

  put_all-IsValid :
      (calls : List (Option User × Option (List (Str × Str)))) (s : State)
      → IsValid s.db
      → IsValid (put_all calls s).db
  unfolding put_all
  put_all-IsValid [] s h = h
  put_all-IsValid ((requester, body) ∷ calls) s h =
      put_settings-IsValid requester body (put_all calls s) (put_all-IsValid calls s h)

  no_setting : (k v : Str) (s : State) → s.db.settings ≡ [] → get_setting k s.db ≢ some v
  unfolding get_setting lookup
  no_setting k v s empty found = absurd (ground arith)

  -- Where no setting was stored at first, after any sequence of requests that put settings, by anyone and
  -- whatever is in them, the text that the execute handler reads as the whitelist can be parsed.
  pub whitelist_parses :
      (calls : List (Option User × Option (List (Str × Str)))) (s : State)
      → s.db.settings ≡ []
      → parse_whitelist n (setting_or whitelist_key [] (put_all calls s).db) ≢ none
  unfolding setting_or
  whitelist_parses calls s empty e =
      let db = (put_all calls s).db in
      let valid =
        put_all-IsValid calls s (λ k v allowed found. absurd (no_setting k v s empty found)) in
      elim (Option-cases (get_setting whitelist_key db)) [
        | inl missing ↦ ground (arith, blank_whitelist [] refl)
        | inr (v, found) ↦
            ground
              (arith, blank_whitelist [] refl, valid_whitelist v (valid whitelist_key v refl found))
      ]
