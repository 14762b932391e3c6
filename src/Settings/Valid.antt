-- ===== src/Settings/Valid.antt =====
-- settings.go: the configuration stays valid, and the file holds it.
use tor_country_manager.Shared.{
  Bool, true, false, ◌||◌, List, [], ◌∷◌, Option, none, some, ◌≡◌, ◌⊎◌, refl, subst, ◌∙◌, inl, inr,
  is_some, if_either, if_cases, arith, Option-cases,
}
use tor_country_manager.Shared.Text.{Text, is_empty}
use tor_country_manager.Config.Defs.{Config}
use tor_country_manager.Config.Validate.{
  NetLib, validate, missing, check_ports, check_limits, check_upstream, check_credentials,
  check_countries,
}
use tor_country_manager.Settings.Store.{
  ConfigStore, RuntimeSettings, ClientUpdate, UpstreamUpdate, SettingsError, Saving, saves, fails,
  cuts, fills, saved_as, save_locked, install, commit, update_runtime, update_client,
  update_upstream, clear_legacy_auth,
}

-- One update, with what the system answers.
pub data Update : Type 0 where
  runtime : RuntimeSettings → Saving → Update
  client : ClientUpdate → (random : Option Text) → Saving → Update
  upstream : UpstreamUpdate → Saving → Update
  clears_token : Saving → Update

unfoldable pub update : NetLib → ConfigStore → Update → ConfigStore × Option SettingsError
update net s (runtime settings saving) = update_runtime net s settings saving
update net s (client u random saving) = update_client net s u random saving
update net s (upstream u saving) = update_upstream net s u saving
update net s (clears_token saving) = clear_legacy_auth net s saving

unfoldable pub updates : NetLib → ConfigStore → List Update → ConfigStore
updates net s [] = s
updates net s (u ∷ us) = updates net (update net s u).0 us

abbrev saving_of : Update → Saving
saving_of (runtime settings saving) = saving
saving_of (client u random saving) = saving
saving_of (upstream u saving) = saving
saving_of (clears_token saving) = saving

-- The writing fails while a mounted file is rewritten in place.
abbrev is_torn : Saving → Bool
is_torn saves = false
is_torn (fails e) = false
is_torn (cuts e) = true
is_torn (fills e) = true

abbrev pub any_torn : List Update → Bool
any_torn [] = false
any_torn (u ∷ us) = is_torn (saving_of u) || any_torn us

-- There is no token to clear.
abbrev is_idle : ConfigStore → Update → Bool
is_idle s (clears_token saving) = is_empty s.cfg.auth_token
is_idle s _ = false

-- A whole configuration in the file is valid.
abbrev pub FileValid : NetLib → Option Config → Type 0
FileValid net none = Unit
FileValid net (some c) = validate net c ≡ none

-- The configuration is valid and is what the file holds.
abbrev pub Settled : NetLib → ConfigStore → Type 0
Settled net s = (validate net s.cfg ≡ none) × (s.saved ≡ some s.cfg)

-- An update fails, or has nothing to do, and changes nothing; or it leaves a valid configuration in the
-- store and the file; or the rewriting of a mounted file fails: then the store is as before and the
-- file has no whole configuration or a valid one.
abbrev Outcome :
    NetLib → ConfigStore → (idle torn : Bool) → ConfigStore × Option SettingsError → Type 0
Outcome net s idle torn r =
    ((r.0 ≡ s) × ((is_some r.1 ≡ true) ⊎ (idle ≡ true)))
    ⊎ (((r.1 ≡ none) × Settled net r.0)
        ⊎ ((torn ≡ true) × (is_some r.1 ≡ true) × (r.0.cfg ≡ s.cfg) × FileValid net r.0.saved))

abbrev pub Commits : NetLib → ConfigStore → Update → ConfigStore × Option SettingsError → Type 0
Commits net s u r = Outcome net s (is_idle s u) (is_torn (saving_of u)) r

saved-Outcome :
    (net : NetLib) (s : ConfigStore) (next : Config) (idle : Bool) (saving : Saving)
    → validate net next ≡ none
    → Outcome net s idle (is_torn saving) (install next (saved_as s next saving))
unfolding install saved_as
saved-Outcome net s next idle saves v = inr (inl (refl, (v, refl)))
saved-Outcome net s next idle (fails e) v = inl (refl, inl refl)
saved-Outcome net s next idle (cuts e) v = inr (inr (refl, refl, refl, tt))
saved-Outcome net s next idle (fills e) v = inr (inr (refl, refl, refl, v))

save-Outcome :
    (net : NetLib) (s : ConfigStore) (next : Config) (idle : Bool) (saving : Saving)
    → validate net next ≡ none
    → Outcome net s idle (is_torn saving) (install next (save_locked s next saving))
unfolding install save_locked
save-Outcome net s next idle saving v =
    if_either
      (λ (r : ConfigStore × Option SettingsError).
        Outcome net s idle (is_torn saving) (install next r))
      (is_empty s.path) (inl (refl, inl refl)) (saved-Outcome net s next idle saving v)

commit-Outcome :
    (net : NetLib) (s : ConfigStore) (next : Config) (saving : Saving)
    → Outcome net s false (is_torn saving) (commit net s next saving)
unfolding commit
commit-Outcome net s next saving = elim (Option-cases (validate net next)) [
  | inl e ↦ rw (e, commit) (save-Outcome net s next false saving e)
  | inr (x, e) ↦ rw (e, commit) (inl (refl, inl refl))
]

-- `validate` does not read the token.
validate-token :
    (net : NetLib) (c : Config) → validate net (record c { auth_token = [] }) ≡ validate net c
unfolding validate missing check_ports check_limits check_upstream check_credentials check_countries
validate-token net c = refl

-- Every update, from a valid configuration, fails and changes neither the store nor the file, or leaves
-- a valid configuration in both, or finds no token to clear and changes nothing; only where a mounted
-- file is rewritten in place and this fails may the file be changed without the store: then it holds no
-- whole configuration or a valid one, and the update fails.
pub update-Commits :
    (net : NetLib) (s : ConfigStore) (u : Update)
    → validate net s.cfg ≡ none
    → Commits net s u (update net s u)
unfolding update update_runtime update_upstream update_client clear_legacy_auth
update-Commits net s (runtime settings saving) h = commit-Outcome net s _ saving
update-Commits net s (upstream u saving) h = commit-Outcome net s _ saving
update-Commits net s (client u none saving) h =
    let P = Outcome net s false (is_torn saving) in
    if_either P _ (inl (refl, inl refl))
      (if_either P u.regenerate_key (inl (refl, inl refl)) (commit-Outcome net s _ saving))
update-Commits net s (client u (some key) saving) h =
    let P = Outcome net s false (is_torn saving) in
    if_either P _ (inl (refl, inl refl))
      (if_either P u.regenerate_key (commit-Outcome net s _ saving) (commit-Outcome net s _ saving))
update-Commits net s (clears_token saving) h =
    let idle = is_empty s.cfg.auth_token in
    if_cases (Outcome net s idle (is_torn saving)) idle (λ e. inl (refl, inr e))
      (λ e. save-Outcome net s _ idle saving (validate-token net s.cfg ∙ h))

-- What holds of a store after updates of which some were torn or not.
abbrev Sound : NetLib → ConfigStore → (torn : Bool) → Type 0
Sound net s torn =
    (validate net s.cfg ≡ none) × FileValid net s.saved × ((s.saved ≡ some s.cfg) ⊎ (torn ≡ true))

Outcome-Sound :
    (net : NetLib) (s : ConfigStore) (idle was torn : Bool) (r : ConfigStore × Option SettingsError)
    → Sound net s was
    → Outcome net s idle torn r
    → Sound net r.0 (was || torn)
Outcome-Sound net s idle was torn r (v, f, h) (inl (e, o)) =
    rw e (v, f, elim h [ inl k ↦ inl k | inr k ↦ inr (ground arith) ])
Outcome-Sound net s idle was torn r h (inr (inl (e, (v, k)))) = (v, rw k v, inl k)
Outcome-Sound net s idle was torn r (v, f, h) (inr (inr (t, e, c, g))) =
    (rw c v, g, inr (ground arith))

updates-Sound :
    (net : NetLib) (s : ConfigStore) (was : Bool) (us : List Update)
    → Sound net s was
    → Sound net (updates net s us) (was || any_torn us)
unfolding updates
updates-Sound net s was [] h = subst (Sound net s) (ground arith) h
updates-Sound net s was (u ∷ us) h =
    let here =
      Outcome-Sound net s _ was (is_torn (saving_of u)) (update net s u) h
        (update-Commits net s u h.0) in
    let later = updates-Sound net (update net s u).0 (was || is_torn (saving_of u)) us here in
    subst (Sound net (updates net (update net s u).0 us)) (ground arith) later

-- Whatever updates are made, also where they are refused and writes fail, a store whose configuration is
-- valid and saved has after them a valid configuration; the file holds no whole configuration or a valid
-- one, and it holds that of the store unless the rewriting of a mounted file in place failed in one of
-- the updates.
pub updates-Settled :
    (net : NetLib) (s : ConfigStore) (us : List Update)
    → Settled net s
    → (let n = updates net s us in
        (validate net n.cfg ≡ none)
        × FileValid net n.saved
        × ((n.saved ≡ some n.cfg) ⊎ (any_torn us ≡ true)))
updates-Settled net s us (v, k) = updates-Sound net s false us (v, rw k v, inl k)
