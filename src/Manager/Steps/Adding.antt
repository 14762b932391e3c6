-- ===== src/Manager/Steps/Adding.antt =====
-- manager.go: what survives the elementary changes survives the selection of a node, with the
-- country that it may add.
use tor_country_manager.Shared.{
  ℕ, Bool, Option, none, some, ◌≡◌, ◌&&◌, not, Option-cases, inl, inr, if_either, is_some, length,
}
use tor_country_manager.Shared.Text.{same, to_upper}
use tor_country_manager.Shared.Int.{pos, add_int, leb_ℤ}
use tor_country_manager.Shared.Assoc.{lookup}
use tor_country_manager.Config.Defs.{Country, normalize_code, country_code_pattern}
use tor_country_manager.Manager.Defs.{Manager, ManagerError, is_running_status}
use tor_country_manager.Manager.Persist.{fingerprint_pattern}
use tor_country_manager.Manager.Replace.{NodeChoice}
use tor_country_manager.Manager.Nodes.{
  Outside, add_country, ensure_country, select, start_selected, start_ensured, start_node,
}
use tor_country_manager.Manager.Calm.Starts.{start-CalmResult, activate-CalmResult}
use tor_country_manager.Manager.Calm.Replaces
use tor_country_manager.Manager.Steps.{Survives, KeptResult, activate-Calm}
use tor_country_manager.Manager.Steps.Replacing.{replace_node-KeptResult}

module _ {P : Manager → Type 0} (s : Survives P) where
  add_country-KeptResult :
      (m : Manager) (c : Country)
      → lookup c.code m.instances ≡ none
      → P m
      → KeptResult P (add_country m c)
  unfolding add_country
  add_country-KeptResult m c e l =
      if_either (KeptResult P)
        (leb_ℤ (pos 65535) (add_int m.cfg.base_socks_port (pos (length m.cfg.countries))))
        (record { kept = l }) (record { kept = s.placed m c _ _ e l })

  pub ensure_country-KeptResult :
      (m : Manager) (c : Country) → P m → KeptResult P (ensure_country m c)
  unfolding ensure_country
  ensure_country-KeptResult m c l =
      let code = normalize_code c.code in
      if_either (KeptResult P) (not (country_code_pattern code)) (record { kept = l })
        (elim (Option-cases (lookup code m.instances)) [
          | inl e ↦ rw e (add_country-KeptResult m (record { code = code; name = c.name }) e l)
          | inr (q, e) ↦ rw e (record { kept = s.calm (Replaces.name_country-Calm m q c.name) l })
        ])

  start_selected-KeptResult :
      (m : Manager) (q : ℕ) (node : NodeChoice) (act : Bool) (o : Outside)
      → P m
      → KeptResult P (start_selected m q node act o)
  unfolding start_selected
  start_selected-KeptResult m q node act o l =
      let chosen : P (select m q node) = s.calm (Replaces.select-Calm m q node) l in
      if_either (KeptResult P)
        (same (m.heap q).exit_fingerprint (to_upper node.fingerprint)
          && is_running_status (m.heap q).status)
        (record { kept = if_either P act (s.calm (activate-Calm m _) l) l })
        (if_either (KeptResult P) (is_some (m.heap q).cmd)
          (replace_node-KeptResult s m q node act o.offers o.control_offers o.spawn o.now l)
          (if_either (KeptResult P) act
            (record {
              kept = s.calm (activate-CalmResult (select m q node) _ o.spawn o.now).calm chosen;
            })
            (record {
              kept = s.calm (start-CalmResult (select m q node) _ o.spawn o.now).calm chosen;
            })))

  start_ensured-KeptResult :
      (r : Manager × (Option ℕ × Option ManagerError)) (node : NodeChoice) (act : Bool)
      (o : Outside)
      → KeptResult P r
      → KeptResult P (start_ensured r node act o)
  unfolding start_ensured
  start_ensured-KeptResult (m, (none, e)) node act o l = record { kept = l.kept }
  start_ensured-KeptResult (m, (some q, e)) node act o l =
      start_selected-KeptResult m q node act o l.kept

  pub start_node-KeptResult :
      (m : Manager) (node : NodeChoice) (act : Bool) (o : Outside)
      → P m
      → KeptResult P (start_node m node act o)
  unfolding start_node
  start_node-KeptResult m node act o l =
      if_either (KeptResult P) (not (fingerprint_pattern node.fingerprint)) (record { kept = l })
        (start_ensured-KeptResult _ node act o (ensure_country-KeptResult m _ l))
