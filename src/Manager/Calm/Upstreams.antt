-- ===== src/Manager/Calm/Upstreams.antt =====
-- manager.go: a change of the upstream proxy or of the rotation touches neither connections nor draining.
use tor_country_manager.Shared.{ℕ, refl, arith, Option-cases, inl, inr, if_either}
use tor_country_manager.Shared.Int.{ℤ}
use tor_country_manager.Config.Defs.{Config}
use tor_country_manager.Manager.Defs.{Manager}
use tor_country_manager.Manager.Upstream.{retry_bootstrap, set_upstream, set_rotate_minutes}
use tor_country_manager.Manager.Calm.{Calm, Calm-refl, write-Calm, go-Calm}

pub retry_bootstrap-Calm : (m : Manager) (p : ℕ) → Calm m (retry_bootstrap m p)
unfolding retry_bootstrap
retry_bootstrap-Calm m p = elim (Option-cases (m.heap p).cmd) [
  | inl e ↦ rw e (if_either (Calm m) _ (Calm-refl m) (Calm-refl m))
  | inr (c, e) ↦
      rw e
        (if_either (Calm m) _ (go-Calm _ (write-Calm m p _ m.active (ground arith))) (Calm-refl m))
]

pub set_upstream-Calm : (m : Manager) (cfg : Config) → Calm m (set_upstream m cfg)
unfolding set_upstream
set_upstream-Calm m cfg = record {
  same_instances = refl;
  same_next = refl;
  same_shutdown = refl;
  no_start = λ h. refl;
  at = λ q. ground arith;
}

pub set_rotate_minutes-Calm : (m : Manager) (minutes : ℤ) → Calm m (set_rotate_minutes m minutes)
unfolding set_rotate_minutes
set_rotate_minutes-Calm m minutes = record {
  same_instances = refl;
  same_next = refl;
  same_shutdown = refl;
  no_start = λ h. refl;
  at = λ q. ground arith;
}
