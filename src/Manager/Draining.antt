-- ===== src/Manager/Draining.antt =====
-- manager.go: `drainAndStop` of an instance whose connections end one after the other, by
-- `releaseInstance`.
use tor_country_manager.Shared.{
  ℕ, zero, suc, ◌-◌, Bool, false, ◌∷◌, none, some, ◌≡◌, sym, subst, arith, if◌then◌else◌, ◌||◌, leb,
}
use tor_country_manager.Shared.Text.{Text}
use tor_country_manager.Shared.Assoc.{lookup}
use tor_country_manager.Config.Defs.{normalize_code}
use tor_country_manager.Manager.Defs.{Manager, drain_and_stop, kill_later}
use tor_country_manager.Manager.Persist.{forget_instance}
use tor_country_manager.Manager.Stop.{
  stop, stop_known, stop_pending, drop_replacement, drained, drain_round, stop_instance,
  stop_process, signal_process, cancel_rotation_of,
}
use tor_country_manager.Manager.Traffic.{release_instance}

-- The instance after `k` of its connections have ended.
unfoldable pub releases : ℕ → Manager → ℕ → Manager
releases zero m p = m
releases (suc k) m p = release_instance (releases k m p) p

-- The instance `p` of `n` waits for its drain: what `stop` did to `m`, and `k` releases.
record Waiting (k p c : ℕ) (m n : Manager) : Type 0 where
  connections : (n.heap p).active_connections ≡ (m.heap p).active_connections - k
  process : (n.heap p).cmd ≡ some c
  unmarked : (n.heap p).is_stopping ≡ false
  no_signal : n.signalled ≡ m.signalled
  scheduled : n.tasks ≡ drain_and_stop p ∷ m.tasks

module _ (p c : ℕ) (m : Manager) where
  release_instance-Waiting :
      (k : ℕ) (n : Manager) → Waiting k p c m n → Waiting (suc k) p c m (release_instance n p)
  unfolding release_instance
  release_instance-Waiting k n w = record {
    connections = ground (arith, w.connections);
    process = ground (arith, w.process);
    unmarked = ground (arith, w.unmarked);
    no_signal = w.no_signal;
    scheduled = w.scheduled;
  }

  releases-Waiting : (k : ℕ) (n : Manager) → Waiting 0 p c m n → Waiting k p c m (releases k n p)
  unfolding releases
  releases-Waiting zero n w = w
  releases-Waiting (suc k) n w = release_instance-Waiting k _ (releases-Waiting k n w)

  stop_known-Waiting :
      (code : Text)
      → (m.heap p).cmd ≡ some c
      → (m.heap p).is_stopping ≡ false
      → (m.heap p).is_draining ≡ false
      → (m.heap p).pending_replacement ≡ none
      → Waiting 0 p c m (stop_known m code p)
  unfolding stop_known stop_pending drop_replacement drained forget_instance
  stop_known-Waiting code has on calm alone = record {
    connections = ground (arith, has, calm, alone);
    process = ground (arith, has, calm, alone);
    unmarked = ground (arith, has, on, calm, alone);
    no_signal = ground (arith, has, calm, alone);
    scheduled = ground (arith, has, calm, alone);
  }

-- A round of the drain after `k` releases: whether it is the last one, and what it leaves.
pub record Drained (k p c : ℕ) (expired : Bool) (m n : Manager) : Type 0 where
  pub last : (n.heap p).is_stopping ≡ (expired || leb (m.heap p).active_connections k)
  pub interrupts :
      n.signalled
      ≡ (if expired || leb (m.heap p).active_connections k then c ∷ m.signalled else m.signalled)
  pub goes_on :
      n.tasks
      ≡ (if expired || leb (m.heap p).active_connections k
          then kill_later p c
          else drain_and_stop p)
        ∷ drain_and_stop p
        ∷ m.tasks

drain_round-Drained :
    (k p c : ℕ) (expired : Bool) (m n : Manager)
    → Waiting k p c m n
    → Drained k p c expired m (drain_round n p expired)
unfolding drain_round stop_instance stop_process cancel_rotation_of signal_process
drain_round-Drained k p c expired m n w = record {
  last = ground (arith, w.connections, w.process, w.unmarked);
  interrupts = ground (arith, w.connections, w.process, w.unmarked, w.no_signal);
  goes_on = ground (arith, w.connections, w.process, w.unmarked, w.scheduled);
}

stop-stop_known :
    (m : Manager) (code : Text) (p : ℕ)
    → lookup (normalize_code code) m.instances ≡ some p
    → (stop m code).0 ≡ stop_known m (normalize_code code) p
unfolding stop
stop-stop_known m code p found = ground (arith, found)

-- A country whose process runs, and which is neither draining nor stopping nor being replaced, is
-- stopped, and then `k` of its connections end. The round of the drain that follows is the last one
-- exactly if the deadline has passed or no connection is left: then the process is interrupted, the
-- instance is marked as stopping and the kill after 8 seconds is queued. Otherwise no process gets
-- a signal, the instance is not marked, and the drain looks again.
pub stop_drains :
    (m : Manager) (code : Text) (p c k : ℕ) (expired : Bool)
    → lookup (normalize_code code) m.instances ≡ some p
    → (m.heap p).cmd ≡ some c
    → (m.heap p).is_stopping ≡ false
    → (m.heap p).is_draining ≡ false
    → (m.heap p).pending_replacement ≡ none
    → Drained k p c expired m (drain_round (releases k (stop m code).0 p) p expired)
stop_drains m code p c k expired found has on calm alone = drain_round-Drained k p c expired m _ (
    releases-Waiting p c m k _ (
      subst (Waiting 0 p c m) (sym (stop-stop_known m code p found))
        (stop_known-Waiting p c m (normalize_code code) has on calm alone)))
