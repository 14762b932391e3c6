-- ===== src/Manager/Running/Eviction.antt =====
-- manager.go: whom `makeRoom` stops.
use tor_country_manager.Shared.{ℕ, false, Option, none, some, ◌≡◌, refl, arith, ◌⊎◌, inl, inr}
use tor_country_manager.Shared.Text.{Text}
use tor_country_manager.Shared.Int.{pos, ltb_ℤ}
use tor_country_manager.Shared.Assoc.{lookup}
use tor_country_manager.Manager.Defs.{Manager, ManagerError, max_running_reached, is_occupied}
use tor_country_manager.Manager.Stop.{stop}
use tor_country_manager.Manager.Start.{counted, scan_room, evict, make_room}
use tor_country_manager.Manager.Calm.Starts.{Room-cases}
use tor_country_manager.Manager.Running.Limit.{InOrder, running_count}
use tor_country_manager.Manager.Running.Scan.{
  scan_room-counted, scan_room-target, scan_room-Candidate, scan_room-oldest, scan_room-none,
  Candidate, NoOlder, NoCandidate,
}

-- What `makeRoom` does when the limit is reached: it stops a running instance of a country that is
-- not active, and no other such instance started before that one; or it fails and changes nothing,
-- and then every running instance belongs to the active country.
abbrev pub Evicts : Manager → Manager × Option ManagerError → Type 0
Evicts m r =
    ((p : ℕ) × Candidate m m.instances p
      × NoOlder m (m.heap p).started_at m.instances
      × (r ≡ stop m (m.heap p).country.code))
    ⊎ ((r ≡ (m, some (max_running_reached m.cfg.max_running))) × NoCandidate m m.instances)

evict-Evicts :
    (m : Manager) (target : Text) (n : ℕ) (o : Option ℕ)
    → InOrder m
    → scan_room m target 0 none m.instances ≡ counted n o
    → Evicts m (evict m o)
unfolding evict
evict-Evicts m target n none i e = inr (refl, (scan_room-none m target 0 none m.instances n e).1)
evict-Evicts m target n (some p) i e =
    elim (scan_room-Candidate m target 0 none m.instances n p i.keyed i.distinct e) [
      | inl h ↦ cc
      | inr c ↦ inl (p, c, (scan_room-oldest m target 0 none m.instances n p e).1, refl)
    ]

-- At the limit `makeRoom` stops the running instance that started first among those of the
-- countries that are not active, or fails, changing nothing, if there is none; this for a target
-- that does not run and a manager whose instances stand once each, under their codes.
pub make_room-Evicts :
    (m : Manager) (target : Text)
    → InOrder m
    → ((p : ℕ) → lookup target m.instances ≡ some p → is_occupied (m.heap p).status ≡ false)
    → ltb_ℤ (pos (running_count m)) m.cfg.max_running ≡ false
    → Evicts m (make_room m target)
unfolding make_room
make_room-Evicts m target i idle full = elim (Room-cases (scan_room m target 0 none m.instances)) [
  | inl e ↦
      let (p, f, o) = scan_room-target m target 0 none m.instances i.distinct e in
      let off = idle p f in cc
  | inr (n, o, e) ↦
      let all : n ≡ running_count m =
        omega (arith, scan_room-counted m target 0 none m.instances n o e) in
      rw (e, make_room) (rw (all, full) (evict-Evicts m target n o i e))
]
