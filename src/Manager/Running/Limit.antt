-- ===== src/Manager/Running/Limit.antt =====
-- manager.go: `Start` keeps the number of running instances within the limit, and evicts the oldest
-- one that is not active.
use tor_country_manager.Shared.{
  ℕ, true, false, List, [], ◌∷◌, Option, none, some, ◌≡◌, ◌≢◌, refl, ap, ◌∙◌, arith, ◌⊎◌, inl, inr,
  if_either, if_cases, not, ◌||◌, is_some, Bool-cases, Option-cases,
}
use tor_country_manager.Shared.Text.{Text, same, same_iff}
use tor_country_manager.Shared.Int.{pos, ltb_ℤ, leb_ℤ}
use tor_country_manager.Shared.Assoc.{lookup}
use tor_country_manager.Config.Defs.{normalize_code}
use tor_country_manager.Manager.Defs.{
  unknown_country, is_shutting_down, Manager, Instance, ManagerError, Spawn, cannot_make_dir,
  cannot_write, cannot_start, started, is_occupied, is_draining_status,
}
use tor_country_manager.Manager.Persist.{remember_instance}
use tor_country_manager.Manager.Stop.{stop, stop_known}
use tor_country_manager.Manager.Limits.{count_running}
use tor_country_manager.Manager.Start.{
  counted, scan_room, evict, make_room, launch, start_known, start_in_room, start,
}
use tor_country_manager.Manager.Calm.{stop_known-Calm}
use tor_country_manager.Manager.Calm.Starts.{Room-cases}
use tor_country_manager.Manager.Running.{
  Keyed, Distinct, Serves, count_running-drop, count_running-raise,
}
use tor_country_manager.Manager.Running.Quiet.{stop_known-Quiet}
use tor_country_manager.Manager.Running.Scan.{
  scan_room-counted, scan_room-target, scan_room-Candidate, Candidate,
}

-- The instances stand under their codes, each once, and none that runs is draining.
pub record InOrder (m : Manager) : Type 0 where
  pub keyed : Keyed m.heap m.instances
  pub distinct : Distinct m.instances
  pub serves : Serves m.heap m.instances

abbrev pub running_count : Manager → ℕ
running_count m = count_running m.heap m.instances

abbrev pub WithinLimit : Manager → Type 0
WithinLimit m = leb_ℤ (pos (running_count m)) m.cfg.max_running ≡ true

-- What may have become of the heap where at most the instance `p` was started.
record OneMore (m n : Manager) (p : ℕ) : Type 0 where
  same_cfg : n.cfg ≡ m.cfg
  same_instances : n.instances ≡ m.instances
  others :
      (q : ℕ) → q ≢ p → is_occupied (n.heap q).status ≡ true → is_occupied (m.heap q).status ≡ true

launch-OneMore :
    (m : Manager) (code : Text) (p : ℕ) (spawn : Spawn) (now : ℕ)
    → OneMore m (launch m code p spawn now).0 p
unfolding launch remember_instance
launch-OneMore m code p (cannot_make_dir e) now = record {
  same_cfg = refl;
  same_instances = refl;
  others = λ q _ h. h;
}
launch-OneMore m code p (cannot_write e) now = record {
  same_cfg = refl;
  same_instances = refl;
  others = λ q ne h. ground arith;
}
launch-OneMore m code p (cannot_start e) now = record {
  same_cfg = refl;
  same_instances = refl;
  others = λ q ne h. ground arith;
}
launch-OneMore m code p started now = record {
  same_cfg = refl;
  same_instances = refl;
  others = λ q ne h. ground arith;
}

record OneMoreResult {ℓ} {E : Type ℓ} (m : Manager) (p : ℕ) (r : Manager × E) : Type ℓ where
  one_more : OneMore m r.0 p

start_known-OneMore :
    (m : Manager) (code : Text) (p : ℕ) (spawn : Spawn) (now : ℕ)
    → OneMoreResult m p (start_known m code p spawn now)
unfolding start_known
start_known-OneMore m code p spawn now =
    let idle : OneMore m m p = record {
      same_cfg = refl;
      same_instances = refl;
      others = λ q _ h. h;
    } in
    if_either (OneMoreResult m p)
      (is_occupied (m.heap p).status || is_draining_status (m.heap p).status)
      (record { one_more = idle })
      (if_either (OneMoreResult m p) (is_some (m.heap p).cmd) (record { one_more = idle })
        (record { one_more = launch-OneMore m code p spawn now }))

-- Starting one instance where the count is below the limit keeps within it.
start_known-limit :
    (m : Manager) (code : Text) (p : ℕ) (spawn : Spawn) (now : ℕ)
    → Keyed m.heap m.instances
    → Distinct m.instances
    → ltb_ℤ (pos (running_count m)) m.cfg.max_running ≡ true
    → WithinLimit (start_known m code p spawn now).0
start_known-limit m code p spawn now k d h =
    let c = (start_known-OneMore m code p spawn now).one_more in
    rw (c.same_instances, c.same_cfg)
      (ground (
        arith,
        count_running-raise m.heap (start_known m code p spawn now).0.heap m.instances p k d
            c.others,
      ))

start_in_room-limit :
    (m : Manager) (code : Text) (spawn : Spawn) (now : ℕ)
    → Keyed m.heap m.instances
    → Distinct m.instances
    → ltb_ℤ (pos (running_count m)) m.cfg.max_running ≡ true
    → WithinLimit (start_in_room code spawn now (m, none)).0
unfolding start_in_room
start_in_room-limit m code spawn now k d h = elim (Option-cases (lookup code m.instances)) [
  | inl e ↦ rw (e, start_in_room) (ground arith)
  | inr (p, e) ↦ rw (e, start_in_room) (start_known-limit m code p spawn now k d h)
]

Keyed-lookup :
    (heap : ℕ → Instance) (xs : List (Text × ℕ)) (k : Text) (p : ℕ)
    → Keyed heap xs
    → lookup k xs ≡ some p
    → ((heap p).country.code ≡ k) × (normalize_code k ≡ k)
unfolding lookup
Keyed-lookup heap [] k p d h = cc
Keyed-lookup heap ((j, q) ∷ rest) k p d h = elim (Bool-cases (same j k)) [
  | inl e ↦
      let here : q ≡ p = ground arith in
      let name : j ≡ k = (same_iff j k).0 e in rw (← here, ← name) (d.0, d.1)
  | inr e ↦ Keyed-lookup heap rest k p d.2 (rw e at h)
]

Serves-lookup :
    (heap : ℕ → Instance) (xs : List (Text × ℕ)) (k : Text) (p : ℕ)
    → Serves heap xs
    → lookup k xs ≡ some p
    → is_occupied (heap p).status ≡ true
    → (heap p).is_draining ≡ false
unfolding lookup
Serves-lookup heap [] k p d h o = cc
Serves-lookup heap ((j, q) ∷ rest) k p d h o = ground (arith, d.0, Serves-lookup heap rest k p d.1)

-- The order of the entries survives what leaves the codes alone.
Keyed-Calm :
    (h h' : ℕ → Instance) (xs : List (Text × ℕ))
    → ((q : ℕ) → (h' q).country.code ≡ (h q).country.code)
    → Keyed h xs
    → Keyed h' xs
Keyed-Calm h h' [] f d = tt
Keyed-Calm h h' ((j, q) ∷ rest) f d = (f q ∙ d.0, d.1, Keyed-Calm h h' rest f d.2)

stop_lem :
    (m : Manager) (code : Text) (p : ℕ)
    → normalize_code code ≡ code
    → lookup code m.instances ≡ some p
    → stop m code ≡ (stop_known m code p, none)
unfolding stop
stop_lem m code p n e =
    let e' : lookup (normalize_code code) m.instances ≡ some p = rw n e in rw (e', stop) (rw n)

-- There is room for one more.
abbrev HasRoom : Manager × Option ManagerError → Type 0
HasRoom r =
    (r.1 ≡ none)
    × Keyed r.0.heap r.0.instances
    × Distinct r.0.instances
    × (ltb_ℤ (pos (running_count r.0)) r.0.cfg.max_running ≡ true)

stop_known-HasRoom :
    (m : Manager) (code : Text) (p : ℕ)
    → InOrder m
    → lookup code m.instances ≡ some p
    → is_occupied (m.heap p).status ≡ true
    → WithinLimit m
    → HasRoom (stop_known m code p, none)
stop_known-HasRoom m code p i c o w =
    let n = stop_known m code p in
    let calm = stop_known-Calm m code p in
    let (quiet, over) =
      stop_known-Quiet m code p (Serves-lookup m.heap m.instances code p i.serves c o) in
    (
      refl,
      rw calm.same_instances
          (Keyed-Calm m.heap n.heap m.instances (λ q. (calm.at q).same_code) i.keyed),
      rw calm.same_instances i.distinct,
      rw (calm.same_instances, quiet.same_cfg)
          (ground (arith, count_running-drop m.heap n.heap m.instances code p quiet.at c o over)),
    )

-- Stopping a candidate leaves room.
evict-HasRoom :
    (m : Manager) (p : ℕ)
    → InOrder m
    → Candidate m m.instances p
    → WithinLimit m
    → HasRoom (stop m (m.heap p).country.code)
evict-HasRoom m p i c w =
    let code = (m.heap p).country.code in
    rw (stop_lem m code p (Keyed-lookup m.heap m.instances code p i.keyed c.2).1 c.2)
      (stop_known-HasRoom m code p i c.2 c.0 w)

start_in_room-HasRoom :
    (r : Manager × Option ManagerError) (code : Text) (spawn : Spawn) (now : ℕ)
    → HasRoom r
    → WithinLimit (start_in_room code spawn now r).0
start_in_room-HasRoom (m, none) code spawn now h = start_in_room-limit m code spawn now h.1 h.2 h.3
start_in_room-HasRoom (m, some e) code spawn now h = cc

start_in_room-evict :
    (m : Manager) (code : Text) (spawn : Spawn) (now : ℕ) (o : Option ℕ)
    → InOrder m
    → WithinLimit m
    → ((p : ℕ) → o ≡ some p → Candidate m m.instances p)
    → WithinLimit (start_in_room code spawn now (evict m o)).0
unfolding evict start_in_room
start_in_room-evict m code spawn now none i w c = w
start_in_room-evict m code spawn now (some p) i w c =
    start_in_room-HasRoom (stop m (m.heap p).country.code) code spawn now
      (evict-HasRoom m p i (c p refl) w)

-- A running target is left as it is.
start_in_room-running :
    (m : Manager) (code : Text) (spawn : Spawn) (now p : ℕ)
    → lookup code m.instances ≡ some p
    → is_occupied (m.heap p).status ≡ true
    → start_in_room code spawn now (m, none) ≡ (m, none)
unfolding start_in_room start_known
start_in_room-running m code spawn now p e o = rw (e, start_in_room) (rw o)

make_room-limit :
    (m : Manager) (code : Text) (spawn : Spawn) (now : ℕ)
    → InOrder m
    → WithinLimit m
    → WithinLimit (start_in_room code spawn now (make_room m code)).0
unfolding make_room
make_room-limit m code spawn now i w = elim (Room-cases (scan_room m code 0 none m.instances)) [
  | inl e ↦
      let (p, f, o) = scan_room-target m code 0 none m.instances i.distinct e in
      rw (e, make_room) (rw (start_in_room-running m code spawn now p f o) w)
  | inr (n, o, e) ↦
      let all : n ≡ running_count m =
        omega (arith, scan_room-counted m code 0 none m.instances n o e) in
      rw (e, make_room)
        (if_cases (λ r. WithinLimit (start_in_room code spawn now r).0)
          (ltb_ℤ (pos n) m.cfg.max_running)
          (λ t. start_in_room-limit m code spawn now i.keyed i.distinct (rw all at t))
          (λ _. start_in_room-evict m code spawn now o i w (λ p f. candidate_of (
            scan_room-Candidate m code 0 none m.instances n p i.keyed i.distinct
              (e ∙ ap (counted n) f)))))
]
  where
    candidate_of : {p : ℕ} → (none ≡ some p) ⊎ Candidate m m.instances p → Candidate m m.instances p
    candidate_of (inl h) = cc
    candidate_of (inr c) = c

-- However a call of `Start` ends, it keeps the number of running instances within the limit, if
-- every instance stands once and under its code and none that runs is draining.
pub start-WithinLimit :
    (m : Manager) (code : Text) (spawn : Spawn) (now : ℕ)
    → InOrder m
    → WithinLimit m
    → WithinLimit (start m code spawn now).0
unfolding start
start-WithinLimit m code spawn now i w =
    if_either (λ (r : Manager × Option ManagerError). WithinLimit r.0)
      (not (is_some (lookup (normalize_code code) m.instances)))
      {x = (m, some (unknown_country (normalize_code code)))} w
      (if_either (λ (r : Manager × Option ManagerError). WithinLimit r.0) m.shutting_down
        {x = (m, some is_shutting_down)} w (make_room-limit m (normalize_code code) spawn now i w))
