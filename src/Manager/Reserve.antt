-- ===== src/Manager/Reserve.antt =====
-- manager.go: `reserveLocalPort` hands out a port that no other replacement holds.
use tor_country_manager.Shared.{
  ℕ, zero, suc, false, List, [], ◌∷◌, ◌++◌, Option, none, some, if◌then◌else◌, ◌≡◌, refl, if_cases,
}
use tor_country_manager.Shared.Text.{Text, text}
use tor_country_manager.Shared.Int.{ℤ}
use tor_country_manager.Manager.Defs.{Manager}
use tor_country_manager.Manager.Replace.{
  Offer, no_listener, offered, close_failed, has_port, reserve_loop, reserve_local_port,
}

-- A free port was taken, or an error was returned and nothing taken.
abbrev pub Reserves : (before after : List ℤ) → Option ℤ → Type 0
Reserves before after none = after ≡ before
Reserves before after (some a) = (has_port a before ≡ false) × (after ≡ a ∷ before)

abbrev ReservesResult : List ℤ → List ℤ × (Option ℤ × Text) → Type 0
ReservesResult ports r = Reserves ports r.0 r.1.0

reserve_loop-Reserves :
    (left n : ℕ) (offers : ℕ → Offer) (ports : List ℤ)
    → ReservesResult ports (reserve_loop left n offers ports)
unfolding reserve_loop
reserve_loop-Reserves zero n offers ports = refl
reserve_loop-Reserves (suc left) n offers ports =
    let again = reserve_loop-Reserves left (suc n) offers ports in by_offer (offers n) again
  where
    by_offer :
        (o : Offer)
        → ReservesResult ports (reserve_loop left (suc n) offers ports)
        → ReservesResult ports (elim o [
          | no_listener e ↦ (ports, (none, text "allocate replacement port: " ++ e))
          | offered a ↦
              if has_port a ports
              then reserve_loop left (suc n) offers ports
              else (a ∷ ports, (some a, []))
          | close_failed a e ↦ (ports, (none, text "release replacement port listener: " ++ e))
        ])
    by_offer (no_listener e) again = refl
    by_offer (close_failed a e) again = refl
    by_offer (offered a) again =
        if_cases (ReservesResult ports) (has_port a ports) (λ _. again) (λ h. (h, refl))

-- Whatever ports the system offers, `reserveLocalPort` takes a port that was not reserved and
-- reserves it, leaving the other reservations, or it returns an error and reserves nothing.
pub reserve_local_port-Reserves :
    (m : Manager) (offers : ℕ → Offer)
    → Reserves m.reserved_ports
        (reserve_local_port m offers).0.reserved_ports
        (reserve_local_port m offers).1.0
unfolding reserve_local_port
reserve_local_port-Reserves m offers = reserve_loop-Reserves 32 0 offers m.reserved_ports
