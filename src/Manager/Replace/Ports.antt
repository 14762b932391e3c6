-- ===== src/Manager/Replace/Ports.antt =====
-- manager.go: the ports that are reserved for a replacement, `reserveLocalPort` and
-- `releaseReservedPort`.
use tor_country_manager.Shared.{
  ℕ, zero, suc, Bool, false, List, [], ◌∷◌, ◌++◌, Option, none, some, if◌then◌else◌, ◌||◌,
}
use tor_country_manager.Shared.Text.{Text, text}
use tor_country_manager.Shared.Int.{ℤ, eqb_ℤ}
use tor_country_manager.Manager.Defs.{Manager}
use tor_country_manager.Manager.Watch.{delete_port}

-- What the system answers to one `net.Listen` on port 0 and to closing that listener.
pub data Offer : Type 0 where
  no_listener : Text → Offer
  offered : ℤ → Offer
  close_failed : ℤ → Text → Offer

unfoldable pub has_port : ℤ → List ℤ → Bool
has_port a [] = false
has_port a (b ∷ bs) = eqb_ℤ b a || has_port a bs

-- The attempts that are left, and the number of the next one.
unfoldable pub reserve_loop : ℕ → ℕ → (ℕ → Offer) → List ℤ → List ℤ × (Option ℤ × Text)
unfolding has_port delete_port
reserve_loop zero n offers ports =
    (ports, (none, text "could not reserve a unique replacement port"))
reserve_loop (suc left) n offers ports =
    let again = reserve_loop left (suc n) offers ports in
    elim (offers n) [
      | no_listener e ↦ (ports, (none, text "allocate replacement port: " ++ e))
      | offered a ↦ if has_port a ports then again else (a ∷ ports, (some a, []))
      | close_failed a e ↦ (ports, (none, text "release replacement port listener: " ++ e))
    ]

unfoldable pub reserve_local_port : Manager → (ℕ → Offer) → Manager × (Option ℤ × Text)
unfolding reserve_loop
reserve_local_port m offers =
    let (ports, r) = reserve_loop 32 0 offers m.reserved_ports in
    (record m { reserved_ports = ports }, r)

unfoldable pub release_reserved_port : Manager → ℤ → Manager
unfolding delete_port
release_reserved_port m a = record m { reserved_ports = delete_port a m.reserved_ports }
