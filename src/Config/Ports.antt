-- ===== src/Config/Ports.antt =====
-- config.go: the ports of a configuration that `validate` accepts.
use tor_country_manager.Shared.{ℕ, ◌+◌, ◌-◌, ◌^◌, ◌≤◌, ◌<◌, false, [], ◌∷◌, none, ◌≡◌, ◌≢◌, arith}
use tor_country_manager.Shared.Text.{Text}
use tor_country_manager.Shared.Int.{ℤ, pos, negsuc, add_int}
use tor_country_manager.Config.Defs.{Config, ranges_overlap}
use tor_country_manager.Config.Validate.{NetLib, check_ports, validate, missing}

-- Where the sum fits, it is the sum.
pub add_int-pos : (a b : ℕ) → a + b < 2 ^ 63 → add_int (pos a) (pos b) ≡ pos (a + b)
unfolding add_int
add_int-pos a b h = ground arith

check_ports-ok : (net : NetLib) (c : Config) → validate net c ≡ none → check_ports net c ≡ none
unfolding validate
check_ports-ok net c h = ground arith

-- What `check_ports` asks of two ports that are small.
record Apart (s p : ℕ) : Type 0 where
  usable_socks : (1024 ≤ s) × (s + 3675 < 65535)
  usable_proxy : (1024 ≤ p) × (p + 675 < 65535)
  from_socks : (i j : ℕ) → i < 676 → j < 676 → p + i ≢ s + j
  from_control : (i j : ℕ) → i < 676 → j < 676 → p + i ≢ s + 3000 + j

-- Two lower-case letters.
abbrev LowerPair : Text → Type 0
LowerPair t = (a b : ℕ) × (t ≡ a ∷ b ∷ []) × (b'a' ≤ a) × (a ≤ b'z') × (b'a' ≤ b) × (b ≤ b'z')

-- The sum of the check is negative there.
wrap-negative :
    (b : ℕ)
    → 2 ^ 63 ≤ b + 3675
    → b < 2 ^ 63
    → add_int (pos b) (pos 3675) ≡ negsuc (2 ^ 64 - (b + 3675) - 1)
unfolding add_int
wrap-negative b l u = ground arith

-- A range that ends below zero, and one that starts far above, meets no range of ports.
negative-apart : (x : ℤ) (n p : ℕ) (z : ℤ) → ranges_overlap x (negsuc n) (pos p) z ≡ false
unfolding ranges_overlap
negative-apart x n p z = ground arith

large-apart : (b e : ℕ) (x y : ℤ) → e < b → ranges_overlap (pos b) x y (pos e) ≡ false
unfolding ranges_overlap
large-apart b e x y l = ground arith

check_ports-overflow :
    (net : NetLib) (c : Config) (b p : ℕ)
    → 2 ^ 63 ≤ b + 3675
    → b < 2 ^ 63
    → c.country_proxy_port ≡ pos p
    → p < 65536
    → check_ports net c ≡ none
    → check_ports net (record c { base_socks_port = pos b }) ≡ none
unfolding check_ports
check_ports-overflow net c b p l u ep lp h =
    let end = add_int-pos p 675 (omega arith) in
    let k = rw (ep, end) at h in
    let one = wrap-negative b l u in
    let two =
      negative-apart (add_int (pos b) (pos 3000)) (2 ^ 64 - (b + 3675) - 1) p (pos (p + 675)) in
    let three = large-apart b (p + 675) (add_int (pos b) (pos 675)) (pos p) (omega arith) in
    rw (ep, end, one, two, three) (ground arith)

-- The sum in the check of `base_socks_port` wraps around: a configuration that `validate` accepts, with a
-- port of the countries' proxies below 65536, it also accepts with any of the 3675 largest numbers of
-- an `int` as the base port.
pub validate_accepts_overflow :
    (net : NetLib) (c : Config) (n p : ℕ)
    → n < 3675
    → c.country_proxy_port ≡ pos p
    → p < 65536
    → validate net c ≡ none
    → validate net (record c { base_socks_port = pos (2 ^ 63 - 1 - n) }) ≡ none
unfolding validate missing
validate_accepts_overflow net c n p l ep lp v =
    let ports =
      check_ports-overflow net c (2 ^ 63 - 1 - n) p (omega arith) (omega arith) ep lp
        (check_ports-ok net c v) in
    ground (arith, ports)
