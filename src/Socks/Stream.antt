-- ===== src/Socks/Stream.antt =====
-- Reading from a connection: what the other side sends until it closes is one text.
use tor_country_manager.Shared.{
  ℕ, zero, suc, [], ◌∷◌, ◌++◌, Option, none, some, ◌≡◌, refl, arith, length, inl, inr, Option-cases,
}
use tor_country_manager.Shared.Text.{Text}

abbrev with_head : ℕ → Option (Text × Text) → Option (Text × Text)
with_head c none = none
with_head c (some (xs, rest)) = some (c ∷ xs, rest)

-- `io.ReadFull` on a buffer of `n` bytes: the bytes and what comes after them, or an error.
unfoldable pub read_full : ℕ → Text → Option (Text × Text)
read_full zero input = some ([], input)
read_full (suc n) [] = none
read_full (suc n) (c ∷ cs) = with_head c (read_full n cs)

-- What was sent is read.
pub read_full-append : (xs rest : Text) → read_full (length xs) (xs ++ rest) ≡ some (xs, rest)
unfolding read_full
read_full-append [] rest = refl
read_full-append (x ∷ xs) rest = rw (read_full-append xs rest) refl

-- What is read was sent.
pub read_full-sent :
    (n : ℕ) (input xs rest : Text)
    → read_full n input ≡ some (xs, rest)
    → (input ≡ xs ++ rest) × (length xs ≡ n)
unfolding read_full
read_full-sent zero input xs rest h = ground arith
read_full-sent (suc n) [] xs rest h = cc
read_full-sent (suc n) (c ∷ cs) xs rest h = elim (Option-cases (read_full n cs)) [
  | inl e ↦ ground arith
  | inr ((ys, tail), e) ↦
      let (a, b) = read_full-sent n cs ys tail e in let k = rw e at h in ground (arith, a, b)
]
