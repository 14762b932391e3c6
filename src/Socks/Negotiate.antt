-- ===== src/Socks/Negotiate.antt =====
-- client_routes.go: `negotiateClientAuth`, on what the client sends. The first write goes through if
-- `sends`; the others' outcome does not matter to the code.
use tor_country_manager.Shared.{
  Bool, true, false, ◌||◌, ◌&&◌, not, [], ◌∷◌, ◌++◌, Option, none, some, ◌==◌, if◌then◌else◌,
  length,
}
use tor_country_manager.Shared.Text.{Text, same, has_byte}
use tor_country_manager.Socks.Stream.{read_full}

-- The answer, what was written to the client and what is left to read.
pub record Negotiated : Type 0 where
  pub accepted : Bool
  pub written : Text
  pub rest : Text

abbrev refuse : (written : Text) → Negotiated
refuse written = record { accepted = false; written = written; rest = [] }

-- `subtle.ConstantTimeCompare` on texts of one length is equality.
unfoldable pub constant_time_equal : Text → Text → Bool
constant_time_equal value expected =
    if not (length value == length expected) then false else same value expected

module _ (sends : Bool) (expected_username expected_password : Text) where
  abbrev chosen : Text
  chosen = 5 ∷ 2 ∷ []

  unfoldable pub judge : (username : Text) → Option (Text × Text) → Negotiated
  unfolding constant_time_equal
  judge username none = refuse chosen
  judge username (some (password, rest)) =
      if constant_time_equal username expected_username
        && constant_time_equal password expected_password
      then record { accepted = true; written = chosen; rest = rest }
      else record { accepted = false; written = chosen ++ (1 ∷ 1 ∷ []); rest = rest }

  unfoldable pub read_password : Option (Text × Text) → Negotiated
  unfolding judge
  read_password none = refuse chosen
  read_password (some (username, [])) = refuse chosen
  read_password (some (username, n ∷ rest)) =
      if n == 0 then refuse chosen else judge username (read_full n rest)

  unfoldable pub read_username : Text → Negotiated
  unfolding read_password
  read_username (v ∷ n ∷ rest) =
      if not (v == 1) || n == 0 then refuse chosen else read_password (read_full n rest)
  read_username _ = refuse chosen

  unfoldable pub choose_method : Option (Text × Text) → Negotiated
  unfolding read_username
  choose_method none = refuse []
  choose_method (some (methods, rest)) =
      if not (has_byte 2 methods)
      then refuse (5 ∷ 255 ∷ [])
      else if sends
      then read_username rest
      else refuse []

  unfoldable pub negotiate_client_auth : Text → Negotiated
  unfolding choose_method
  negotiate_client_auth (v ∷ n ∷ rest) =
      if not (v == 5) || n == 0 then refuse [] else choose_method (read_full n rest)
  negotiate_client_auth _ = refuse []
