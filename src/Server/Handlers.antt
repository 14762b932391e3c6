-- ===== src/Server/Handlers.antt =====
-- main.go: the handlers, by what they are about, and what they share.
pub mod Account
pub mod Options
pub mod Countries
pub mod Clients
use tor_country_manager.Shared.{
  ℕ, Bool, true, false, not, List, [], ◌∷◌, Option, none, some, ◌⊎◌, inl, inr, if◌then◌else◌, take,
}
use tor_country_manager.Shared.Text.{Text}
use tor_country_manager.Server.State.{
  Server, Request, Response, Content, failure, ServerError, invalid_json, not_one_value,
}

abbrev pub respond : ℕ → Content → Response
respond status content = record { status = status; content = content; session_cookie = none }

abbrev pub write_error : ServerError → Response
write_error e = respond 400 (failure e)

-- `decodeJSON`, with the limit of 64 KiB: one value and nothing after it.
abbrev pub one_value {ℓ} : {A : Type ℓ} → (Text → Bool) → Option (A × Text) → ServerError ⊎ A
one_value is_end none = inl invalid_json
one_value is_end (some (value, rest)) = if not (is_end rest) then inl not_one_value else inr value

abbrev pub decode_json {ℓ} :
    {A : Type ℓ} → (Text → Option (A × Text)) → (Text → Bool) → Request → ServerError ⊎ A
decode_json decode is_end r = one_value is_end (decode (take 65536 r.body))
