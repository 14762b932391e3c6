-- ===== src/Manager/ExitLookup.antt =====
-- manager.go: what `lookupExitInfo` makes of the answers of the two services that describe an address,
-- `queryIPAPI` and `queryIPWho`. The replies, with what the decoder made of their bodies, are
-- arguments.
use tor_country_manager.Shared.{
  ℕ, zero, suc, Bool, not, ◌||◌, ◌&&◌, [], ◌++◌, Option, none, some, if◌then◌else◌, ◌==◌, ◌≡◌,
  arith,
}
use tor_country_manager.Shared.Text.{Text, text, is_empty, decimal}
use tor_country_manager.Shared.Int.{ℤ, pos, negsuc}
use tor_country_manager.Manager.Ready.{ExitInfo}

-- The bodies that are read.
pub record IpApiResult : Type 0 where
  pub is_error : Bool
  pub described : ExitInfo

pub record IpWhoResult : Type 0 where
  pub success : Bool
  pub country : Text
  pub country_code : Text
  pub city : Text
  pub asn : ℤ
  pub org : Text
  pub isp : Text

-- No reply, or a status with a body, `none` if it cannot be decoded.
pub data Reply {ℓ} (A : Type ℓ) : Type ℓ where
  unreached : Reply A
  replied : (status : ℕ) (body : Option A) → Reply A

-- Something is known of the operator.
abbrev if_known : ExitInfo → Option ExitInfo
if_known i = if is_empty i.org && is_empty i.asn then none else some i

unfoldable pub query_ip_api : Reply IpApiResult → Option ExitInfo
query_ip_api unreached = none
query_ip_api (replied status none) = none
query_ip_api (replied status (some r)) =
    if not (status == 200) || r.is_error then none else if_known r.described

-- `AS` and the number, if it is positive.
unfoldable asn_text : ℤ → Text
unfolding decimal
asn_text (pos zero) = []
asn_text (pos (suc n)) = text "AS" ++ decimal (suc n)
asn_text (negsuc n) = []

unfoldable pub query_ip_who : Reply IpWhoResult → Option ExitInfo
unfolding asn_text
query_ip_who unreached = none
query_ip_who (replied status none) = none
query_ip_who (replied status (some r)) =
    if not (status == 200) || not r.success
    then none
    else if_known (record {
      asn = asn_text r.asn;
      org = if is_empty r.isp then r.org else r.isp;
      country_name = r.country;
      country_code = r.country_code;
      city = r.city;
    })

-- The replies of both services to each attempt.
pub record ExitReplies : Type 0 where
  pub api : ℕ → Reply IpApiResult
  pub who : ℕ → Reply IpWhoResult

-- One attempt: the second service is asked if the first one does not know.
unfoldable pub attempt_lookup : Option ExitInfo → Option ExitInfo → Option ExitInfo
attempt_lookup (some i) other = some i
attempt_lookup none other = other

unfoldable pub lookup_loop : (left n : ℕ) → ExitReplies → Option ExitInfo
unfolding attempt_lookup query_ip_api query_ip_who
lookup_loop zero n r = none
lookup_loop (suc left) n r =
    let later = lookup_loop left (suc n) r in
    attempt_lookup (attempt_lookup (query_ip_api (r.api n)) (query_ip_who (r.who n))) later

-- What `lookupExitInfo` stores: `parsed` is the address as `net.ParseIP` prints it.
unfoldable pub find_exit_info : (parsed : Option Text) → ExitReplies → Option ExitInfo
unfolding lookup_loop
find_exit_info none r = none
find_exit_info (some ip) r = lookup_loop 3 0 r

-- If nothing is found for an address, then neither service knew the operator at any of the three attempts.
pub find_exit_info-none :
    (ip : Text) (r : ExitReplies)
    → find_exit_info (some ip) r ≡ none
    → ((query_ip_api (r.api 0) ≡ none) × (query_ip_who (r.who 0) ≡ none))
      × ((query_ip_api (r.api 1) ≡ none) × (query_ip_who (r.who 1) ≡ none))
      × ((query_ip_api (r.api 2) ≡ none) × (query_ip_who (r.who 2) ≡ none))
unfolding find_exit_info lookup_loop attempt_lookup
find_exit_info-none ip r h = ground (arith, h)
