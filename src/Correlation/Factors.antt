-- ===== src/Correlation/Factors.antt =====
-- The context factors of backend/engines/ai/knowledge/soc_correlation.py. A test that raises is
-- `none`: `.lower()` and `.startswith` of a value that is no text.
use graduationp.Prelude.{
  ℕ, Bool, false, ◌||◌, not, String, ◌==◌, List, [], ◌∷◌, Option, none, some, lower, contains_text,
  starts_with, any, if◌then◌else◌,
}
use graduationp.Prelude.Dict.{Dict, lookup}
use graduationp.Value.{Value, truthy, to_str}
use graduationp.Correlation.{Event}

-- `event.get("fields", {}).get(k, "")`
unfoldable pub field_of : String → Event → Value
unfolding lookup
field_of k event = elim (lookup k event.fields) [ none ↦ Value.text "" | some v ↦ v ]

-- The additional context, which is empty where there is none.
abbrev pub Context : Type 0
Context = Dict Value

-- A factor; an empty list of events means all.
pub record ContextFactor : Type 0 where
  pub name : String
  pub description : String
  pub score_adjustment : ℕ
  pub applies_to_events : List ℕ
  pub matches : Event → Context → Option Bool

-- `NetworkLoginFactor.matches`
unfoldable pub network_login : Event → Context → Option Bool
unfolding field_of
network_login event context = some (to_str (field_of "LogonType" event) == "3")

unfoldable pub first_user : Event → Value
unfolding field_of
first_user event =
    let target = field_of "TargetUserName" event in
    if truthy target then target else field_of "SubjectUserName" event

-- whether the name is one of an administrator
unfoldable pub is_admin : Value → Option Bool
is_admin (Value.text s) =
    let username = lower s in some (contains_text "admin" username || username == "administrator")
is_admin _ = none

-- `AdminAccountFactor.matches`
unfoldable pub admin_account : Event → Context → Option Bool
admin_account event context = is_admin (first_user event)

-- `AfterHoursFactor.matches`
unfoldable pub after_hours : Event → Context → Option Bool
unfolding lookup
after_hours event context =
    some (elim (lookup "is_after_hours" context) [ none ↦ false | some v ↦ truthy v ])

abbrev private_prefixes : List String
private_prefixes =
    "10." ∷ "192.168." ∷ "172.16." ∷ "172.17." ∷ "172.18." ∷ "172.19." ∷ "172.2" ∷ "172.30."
    ∷ "172.31." ∷ []

unfoldable pub is_public : Value → Option Bool
unfolding starts_with
is_public (Value.text ip) = some (
    if ip == "" || ip == "-" || ip == "127.0.0.1"
    then false
    else not (any (λ p. starts_with ip p) private_prefixes))
is_public v = if truthy v then none else some false

-- `ExternalIPFactor.matches`
unfoldable pub external_ip : Event → Context → Option Bool
external_ip event context = is_public (field_of "IpAddress" event)

abbrev pub network_login_factor : ContextFactor
network_login_factor = record {
  name = "Network Login";
  description = "Failed network login - possible remote attack";
  score_adjustment = 15;
  applies_to_events = 4625 ∷ [];
  matches = network_login;
}

abbrev pub admin_account_factor : ContextFactor
admin_account_factor = record {
  name = "Admin Account";
  description = "Activity involves administrator account";
  score_adjustment = 10;
  applies_to_events = [];
  matches = admin_account;
}

abbrev pub after_hours_factor : ContextFactor
after_hours_factor = record {
  name = "After Hours";
  description = "Activity occurred outside normal business hours";
  score_adjustment = 10;
  applies_to_events = 4624 ∷ 4625 ∷ 4648 ∷ 7045 ∷ [];
  matches = after_hours;
}

abbrev pub external_ip_factor : ContextFactor
external_ip_factor = record {
  name = "External IP";
  description = "Login from external/public IP address";
  score_adjustment = 20;
  applies_to_events = 4624 ∷ 4625 ∷ [];
  matches = external_ip;
}

abbrev pub context_factors : List ContextFactor
context_factors =
    network_login_factor ∷ admin_account_factor ∷ after_hours_factor ∷ external_ip_factor ∷ []
