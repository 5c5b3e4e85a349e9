-- ===== src/ActionLog/Record.antt =====
-- The dictionaries of backend/engines/ai/action_record.py: `to_dict` and `from_dict`.
use graduationp.Prelude.{ℕ, suc, String, List, [], ◌∷◌, Option, none, some, map}
use graduationp.Prelude.Dict.{Dict, lookup}
use graduationp.Value.{Value}
use graduationp.ActionLog.{ActionType, ActionOutcome, ActionRecord, ResolutionSession, Stamp}

-- A value of one of the dictionaries.
pub data Field : Type 0 where
  null : Field
  text : String → Field
  number : ℕ → Field
  data_dict : Dict Value → Field

infixl 20 ◌>>=◌
abbrev pub ◌>>=◌ {ℓ κ} : {A : Type ℓ} {B : Type κ} → Option A → (A → Option B) → Option B
none >>= f = none
some a >>= f = f a

-- `ActionType.value` and `ActionOutcome.value`
unfoldable pub type_value : ActionType → String
type_value ActionType.explain = "explain"
type_value ActionType.scan = "scan"
type_value ActionType.check_status = "check_status"
type_value ActionType.analyze = "analyze"
type_value ActionType.recommend = "recommend"
type_value ActionType.resolve = "resolve"
type_value ActionType.info = "info"

unfoldable pub outcome_value : ActionOutcome → String
outcome_value ActionOutcome.success = "success"
outcome_value ActionOutcome.partial = "partial"
outcome_value ActionOutcome.failed = "failed"
outcome_value ActionOutcome.skipped = "skipped"
outcome_value ActionOutcome.pending = "pending"

-- `ActionType(s)` and `ActionOutcome(s)`; `none` is the ValueError
unfoldable pub type_of : String → Option ActionType
type_of s = lookup s (
    ("explain", ActionType.explain)
    ∷ ("scan", ActionType.scan)
    ∷ ("check_status", ActionType.check_status)
    ∷ ("analyze", ActionType.analyze)
    ∷ ("recommend", ActionType.recommend)
    ∷ ("resolve", ActionType.resolve)
    ∷ ("info", ActionType.info)
    ∷ [])

unfoldable pub outcome_of : String → Option ActionOutcome
outcome_of s = lookup s (
    ("success", ActionOutcome.success)
    ∷ ("partial", ActionOutcome.partial)
    ∷ ("failed", ActionOutcome.failed)
    ∷ ("skipped", ActionOutcome.skipped)
    ∷ ("pending", ActionOutcome.pending)
    ∷ [])

-- a text or None
abbrev pub text_or_null : Option String → Field
text_or_null none = null
text_or_null (some s) = text s

abbrev pub number_or_null : Option ℕ → Field
number_or_null none = null
number_or_null (some n) = number n

-- `ActionRecord.to_dict`
unfoldable pub action_to_dict : ActionRecord → Dict Field
unfolding type_value outcome_value
action_to_dict a =
    ("action_id", text a.action_id)
    ∷ ("session_id", text a.session_id)
    ∷ ("action_type", text (type_value a.action_type))
    ∷ ("description", text a.description)
    ∷ ("input_data", data_dict a.input_data)
    ∷ ("output_data", data_dict a.output_data)
    ∷ ("outcome", text (outcome_value a.outcome))
    ∷ ("timestamp", text a.timestamp)
    ∷ ("duration_ms", number a.duration_ms)
    ∷ ("error", text_or_null a.error)
    ∷ []

-- `data.get(k, default)` for the fields of each type. A value of another type, which the program
-- would keep as it is, has no place in a record of the model: it is `none`.
abbrev as_text : String → Option Field → Option String
as_text default none = some default
as_text default (some (text s)) = some s
as_text default (some _) = none

abbrev as_number : ℕ → Option Field → Option ℕ
as_number default none = some default
as_number default (some (number n)) = some n
as_number default (some _) = none

abbrev as_data : Option Field → Option (Dict Value)
as_data none = some []
as_data (some (data_dict d)) = some d
as_data (some _) = none

abbrev pub as_text_or_null : Option Field → Option (Option String)
as_text_or_null none = some none
as_text_or_null (some null) = some none
as_text_or_null (some (text s)) = some (some s)
as_text_or_null (some _) = none

abbrev pub as_number_or_null : Option Field → Option (Option ℕ)
as_number_or_null none = some none
as_number_or_null (some null) = some none
as_number_or_null (some (number n)) = some (some n)
as_number_or_null (some _) = none

-- `ActionRecord.from_dict`
unfoldable pub action_from_dict : Stamp → Dict Field → Option ActionRecord
action_from_dict stamp d = do
  action_id ← as_text stamp.new_id (lookup "action_id" d)
  session_id ← as_text "" (lookup "session_id" d)
  type_text ← as_text "info" (lookup "action_type" d)
  action_type ← type_of type_text
  description ← as_text "" (lookup "description" d)
  input_data ← as_data (lookup "input_data" d)
  output_data ← as_data (lookup "output_data" d)
  outcome_text ← as_text "pending" (lookup "outcome" d)
  outcome ← outcome_of outcome_text
  timestamp ← as_text stamp.now (lookup "timestamp" d)
  duration_ms ← as_number 0 (lookup "duration_ms" d)
  error ← as_text_or_null (lookup "error" d)
  some (record {
    action_id = action_id;
    session_id = session_id;
    action_type = action_type;
    description = description;
    input_data = input_data;
    output_data = output_data;
    outcome = outcome;
    timestamp = timestamp;
    duration_ms = duration_ms;
    error = error;
  })

-- A session as a dictionary: its plain fields, and the dictionaries under "actions".
pub record SessionDict : Type 0 where
  pub fields : Dict Field
  pub actions : List (Dict Field)

-- `ResolutionSession.to_dict`
unfoldable pub session_to_dict : ResolutionSession → SessionDict
session_to_dict s = record {
  fields =
      ("session_id", text s.session_id)
      ∷ ("event_id", number_or_null s.event_id)
      ∷ ("event_source", text_or_null s.event_source)
      ∷ ("event_summary", text_or_null s.event_summary)
      ∷ ("started_at", text s.started_at)
      ∷ ("ended_at", text_or_null s.ended_at)
      ∷ ("status", text s.status)
      ∷ ("summary", text s.summary)
      ∷ [];
  actions = map action_to_dict s.actions;
}

-- `[ActionRecord.from_dict(a) for a in ...]`; the n-th action takes what is missing from the n-th
-- stamp
unfoldable pub actions_from : (ℕ → Stamp) → ℕ → List (Dict Field) → Option (List ActionRecord)
actions_from stamps n [] = some []
actions_from stamps n (d ∷ ds) = do
  a ← action_from_dict (stamps n) d
  rest ← actions_from stamps (suc n) ds
  some (a ∷ rest)

-- `ResolutionSession.from_dict`; an exception is `none`
unfoldable pub session_from_dict : Stamp → (ℕ → Stamp) → SessionDict → Option ResolutionSession
session_from_dict stamp stamps d = do
  session_id ← as_text stamp.new_id (lookup "session_id" d.fields)
  event_id ← as_number_or_null (lookup "event_id" d.fields)
  event_source ← as_text_or_null (lookup "event_source" d.fields)
  event_summary ← as_text_or_null (lookup "event_summary" d.fields)
  started_at ← as_text stamp.now (lookup "started_at" d.fields)
  ended_at ← as_text_or_null (lookup "ended_at" d.fields)
  status ← as_text "in_progress" (lookup "status" d.fields)
  summary ← as_text "" (lookup "summary" d.fields)
  actions ← actions_from stamps 0 d.actions
  some (record {
    session_id = session_id;
    event_id = event_id;
    event_source = event_source;
    event_summary = event_summary;
    started_at = started_at;
    ended_at = ended_at;
    status = status;
    actions = actions;
    summary = summary;
  })
