-- ===== src/Ai/Agent.antt =====
-- app/cloudflare_ai/agent.py, `Agent.run`: rounds of tool calls, and the final answer. What the provider
-- answers to a request is an argument, by the number of the request, its kind and the messages; so are
-- the tools. Numbers of neurons are whole ones.
pub mod Ends
use telegram_auto.Prelude.{
  ℕ, zero, suc, ◌+◌, Bool, true, false, not, ◌&&◌, ◌||◌, Option, none, some, List, [], ◌∷◌, ◌++◌,
  map, Text, codes, ◌==◌, nat_eq, text_eq, if◌then◌else◌, take, length, find?, any,
}
use telegram_auto.Prelude.Strip.{strip, is_empty}
use telegram_auto.Ai.Json.{
  Json, null, text, other, array, object, Fields, Decoder, get_field, parse_json_object,
  coerce_arguments, salvage_tool_calls,
}

-- a call among the `tool_calls` of a reply: its id and its name, empty where they are missing
pub record RawCall : Type 0 where
  pub id : Text
  pub name : Text
  pub arguments : Json

pub record ChatResult : Type 0 where
  pub content : Text
  pub tool_calls : List RawCall
  pub neurons : ℕ
  pub model : Text
  pub account_name : Text

-- what `chat` returns or raises
pub data Reply : Type 0 where
  answered : ChatResult → Reply
  no_accounts : Text → Reply
  quota_exhausted : Text → Reply
  json_unsupported : Text → Reply
  provider_failed : Text → Reply

pub record ToolCall : Type 0 where
  pub name : Text
  pub arguments : Fields
  pub salvaged : Bool

pub record Invocation : Type 0 where
  pub call : ToolCall
  pub ok : Bool
  pub result : Text
  pub error : Text

pub data Message : Type 0 where
  system : Text → Message
  user : Text → Message
  assistant : Text → List ToolCall → Message
  tool_result : Text → Text → Message

pub data Kind : Type 0 where
  with_tools : Kind
  json_mode : Kind
  plain : Kind

pub data Outcome : Type 0 where
  output : Text → Outcome
  raised : Text → Outcome

-- a tool, with the text of its output
pub record Tool : Type 0 where
  pub name : Text
  pub handler : Fields → Outcome

-- the settings of an agent, with the keys that the schema of the answer requires
pub record Config : Type 0 where
  pub system_prompt : Text
  -- of different names, as in a dict
  pub tools : List Tool
  pub max_tool_rounds : ℕ
  pub has_schema : Bool
  pub required : List Text
  -- the message that asks for JSON without JSON mode
  pub json_prompt : Text
  pub loads : Decoder

pub record Progress : Type 0 where
  pub messages : List Message
  pub neurons : ℕ
  pub model : Text
  pub account_name : Text
  pub invocations : List Invocation
  pub rounds : ℕ
  -- how often the provider was asked
  pub asked : ℕ

abbrev pub Provider : Type 0
Provider = ℕ → Kind → List Message → Reply

-- what `run_tool` makes of a tool's outcome
unfoldable pub invocation_of : ToolCall → Outcome → Invocation
invocation_of c (output s) = record { call = c; ok = true; result = take 4000 s; error = [] }
invocation_of c (raised e) = record { call = c; ok = false; result = []; error = take 200 e }

unfoldable pub run_tool : Config → ToolCall → Invocation
unfolding invocation_of find? text_eq
run_tool cfg c = elim (find? (λ (t : Tool). t.name == c.name) cfg.tools) [
  | none ↦ record { call = c; ok = false; result = []; error = codes "unknown tool" }
  | some t ↦ invocation_of c (t.handler c.arguments)
]

-- the calls of a reply that have a name
unfoldable pub named_calls : Decoder → List RawCall → List ToolCall
unfolding strip is_empty coerce_arguments
named_calls loads [] = []
named_calls loads (c ∷ calls) =
    let rest = named_calls loads calls in
    if is_empty (strip c.name)
    then rest
    else record {
      name = strip c.name;
      arguments = coerce_arguments loads c.arguments;
      salvaged = false;
    }
      ∷ rest

abbrev salvaged_calls : List (Text × Fields) → List ToolCall
salvaged_calls [] = []
salvaged_calls ((name, arguments) ∷ calls) =
    record { name = name; arguments = arguments; salvaged = true } ∷ salvaged_calls calls

-- `_normalized_calls`, without the ids
unfoldable pub normalized_calls : Config → ChatResult → List ToolCall
unfolding named_calls salvage_tool_calls
normalized_calls cfg r = elim (named_calls cfg.loads r.tool_calls) [
  | c ∷ calls ↦ c ∷ calls
  | [] ↦
      salvaged_calls (salvage_tool_calls cfg.loads r.content (map (λ (t : Tool). t.name) cfg.tools))
]

abbrev reply_text : Invocation → Text
reply_text i = if i.ok then i.result else codes "error: " ++ i.error

-- `_track`
unfoldable pub track : ChatResult → Progress → Progress
track r s = record s {
  neurons = s.neurons + r.neurons;
  model = r.model;
  account_name = r.account_name;
}

unfoldable pub invoke : Config → ToolCall → Progress → Progress
unfolding run_tool
invoke cfg c s =
    let i = run_tool cfg c in
    record s {
      invocations = s.invocations ++ i ∷ [];
      messages = s.messages ++ tool_result c.name (reply_text i) ∷ [];
    }

unfoldable pub invoke_all : Config → List ToolCall → Progress → Progress
unfolding invoke
invoke_all cfg [] s = s
invoke_all cfg (c ∷ calls) s = invoke_all cfg calls (invoke cfg c s)

-- an answer, or an exception with its text
pub data Reason : Type 0 where
  for_accounts : Reason
  for_quota : Reason
  for_provider : Reason
  empty_response : Reason
  bad_json : Reason

pub data Asked : Type 0 where
  got : ChatResult → Asked
  stopped : Reason → Text → Asked

-- the `except` clauses of `run`
unfoldable pub read_reply : Reply → Asked
read_reply (answered r) = got r
read_reply (no_accounts e) = stopped for_accounts e
read_reply (quota_exhausted e) = stopped for_quota e
read_reply (json_unsupported e) = stopped for_provider e
read_reply (provider_failed e) = stopped for_provider e

unfoldable pub count_request : Progress → Progress
count_request s = record s { asked = suc s.asked }

-- how the rounds end: with a direct answer or without one, or with an exception
pub data RoundsEnd : Type 0 where
  direct : Option ChatResult → RoundsEnd
  failed : Reason → Text → RoundsEnd

unfoldable pub next_round : Config → ChatResult → List ToolCall → Progress → Progress
unfolding invoke_all
next_round cfg r calls s =
    invoke_all cfg calls
      (record s { rounds = suc s.rounds; messages = s.messages ++ assistant r.content calls ∷ [] })

-- The loop, by the rounds that are left.
unfoldable pub tool_rounds : Provider → Config → ℕ → Progress → RoundsEnd × Progress
unfolding read_reply count_request track normalized_calls next_round is_empty
tool_rounds ask cfg zero s = (direct none, s)
tool_rounds ask cfg (suc n) s = elim (read_reply (ask s.asked with_tools s.messages)) [
  | stopped reason e ↦ (failed reason e, count_request s)
  | got r ↦
      let s' = track r (count_request s) in
      elim (normalized_calls cfg r) [
        | c ∷ calls ↦ tool_rounds ask cfg n (next_round cfg r (c ∷ calls) s')
        | [] ↦
            (if is_empty r.content then (direct none, s') else (
              direct (some r),
              record s' { messages = s'.messages ++ assistant r.content [] ∷ [] },
            ))
      ]
]

-- the last request of `_finalize`
unfoldable pub ask_plain : Provider → Progress → Asked × Progress
unfolding read_reply count_request track
ask_plain ask s = elim (read_reply (ask s.asked plain s.messages)) [
  | stopped reason e ↦ (stopped reason e, count_request s)
  | got r ↦ (got r, track r (count_request s))
]

-- what follows the request in JSON mode
unfoldable pub after_json : Provider → Config → Reply → Progress → (Asked × Bool) × Progress
unfolding ask_plain
after_json ask cfg (json_unsupported e) s =
    let (a, s') =
      ask_plain ask (record s { messages = s.messages ++ system cfg.json_prompt ∷ [] }) in
    ((a, false), s')
after_json ask cfg (answered r) s = ((got r, true), track r s)
after_json ask cfg (no_accounts e) s = ((stopped for_accounts e, true), s)
after_json ask cfg (quota_exhausted e) s = ((stopped for_quota e, true), s)
after_json ask cfg (provider_failed e) s = ((stopped for_provider e, true), s)

-- `_finalize`
unfoldable pub finalize : Provider → Config → Progress → (Asked × Bool) × Progress
unfolding after_json
finalize ask cfg s =
    if cfg.has_schema
    then after_json ask cfg (ask s.asked json_mode s.messages) (count_request s)
    else let (a, s') = ask_plain ask s in ((a, false), s')

abbrev is_missing : Text → Fields → Bool
is_missing key fields = elim (get_field key fields) [ none ↦ true | some v ↦ false ]

-- `_satisfies_schema`
unfoldable pub satisfies_schema : Config → Text → Bool
unfolding parse_json_object get_field any
satisfies_schema cfg content = elim (parse_json_object cfg.loads content) [
  | array items ↦ cfg.has_schema && length cfg.required == 0
  | object fields ↦ cfg.has_schema && not (any (λ key. is_missing key fields) cfg.required)
  | _ ↦ false
]

pub record AgentResult : Type 0 where
  pub ok : Bool
  -- `none` for "ok"
  pub reason : Option Reason
  pub content : Text
  pub value : Json
  pub error : Text
  pub used_json_mode : Bool
  -- the model, the account, the neurons, the rounds and the invocations
  pub progress : Progress

-- `_failure`
unfoldable pub failure : Reason → Text → Progress → AgentResult
failure reason e s = record {
  ok = false;
  reason = some reason;
  content = [];
  value = null;
  error = take 300 e;
  used_json_mode = false;
  progress = s;
}

abbrev pub is_null : Json → Bool
is_null null = true
is_null _ = false

-- from the final answer on
unfoldable pub conclude : Config → ChatResult → Bool → Progress → AgentResult
unfolding failure parse_json_object strip is_empty
conclude cfg final used_json_mode s =
    let content = strip final.content in
    let value = if cfg.has_schema then parse_json_object cfg.loads content else null in
    if is_empty content
    then failure empty_response (codes "model returned no content") s
    else if cfg.has_schema && is_null value
    then failure bad_json (codes "model output was not valid JSON") s
    else record {
      ok = true;
      reason = none;
      content = content;
      value = value;
      error = [];
      used_json_mode = used_json_mode;
      progress = s;
    }

unfoldable pub conclude_asked : Config → (Asked × Bool) × Progress → AgentResult
unfolding conclude
conclude_asked cfg ((got r, used_json_mode), s) = conclude cfg r used_json_mode s
conclude_asked cfg ((stopped reason e, used_json_mode), s) = failure reason e s

-- what follows the rounds
unfoldable pub after_rounds : Provider → Config → RoundsEnd × Progress → AgentResult
unfolding finalize conclude_asked satisfies_schema
after_rounds ask cfg (failed reason e, s) = failure reason e s
after_rounds ask cfg (direct none, s) = conclude_asked cfg (finalize ask cfg s)
after_rounds ask cfg (direct (some r), s) =
    if not cfg.has_schema || satisfies_schema cfg r.content
    then conclude cfg r false s
    else conclude_asked cfg (finalize ask cfg s)

abbrev pub start : Config → Text → Progress
start cfg prompt = record {
  messages = system cfg.system_prompt ∷ user prompt ∷ [];
  neurons = 0;
  model = [];
  account_name = [];
  invocations = [];
  rounds = 0;
  asked = 0;
}

-- `Agent.run`
unfoldable pub run : Provider → Config → Text → AgentResult
unfolding tool_rounds after_rounds
run ask cfg prompt =
    let rounds = if length cfg.tools == 0 then 0 else cfg.max_tool_rounds in
    after_rounds ask cfg (tool_rounds ask cfg rounds (start cfg prompt))
