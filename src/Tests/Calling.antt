-- ===== src/Tests/Calling.antt =====
-- An agent whose model calls a tool as plain text in a fence, and then answers.
use telegram_auto.Prelude.{
  ℕ, ◌≡◌, refl, Bool, true, none, some, [], ◌∷◌, Text, codes, ◌==◌, nat_eq, text_eq, if◌then◌else◌,
  contains, find?, any,
}
use telegram_auto.Prelude.Strip.{strip, lstrip, is_space, is_empty}
use telegram_auto.Prelude.Parse.{lower}
use telegram_auto.Prelude.Search.{starts_with}
use telegram_auto.Ai.Json.{
  null, text, object, no_fields, field, Decoder, get_field, before_fence, unfenced, find_char,
  rfind_char, load_between, parse_json_object, coerce_arguments, arguments_of, function_block,
  name_of, salvage_one, salvage_items, salvage_tool_calls,
}
use telegram_auto.Ai.Agent.{
  ChatResult, answered, Provider, output, Config, invocation_of, run_tool, named_calls,
  normalized_calls, track, invoke, invoke_all, read_reply, count_request, next_round, tool_rounds,
  ask_plain, after_json, finalize, satisfies_schema, AgentResult, failure, conclude, conclude_asked,
  after_rounds, run,
}
use telegram_auto.Ai.Agent.Ends.{EndsWithin, run-Ends}

program : Unit {0}
unfolding any find? contains nat_eq text_eq strip lstrip is_space is_empty lower starts_with
    get_field before_fence unfenced find_char rfind_char load_between parse_json_object
    coerce_arguments arguments_of function_block name_of salvage_one salvage_items
    salvage_tool_calls invocation_of run_tool named_calls normalized_calls track invoke invoke_all
    read_reply count_request next_round tool_rounds ask_plain after_json finalize satisfies_schema
    failure conclude conclude_asked after_rounds run
program = tt

-- a decoder that knows two texts
abbrev loads : Decoder
loads s =
    if s == codes "{call}"
    then some (object (field (codes "name") (text (codes "find")) no_fields))
    else if s == codes "{answer}"
    then some (object (field (codes "refs") null no_fields))
    else none

abbrev reply : Text → ChatResult
reply content = record {
  content = content;
  tool_calls = [];
  neurons = 3;
  model = codes "m";
  account_name = codes "a";
}

abbrev provider : Provider
provider n kind messages =
    if n == 0
    then answered (reply (codes "```json {call}```"))
    else answered (reply (codes "It is {answer}."))

abbrev config : Config
config = record {
  system_prompt = codes "help";
  tools = record { name = codes "find"; handler = λ fields. output (codes "found") } ∷ [];
  max_tool_rounds = 4;
  has_schema = true;
  required = codes "refs" ∷ [];
  json_prompt = codes "json";
  loads = loads;
}

-- whether it went well, with the requests, the rounds and the neurons
abbrev summary : AgentResult → Bool × ℕ × ℕ × ℕ
summary x = (x.ok, x.progress.asked, x.progress.rounds, x.progress.neurons)

run-provider : summary (run provider config (codes "go")) ≡ (true, 2, 1, 6)
unfolding program
run-provider = refl

-- A text whose fence is closed is read up to the fence.
unfenced-json : unfenced (codes "```json {call}``` and more") ≡ codes "{call}"
unfolding program
unfenced-json = refl

run-Ends_example : EndsWithin config 6 4 (run provider config (codes "go"))
run-Ends_example = run-Ends provider config (codes "go")
