-- ===== src/Ai/Agent/Ends.antt =====
-- The number of requests of a run, and how it ends (app/cloudflare_ai/agent.py).
use telegram_auto.Prelude.{
  ℕ, zero, suc, ◌+◌, ◌≤◌, ◌≡◌, refl, ap, Bool, true, false, not, ◌&&◌, ◌||◌, Option, none, some,
  List, [], ◌∷◌, ◌++◌, Text, ◌==◌, nat_eq, if◌then◌else◌, length, arith, inl, inr, Bool-cases, ◌⊎◌,
}
use telegram_auto.Prelude.Strip.{strip, is_empty}
use telegram_auto.Ai.Json.{null, parse_json_object}
use telegram_auto.Ai.Agent.{
  ChatResult, Reply, answered, no_accounts, quota_exhausted, json_unsupported, provider_failed,
  ToolCall, Config, Progress, Provider, normalized_calls, track, invoke, invoke_all, Asked, got,
  stopped, read_reply, count_request, RoundsEnd, direct, failed, next_round, tool_rounds, ask_plain,
  after_json, finalize, satisfies_schema, AgentResult, failure, is_null, conclude, conclude_asked,
  after_rounds, start, run, Reason, with_tools, plain, json_mode, assistant, system,
}

abbrev pub is_none : Option Reason → Bool
is_none none = true
is_none (some x) = false

-- Tool calls ask the provider nothing.
invoke_all-asked :
    (cfg : Config) (calls : List ToolCall) (s : Progress)
    → ((invoke_all cfg calls s).asked ≡ s.asked) × ((invoke_all cfg calls s).rounds ≡ s.rounds)
unfolding invoke_all invoke
invoke_all-asked cfg [] s = (refl, refl)
invoke_all-asked cfg (c ∷ calls) s = invoke_all-asked cfg calls (invoke cfg c s)

-- the bounds on the requests and the rounds
abbrev Within : ℕ → Progress → Progress → Type 0
Within n s t = (t.asked ≤ s.asked + n) × (t.rounds ≤ s.rounds + n)

Asked-cases :
    (a : Asked) → ((x : Reason × Text) × (a ≡ stopped x.0 x.1)) ⊎ ((r : ChatResult) × (a ≡ got r))
Asked-cases (got r) = inr (r, refl)
Asked-cases (stopped x e) = inl ((x, e), refl)

List-cases :
    (xs : List ToolCall) → (xs ≡ []) ⊎ ((c : ToolCall) × (cs : List ToolCall) × (xs ≡ c ∷ cs))
List-cases [] = inl refl
List-cases (c ∷ cs) = inr (c, cs, refl)

tool_rounds-Within :
    (ask : Provider) (cfg : Config) (n : ℕ) (s : Progress) → Within n s (tool_rounds ask cfg n s).1
unfolding tool_rounds track count_request next_round
tool_rounds-Within ask cfg zero s = (omega arith, omega arith)
tool_rounds-Within ask cfg (suc n) s =
    elim (Asked-cases (read_reply (ask s.asked with_tools s.messages))) [
      | inl (x, e) ↦ rw (e, tool_rounds) (omega arith, omega arith)
      | inr (r, e) ↦
          let s' = track r (count_request s) in
          elim (List-cases (normalized_calls cfg r)) [
            | inl none_ ↦ elim (Bool-cases (is_empty r.content)) [
              | inl blank ↦ rw (e, none_, blank, tool_rounds) (omega arith, omega arith)
              | inr more ↦ rw (e, none_, more, tool_rounds) (omega arith, omega arith)
            ]
            | inr (c, cs, some_) ↦
                let t = next_round cfg r (c ∷ cs) s' in
                let rest = tool_rounds-Within ask cfg n t in
                let kept = invoke_all-asked cfg (c ∷ cs) (record s' {
                  rounds = suc s'.rounds;
                  messages = s'.messages ++ assistant r.content (c ∷ cs) ∷ [];
                }) in
                rw (e, some_, tool_rounds)
                  (omega (arith, rest.0, kept.0), omega (arith, rest.1, kept.1))
          ]
    ]

ask_plain-asked :
    (ask : Provider) (s : Progress)
    → ((ask_plain ask s).1.asked ≡ suc s.asked) × ((ask_plain ask s).1.rounds ≡ s.rounds)
unfolding ask_plain track count_request
ask_plain-asked ask s = elim (Asked-cases (read_reply (ask s.asked plain s.messages))) [
  | inl (x, e) ↦ rw (e, ask_plain) (refl, refl)
  | inr (r, e) ↦ rw (e, ask_plain) (refl, refl)
]

after_json-asked :
    (ask : Provider) (cfg : Config) (reply : Reply) (s : Progress)
    → ((after_json ask cfg reply s).1.asked ≤ suc s.asked)
      × ((after_json ask cfg reply s).1.rounds ≡ s.rounds)
unfolding after_json track
after_json-asked ask cfg (json_unsupported e) s =
    let p =
      ask_plain-asked ask (record s { messages = s.messages ++ system cfg.json_prompt ∷ [] }) in
    (omega (arith, p.0), p.1)
after_json-asked ask cfg (answered r) s = (omega arith, refl)
after_json-asked ask cfg (no_accounts e) s = (omega arith, refl)
after_json-asked ask cfg (quota_exhausted e) s = (omega arith, refl)
after_json-asked ask cfg (provider_failed e) s = (omega arith, refl)

finalize-asked :
    (ask : Provider) (cfg : Config) (s : Progress)
    → ((finalize ask cfg s).1.asked ≤ s.asked + 2) × ((finalize ask cfg s).1.rounds ≡ s.rounds)
unfolding finalize count_request
finalize-asked ask cfg s =
    let j = after_json-asked ask cfg (ask s.asked json_mode s.messages) (count_request s) in
    let p = ask_plain-asked ask s in
    elim (Bool-cases cfg.has_schema) [
      | inl schema ↦ simp schema (omega (arith, j.0), j.1)
      | inr free ↦ simp free (omega (arith, p.0), p.1)
    ]

-- What a result promises: an answer has content, and a value where there is a schema; a failure has a
-- reason.
abbrev pub promises : Config → AgentResult → Bool
promises cfg x =
    if x.ok
    then not (is_empty x.content) && not (cfg.has_schema && is_null x.value) && is_none x.reason
    else not (is_none x.reason)

-- A result of the progress that keeps the promise.
abbrev IsEnd : Config → Progress → AgentResult → Type 0
IsEnd cfg s x = (x.progress ≡ s) × (promises cfg x ≡ true)

failure-IsEnd : (cfg : Config) (x : Reason) (e : Text) (s : Progress) → IsEnd cfg s (failure x e s)
unfolding failure
failure-IsEnd cfg x e s = (refl, refl)

conclude-IsEnd :
    (cfg : Config) (r : ChatResult) (b : Bool) (s : Progress) → IsEnd cfg s (conclude cfg r b s)
unfolding conclude failure
conclude-IsEnd cfg r b s =
    let content = strip r.content in
    let value = if cfg.has_schema then parse_json_object cfg.loads content else null in
    elim (Bool-cases (is_empty content)) [
      | inl blank ↦ rw (blank, conclude) (refl, refl)
      | inr more ↦ elim (Bool-cases (cfg.has_schema && is_null value)) [
        | inl bad ↦ rw (more, bad, conclude) (refl, refl)
        | inr good ↦ rw (more, good, conclude) (refl, ground (arith, more, good))
      ]
    ]

conclude_asked-IsEnd :
    (cfg : Config) (a : Asked) (b : Bool) (s : Progress)
    → IsEnd cfg s (conclude_asked cfg ((a, b), s))
unfolding conclude_asked
conclude_asked-IsEnd cfg (got r) b s = conclude-IsEnd cfg r b s
conclude_asked-IsEnd cfg (stopped x e) b s = failure-IsEnd cfg x e s

-- A run ends with a result of that kind, within a number of requests and rounds.
abbrev pub EndsWithin : Config → ℕ → ℕ → AgentResult → Type 0
EndsWithin cfg n k x = (x.progress.asked ≤ n) × (x.progress.rounds ≤ k) × (promises cfg x ≡ true)

ends-of :
    (cfg : Config) (n k : ℕ) (s : Progress) (x : AgentResult)
    → s.asked ≤ n
    → s.rounds ≤ k
    → IsEnd cfg s x
    → EndsWithin cfg n k x
ends-of cfg n k s x a r e =
    let p : x.progress.asked ≡ s.asked = ap (λ (u : Progress). u.asked) e.0 in
    let q : x.progress.rounds ≡ s.rounds = ap (λ (u : Progress). u.rounds) e.0 in
    (omega (arith, a, p), omega (arith, r, q), e.1)

finalized :
    (ask : Provider) (cfg : Config) (n k : ℕ) (s : Progress)
    → s.asked ≤ n
    → s.rounds ≤ k
    → EndsWithin cfg (n + 2) k (conclude_asked cfg (finalize ask cfg s))
finalized ask cfg n k s a r =
    let (x, t) = finalize ask cfg s in
    let f = finalize-asked ask cfg s in
    ends-of cfg (n + 2) k t (conclude_asked cfg (x, t)) (omega (arith, a, f.0))
      (omega (arith, r, f.1)) (conclude_asked-IsEnd cfg x.0 x.1 t)

after_rounds-EndsWithin :
    (ask : Provider) (cfg : Config) (n k : ℕ) (end_ : RoundsEnd) (s : Progress)
    → s.asked ≤ n
    → s.rounds ≤ k
    → EndsWithin cfg (n + 2) k (after_rounds ask cfg (end_, s))
unfolding after_rounds
after_rounds-EndsWithin ask cfg n k (failed x e) s a r =
    ends-of cfg (n + 2) k s (failure x e s) (omega (arith, a)) r (failure-IsEnd cfg x e s)
after_rounds-EndsWithin ask cfg n k (direct none) s a r = finalized ask cfg n k s a r
after_rounds-EndsWithin ask cfg n k (direct (some x)) s a r =
    elim (Bool-cases (not cfg.has_schema || satisfies_schema cfg x.content)) [
      | inl fits ↦ rw fits (
          ends-of cfg (n + 2) k s (conclude cfg x false s) (omega (arith, a)) r
            (conclude-IsEnd cfg x false s))
      | inr misses ↦ rw misses (finalized ask cfg n k s a r)
    ]

-- `Agent.run` asks the provider at most two times more than there are rounds of tool calls, and makes
-- at most that many rounds, whatever the provider and the tools answer, exceptions included. It ends
-- with an answer that has content, and a value where there is a schema, or with a reason of its failure.
pub run-Ends :
    (ask : Provider) (cfg : Config) (prompt : Text)
    → EndsWithin cfg (cfg.max_tool_rounds + 2) cfg.max_tool_rounds (run ask cfg prompt)
unfolding run
run-Ends ask cfg prompt =
    let rounds = if length cfg.tools == 0 then 0 else cfg.max_tool_rounds in
    let loop = tool_rounds ask cfg rounds (start cfg prompt) in
    let w = tool_rounds-Within ask cfg rounds (start cfg prompt) in
    let few : rounds ≤ cfg.max_tool_rounds = ground arith in
    after_rounds-EndsWithin ask cfg cfg.max_tool_rounds cfg.max_tool_rounds loop.0 loop.1
      (omega (arith, w.0, few)) (omega (arith, w.1, few))
