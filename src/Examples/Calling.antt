-- ===== src/Examples/Calling.antt =====
-- Calls of a model, structured and plain, at concrete inputs.
use goal_driven_agent_room.Base.{ℕ, zero, suc, refl, max, none, some, [], ◌∷◌, if◌then◌else◌, arith}
use goal_driven_agent_room.Schemas.{str, reviewer}
use goal_driven_agent_room.Errors.{ok}
use goal_driven_agent_room.Budget.{Budget, Tracker}
use goal_driven_agent_room.Llm.Structured.{
  Asked, Answer, answered, raised, parser_exception, exception, Runnable, WithRetry, Provider, Key,
  has_key, structured,
}
use goal_driven_agent_room.Llm.Structured.Requests.{
  IsWithin, MakesAtMost, StopsAfter, structured-requests_le,
}
use goal_driven_agent_room.Llm.Structured.Failures.{AllFailed, structured-parser_exception}
use goal_driven_agent_room.Llm.Invoke.{RawReply, NormalizedResponse, invoke, extract_usage}
use goal_driven_agent_room.Llm.Invoke.Within.{Adds}
use goal_driven_agent_room.Llm.Invoke.Task.{
  Call, invoke_all, total_tokens, total_calls, invoke_all-IsWithin,
}
use goal_driven_agent_room.Examples.Streams.{cents}

-- Trying again at every parser exception, while an attempt is left.
again : {A : Type 0} → Runnable A → ℕ → Answer A × Asked → Answer A × Asked
again runnable zero last = last
again runnable (suc n) (raised (parser_exception m), k) = again runnable n (runnable k)
again runnable (suc n) (raised (exception m), k) = (raised (exception m), k)
again runnable (suc n) (answered a, k) = (answered a, k)

retry : {A : Type 0} → WithRetry A
unfolding again
retry runnable zero k = (raised (exception "no attempt"), k)
retry runnable (suc n) k = again runnable n (runnable k)

again-requests :
    {A : Type 0} (runnable : Runnable A) (n : ℕ) (last : Answer A × Asked)
    → MakesAtMost 1 0 runnable
    → IsWithin n 0 (last.1) ((again runnable n last).1)
unfolding again
again-requests runnable zero last h = (omega arith, omega arith)
again-requests runnable (suc n) (raised (parser_exception m), k) h =
    let (more, prompts) = again-requests runnable n (runnable k) h in
    let (one, none_json) = h k in (omega (arith, more, one), omega (arith, prompts, none_json))
again-requests runnable (suc n) (raised (exception m), k) h = (omega arith, omega arith)
again-requests runnable (suc n) (answered a, k) h = (omega arith, omega arith)

retry-StopsAfter : {A : Type 0} → StopsAfter {A = A} (retry {A = A})
unfolding retry
retry-StopsAfter runnable zero h k = (omega arith, omega arith)
retry-StopsAfter runnable (suc n) h k =
    let (more, prompts) = again-requests runnable n (runnable k) h in
    let (one, none_json) = h k in (omega (arith, more, one), omega (arith, prompts, none_json))

-- A model that answers every request in prose.
abbrev prose : Provider ℕ
prose = record {
  with_structured_output = λ k. raised (parser_exception "no tool call");
  ainvoke = λ k. answered (str "I would rather not");
  parse = λ s. raised (parser_exception "not JSON");
  lower = λ s. s;
}

abbrev the_reviewer : Key
the_reviewer = (reviewer, none)

abbrev no_requests : Asked
no_requests = record { structured_requests = 0; json_requests = 0 }

structured-requests_le_example :
    IsWithin
      (if has_key [] the_reviewer then 0 else 2)
      (max 2 1)
      no_requests
      ((structured prose retry 2 the_reviewer [] no_requests).1)
structured-requests_le_example =
    structured-requests_le prose retry retry-StopsAfter 2 the_reviewer [] no_requests

structured-parser_exception_example : AllFailed prose 2
unfolding structured retry
structured-parser_exception_example =
    structured-parser_exception prose retry 2 the_reviewer [] no_requests "not JSON" refl

abbrev one_call_allowed : Budget cents
one_call_allowed = record {
  max_tokens_of = some 100;
  max_tool_calls_of = some 1;
  max_cost_of = some 60;
  price_per_1k_input = some 0;
  price_per_1k_output = none;
}

abbrev metered : Tracker cents
metered = record { budget = some one_call_allowed; tokens = 0; tool_calls = 0; cost = 0 }

abbrev raw_reply : RawReply
raw_reply = record {
  reply = record {
    content = str "done";
    tool_calls = record { name = "read_text"; args = "{}"; id = "call_1" } ∷ [];
  };
  usage_metadata = some (record {
    input_tokens = some 30;
    output_tokens = some 10;
    total_tokens = some 40;
    cache_read = none;
  });
}

abbrev reading : Call cents
reading = record { ainvoke = λ messages tools. ok raw_reply; messages = []; tools = none }

abbrev read_response : NormalizedResponse
read_response = record {
  message = raw_reply.reply;
  usage =
      some (record {
        prompt_tokens = 30;
        completion_tokens = 10;
        total_tokens = 40;
        cached_tokens = 0;
      });
}

invoke_all-IsWithin_example :
    Adds cents one_call_allowed
      (total_tokens cents (read_response ∷ []))
      (total_calls cents (read_response ∷ []))
      metered
      ((invoke_all cents (reading ∷ []) metered).0)
unfolding invoke_all invoke extract_usage
invoke_all-IsWithin_example =
    invoke_all-IsWithin cents one_call_allowed (reading ∷ []) metered (read_response ∷ []) refl
      (refl, refl, refl) refl
