-- ===== src/App/Switches/Tests.antt =====
-- Calls of the tools of main.py behind their gate, and the theorems on the switches applied there.
use emma.Common.{
  ℕ, ◌+◌, ◌≡◌, refl, ap, true, false, Bool, Option, none, some, List, [], ◌∷◌, Text, lit, ok, err,
  Result, Exc, os_error, Step, Dict, decimal, read_digits, read_digits-decimal, starts_with,
}
use emma.Router.{Tool}
use emma.ToolState.{protected}
use emma.App.Catalogue.{Assistant}
use emma.App.Wiring.{all_tools}
use emma.App.Wiring.Distinct.{index_of, tools_by_name_lem}
use emma.App.Switches.{switches_on}
use emma.App.Switches.Gated.{
  wired, after_calls, refusal, refused_until_switched_on, runs_once_switched_on,
}
use emma.Llm.{ToolUse}
use emma.Llm.Json.{field, str, end}
use emma.Router.Tools.{execute_tool, tool_result, tool_outcome, switched_off, tool_schemas}
use emma.Router.Tools.Gate.{declared, names}
use emma.ToolState.Removal.{argument}
use emma.Common.{mem_text, any, text_eq}
use emma.App.Catalogue.{
  request_development, work_status, answer_question, abandon_development, running_version,
  list_tools, remember_fact, forget_fact, current_time, remove_tool, enable_tool,
}
use emma.App.Wiring.{other_tools, undescribed}
use emma.Common.{All, lookup}
use emma.App.Tests.{outside, silent, assistant}

abbrev naming : Text → Text → ToolUse
naming tool name = record { id = lit "c1"; name = tool; input = field (lit "name") (str name) end }

abbrev what_time : ToolUse
what_time = record { id = lit "c2"; name = lit "current_time"; input = end }

abbrev index : Dict (Tool Assistant)
index = index_of (all_tools outside)

-- Between the two the facts are switched off and back on.
abbrev others : List ToolUse
others =
    naming (lit "remove_tool") (lit "remember_fact")
    ∷ naming (lit "enable_tool") (lit "remember_fact")
    ∷ []

asked :
    argument outside.show (lit "name") (naming (lit "remove_tool") (lit "current_time")).input
    ≡ what_time.name
unfolding argument lit emma.Common.strip emma.Common.lstrip emma.Common.rstrip emma.Common.is_space
    text_eq emma.Llm.Json.get emma.Llm.Json.str_of
asked = refl

asked_on :
    argument outside.show (lit "name") (naming (lit "enable_tool") (lit "current_time")).input
    ≡ what_time.name
asked_on = asked

registered : mem_text what_time.name (names (all_tools outside)) ≡ true
unfolding all_tools other_tools undescribed mem_text text_eq lit request_development work_status
    answer_question abandon_development running_version list_tools remember_fact forget_fact
    current_time remove_tool enable_tool
registered = refl

free : mem_text what_time.name protected ≡ false
unfolding mem_text text_eq lit
free = refl

here : switches_on outside what_time.name (naming (lit "remove_tool") (lit "remember_fact")) ≡ false
unfolding text_eq lit
here = refl

there :
    switches_on outside what_time.name (naming (lit "enable_tool") (lit "remember_fact")) ≡ false
unfolding argument lit emma.Common.strip emma.Common.lstrip emma.Common.rstrip emma.Common.is_space
    text_eq emma.Llm.Json.get emma.Llm.Json.str_of
there = refl

abbrev off_now : Assistant
off_now =
    after_calls outside silent [] (λ w. w.now) index others
      (execute_tool (wired outside silent [] (λ w. w.now)) index
        (naming (lit "remove_tool") (lit "current_time")) assistant).1

refused_until_switched_on_example :
    (execute_tool (wired outside silent [] (λ w. w.now)) index what_time off_now
      ≡ (tool_result (lit "c2") (refusal (lit "current_time")) true, off_now))
    × (mem_text (lit "current_time") (
          declared (
            tool_schemas
              (wired outside silent [] (λ w. w.now))
              (switched_off (wired outside silent [] (λ w. w.now)) off_now).0))
        ≡ false)
refused_until_switched_on_example =
    refused_until_switched_on outside silent [] (λ w. w.now) index
      (naming (lit "remove_tool") (lit "current_time")) what_time others assistant
      (tools_by_name_lem outside silent [] (λ w. w.now)) refl (unfold any in refl) refl asked
      registered free (here, (there, tt))

abbrev without_time : Assistant
without_time = record assistant {
  state = record {
    rows = record { name = lit "current_time"; since = 900; reason = [] } ∷ [];
    is_open = true;
  };
}

abbrev on_now : Assistant
on_now =
    (execute_tool (wired outside silent [] (λ w. w.now)) index
      (naming (lit "enable_tool") (lit "current_time")) without_time).1

time_found : lookup what_time.name index ≡ some (current_time outside)
unfolding all_tools other_tools undescribed lookup text_eq lit request_development work_status
    answer_question abandon_development running_version list_tools remember_fact forget_fact
    current_time remove_tool enable_tool
time_found = refl

runs_once_switched_on_example :
    execute_tool (wired outside silent [] (λ w. w.now)) index what_time on_now
    ≡ tool_outcome (lit "c2") ((current_time outside).run end on_now)
runs_once_switched_on_example =
    runs_once_switched_on outside silent [] (λ w. w.now) index
      (naming (lit "enable_tool") (lit "current_time")) what_time without_time
      (current_time outside) (tools_by_name_lem outside silent [] (λ w. w.now)) refl (free, tt) refl
      asked_on time_found
