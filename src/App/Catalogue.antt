-- ===== src/App/Catalogue.antt =====
-- The tools that main.py registers, with what the model reads of each: tools/development.py, tools/introspection.py,
-- tools/facts/tools.py, tools/clock.py and tools/toolstate/tools.py. They share one world, the stores of the process.
use emma.Common.{ℕ, Option, some, List, ◌++◌, Text, lit, decimal, Result, ok, Exc}
use emma.Llm.Json.{Json, str, arr, obj, nil, cons, end, field}
use emma.Config.{Reading}
use emma.Tasks.{TaskStore}
use emma.Facts.{FactStore, max_fact_length}
use emma.Facts.Tools.{Integer, run_remember, run_forget}
use emma.ToolState.{ToolStateStore, disabled}
use emma.ToolState.Removal.{Desk, run_remove, run_enable}
use emma.Development.{run_request, run_answer}
use emma.Development.Listing.{run_status}
use emma.Development.Dropping.{run_abandon}
use emma.Introspection.{run_inventory}
use emma.Clock
use emma.Clock.{describe_now}
use emma.Version
use emma.Version.{Checkout}
use emma.Router.{Tool}

-- What the tools and the providers work on, with the time, whole seconds since the epoch, and the
-- moment it is where the user is, if the zone is known, and by the clock of the system.
pub record Assistant : Type 0 where
  pub tasks : TaskStore
  pub facts : FactStore
  pub state : ToolStateStore
  pub now : ℕ
  pub zoned : Option Clock.Moment
  pub system : Clock.Moment

-- Python's print of a list or a dict, its reading of a text as an integer and of a time, SQLite's lower, and what the
-- deploy left.
pub record Outside : Type 0 where
  pub show : Json → Text
  pub parse : Text → Option Integer
  pub lower : Text → Text
  pub fromisoformat : Text → Option Version.Moment
  pub stamp : Reading
  pub checkout : Checkout

-- A run on one of the stores, in the world of all.
abbrev pub on_tasks : Assistant → Result Exc Text × TaskStore → Result Exc Text × Assistant
on_tasks w (outcome, tasks) = (outcome, record w { tasks = tasks })

abbrev pub on_facts : Assistant → Result Exc Text × FactStore → Result Exc Text × Assistant
on_facts w (outcome, facts) = (outcome, record w { facts = facts })

abbrev pub desk_of : Assistant → Desk
desk_of w = record { state = w.state; tasks = w.tasks }

abbrev pub on_desk : Assistant → Result Exc Text × Desk → Result Exc Text × Assistant
on_desk w (outcome, d) = (outcome, record w { state = d.state; tasks = d.tasks })

-- The tool state store as the gate.
abbrev pub gate : Assistant → Result Exc (List Text) × Assistant
gate w = (disabled w.state, w)

unfoldable pub request_development : Outside → Tool Assistant
request_development o = record {
  name = lit "request_development";
  description =
      lit
        "Record a request to change or extend EMMA's own code, so that a developer picks it up. Use it when the user asks for a capability you do not have, or when their message begins with 'sviluppo:'. Keep the user's own words: do not summarise and do not interpret, because whoever reads the request has the code in front of them and you do not.";
  input_schema = field (lit "type") (str (lit "object")) (
      field (lit "properties")
        (obj (
          field (lit "request")
            (obj (
              field (lit "type") (str (lit "string")) (
                field (lit "description")
                  (str (
                    lit
                      "The request in the user's own words, complete enough to be understood without the rest of the conversation."))
                  end)))
            end))
        (field (lit "required") (arr (cons (str (lit "request")) nil)) end));
  run = λ arguments w. on_tasks w (run_request o.show arguments w.now w.tasks);
}

unfoldable pub work_status : Outside → Tool Assistant
work_status o = record {
  name = lit "work_status";
  description =
      lit
        "List the open development jobs and any question waiting on the user. Use it whenever the user asks how the work is going, whether anything is pending, or what they have been asked. Do not answer from memory: the state changes between one question and the next.";
  input_schema = field (lit "type") (str (lit "object")) (field (lit "properties") (obj (end)) end);
  run = λ arguments w. (run_status w.now w.tasks, w);
}

unfoldable pub answer_question : Outside → Tool Assistant
answer_question o = record {
  name = lit "answer_question";
  description =
      lit
        "Record the user's answer to a question on a development job -- for instance their consent to proceed with a step. It needs the job number, which work_status gives you. If the user answers without saying which job they mean and more than one is waiting, ask them rather than guess.";
  input_schema = field (lit "type") (str (lit "object")) (
      field (lit "properties")
        (obj (
          field (lit "number")
            (obj (
              field (lit "type") (str (lit "integer")) (
                field (lit "description") (str (lit "The number of the job the user is answering."))
                  end)))
            (field (lit "answer")
              (obj (
                field (lit "type") (str (lit "string")) (
                  field (lit "description")
                    (str (
                      lit
                        "The user's answer, reported faithfully, including any condition or correction they attach to it."))
                    end)))
              end)))
        (field (lit "required") (arr (cons (str (lit "number")) (cons (str (lit "answer")) nil)))
          end));
  run = λ arguments w. on_tasks w (run_answer o.show o.parse arguments w.now w.tasks);
}

unfoldable pub abandon_development : Outside → Tool Assistant
abandon_development o = record {
  name = lit "abandon_development";
  description =
      lit
        "Drop a development job the user no longer wants, so it stops asking to be dealt with. It needs the job number, which work_status gives you. Only jobs that are still open can be dropped: one already finished stays as it is. Ask the user to confirm before calling this, and say which job you are about to drop, unless they already named the number themselves.";
  input_schema = field (lit "type") (str (lit "object")) (
      field (lit "properties")
        (obj (
          field (lit "number")
            (obj (
              field (lit "type") (str (lit "integer"))
                (field (lit "description") (str (lit "The number of the job to drop.")) end)))
            (field (lit "reason")
              (obj (
                field (lit "type") (str (lit "string")) (
                  field (lit "description")
                    (str (
                      lit
                        "Why it is being dropped, in the user's own words when they gave one. Kept with the job, which is not deleted."))
                    end)))
              end)))
        (field (lit "required") (arr (cons (str (lit "number")) nil)) end));
  run = λ arguments w. on_tasks w (run_abandon o.show o.parse arguments w.now w.tasks);
}

unfoldable pub running_version : Outside → Tool Assistant
running_version o = record {
  name = lit "running_version";
  description =
      lit
        "Report which version of EMMA's code is actually running, with the commit and the date it was installed. Use it when the user asks what version you are, which code you are running, or whether the server is up to date with the repository. Report the commit exactly as given: it is the only field that actually answers the question. Do not answer from memory -- the version changes underneath you at every deploy.";
  input_schema = field (lit "type") (str (lit "object")) (field (lit "properties") (obj (end)) end);
  run = λ arguments w. (Version.describe o.fromisoformat o.stamp o.checkout, w);
}

-- `ToolInventory`, once it was told of `tools`
unfoldable pub list_tools : List (Tool Assistant) → Tool Assistant
list_tools tools = record {
  name = lit "list_tools";
  description =
      lit
        "List the tools you can call, with how many there are. Use it whenever the user asks what you can do, how many tools you have, which ones, or whether you are able to do some particular thing. Pass detailed=true when they want to know what each one is for. Do not answer from memory: the set changes as EMMA is developed, and what you assume about yourself is not evidence. Tools marked disattivato have been switched off and cannot be called until enable_tool puts them back. The descriptions come back in English because they are written for you -- render them for the user in Italian, briefly.";
  input_schema = field (lit "type") (str (lit "object")) (
      field (lit "properties")
        (obj (
          field (lit "detailed")
            (obj (
              field (lit "type") (str (lit "boolean")) (
                field (lit "description")
                  (str (
                    lit
                      "True to include what each tool is for. False, the default, returns the count and the names only."))
                  end)))
            end))
        end);
  run = λ arguments w. run_inventory (some gate) tools arguments w;
}

unfoldable pub remember_fact : Outside → Tool Assistant
remember_fact o = record {
  name = lit "remember_fact";
  description =
      lit
        "Record something the user has explicitly asked you to remember, so it survives beyond the recent conversation. Use it only when they ask -- 'ricorda che', 'segnati che', 'non dimenticare che' -- and never on your own judgement of what seems important. Write the fact as a short standalone sentence in the user's own words: it will be read later with none of this conversation around it, so 'la password del wifi e' X' works and 'e' X' does not.";
  input_schema = field (lit "type") (str (lit "object")) (
      field (lit "properties")
        (obj (
          field (lit "fact")
            (obj (
              field (lit "type") (str (lit "string")) (
                field (lit "description")
                  (str (
                    lit "The fact, as one self-contained sentence. At most "
                    ++ (decimal max_fact_length ++ (lit " characters."))))
                  end)))
            end))
        (field (lit "required") (arr (cons (str (lit "fact")) nil)) end));
  run = λ arguments w. on_facts w (run_remember o.show o.lower arguments w.now w.facts);
}

unfoldable pub forget_fact : Outside → Tool Assistant
forget_fact o = record {
  name = lit "forget_fact";
  description =
      lit
        "Stop using a remembered fact, when the user asks you to forget something. It needs the fact's number, which is shown beside each fact in what you already know. If the user describes a fact instead of numbering it and more than one could match, ask which they mean rather than guessing -- forgetting the wrong one is not visible to them.";
  input_schema = field (lit "type") (str (lit "object")) (
      field (lit "properties")
        (obj (
          field (lit "number")
            (obj (
              field (lit "type") (str (lit "integer"))
                (field (lit "description") (str (lit "The number of the fact to forget.")) end)))
            end))
        (field (lit "required") (arr (cons (str (lit "number")) nil)) end));
  run = λ arguments w. on_facts w (run_forget o.parse arguments w.now w.facts);
}

unfoldable pub current_time : Outside → Tool Assistant
current_time o = record {
  name = lit "current_time";
  description =
      lit
        "Give the current date and time where the user is. Call it whenever they ask what time or what day it is, or when answering needs today's date -- how many days until something, what day of the week a date falls on. You have no clock of your own and cannot infer the time from the conversation, so guessing is always wrong.";
  input_schema = field (lit "type") (str (lit "object")) (field (lit "properties") (obj (end)) end);
  run = λ arguments w. (ok (describe_now w.zoned w.system), w);
}

unfoldable pub remove_tool : Outside → List Text → Tool Assistant
remove_tool o names = record {
  name = lit "remove_tool";
  description =
      lit
        "Remove one of your own tools, in two steps. The first time the user asks, the tool is only switched off: it stops being offered to you and can be switched back on with enable_tool. Asking again later -- not in the same conversation -- registers a development job to take it out of the code for good. Pass the exact tool name, which list_tools gives you. Say which of the two steps happened: the user needs to know whether anything is still reversible.";
  input_schema = field (lit "type") (str (lit "object")) (
      field (lit "properties")
        (obj (
          field (lit "name")
            (obj (
              field (lit "type") (str (lit "string"))
                (field (lit "description") (str (lit "Exact name of the tool.")) end)))
            (field (lit "reason")
              (obj (
                field (lit "type") (str (lit "string")) (
                  field (lit "description")
                    (str (lit "Why, in the user's own words, when they gave one.")) end)))
              end)))
        (field (lit "required") (arr (cons (str (lit "name")) nil)) end));
  run = λ arguments w. on_desk w (run_remove o.show names arguments w.now (desk_of w));
}

unfoldable pub enable_tool : Outside → Tool Assistant
enable_tool o = record {
  name = lit "enable_tool";
  description =
      lit
        "Switch a tool back on after it was disabled with remove_tool. Pass the exact name; list_tools shows which ones are currently off. Use it whenever the user wants a capability back.";
  input_schema = field (lit "type") (str (lit "object")) (
      field (lit "properties")
        (obj (
          field (lit "name")
            (obj (
              field (lit "type") (str (lit "string"))
                (field (lit "description") (str (lit "Exact name of the tool.")) end)))
            end))
        (field (lit "required") (arr (cons (str (lit "name")) nil)) end));
  run = λ arguments w. on_desk w (run_enable o.show arguments (desk_of w));
}
