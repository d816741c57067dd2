-- ===== src/App/Tests.antt =====
-- A run of the server with its five components, its health, and an exit code.
use emma.Common.{
  ℕ, ◌+◌, ◌≡◌, refl, ap, true, false, Bool, Option, none, some, List, [], ◌∷◌, Text, lit, ok, err,
  Result, Exc, os_error, Step, Dict, decimal, read_digits, read_digits-decimal, starts_with,
}
use emma.Facts.Tools.{Integer}
use emma.Config.{Host, contents}
use emma.Version.{Summary}
use emma.Router.{no_turns, Tool, tools_by_name}
use emma.ToolState.{protected}
use emma.App.Lifespan.{Managed, components, Part, lifespan}
use emma.App.Health.{Process, Report, health}
use emma.App.Catalogue.{Outside, Assistant}
use emma.App.Wiring.{
  Serving, exits, Application, Providers, Complete, run_main, all_tools, router_of,
}
use emma.App.Wiring.Distinct.{all_tools-registered}
use emma.Common.{map_ok, mem_text, any, text_eq}
use emma.App.Wiring.Exit.{Ending, run_main_lem}
use emma.Common.{All, lookup}

abbrev broken : Exc
broken = record { kind = os_error; message = lit "disk full" }

-- Opening the component `n` writes n in a log, closing it writes n + 100 and raises.
abbrev component : ℕ → Managed (List ℕ)
component n = record { open_it = λ w. (ok tt, n ∷ w); close_it = λ w. (err broken, (n + 100) ∷ w) }

abbrev failing : Managed (List ℕ)
failing = record { open_it = λ w. (err broken, 0 ∷ w); close_it = λ w. (ok tt, 100 ∷ w) }

-- The five of them, with the third as given.
abbrev five : Managed (List ℕ) → List (Part (List ℕ))
five facts = components (component 1) (component 2) facts (component 4) (component 5)

abbrev client : Step (List ℕ)
client = (lit "model client", λ w. (ok tt, 999 ∷ w))

abbrev serve : List ℕ → Result Exc (Unit {0}) × List ℕ
serve w = (ok tt, 7 ∷ w)

-- The third component fails to open: the two before it are closed, and the client.
cut_short :
    lifespan client (ok []) (five failing) serve [] ≡ (err broken, 999 ∷ 101 ∷ 102 ∷ 0 ∷ 2 ∷ 1 ∷ [])
unfolding lifespan emma.App.Lifespan.start_up emma.App.Lifespan.open_parts
    emma.App.Lifespan.shut_down emma.Common.attempt_all
cut_short = refl

abbrev version : Summary
version = record { version = lit "0.4.0"; commit = lit "abc"; built = [] }

abbrev process : Process
process = record {
  drifted_files = [];
  active_model = lit "m";
  llm_provider = lit "groq";
  version = ok version;
  started_at = 5;
  stats = no_turns;
}

-- A store that raises makes the endpoint answer 503, and name the exception.
unavailable :
    map_ok {B = ℕ × Text}
      (λ (report : Report). (report.status_code, report.store))
      (health (λ e. lit "OSError") (err broken) true process 9)
    ≡ ok (503, lit "unavailable: OSError")
unfolding health emma.App.Health.report_of emma.App.Health.store_verdict emma.Common.text_eq lit
unavailable = refl

abbrev as_integer : Option ℕ → Option Integer
as_integer none = none
as_integer (some n) = some (record { negative = false; size = n })

abbrev host : Host
host = record {
  load_dotenv = λ environ. ok environ;
  lower = λ t. t;
  int = λ t. as_integer (read_digits 0 t);
  expanduser = λ t. some t;
  is_absolute = λ t. starts_with (47 ∷ []) t;
  anchor = λ t. 47 ∷ t;
  read_text = λ t. contents (lit "Sei EMMA.");
}

abbrev pub outside : Outside
outside = record {
  show = λ value. [];
  parse = λ t. as_integer (read_digits 0 t);
  lower = λ t. t;
  fromisoformat = λ t. none;
  stamp = contents [];
  checkout = record { has_git = false; rev_parse = none };
}

abbrev pub silent : Complete
silent system messages tools w =
    (ok (record { blocks = []; stop_reason = some (lit "end_turn") }), w)

abbrev providers : Providers
providers = record {
  anthropic = λ key payload w. (ok (record { content = []; stop_reason = none }), w);
  groq = λ key payload w. (ok (record { choices = []; has_usage = false }), w);
  groq_installed = false;
  float_of = λ t. none;
  dumps = λ fields. [];
  loads = λ t. none;
}

abbrev environ : Dict Text
environ =
    (lit "LLM_PROVIDER", lit "groq")
    ∷ (lit "GROQ_API_KEY", lit "gsk")
    ∷ (lit "TELEGRAM_BOT_TOKEN", lit "t")
    ∷ (lit "TELEGRAM_ALLOWED_USER_ID", lit "7")
    ∷ []

-- uvicorn ends the process when the lifespan fails.
abbrev failing_server : Application → Serving
failing_server app = exits 3

run_main_lem_example :
    Ending host outside providers
      (λ token. none)
      ([], 0)
      failing_server
      environ
      (run_main host outside providers (λ token. none) ([], 0) failing_server environ)
unfolding starts_with
run_main_lem_example =
    run_main_lem host outside providers (λ token. none) ([], 0) failing_server environ
      (λ k. ap as_integer (read_digits-decimal k)) (λ path. refl)

all_tools-registered_instance :
    (index : Dict (Tool Assistant)) × (tools_by_name
        (router_of outside silent (lit "Sei EMMA.") (λ w. w.now))
      ≡ ok index)
    × All (λ t. lookup t.name index ≡ some t) (all_tools outside)
    × All (λ name. (t : Tool Assistant) × (lookup name index ≡ some t)) protected
all_tools-registered_instance = all_tools-registered outside silent (lit "Sei EMMA.") (λ w. w.now)

abbrev pub assistant : Assistant
assistant = record {
  tasks = record { tasks = []; last_id = 0; heartbeat = none; is_open = true };
  facts = record { facts = []; last_id = 0; is_open = true };
  state = record { rows = []; is_open = true };
  now = 1000;
  zoned = none;
  system = record { year = 2025; month = 3; day = 1; hour = 9; minute = 5; weekday = 5 };
}
