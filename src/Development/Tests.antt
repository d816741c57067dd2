-- ===== src/Development/Tests.antt =====
-- The development tools on a queue of three jobs.
use emma.Common.{
  ℕ, zero, suc, ◌≡◌, ◌+◌, refl, true, false, none, some, List, [], ◌∷◌, ◌++◌, Text, lit, arith, ok,
  Option, is_empty, All, any, decimal, length, map, strip, ◌||◌, if◌then◌else◌,
}
use emma.Llm.Json.{Json, int, str, Fields, end, field, get}
use emma.Facts.Tools.{Integer, print_integer}
use emma.Tasks.{
  Task, TaskStore, new, understood, deployed, queued, waiting_user, done, is_queued, is_waiting,
}
use emma.Tasks.Valid.{IsValid}
use emma.Development.{run_request, text_argument}
use emma.Development.Listing.{describe_age, age_of, shorten, run_status}
use emma.Development.Listing.Ages.{Says, age_of-Says}
use emma.Development.Listing.Complete.{Told, run_status-Told, run_request-Told}
use emma.Development.Dropping.{run_abandon, drop_note}
use emma.Development.Dropping.Once.{is_droppable, dropped_job, run_abandon_lem}

abbrev waiting_job : Task
waiting_job = record {
  id = 1;
  request = lit "nuovo tono";
  stage = understood;
  status = waiting_user;
  note = lit "chiaro?";
  answer = [];
  created_at = 10;
  updated_at = 20;
}

abbrev finished_job : Task
finished_job = record {
  id = 2;
  request = lit "un orologio";
  stage = deployed;
  status = done;
  note = [];
  answer = [];
  created_at = 10;
  updated_at = 20;
}

abbrev desk : TaskStore
desk = record {
  tasks = waiting_job ∷ finished_job ∷ [];
  last_id = 2;
  heartbeat = some 30;
  is_open = true;
}

desk-IsValid : IsValid desk
unfolding lit strip emma.Common.lstrip emma.Common.rstrip emma.Common.is_space
desk-IsValid = record {
  opened = refl;
  ascending = (omega arith, (omega arith, omega arith));
  valid_tasks = (
    record { stripped = refl; readable = refl; status_holds = refl },
    (record { stripped = refl; readable = refl; status_holds = refl }, tt),
  );
}

abbrev show : Json → Text
show value = []

-- No text in these calls is read as a number.
abbrev parse : Text → Option Integer
parse text = none

abbrev number : ℕ → Fields
number n = field (lit "number") (int false n) end

run_abandon_lem_example : run_abandon show parse (number 1) 40 desk ≡ (
  ok (
      if any (is_droppable (record { negative = false; size = 1 })) desk.tasks
      then lit "Lavoro #"
        ++ (print_integer (record { negative = false; size = 1 })
            ++ lit " abbandonato. Resta registrato, non e' stato cancellato.")
      else lit "Il lavoro #"
        ++ (print_integer (record { negative = false; size = 1 })
            ++ lit " non esiste o non e' piu' aperto. Non ho abbandonato nulla.")),
  record desk {
    tasks =
        map
          (dropped_job
            (record { negative = false; size = 1 })
            (drop_note (strip (text_argument show (lit "reason") (number 1))))
            40)
          desk.tasks;
  },
)
unfolding get lit emma.Common.text_eq emma.Facts.Tools.int_of
run_abandon_lem_example =
    run_abandon_lem show parse (number 1) 40 desk (int false 1)
      (record { negative = false; size = 1 }) desk-IsValid refl refl

-- A finished job is left alone.
finished_stays : (run_abandon show parse (number 2) 40 desk).1 ≡ desk
unfolding run_abandon get lit emma.Common.text_eq emma.Facts.Tools.int_of text_argument
    emma.Tasks.open_tasks emma.Tasks.select_tasks emma.Development.Dropping.is_open_now any
    emma.Common.select
finished_stays = refl

run_status-Told_example :
    (reply : Text) × (run_status 40 desk ≡ ok reply)
    × All (λ t. (is_queued t || is_waiting t) ≡ true → Told t reply) desk.tasks
run_status-Told_example = run_status-Told 40 desk refl

abbrev ask : Fields
ask = field (lit "request") (str (lit " un saluto ")) end

run_request-Told_example :
    (t : Task) × (reply : Text) × ((run_request show ask 40 desk).1.tasks ≡ desk.tasks ++ (t ∷ []))
    × (t.request ≡ strip (text_argument show (lit "request") ask))
    × (run_status 50 (run_request show ask 40 desk).1 ≡ ok reply)
    × Told t reply
unfolding text_argument emma.Llm.Json.str_of get lit emma.Common.text_eq strip emma.Common.lstrip
    emma.Common.rstrip emma.Common.is_space
run_request-Told_example = run_request-Told show ask 40 50 desk refl refl

age_of-Says_instance : Says (age_of 89) 89
age_of-Says_instance = age_of-Says 89

eighty_nine_seconds : describe_age 89 ≡ lit "1 minuto fa"
unfolding describe_age lit emma.Common.decimal
eighty_nine_seconds = refl

letters : ℕ → Text
letters zero = []
letters (suc n) = 97 ∷ letters n

-- A request of 91 letters is shortened to 92 characters, the limit being 90.
shorten_longer : length (shorten (letters 91) 90) ≡ 92
unfolding shorten letters lit strip emma.Common.lstrip emma.Common.rstrip emma.Common.is_space
shorten_longer = refl
