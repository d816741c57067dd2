-- ===== src/ToolState/Removal.antt =====
-- tools/toolstate/tools.py: the tools `remove_tool` and `enable_tool`.
-- A run reads the clock once, as `now`. What it changes it changes in one statement, so a run that
-- raises has changed nothing before.
use emma.Common.{
  ℕ, ◌+◌, ◌-◌, ◌*◌, Bool, true, false, not, Option, none, some, List, [], ◌∷◌, ◌++◌, Text, lit,
  mem_text, strip, starts_with, is_empty, decimal, round_div, ltb, ◌==◌, Result, ok, err, Exc,
  if◌then◌else◌,
}
use emma.Llm.Json.{Json, Fields, get, str_of}
use emma.Tasks
use emma.Tasks.{Task, TaskStore, open_tasks}
use emma.ToolState.{
  ToolStateStore, protected, min_time_off_seconds, disable, enable, disabled_since,
}
pub mod Stages
pub mod Once
pub mod Off
mod Tests

-- What the two tools share: the switches and the queue.
pub record Desk : Type 0 where
  pub state : ToolStateStore
  pub tasks : TaskStore

unfoldable pub in_words : ℕ → Text
unfolding round_div
in_words seconds =
    let minutes = round_div seconds 60 in
    let hours = round_div seconds 3600 in
    if ltb seconds 90
    then lit "meno di un minuto"
    else if ltb seconds (90 * 60)
    then (if minutes == 1 then lit "1 minuto" else decimal minutes ++ lit " minuti")
    else if hours == 1
    then lit "1 ora"
    else decimal hours ++ lit " ore"

-- `str(arguments.get(key, "")).strip()`
unfoldable pub argument : (Json → Text) → Text → Fields → Text
unfolding str_of
argument show key arguments = elim (get key arguments) [
  | none ↦ strip []
  | some value ↦ strip (str_of show value)
]

unfoldable pub removal_request : Text → Text
removal_request name = lit "rimuovere del tutto lo strumento " ++ (name ++ lit " dalla codebase")

unfoldable pub first_job : Text → List Task → Option ℕ
first_job marker [] = none
first_job marker (job ∷ jobs) =
    if starts_with marker job.request then some job.id else first_job marker jobs

unfoldable pub existing_job : Text → TaskStore → Result Exc (Option ℕ)
unfolding first_job
existing_job name tasks = elim (open_tasks tasks) [
  | ok jobs ↦ ok (first_job (removal_request name) jobs)
  | err e ↦ err e
]

-- The text of the job.
unfoldable pub removal_job : Text → Text → Text
removal_job name reason =
    removal_request name
    ++ ((if is_empty reason then [] else lit " (" ++ (reason ++ lit ")"))
        ++ lit ". Togliere anche la sua riga dalla tabella tool_state.")

-- `run` from `_existing_job` on
unfoldable pub file_removal : Text → Text → ℕ → Desk → Result Exc Text × Desk
unfolding existing_job removal_job
file_removal name reason now d = elim (existing_job name d.tasks) [
  | err e ↦ (err e, d)
  | ok (some existing) ↦ (
    ok (
        lit "La rimozione di "
        ++ (name
            ++ (lit " e' gia' il lavoro #"
                ++ (decimal existing ++ lit ". Resta spento nel frattempo.")))),
    d,
  )
  | ok none ↦ elim (Tasks.create d.tasks (removal_job name reason) now) [
    | err e ↦ (err e, d)
    | ok (task_id, tasks) ↦ (
      ok (
          name
          ++ (lit
                " era gia' disattivato da un po', quindi ho registrato la rimozione definitiva come lavoro #"
              ++ (decimal task_id ++ lit ". Resta spento nel frattempo."))),
      record d { tasks = tasks },
    )
  ]
]

-- `run` on a tool that is off already
unfoldable pub second_stage : Text → Text → ℕ → Desk → Result Exc Text × Desk
unfolding file_removal in_words
second_stage name reason now d = elim (disabled_since d.state name) [
  | err e ↦ (err e, d)
  | ok none ↦ file_removal name reason now d
  | ok (some since) ↦
      if ltb now (since + min_time_off_seconds)
      then (
        ok (
            name
            ++ (lit " e' disattivato solo da "
                ++ (in_words (now - since)
                    ++ (lit
                          ". Per registrare la rimozione definitiva aspetto che sia passato un po' di tempo senza di lui: riprova fra "
                        ++ (in_words (since + min_time_off_seconds - now)
                            ++ lit ". Nel frattempo resta spento."))))),
        d,
      )
      else file_removal name reason now d
]

-- `run` behind the tests of the name
unfoldable pub first_stage : Text → Text → ℕ → Desk → Result Exc Text × Desk
unfolding second_stage
first_stage name reason now d = elim (disable d.state name reason now) [
  | err e ↦ (err e, d)
  | ok (true, state) ↦ (
    ok (
        lit "Ho disattivato "
        ++ (name
            ++ lit
                ": da adesso non lo uso piu'. Riaccendilo quando vuoi con enable_tool. Se piu' avanti, dopo averne fatto a meno, vuoi toglierlo del tutto dal codice, chiedimelo di nuovo.")),
    record d { state = state },
  )
  | ok (false, state) ↦ second_stage name reason now (record d { state = state })
]

-- `RemoveTool.run`, with the names that `describes` was given.
unfoldable pub run_remove : (Json → Text) → List Text → Fields → ℕ → Desk → Result Exc Text × Desk
unfolding argument first_stage
run_remove show names arguments now d =
    let name = argument show (lit "name") arguments in
    let reason = argument show (lit "reason") arguments in
    if is_empty name
    then (ok (lit "Nome dello strumento mancante: non ho fatto niente."), d)
    else if is_empty names
    then (ok (lit "Non lo so fare adesso: l'elenco degli strumenti non mi e' stato passato."), d)
    else if not (mem_text name names)
    then (
      ok (
          lit "Non ho nessuno strumento che si chiami "
          ++ (name ++ lit ". Controlla il nome con list_tools.")),
      d,
    )
    else if mem_text name protected
    then (
      ok (
          lit "Non posso disattivare "
          ++ (name
              ++ lit ": senza di lui non sapresti piu' cosa e' spento ne' come riaccenderlo.")),
      d,
    )
    else first_stage name reason now d

-- `EnableTool.run`
unfoldable pub run_enable : (Json → Text) → Fields → Desk → Result Exc Text × Desk
unfolding argument
run_enable show arguments d =
    let name = argument show (lit "name") arguments in
    if is_empty name
    then (ok (lit "Nome dello strumento mancante: non ho fatto niente."), d)
    else elim (enable d.state name) [
      | err e ↦ (err e, d)
      | ok (true, state) ↦ (
        ok (lit "Ho riattivato " ++ (name ++ lit ": torno a poterlo usare da subito.")),
        record d { state = state },
      )
      | ok (false, state) ↦ (
        ok (name ++ lit " non era disattivato, quindi non ho cambiato niente."),
        record d { state = state },
      )
    ]
