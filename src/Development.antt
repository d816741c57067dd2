-- ===== src/Development.antt =====
-- tools/development.py: the tools that fill, read and answer the queue of development requests, and
-- the line about it in front of the model.
-- Times are whole seconds. A tool reads the clock once, as `now`, and a run that raises has changed
-- nothing.
use emma.Common.{
  ℕ, ◌+◌, ◌-◌, ◌*◌, Bool, true, false, Option, none, some, List, [], ◌∷◌, ◌++◌, Text, lit, strip,
  rstrip, take, length, join, newline, is_empty, map, select, any, decimal, round_div, ltb, leb,
  ◌==◌, ◌&&◌, ◌||◌, not, Result, ok, err, Exc, value_error, other_error, if◌then◌else◌,
}
use emma.Llm.Json.{Json, Fields, get, str_of}
use emma.Facts.Tools.{is_too_large, too_large, Integer, int_of, print_integer}
use emma.Tasks
use emma.Tasks.{
  Stage, new, understood, implemented, committed, pushed, deployed, Task, TaskStore, is_queued,
  is_waiting, open_tasks, last_seen,
}
pub mod Listing
pub mod Dropping
pub mod Context
mod Tests

-- `str(arguments.get(key, ""))`
unfoldable pub text_argument : (Json → Text) → Text → Fields → Text
unfolding str_of
text_argument show key arguments = elim (get key arguments) [
  | none ↦ []
  | some value ↦ str_of show value
]

unfoldable pub is_value_error : Exc → Bool
is_value_error e = elim e.kind [ value_error ↦ true | _ ↦ false ]

-- `RequestDevelopment.run`
unfoldable pub run_request : (Json → Text) → Fields → ℕ → TaskStore → Result Exc Text × TaskStore
unfolding text_argument is_value_error
run_request show arguments now s =
    elim (Tasks.create s (text_argument show (lit "request") arguments) now) [
      | err e ↦
          if is_value_error e
          then (ok (lit "Richiesta vuota: non e' stato registrato nulla."), s)
          else (err e, s)
      | ok (task_id, s') ↦ (
        ok (
            lit "Registrata come lavoro #"
            ++ (decimal task_id
                ++ lit ". Sara' presa in carico alla prossima sessione di sviluppo.")),
        s',
      )
    ]

-- `record_answer` at an integer: no row has a negative number.
unfoldable pub answer_integer : TaskStore → Integer → Text → ℕ → Result Exc (Bool × TaskStore)
answer_integer s i answer now =
    if is_empty (strip answer)
    then ok (false, s)
    else Tasks.require_open s (
        if is_too_large i
        then err too_large
        else if i.negative
        then ok (false, s)
        else Tasks.record_answer s i.size answer now)

-- `AnswerQuestion.run`; `parse` is Python's reading of a text as an integer.
unfoldable pub run_answer :
    (Json → Text) → (Text → Option Integer) → Fields → ℕ → TaskStore → Result Exc Text × TaskStore
unfolding text_argument int_of answer_integer
run_answer show parse arguments now s =
    let missing : Result Exc Text × TaskStore =
      (ok (lit "Numero del lavoro mancante o non valido: non ho registrato nulla."), s) in
    elim (get (lit "number") arguments) [
      | none ↦ missing
      | some value ↦ elim (int_of parse value) [
        | none ↦ missing
        | some i ↦ elim (answer_integer s i (text_argument show (lit "answer") arguments) now) [
          | err e ↦ (err e, s)
          | ok (true, s') ↦
              (ok (lit "Risposta registrata sul lavoro #" ++ (print_integer i ++ lit ".")), s')
          | ok (false, s') ↦ (
            ok (
                lit "Il lavoro #"
                ++ (print_integer i
                    ++ lit " non esiste o non ha una domanda in attesa. Non ho registrato nulla.")),
            s',
          )
        ]
      ]
    ]
