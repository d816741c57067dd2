-- ===== src/Development/Dropping.antt =====
-- `AbandonDevelopment` of tools/development.py: dropping a job from the chat.
use emma.Common.{
  ℕ, ◌+◌, ◌-◌, ◌*◌, Bool, true, false, Option, none, some, List, [], ◌∷◌, ◌++◌, Text, lit, strip,
  rstrip, take, length, join, newline, is_empty, map, select, any, decimal, round_div, ltb, leb,
  ◌==◌, ◌&&◌, ◌||◌, not, Result, ok, err, Exc, value_error, other_error, if◌then◌else◌,
}
use emma.Llm.Json.{Json, Fields, get, str_of}
use emma.Facts.Tools.{Integer, int_of, print_integer}
use emma.Tasks
use emma.Tasks.{
  Stage, new, understood, implemented, committed, pushed, deployed, Task, TaskStore, is_queued,
  is_waiting, open_tasks, last_seen,
}
use emma.Development.{text_argument}
pub mod Once

-- `task_id not in open_now`, the other way round
unfoldable pub is_open_now : Integer → List Task → Bool
is_open_now i tasks = not i.negative && any (λ t. t.id == i.size) tasks

unfoldable pub drop_note : Text → Text
drop_note reason =
    if is_empty reason
    then lit "Abbandonato su richiesta dell'utente."
    else lit "Abbandonato su richiesta dell'utente: " ++ reason

-- `AbandonDevelopment.run`
unfoldable pub run_abandon :
    (Json → Text) → (Text → Option Integer) → Fields → ℕ → TaskStore → Result Exc Text × TaskStore
unfolding text_argument int_of is_open_now drop_note
run_abandon show parse arguments now s =
    let missing : Result Exc Text × TaskStore =
      (ok (lit "Numero del lavoro mancante o non valido: non ho abbandonato nulla."), s) in
    let note = drop_note (strip (text_argument show (lit "reason") arguments)) in
    elim (get (lit "number") arguments) [
      | none ↦ missing
      | some value ↦ elim (int_of parse value) [
        | none ↦ missing
        | some i ↦ elim (open_tasks s) [
          | err e ↦ (err e, s)
          | ok tasks ↦ elim (is_open_now i tasks) [
            | false ↦ (
              ok (
                  lit "Il lavoro #"
                  ++ (print_integer i
                      ++ lit " non esiste o non e' piu' aperto. Non ho abbandonato nulla.")),
              s,
            )
            | true ↦ elim (Tasks.abandon s i.size note now) [
              | err e ↦ (err e, s)
              | ok (true, s') ↦ (
                ok (
                    lit "Lavoro #"
                    ++ (print_integer i
                        ++ lit " abbandonato. Resta registrato, non e' stato cancellato.")),
                s',
              )
              | ok (false, s') ↦ (
                ok (
                    lit "Non sono riuscita ad abbandonare il lavoro #"
                    ++ (print_integer i ++ lit ".")),
                s',
              )
            ]
          ]
        ]
      ]
    ]
