-- ===== src/Development/Listing.antt =====
-- `WorkStatus` of tools/development.py: the list of the open jobs, with the words for an age.
use emma.Common.{
  ℕ, ◌+◌, ◌-◌, ◌*◌, Bool, true, false, Option, none, some, List, [], ◌∷◌, ◌++◌, Text, lit, strip,
  rstrip, take, length, join, newline, is_empty, map, select, any, decimal, round_div, ltb, leb,
  ◌==◌, ◌&&◌, ◌||◌, not, Result, ok, err, Exc, value_error, other_error, if◌then◌else◌,
}
use emma.Llm.Json.{Json, Fields, get, str_of}
use emma.Facts.Tools.{Integer, int_of, print_integer}
use emma.Tasks
use emma.Tasks.{
  Stage, new, understood, implemented, committed, pushed, deployed, Task, TaskStore, is_queued,
  is_waiting, open_tasks, last_seen,
}
pub mod Ages
pub mod Complete

abbrev pub stale_after_seconds : ℕ
stale_after_seconds = 6 * 60 * 60

-- `_STAGE_LABELS`, which has an entry for every stage
unfoldable pub stage_label : Stage → Text
stage_label new = lit "in attesa che lo sviluppatore lo prenda in carico"
stage_label understood = lit "capito, in attesa di procedere con l'implementazione"
stage_label implemented = lit "implementato e testato, in attesa di essere committato"
stage_label committed = lit "committato in locale, in attesa di essere pubblicato"
stage_label pushed = lit "pubblicato su GitHub, in attesa del deploy"
stage_label deployed = lit "deployato"

-- `_shorten`; every call passes a limit above nothing.
unfoldable pub shorten : Text → ℕ → Text
shorten text limit =
    if leb (length (strip text)) limit
    then strip text
    else rstrip (take (limit - 1) (strip text)) ++ lit "..."

-- The four answers of `_describe_age`, with the number in them.
pub data Age : Type 0 where
  under_a_minute : Age
  minutes : ℕ → Age
  hours : ℕ → Age
  days : ℕ → Age

unfoldable pub age_of : ℕ → Age
unfolding round_div
age_of seconds =
    if ltb seconds 60
    then under_a_minute
    else if ltb seconds (90 * 60)
    then minutes (round_div seconds 60)
    else if ltb seconds (36 * 60 * 60)
    then hours (round_div seconds (60 * 60))
    else days (round_div seconds (24 * 60 * 60))

unfoldable pub age_text : Age → Text
age_text under_a_minute = lit "meno di un minuto fa"
age_text (minutes n) = if n == 1 then lit "1 minuto fa" else decimal n ++ lit " minuti fa"
age_text (hours n) = if n == 1 then lit "1 ora fa" else decimal n ++ lit " ore fa"
age_text (days n) = if n == 1 then lit "1 giorno fa" else decimal n ++ lit " giorni fa"

unfoldable pub describe_age : ℕ → Text
unfolding age_of age_text
describe_age seconds = age_text (age_of seconds)

-- The two forms of a line of `WorkStatus._describe`.
unfoldable pub question_line : Task → Text
unfolding shorten
question_line t =
    lit "#"
    ++ (decimal t.id
        ++ (lit " ATTENDE UNA RISPOSTA DELL'UTENTE."
            ++ (newline
                ++ (lit "   Domanda da riferire per intero: "
                    ++ (t.note
                        ++ (newline
                            ++ (lit "   (la richiesta originale era: "
                                ++ (shorten t.request 90 ++ lit ")"))))))))

unfoldable pub job_line : Task → Text
unfolding stage_label
job_line t =
    lit "#" ++ (decimal t.id ++ (lit " [" ++ (stage_label t.stage ++ (lit "] " ++ t.request))))

-- `task.status == "waiting_user" and task.note`
abbrev pub asks : Task → Bool
asks t = is_waiting t && not (is_empty t.note)

-- `WorkStatus._describe`
unfoldable pub describe : Task → Text
unfolding question_line job_line
describe t = if asks t then question_line t else job_line t

-- `WorkStatus._staleness_warning` on the heartbeat; an age below nothing is not stale
unfoldable pub staleness : Option ℕ → ℕ → Text
unfolding describe_age
staleness none now =
    lit
      "NOTA: nessuna sessione di sviluppo ha ancora letto la coda. Se ci sono lavori in attesa, la sessione non e' attiva."
staleness (some seen) now =
    if ltb stale_after_seconds (now - seen)
    then lit "NOTA: l'ultimo contatto con la sessione di sviluppo risale a "
      ++ (describe_age (now - seen) ++ lit ". Probabilmente non e' attiva.")
    else []

unfoldable pub status_header : List Task → Text
status_header tasks =
    let waiting = length (select is_waiting tasks) in
    (if ltb 1 (length tasks)
      then decimal (length tasks) ++ lit " lavori di sviluppo aperti."
      else lit "1 lavoro di sviluppo aperto.")
    ++ (lit
          " Riferiscili TUTTI all'utente, ognuno con il suo numero, e riporta ogni domanda per intero: qui non riassumere e non sceglierne uno."
        ++ (if waiting == 0
            then []
            else lit " " ++ (decimal waiting ++ lit " attendono una sua risposta.")))

-- `if warning: lines.append(warning)`
unfoldable pub warning_line : Text → List Text
warning_line [] = []
warning_line (c ∷ cs) = (c ∷ cs) ∷ []

-- `WorkStatus.run`
unfoldable pub run_status : ℕ → TaskStore → Result Exc Text
unfolding status_header staleness describe warning_line
run_status now s = elim (open_tasks s) [
  | err e ↦ err e
  | ok [] ↦ ok (lit "Nessun lavoro di sviluppo aperto.")
  | ok (t ∷ ts) ↦ elim (last_seen s) [
    | err e ↦ err e
    | ok seen ↦ ok (
        join newline (
          status_header (t ∷ ts)
          ∷ []
          ∷ (map describe (t ∷ ts) ++ warning_line (staleness seen now))))
  ]
]
