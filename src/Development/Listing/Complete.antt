-- ===== src/Development/Listing/Complete.antt =====
-- That the answer of `work_status` leaves out no open job.
use emma.Common.{
  strip, All-last, ap, ◌∙◌, ℕ, ◌+◌, ◌≡◌, refl, inl, inr, true, false, Option, List, [], ◌∷◌, ◌++◌,
  append_assoc, Text, Contains, Contains-self, Contains-refl, Contains-append, Contains-trans, join,
  join-Contains, lit, newline, is_empty, map, decimal, All, All-select, ok, Bool-cases, ◌||◌,
  if◌then◌else◌,
}
use emma.Tasks
use emma.Tasks.Rows.{open_tasks_lem}
use emma.Tasks.{
  insert_task, Task, TaskStore, is_queued, is_waiting, open_tasks, last_seen, select_tasks,
}
use emma.Llm.Json.{Json, Fields}
use emma.Development.{run_request, text_argument}
use emma.Development.Listing.{
  asks, question_line, job_line, describe, stage_label, shorten, status_header, staleness,
  warning_line, run_status,
}

-- What has to reach the user: the question, whole, of a job that waits with one; otherwise the request,
-- whole.
abbrev pub useful_half : Task → Text
useful_half t = if asks t then t.note else t.request

-- The number of a job, up to the blank behind it, and its useful half.
pub record Told (t : Task) (reply : Text) : Type 0 where
  pub number : Contains (lit "#" ++ (decimal t.id ++ lit " ")) reply
  pub half : Contains (useful_half t) reply

numbered :
    (n : ℕ) (tail rest : Text)
    → Contains (lit "#" ++ (decimal n ++ lit " ")) (lit "#" ++ (decimal n ++ ((32 ∷ tail) ++ rest)))
unfolding lit
numbered n tail rest = record { before = []; after = tail ++ rest; around = simp append_assoc }

-- What stands behind the question.
abbrev below : Task → Text
below t = newline ++ (lit "   (la richiesta originale era: " ++ (shorten t.request 90 ++ lit ")"))

question_line-Told :
    (t : Task)
    → Contains (lit "#" ++ (decimal t.id ++ lit " ")) (question_line t)
      × Contains t.note (question_line t)
unfolding question_line lit
question_line-Told t =
    let asked : Text = lit "   Domanda da riferire per intero: " in
    (
      numbered t.id (lit "ATTENDE UNA RISPOSTA DELL'UTENTE.")
          (newline ++ (asked ++ (t.note ++ below t))),
      Contains-append (lit "#") (
          Contains-append (decimal t.id) (
            Contains-append (lit " ATTENDE UNA RISPOSTA DELL'UTENTE.")
              (Contains-append newline (Contains-append asked (Contains-self t.note (below t)))))),
    )

job_line-Told :
    (t : Task)
    → Contains (lit "#" ++ (decimal t.id ++ lit " ")) (job_line t) × Contains t.request (job_line t)
unfolding job_line lit
job_line-Told t = (
  numbered t.id (lit "[") (stage_label t.stage ++ (lit "] " ++ t.request)),
  Contains-append (lit "#") (
      Contains-append (decimal t.id) (
        Contains-append (lit " [") (
          Contains-append (stage_label t.stage)
            (Contains-append (lit "] ") (Contains-refl t.request))))),
)

describe-Told : (t : Task) → Told t (describe t)
unfolding describe
describe-Told t = elim (Bool-cases (asks t)) [
  | inl e ↦
      rw e (record { number = (question_line-Told t).0; half = rw e (question_line-Told t).1 })
  | inr e ↦ rw e (record { number = (job_line-Told t).0; half = rw e (job_line-Told t).1 })
]

Told-Contains : {t : Task} {u v : Text} → Told t u → Contains u v → Told t v
Told-Contains told c = record {
  number = Contains-trans told.number c;
  half = Contains-trans told.half c;
}

lines-Told :
    (ts : List Task) (more : List Text) (reply : Text)
    → All (λ u. Contains u reply) (map describe ts ++ more)
    → All (λ t. Told t reply) ts
lines-Told [] more reply h = tt
lines-Told (t ∷ ts) more reply h =
    (Told-Contains (describe-Told t) h.0, lines-Told ts more reply h.1)

last_seen_lem : (s : TaskStore) → s.is_open ≡ true → last_seen s ≡ ok s.heartbeat
unfolding last_seen
last_seen_lem s opened = simp opened

-- The same, of the jobs that are open.
run_status-tasks :
    (now : ℕ) (s : TaskStore) (seen : Option ℕ) (ts : List Task)
    → open_tasks s ≡ ok ts
    → last_seen s ≡ ok seen
    → (reply : Text) × (run_status now s ≡ ok reply) × All (λ t. Told t reply) ts
unfolding run_status
run_status-tasks now s seen [] e f =
    (lit "Nessun lavoro di sviluppo aperto.", rw (run_status, e) refl, tt)
run_status-tasks now s seen (t ∷ ts) e f =
    let warning = warning_line (staleness seen now) in
    let lines : List Text = map describe (t ∷ ts) ++ warning in
    let reply : Text = join newline (status_header (t ∷ ts) ∷ [] ∷ lines) in
    (
      reply,
      rw (run_status, e, f) refl,
      lines-Told (t ∷ ts) warning reply
          (join-Contains newline (status_header (t ∷ ts) ∷ [] ∷ lines)).1.1,
    )

-- On an open store `work_status` answers, and the answer tells of every job that is queued or waiting: its
-- number, and the whole question if it waits with one, the whole request if not.
pub run_status-Told :
    (now : ℕ) (s : TaskStore)
    → s.is_open ≡ true
    → (reply : Text) × (run_status now s ≡ ok reply)
      × All (λ t. (is_queued t || is_waiting t) ≡ true → Told t reply) s.tasks
unfolding run_status
run_status-Told now s opened =
    let (reply, answered, told) =
      run_status-tasks now s s.heartbeat _ (open_tasks_lem s opened) (last_seen_lem s opened) in
    (reply, answered, All-select (λ t. Told t reply) _ s.tasks told)

create_lem :
    (s : TaskStore) (request : Text) (now : ℕ)
    → s.is_open ≡ true
    → is_empty (strip request) ≡ false
    → Tasks.create s request now ≡ ok (s.last_id + 1, insert_task (strip request) now s)
unfolding Tasks.create
create_lem s request now opened readable = rw readable (simp opened)

-- A request that is not blank, recorded in the chat on an open store, is the next row of the queue, and
-- `work_status` then tells of it: its number and the whole request, without the blanks at its ends.
pub run_request-Told :
    (show : Json → Text) (arguments : Fields) (now later : ℕ) (s : TaskStore)
    → s.is_open ≡ true
    → is_empty (strip (text_argument show (lit "request") arguments)) ≡ false
    → (t : Task) × (reply : Text) × ((run_request show arguments now s).1.tasks
        ≡ s.tasks ++ (t ∷ []))
      × (t.request ≡ strip (text_argument show (lit "request") arguments))
      × (run_status later (run_request show arguments now s).1 ≡ ok reply)
      × Told t reply
unfolding run_request insert_task
run_request-Told show arguments now later s opened readable =
    let text = strip (text_argument show (lit "request") arguments) in
    let made = insert_task text now s in
    let (reply, answered, told) = run_status-Told later made opened in
    let done : run_request show arguments now s ≡ (
      ok (
          lit "Registrata come lavoro #"
          ++ (decimal (s.last_id + 1)
              ++ lit ". Sara' presa in carico alla prossima sessione di sviluppo.")),
      made,
    ) =
      rw (run_request, create_lem s _ now opened readable) refl in
    (
      _,
      reply,
      ap (λ r. r.1.tasks) done,
      refl,
      ap (λ r. run_status later r.1) done ∙ answered,
      All-last (λ t. (is_queued t || is_waiting t) ≡ true → Told t reply) s.tasks _ told refl,
    )
