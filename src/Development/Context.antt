-- ===== src/Development/Context.antt =====
-- `DevelopmentContext` of tools/development.py: the line about the queue in front of the model.
use emma.Common.{
  List, [], ◌∷◌, ◌++◌, Text, lit, length, join, is_empty, map, select, decimal, Result, ok, err,
  Exc, if◌then◌else◌,
}
use emma.Tasks.{Task, TaskStore, is_waiting, open_tasks}

-- `', '.join('#' + str(t.id) for t in tasks)`
unfoldable pub numbers_of : List Task → Text
numbers_of tasks = join (lit ", ") (map (λ t. lit "#" ++ decimal t.id) tasks)

-- `DevelopmentContext.snapshot`
unfoldable pub context_line : TaskStore → Result Exc Text
unfolding numbers_of
context_line s = elim (open_tasks s) [
  | err e ↦ err e
  | ok [] ↦ ok (
      lit
        "Stato dei lavori di sviluppo in questo momento: nessuno aperto. Questa riga e' sempre aggiornata: se ricordi il contrario, questa ha ragione.")
  | ok (t ∷ ts) ↦
      let tasks = t ∷ ts in
      let waiting = select is_waiting tasks in
      ok (
        lit "Stato dei lavori di sviluppo in questo momento: "
        ++ (decimal (length tasks)
            ++ (lit " aperti ("
                ++ (numbers_of tasks
                    ++ (lit ")."
                        ++ ((if is_empty waiting
                              then []
                              else lit " Di questi, "
                                ++ (decimal (length waiting)
                                    ++ (lit " attendono una risposta dell'utente ("
                                        ++ (numbers_of waiting ++ lit ")."))))
                            ++ lit
                                " Questa riga e' sempre aggiornata: se la conversazione precedente dice un numero diverso, quella e' vecchia e questa ha ragione. Per il contenuto dei lavori usa work_status, non la memoria."))))))
]
