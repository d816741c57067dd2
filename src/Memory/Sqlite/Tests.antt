-- ===== src/Memory/Sqlite/Tests.antt =====
-- Runs of the persistent store of core/memory.py.
use emma.Common.{
  ℕ, ◌≡◌, refl, true, false, List, [], ◌∷◌, ◌++◌, Text, lit, text_eq, ok, err, arith, if◌then◌else◌,
}
use emma.Llm.{user, assistant}
use emma.Memory
use emma.Memory.{StoredMessage, InMemory, window}
use emma.Memory.Sqlite
use emma.Memory.Sqlite.{Row, Sqlite, sqlite, not_open}
use emma.Memory.Sqlite.Rows.{history}
use emma.Memory.Sqlite.Refines.{
  IsValid, Operation, append, prune, run_in_memory, run_sqlite, Agrees, append_lem, stores_agree,
  closed_refuses,
}

abbrev said : StoredMessage
said = record { role = user; content = lit "ciao" }

abbrev replied : StoredMessage
replied = record { role = assistant; content = lit "ciao a te" }

abbrev chat : Text
chat = lit "42"

abbrev one_row : Sqlite
one_row = record {
  max_messages = 2;
  rows = record { id = 4; conv_id = chat; role = user; content = lit "ciao"; ts = 0 } ∷ [];
  last_id = 9;
  is_open = true;
}

one_row-IsValid : IsValid one_row
one_row-IsValid = record { opened = refl; ascending = (omega arith, omega arith) }

append_lem_instance :
    (s' : Sqlite) × (Sqlite.append one_row chat replied 5 ≡ ok s')
    × IsValid s'
    × ((d : Text)
        → history d s'.rows ≡ (
            if text_eq chat d
            then window 2 (history chat one_row.rows ++ (replied ∷ []))
            else history d one_row.rows))
append_lem_instance = append_lem one_row chat replied 5 one_row-IsValid

abbrev new_memory : InMemory
new_memory = record { max_messages = 2; conversations = [] }

abbrev new_file : Sqlite
new_file = record { max_messages = 2; rows = []; last_id = 0; is_open = true }

new-Agrees : Agrees new_memory new_file
unfolding Memory.get_history Sqlite.conversation emma.Common.lookup emma.Common.select
new-Agrees = record {
  valid = record { opened = refl; ascending = omega arith };
  limit = refl;
  histories = λ c. refl;
}

abbrev script : List Operation
script = append chat said 1 ∷ append chat replied 2 ∷ append chat said 3 ∷ prune chat ∷ []

stores_agree_example :
    (s' : Sqlite) × (run_sqlite script new_file ≡ ok s')
    × ((c : Text)
        → Sqlite.get_history s' c ≡ ok (Memory.get_history (run_in_memory script new_memory) c))
stores_agree_example = stores_agree script new_memory new_file new-Agrees

abbrev closed : Sqlite
closed = record { max_messages = 2; rows = []; last_id = 0; is_open = false }

closed_store :
    (Sqlite.get_history closed chat ≡ err not_open)
    × (Sqlite.append closed chat said 1 ≡ err not_open)
    × (Sqlite.prune closed chat ≡ err not_open)
closed_store = closed_refuses closed chat said 1 refl

new_store : sqlite 2 [] 0 ≡ ok closed
unfolding sqlite
new_store = refl
