-- ===== src/Memory/Sqlite/Refines.antt =====
-- The two stores of core/memory.py, SqliteConversationMemory and InMemoryConversationMemory, side
-- by side.
use emma.Common.{
  ℕ, ◌+◌, ◌≡◌, refl, sym, ◌∙◌, true, false, List, [], ◌∷◌, ◌++◌, Text, text_eq, text_eq_iff,
  text_eq_refl, map-append, select, append-nil, select-append, Result, ok, err, Exc, ◌>>=◌, arith,
  Bool-cases, inl, inr, if◌then◌else◌,
}
use emma.Memory
use emma.Memory.{StoredMessage, InMemory, window}
use emma.Memory.Histories.{
  get_history-append, get_history-prune_locked, max_messages-prune_locked, max_messages-append,
}
use emma.Memory.Sqlite
use emma.Memory.Sqlite.{
  Row, Sqlite, conversation, message_of, require_open, get_history, prune_locked, insert_row,
}
use emma.Memory.Sqlite.Rows.{Ascending, Ascending-snoc, history}
use emma.Memory.Sqlite.Pruning.{Ascending-prune_rows, history-prune_rows}

-- An open store whose ids ascend up to the last one given out.
pub record IsValid (s : Sqlite) : Type 0 where
  pub opened : s.is_open ≡ true
  pub ascending : Ascending 0 s.last_id s.rows

conversation-append :
    (c : Text) (xs ys : List Row)
    → conversation c (xs ++ ys) ≡ conversation c xs ++ conversation c ys
unfolding conversation
conversation-append c xs ys = select-append _ xs ys

history-append : (c : Text) (xs ys : List Row) → history c (xs ++ ys) ≡ history c xs ++ history c ys
history-append c xs ys = rw (conversation-append, map-append) refl

history-insert_row :
    (c d : Text) (m : StoredMessage) (now : ℕ) (s : Sqlite)
    → history d (insert_row c m now s).rows
      ≡ (if text_eq c d then history d s.rows ++ (m ∷ []) else history d s.rows)
unfolding insert_row conversation select
history-insert_row c d m now s = rw history-append (elim (Bool-cases (text_eq c d)) [
  | inl t ↦
      let e : text_eq d c ≡ true = ground (arith, text_eq_iff c d, text_eq_iff d c) in
      rw (t, e) refl
  | inr t ↦
      let e : text_eq d c ≡ false = ground (arith, text_eq_iff c d, text_eq_iff d c) in
      rw (t, e) (append-nil _)
])

insert_row-Ascending :
    (c : Text) (m : StoredMessage) (now : ℕ) (s : Sqlite)
    → Ascending 0 s.last_id s.rows
    → Ascending 0 (insert_row c m now s).last_id (insert_row c m now s).rows
unfolding insert_row
insert_row-Ascending c m now s h = Ascending-snoc 0 s.last_id s.rows _ h refl

insert_row-max :
    (c : Text) (m : StoredMessage) (now : ℕ) (s : Sqlite)
    → (insert_row c m now s).max_messages ≡ s.max_messages
unfolding insert_row
insert_row-max c m now s = refl

-- `append` on an open store: no error, ids still ascend, and the histories change as the window
-- over the appended message says.
module _ (c : Text) (m : StoredMessage) (now : ℕ) (s : Sqlite) (h : IsValid s) where
  abbrev appended : Sqlite
  appended = prune_locked (insert_row c m now s) c

  append-ok : Sqlite.append s c m now ≡ ok appended
  unfolding Sqlite.append
  append-ok = rw h.opened refl

  appended-IsValid : IsValid appended
  unfolding prune_locked insert_row
  appended-IsValid = record {
    opened = h.opened;
    ascending =
        Ascending-prune_rows 0 (s.last_id + 1) c s.max_messages (insert_row c m now s).rows
          (insert_row-Ascending c m now s h.ascending);
  }

  history-appended :
      (d : Text)
      → history d appended.rows ≡ (
          if text_eq c d
          then window s.max_messages (history c s.rows ++ (m ∷ []))
          else history d s.rows)
  unfolding prune_locked
  history-appended d =
      let s' = insert_row c m now s in
      let asc = insert_row-Ascending c m now s h.ascending in
      rw (history-prune_rows 0 s'.last_id c s'.max_messages d s'.rows asc) (
        rw (history-insert_row, text_eq_refl)
          (rw insert_row-max (elim (Bool-cases (text_eq c d)) [
            | inl t ↦ rw t refl
            | inr t ↦ rw t (rw history-insert_row (rw t refl))
          ])))

-- `append` on a valid store never raises and leaves it valid. The conversation's history becomes
-- the window over it with the message behind, and no other conversation's history changes.
pub append_lem :
    (s : Sqlite) (c : Text) (m : StoredMessage) (now : ℕ)
    → IsValid s
    → (s' : Sqlite) × (Sqlite.append s c m now ≡ ok s')
      × IsValid s'
      × ((d : Text)
          → history d s'.rows ≡ (
              if text_eq c d
              then window s.max_messages (history c s.rows ++ (m ∷ []))
              else history d s.rows))
append_lem s c m now h = (
  appended c m now s h,
  append-ok c m now s h,
  appended-IsValid c m now s h,
  history-appended c m now s h,
)

-- The calls that change a store.
pub data Operation : Type 0 where
  append : Text → StoredMessage → (now : ℕ) → Operation
  prune : Text → Operation

pub run_in_memory : List Operation → InMemory → InMemory
run_in_memory [] a = a
run_in_memory (Operation.append c m now ∷ ops) a = run_in_memory ops (Memory.append a c m)
run_in_memory (Operation.prune c ∷ ops) a = run_in_memory ops (Memory.prune a c)

pub run_sqlite : List Operation → Sqlite → Result Exc Sqlite
run_sqlite [] s = ok s
run_sqlite (Operation.append c m now ∷ ops) s = do s' ← Sqlite.append s c m now; run_sqlite ops s'
run_sqlite (Operation.prune c ∷ ops) s = do s' ← Sqlite.prune s c; run_sqlite ops s'

-- The abstraction: the stores have one limit and give every conversation the same history.
pub record Agrees (a : InMemory) (s : Sqlite) : Type 0 where
  pub valid : IsValid s
  pub limit : a.max_messages ≡ s.max_messages
  pub histories : (c : Text) → Memory.get_history a c ≡ history c s.rows

append-Agrees :
    (a : InMemory) (s : Sqlite) (c : Text) (m : StoredMessage) (now : ℕ)
    → Agrees a s
    → (s' : Sqlite) × (Sqlite.append s c m now ≡ ok s') × Agrees (Memory.append a c m) s'
unfolding prune_locked insert_row
append-Agrees a s c m now h = (
  appended c m now s h.valid,
  append-ok c m now s h.valid,
  record {
    valid = appended-IsValid c m now s h.valid;
    limit = max_messages-append a c m ∙ h.limit;
    histories = λ d.
        rw (get_history-append, h.histories c, h.histories d, h.limit)
          (sym (history-appended c m now s h.valid d));
  },
)

prune-Agrees :
    (a : InMemory) (s : Sqlite) (c : Text)
    → Agrees a s
    → (s' : Sqlite) × (Sqlite.prune s c ≡ ok s') × Agrees (Memory.prune a c) s'
unfolding Sqlite.prune prune_locked Memory.prune
prune-Agrees a s c h = (
  prune_locked s c,
  rw h.valid.opened refl,
  record {
    valid = record {
      opened = h.valid.opened;
      ascending = Ascending-prune_rows 0 s.last_id c s.max_messages s.rows h.valid.ascending;
    };
    limit = max_messages-prune_locked a c ∙ h.limit;
    histories = λ d.
        rw (get_history-prune_locked, h.histories c, h.histories d, h.limit)
          (sym (history-prune_rows 0 s.last_id c s.max_messages d s.rows h.valid.ascending));
  },
)

run-Agrees :
    (ops : List Operation) (a : InMemory) (s : Sqlite)
    → Agrees a s
    → (s' : Sqlite) × (run_sqlite ops s ≡ ok s') × Agrees (run_in_memory ops a) s'
unfolding run_sqlite run_in_memory
run-Agrees [] a s h = (s, refl, h)
run-Agrees (Operation.append c m now ∷ ops) a s h =
    let (s', e, h') = append-Agrees a s c m now h in
    let (t, f, k) = run-Agrees ops (Memory.append a c m) s' h' in (t, rw e f, k)
run-Agrees (Operation.prune c ∷ ops) a s h =
    let (s', e, h') = prune-Agrees a s c h in
    let (t, f, k) = run-Agrees ops (Memory.prune a c) s' h' in (t, rw e f, k)

-- Two stores that agree go on to: after any appends and prunes the persistent store has raised
-- nothing, and every conversation reads the same from both.
pub stores_agree :
    (ops : List Operation) (a : InMemory) (s : Sqlite)
    → Agrees a s
    → (s' : Sqlite) × (run_sqlite ops s ≡ ok s')
      × ((c : Text) → Sqlite.get_history s' c ≡ ok (Memory.get_history (run_in_memory ops a) c))
unfolding Sqlite.get_history
stores_agree ops a s h =
    let (s', e, k) = run-Agrees ops a s h in (s', e, λ c. rw k.valid.opened (rw k.histories refl))

-- A store that nobody opened refuses every method, and says so.
pub closed_refuses :
    (s : Sqlite) (c : Text) (m : StoredMessage) (now : ℕ)
    → s.is_open ≡ false
    → (Sqlite.get_history s c ≡ err Sqlite.not_open)
      × (Sqlite.append s c m now ≡ err Sqlite.not_open)
      × (Sqlite.prune s c ≡ err Sqlite.not_open)
unfolding Sqlite.get_history Sqlite.append Sqlite.prune
closed_refuses s c m now e = (rw e refl, rw e refl, rw e refl)
