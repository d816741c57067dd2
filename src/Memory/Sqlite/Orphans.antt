-- ===== src/Memory/Sqlite/Orphans.antt =====
-- The loop of core/memory.py that deletes the rows in front of a conversation's first user
-- message, beside the loop of the in-process store.
use emma.Common.{
  ℕ, zero, suc, ◌≤◌, ◌≡◌, refl, ap, sym, ◌∙◌, List, [], ◌∷◌, Text, text_eq, text_eq_refl, arith,
  length, map, length-map, Bool-cases, List-cases, Option-cases, inl, inr, ◌⊎◌, none, some,
  if◌then◌else◌,
}
use emma.Llm.{Role, user, assistant}
use emma.Memory.{StoredMessage, drop_orphans}
use emma.Memory.Sqlite.{Row, conversation, message_of, delete_ids, first_row, delete_orphans}
use emma.Memory.Sqlite.Rows.{Ascending, Ascending-select, history, history-delete, history-same}

pub Ascending-delete_ids :
    (js : List ℕ) (lo hi : ℕ) (rows : List Row)
    → Ascending lo hi rows
    → Ascending lo hi (delete_ids js rows)
unfolding delete_ids
Ascending-delete_ids js lo hi rows h = Ascending-select _ lo hi rows h

Role-cases : (r : Role) → (r ≡ user) ⊎ (r ≡ assistant)
Role-cases user = inl refl
Role-cases assistant = inr refl

module _ (lo hi : ℕ) (c : Text) where
  -- A history that the loop leaves alone.
  unchanged :
      (d : Text) (rows : List Row)
      → drop_orphans (history c rows) ≡ history c rows
      → history d rows ≡ (if text_eq c d then drop_orphans (history c rows) else history d rows)
  unchanged d rows e = elim (Bool-cases (text_eq c d)) [
    | inl same ↦ rw same (history-same c d rows same ∙ sym e)
    | inr other ↦ rw other refl
  ]

  no_rows :
      (rows : List Row) → conversation c rows ≡ [] → drop_orphans (history c rows) ≡ history c rows
  unfolding drop_orphans
  no_rows rows e = rw e refl

  user_first :
      (r : Row) (rest : List Row)
      → r.role ≡ user
      → drop_orphans (map message_of (r ∷ rest)) ≡ map message_of (r ∷ rest)
  unfolding drop_orphans
  user_first r rest e = ground arith

  orphan_first :
      (r : Row) (rest : List Row)
      → r.role ≡ assistant
      → drop_orphans (map message_of (r ∷ rest)) ≡ drop_orphans (map message_of rest)
  unfolding drop_orphans
  orphan_first r rest e = ground arith

  history-delete_first :
      (d : Text) (rows : List Row) (r : Row) (rest : List Row)
      → Ascending lo hi rows
      → conversation c rows ≡ r ∷ rest
      → history d (delete_ids (r.id ∷ []) rows)
        ≡ (if text_eq c d then map message_of rest else history d rows)
  history-delete_first d rows r rest h e = rw e at (history-delete lo hi 1 c d rows h)

  stops_at_none :
      (fuel : ℕ) (rows : List Row) → conversation c rows ≡ [] → delete_orphans fuel c rows ≡ rows
  unfolding delete_orphans first_row
  stops_at_none zero rows e = refl
  stops_at_none (suc fuel) rows e =
      let f : first_row c rows ≡ none = rw (e, first_row) refl in rw (f, delete_orphans) refl

  first_row-some :
      (rows : List Row) (r : Row) (rest : List Row)
      → conversation c rows ≡ r ∷ rest
      → first_row c rows ≡ some r
  unfolding first_row
  first_row-some rows r rest e = rw (e, first_row) refl

  stops_at_user :
      (fuel : ℕ) (rows : List Row) (r : Row)
      → first_row c rows ≡ some r
      → r.role ≡ user
      → delete_orphans (suc fuel) c rows ≡ rows
  unfolding delete_orphans
  stops_at_user fuel rows r f u = rw (f, delete_orphans) (rw u refl)

  drops_assistant :
      (fuel : ℕ) (rows : List Row) (r : Row)
      → first_row c rows ≡ some r
      → r.role ≡ assistant
      → delete_orphans (suc fuel) c rows ≡ delete_orphans fuel c (delete_ids (r.id ∷ []) rows)
  unfolding delete_orphans
  drops_assistant fuel rows r f a = rw (f, delete_orphans) (rw a refl)

  -- A round that deletes, before the rounds that follow it.
  orphan_round :
      (d : Text) (rows rows' : List Row) (r : Row) (rest : List Row) (out : List StoredMessage)
      → conversation c rows ≡ r ∷ rest
      → r.role ≡ assistant
      → history c rows' ≡ map message_of rest
      → history d rows' ≡ (if text_eq c d then map message_of rest else history d rows)
      → out ≡ (if text_eq c d then drop_orphans (history c rows') else history d rows')
      → out ≡ (if text_eq c d then drop_orphans (history c rows) else history d rows)
  orphan_round d rows rows' r rest out e a mine his ih =
      let same : drop_orphans (history c rows) ≡ drop_orphans (history c rows') =
        rw (e, mine) (orphan_first r rest a) in
      elim (Bool-cases (text_eq c d)) [
        | inl t ↦ rw (t, same) (rw t at ih)
        | inr t ↦ rw t (rw t at ih ∙ rw t at his)
      ]

  -- The loop, one round for each row, does what the in-process loop does.
  pub history-delete_orphans :
      (fuel : ℕ) (d : Text) (rows : List Row)
      → Ascending lo hi rows
      → length (conversation c rows) ≤ fuel
      → history d (delete_orphans fuel c rows)
        ≡ (if text_eq c d then drop_orphans (history c rows) else history d rows)
  history-delete_orphans zero d rows h l = elim (List-cases (conversation c rows)) [
    | inl e ↦ rw (stops_at_none zero rows e) (unchanged d rows (no_rows rows e))
    | inr (r, rest, e) ↦ absurd (omega (arith, ap length e))
  ]
  history-delete_orphans (suc fuel) d rows h l = elim (List-cases (conversation c rows)) [
    | inl e ↦ rw (stops_at_none (suc fuel) rows e) (unchanged d rows (no_rows rows e))
    | inr (r, rest, e) ↦ elim (Role-cases r.role) [
      | inl u ↦
          rw (stops_at_user fuel rows r (first_row-some rows r rest e) u)
            (unchanged d rows (rw e (user_first r rest u)))
      | inr a ↦
          let rows' = delete_ids (r.id ∷ []) rows in
          let mine : history c rows' ≡ map message_of rest =
            rw text_eq_refl at (history-delete_first c rows r rest h e) in
          let fits : length (conversation c rows') ≤ fuel = omega (
            arith,
            l,
            ap length e,
            ap length mine,
            length-map message_of (conversation c rows'),
            length-map message_of rest,
          ) in
          let ih =
            history-delete_orphans fuel d rows' (Ascending-delete_ids (r.id ∷ []) lo hi rows h)
              fits in
          rw (drops_assistant fuel rows r (first_row-some rows r rest e) a) (
            orphan_round d rows rows' r rest _ e a mine (history-delete_first d rows r rest h e) ih)
    ]
  ]

  pub Ascending-delete_orphans :
      (fuel : ℕ) (rows : List Row)
      → Ascending lo hi rows
      → Ascending lo hi (delete_orphans fuel c rows)
  unfolding delete_orphans
  Ascending-delete_orphans zero rows h = h
  Ascending-delete_orphans (suc fuel) rows h = elim (Option-cases (first_row c rows)) [
    | inl e ↦ rw (e, delete_orphans) h
    | inr (r, e) ↦ elim (Role-cases r.role) [
      | inl u ↦ rw (stops_at_user fuel rows r e u) h
      | inr a ↦ rw (drops_assistant fuel rows r e a) (
          Ascending-delete_orphans fuel (delete_ids (r.id ∷ []) rows)
            (Ascending-delete_ids (r.id ∷ []) lo hi rows h))
    ]
  ]
