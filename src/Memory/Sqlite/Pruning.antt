-- ===== src/Memory/Sqlite/Pruning.antt =====
-- `_prune_locked` of core/memory.py's SqliteConversationMemory, beside the window of the in-
-- process store.
use emma.Common.{
  ℕ, ◌-◌, ◌≤◌, ◌≡◌, refl, sym, Bool, true, false, List, [], ◌∷◌, Text, text_eq, text_eq_refl,
  length, take, length-map, length-select-le, is_empty, Bool-cases, inl, inr, ltb, if◌then◌else◌,
}
use emma.Memory.{window}
use emma.Memory.Window.{cut, window-cut}
use emma.Memory.Sqlite.{Row, conversation, message_of, delete_ids, delete_excess, prune_rows}
use emma.Memory.Sqlite.Rows.{Ascending, history, ids, history-delete, history-same, delete_ids-nil}
use emma.Memory.Sqlite.Orphans.{
  Ascending-delete_ids, history-delete_orphans, Ascending-delete_orphans,
}

length-conversation-le : (c : Text) (rows : List Row) → length (conversation c rows) ≤ length rows
unfolding conversation
length-conversation-le c rows = length-select-le _ rows

module _ (lo hi : ℕ) (c : Text) where
  -- The test `if ids` changes nothing: with no id there is nothing to delete.
  delete_excess_lem :
      (max : ℕ) (rows : List Row)
      → delete_excess max c rows ≡ (
          if ltb max (length (conversation c rows))
          then delete_ids (take (length (conversation c rows) - max) (ids c rows)) rows
          else rows)
  unfolding delete_excess
  delete_excess_lem max rows =
      no_ids (take (length (conversation c rows) - max) (ids c rows))
        (ltb max (length (conversation c rows)))
    where
      no_ids :
          (js : List ℕ) (b : Bool)
          → (if b then if is_empty js then rows else delete_ids js rows else rows)
            ≡ (if b then delete_ids js rows else rows)
      no_ids [] true = sym (delete_ids-nil rows)
      no_ids [] false = refl
      no_ids (j ∷ js) b = refl

  history-delete_excess :
      (max : ℕ) (d : Text) (rows : List Row)
      → Ascending lo hi rows
      → history d (delete_excess max c rows)
        ≡ (if text_eq c d then cut max (history c rows) else history d rows)
  unfolding cut
  history-delete_excess max d rows h =
      rw (delete_excess_lem, length-map message_of (conversation c rows))
        (elim (Bool-cases (ltb max (length (conversation c rows)))) [
          | inl e ↦ rw e (history-delete lo hi _ c d rows h)
          | inr e ↦ rw e (elim (Bool-cases (text_eq c d)) [
            | inl same ↦ rw same (history-same c d rows same)
            | inr other ↦ rw other refl
          ])
        ])

  Ascending-delete_excess :
      (max : ℕ) (rows : List Row)
      → Ascending lo hi rows
      → Ascending lo hi (delete_excess max c rows)
  Ascending-delete_excess max rows h =
      rw delete_excess_lem (elim (Bool-cases (ltb max (length (conversation c rows)))) [
        | inl e ↦ rw e (Ascending-delete_ids _ lo hi rows h)
        | inr e ↦ rw e h
      ])

  pub Ascending-prune_rows :
      (max : ℕ) (rows : List Row) → Ascending lo hi rows → Ascending lo hi (prune_rows max c rows)
  unfolding prune_rows
  Ascending-prune_rows max rows h =
      Ascending-delete_orphans lo hi c (length (delete_excess max c rows))
        (delete_excess max c rows) (Ascending-delete_excess max rows h)

  -- Pruning one conversation in the table is the window on its history; the others keep theirs.
  pub history-prune_rows :
      (max : ℕ) (d : Text) (rows : List Row)
      → Ascending lo hi rows
      → history d (prune_rows max c rows)
        ≡ (if text_eq c d then window max (history c rows) else history d rows)
  unfolding prune_rows
  history-prune_rows max d rows h =
      let kept = delete_excess max c rows in
      let asc : Ascending lo hi kept = Ascending-delete_excess max rows h in
      let fits : length (conversation c kept) ≤ length kept = length-conversation-le c kept in
      let mine : history c kept ≡ cut max (history c rows) =
        rw text_eq_refl at (history-delete_excess max c rows h) in
      rw (history-delete_orphans lo hi c (length kept) d kept asc fits)
        (elim (Bool-cases (text_eq c d)) [
          | inl t ↦ rw (t, mine, window-cut) refl
          | inr t ↦ rw t (rw t at (history-delete_excess max d rows h))
        ])
