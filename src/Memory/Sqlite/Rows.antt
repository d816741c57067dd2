-- ===== src/Memory/Sqlite/Rows.antt =====
-- What the statements of core/memory.py do to the history of every conversation, over a table whose
-- ids ascend.
use emma.Common.{
  ℕ, zero, suc, ◌+◌, ◌≤◌, ◌<◌, ◌≡◌, refl, ap, sym, ◌∙◌, Bool, true, false, List, [], ◌∷◌, ◌++◌,
  Text, text_eq, text_eq_iff, arith, take, drop, map, select, Bool-cases, inl, inr, ◌==◌,
  if◌then◌else◌,
}
use emma.Memory.{StoredMessage}
use emma.Memory.Sqlite.{Row, conversation, message_of, id_of, mem_id, delete_ids}

-- The ids ascend, above `lo` and up to `hi`.
abbrev pub Ascending : ℕ → ℕ → List Row → Type 0
Ascending lo hi [] = lo ≤ hi
Ascending lo hi (r ∷ rs) = (lo < r.id) × Ascending r.id hi rs

-- The history of a conversation.
abbrev pub history : Text → List Row → List StoredMessage
history c rows = map message_of (conversation c rows)

abbrev pub ids : Text → List Row → List ℕ
ids c rows = map id_of (conversation c rows)

Ascending-le : (lo hi : ℕ) (rows : List Row) → Ascending lo hi rows → lo ≤ hi
Ascending-le lo hi [] h = h
Ascending-le lo hi (r ∷ rs) h = omega (arith, Ascending-le r.id hi rs h.1)

Ascending-weaken :
    (lo lo' hi : ℕ) (rows : List Row) → lo' ≤ lo → Ascending lo hi rows → Ascending lo' hi rows
Ascending-weaken lo lo' hi [] l h = omega arith
Ascending-weaken lo lo' hi (r ∷ rs) l h = (omega arith, h.1)

pub Ascending-select :
    (p : Row → Bool) (lo hi : ℕ) (rows : List Row)
    → Ascending lo hi rows
    → Ascending lo hi (select p rows)
unfolding select
Ascending-select p lo hi [] h = h
Ascending-select p lo hi (r ∷ rs) h = elim (Bool-cases (p r)) [
  | inl e ↦ rw e (h.0, Ascending-select p r.id hi rs h.1)
  | inr e ↦
      rw e (
        Ascending-weaken r.id lo hi (select p rs) (omega arith) (Ascending-select p r.id hi rs h.1))
]

pub Ascending-snoc :
    (lo hi : ℕ) (rows : List Row) (r : Row)
    → Ascending lo hi rows
    → r.id ≡ hi + 1
    → Ascending lo (hi + 1) (rows ++ (r ∷ []))
Ascending-snoc lo hi [] r h e = (omega arith, omega arith)
Ascending-snoc lo hi (x ∷ xs) r h e = (h.0, Ascending-snoc x.id hi xs r h.1 e)

-- An id below the table is none that a statement took from it.
mem_id_below :
    (i lo hi n : ℕ) (c : Text) (rows : List Row)
    → i ≤ lo
    → Ascending lo hi rows
    → mem_id i (take n (ids c rows)) ≡ false
unfolding mem_id conversation select
mem_id_below i lo hi zero c rows l h = refl
mem_id_below i lo hi (suc n) c [] l h = refl
mem_id_below i lo hi (suc n) c (r ∷ rs) l h = elim (Bool-cases (text_eq c r.conv_id)) [
  | inl e ↦ rw e (ground (arith, mem_id_below i r.id hi n c rs (omega arith) h.1))
  | inr e ↦ rw e (mem_id_below i r.id hi (suc n) c rs (omega arith) h.1)
]

pub delete_ids-nil : (rows : List Row) → delete_ids [] rows ≡ rows
unfolding delete_ids select mem_id
delete_ids-nil [] = refl
delete_ids-nil (r ∷ rs) = ap (◌∷◌ r) (delete_ids-nil rs)

-- An id below the table deletes nothing.
delete_ids-cons :
    (i lo hi : ℕ) (js : List ℕ) (rows : List Row)
    → i ≤ lo
    → Ascending lo hi rows
    → delete_ids (i ∷ js) rows ≡ delete_ids js rows
unfolding delete_ids select mem_id
delete_ids-cons i lo hi js [] l h = refl
delete_ids-cons i lo hi js (r ∷ rs) l h =
    let e : (r.id == i) ≡ false = ground arith in
    rw (e, delete_ids-cons i r.id hi js rs (omega arith) h.1)

pub conversation-hit :
    (c : Text) (r : Row) (rs : List Row)
    → text_eq c r.conv_id ≡ true
    → conversation c (r ∷ rs) ≡ r ∷ conversation c rs
unfolding conversation select
conversation-hit c r rs e = rw e

pub conversation-miss :
    (c : Text) (r : Row) (rs : List Row)
    → text_eq c r.conv_id ≡ false
    → conversation c (r ∷ rs) ≡ conversation c rs
unfolding conversation select
conversation-miss c r rs e = rw e

delete_ids-hit :
    (js : List ℕ) (r : Row) (rs : List Row)
    → mem_id r.id js ≡ true
    → delete_ids js (r ∷ rs) ≡ delete_ids js rs
unfolding delete_ids select
delete_ids-hit js r rs e = rw e

delete_ids-keep :
    (js : List ℕ) (r : Row) (rs : List Row)
    → mem_id r.id js ≡ false
    → delete_ids js (r ∷ rs) ≡ r ∷ delete_ids js rs
unfolding delete_ids select
delete_ids-keep js r rs e = rw e

mem_id_head : (i : ℕ) (js : List ℕ) → mem_id i (i ∷ js) ≡ true
unfolding mem_id
mem_id_head i js = ground arith

module _ (lo hi n : ℕ) (c d : Text) (r : Row) (rs : List Row) (h : Ascending lo hi (r ∷ rs)) where
  -- The row is the conversation's: it goes, and the others as if it had not been there.
  history-delete_first :
      text_eq c r.conv_id ≡ true
      → history d (delete_ids (take n (ids c rs)) rs)
        ≡ (if text_eq c d then drop n (history c rs) else history d rs)
      → history d (delete_ids (take (suc n) (ids c (r ∷ rs))) (r ∷ rs))
        ≡ (if text_eq c d then drop (suc n) (history c (r ∷ rs)) else history d (r ∷ rs))
  history-delete_first e ih =
      let js = take n (ids c rs) in
      let gone : delete_ids (r.id ∷ js) (r ∷ rs) ≡ delete_ids js rs =
        delete_ids-hit (r.id ∷ js) r rs (mem_id_head r.id js)
        ∙ delete_ids-cons r.id r.id hi js rs (omega arith) h.1 in
      rw (conversation-hit c r rs e) (
        rw gone (
          rw ih (elim (Bool-cases (text_eq c d)) [
            | inl same ↦ rw same refl
            | inr other ↦
                let e' : text_eq d r.conv_id ≡ false =
                  ground
                    (arith, text_eq_iff c d, text_eq_iff c r.conv_id, text_eq_iff d r.conv_id) in
                rw (other, conversation-miss d r rs e') refl
          ])))

  -- The row is another's: it stays.
  history-delete_other :
      text_eq c r.conv_id ≡ false
      → history d (delete_ids (take (suc n) (ids c rs)) rs)
        ≡ (if text_eq c d then drop (suc n) (history c rs) else history d rs)
      → history d (delete_ids (take (suc n) (ids c (r ∷ rs))) (r ∷ rs))
        ≡ (if text_eq c d then drop (suc n) (history c (r ∷ rs)) else history d (r ∷ rs))
  history-delete_other e ih =
      let js = take (suc n) (ids c rs) in
      let stays : delete_ids js (r ∷ rs) ≡ r ∷ delete_ids js rs =
        delete_ids-keep js r rs (mem_id_below r.id r.id hi (suc n) c rs (omega arith) h.1) in
      rw (conversation-miss c r rs e) (
        rw stays (elim (Bool-cases (text_eq d r.conv_id)) [
          | inl mine ↦
              let other : text_eq c d ≡ false =
                ground (arith, text_eq_iff c d, text_eq_iff c r.conv_id, text_eq_iff d r.conv_id) in
              let ih' = rw other at ih in
              rw (other, conversation-hit d r rs mine, conversation-hit d r (delete_ids js rs) mine)
                (ap (◌∷◌ (message_of r)) ih')
          | inr his ↦
              rw (conversation-miss d r rs his, conversation-miss d r (delete_ids js rs) his) ih
        ]))

pub history-same :
    (c d : Text) (rows : List Row) → text_eq c d ≡ true → history d rows ≡ history c rows
history-same c d rows e = ap (λ x. history x rows) (sym ((text_eq_iff c d).0 e))

-- The first `n` ids of a conversation, deleted, drop its first `n` messages and no other's.
pub history-delete :
    (lo hi n : ℕ) (c d : Text) (rows : List Row)
    → Ascending lo hi rows
    → history d (delete_ids (take n (ids c rows)) rows)
      ≡ (if text_eq c d then drop n (history c rows) else history d rows)
history-delete lo hi zero c d rows h =
    rw delete_ids-nil (elim (Bool-cases (text_eq c d)) [
      | inl e ↦ rw e (history-same c d rows e)
      | inr e ↦ rw e refl
    ])
history-delete lo hi (suc n) c d [] h = unfold conversation select delete_ids in ground arith
history-delete lo hi (suc n) c d (r ∷ rs) h = elim (Bool-cases (text_eq c r.conv_id)) [
  | inl e ↦ history-delete_first lo hi n c d r rs h e (history-delete r.id hi n c d rs h.1)
  | inr e ↦ history-delete_other lo hi n c d r rs h e (history-delete r.id hi (suc n) c d rs h.1)
]
