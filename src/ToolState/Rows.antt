-- ===== src/ToolState/Rows.antt =====
-- The table of tools/toolstate/store.py: what can be in it, and what its two writes undo.
use emma.Common.{
  ℕ, ◌≡◌, refl, ap, sym, ◌∙◌, inl, inr, Bool, true, false, not, some, List, [], ◌∷◌, ◌++◌,
  append-nil, Text, text_eq, text_eq_iff, text_eq_refl, mem_text, strip, All, map, select,
  select-append, any, Result, ok, err, Exc, arith, Bool-cases,
}
use mathlib.Core.Path.{subst}
use emma.Router.{Router}
use emma.Router.Tools.{switched_off, tool_schemas}
use emma.Router.Tools.Gate.{declared, names, tool_schemas-declared}
use emma.ToolState
use emma.ToolState.{SwitchedOff, ToolStateStore, protected, named, disabled, insert_or_ignore}

-- No protected tool is in the table.
abbrev pub Unprotected : SwitchedOff → Type 0
Unprotected row = mem_text row.name protected ≡ false

abbrev pub IsValid : ToolStateStore → Type 0
IsValid s = All Unprotected s.rows

-- The calls that write.
pub data Operation : Type 0 where
  disable : (name reason : Text) → (now : ℕ) → Operation
  enable : (name : Text) → Operation

abbrev pub left_by : ToolStateStore → Result Exc (Bool × ToolStateStore) → ToolStateStore
left_by s (ok (done, s')) = s'
left_by s (err e) = s

unfoldable pub step : Operation → ToolStateStore → ToolStateStore
step (Operation.disable name reason now) s = left_by s (ToolState.disable s name reason now)
step (Operation.enable name) s = left_by s (ToolState.enable s name)

unfoldable pub steps : List Operation → ToolStateStore → ToolStateStore
steps [] s = s
steps (op ∷ ops) s = steps ops (step op s)

pub All-snoc :
    (rows : List SwitchedOff) (row : SwitchedOff)
    → All Unprotected rows
    → Unprotected row
    → All Unprotected (rows ++ (row ∷ []))
All-snoc [] row h k = (k, tt)
All-snoc (r ∷ rows) row h k = (h.0, All-snoc rows row h.1 k)

All-select :
    (p : SwitchedOff → Bool) (rows : List SwitchedOff)
    → All Unprotected rows
    → All Unprotected (select p rows)
unfolding select
All-select p [] h = tt
All-select p (r ∷ rows) h = elim (Bool-cases (p r)) [
  | inl e ↦ rw e (h.0, All-select p rows h.1)
  | inr e ↦ rw e (All-select p rows h.1)
]

pub disable-IsValid :
    (s : ToolStateStore) (name reason : Text) (now : ℕ)
    → IsValid s
    → IsValid (left_by s (ToolState.disable s name reason now))
unfolding ToolState.disable insert_or_ignore
disable-IsValid s name reason now h = elim (Bool-cases (mem_text name protected)) [
  | inl e ↦ rw e h
  | inr e ↦ rw e (elim (Bool-cases s.is_open) [
    | inr c ↦ rw c h
    | inl o ↦ rw o (elim (Bool-cases (any (named name) s.rows)) [
      | inl f ↦ rw f h
      | inr f ↦ rw f (All-snoc s.rows _ h e)
    ])
  ])
]

step-IsValid : (op : Operation) (s : ToolStateStore) → IsValid s → IsValid (step op s)
unfolding step ToolState.enable
step-IsValid (Operation.disable name reason now) s h = disable-IsValid s name reason now h
step-IsValid (Operation.enable name) s h = elim (Bool-cases s.is_open) [
  | inr c ↦ rw c h
  | inl o ↦ rw o (All-select _ s.rows h)
]

pub steps-IsValid : (ops : List Operation) (s : ToolStateStore) → IsValid s → IsValid (steps ops s)
unfolding steps
steps-IsValid [] s h = h
steps-IsValid (op ∷ ops) s h = steps-IsValid ops (step op s) (step-IsValid op s h)

-- A protected name is none of the names in the table.
pub protected_is_on :
    (n : Text) (rows : List SwitchedOff)
    → mem_text n protected ≡ true
    → All Unprotected rows
    → mem_text n (map (λ row. row.name) rows) ≡ false
unfolding mem_text
protected_is_on n [] p h = refl
protected_is_on n (r ∷ rows) p h = elim (Bool-cases (text_eq n r.name)) [
  | inl e ↦
      let same : r.name ≡ n = sym ((text_eq_iff n r.name).0 e) in
      let off : mem_text n protected ≡ false = subst (λ x. mem_text x protected ≡ false) same h.0 in
      let bad : true ≡ false = sym p ∙ off in cc
  | inr e ↦ rw e (protected_is_on n rows p h.1)
]

-- If the router's gate reads this store, the model is still told of the tool that lists the tools
-- and of the one that switches them on, where they are registered: from a table with no protected
-- name, no sequence of writes takes one of the two off the list.
pub protected-declared :
    {W : Type 0} (r : Router W) (ops : List Operation) (s : ToolStateStore) (w : W) (n : Text)
    → r.tool_gate ≡ some (λ w'. (disabled (steps ops s), w'))
    → IsValid s
    → mem_text n protected ≡ true
    → mem_text n (names r.tools) ≡ true
    → mem_text n (declared (tool_schemas r (switched_off r w).0)) ≡ true
unfolding switched_off disabled
protected-declared r ops s w n g h p m =
    rw (tool_schemas-declared, m, g)
      (elim (Bool-cases (steps ops s).is_open) [
        | inr c ↦ rw c (unfold mem_text in refl)
        | inl o ↦ rw o (rw (protected_is_on n (steps ops s).rows p (steps-IsValid ops s h)) refl)
      ])

select_all :
    (name : Text) (rows : List SwitchedOff)
    → any (named name) rows ≡ false
    → select (λ row. not (named name row)) rows ≡ rows
unfolding any select
select_all name [] h = refl
select_all name (r ∷ rows) h = elim (Bool-cases (named name r)) [
  | inl e ↦ let bad : true ≡ false = rw e at h in cc
  | inr e ↦ rw e (ap (◌∷◌ r) (select_all name rows (rw e at h)))
]

any-snoc :
    (name : Text) (rows : List SwitchedOff) (row : SwitchedOff)
    → named name row ≡ true
    → any (named name) (rows ++ (row ∷ [])) ≡ true
unfolding any
any-snoc name [] row h = rw h refl
any-snoc name (r ∷ rows) row h = rw (any-snoc name rows row h) (ground arith)

-- On an open store, `enable` undoes `disable`: a tool that is not protected and not off goes off,
-- and switching it on gives the table back as it was.
pub enable-disable :
    (s : ToolStateStore) (name reason : Text) (now : ℕ)
    → s.is_open ≡ true
    → mem_text name protected ≡ false
    → any (named name) s.rows ≡ false
    → (s' : ToolStateStore) × (ToolState.disable s name reason now ≡ ok (true, s'))
      × (ToolState.enable s' name ≡ ok (true, s))
unfolding ToolState.disable ToolState.enable insert_or_ignore select
enable-disable s name reason now o p f =
    let row : SwitchedOff = record { name = name; since = now; reason = strip reason } in
    (
      record s { rows = s.rows ++ (row ∷ []) },
      simp (p, o, f),
      simp
          (
            o,
            any-snoc name s.rows row (text_eq_refl name),
            select-append,
            select_all name s.rows f,
            text_eq_refl,
            append-nil,
          )
          (ap (λ b. ok (true, record s { is_open = b })) (sym o)),
    )
