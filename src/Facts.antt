-- ===== src/Facts.antt =====
-- tools/facts/store.py: the facts that the user asked to remember.
-- The table is the list of its rows in the order of their ids, with the last id that AUTOINCREMENT
-- gave out. `lower` is SQLite's function of that name. A method holds the lock and is one step.
use emma.Common.{
  Opening, open_connection, close_connection, Option, none, some, runtime_error, ℕ, zero, suc, ◌+◌,
  Bool, true, false, Option, none, some, List, [], ◌∷◌, ◌++◌, Text, lit, text_eq, is_space,
  is_empty, join, length, decimal, map, select, any, Result, ok, err, Exc, ltb, leb, ◌==◌, ◌&&◌,
  if◌then◌else◌,
}
pub mod Valid
pub mod Remembered
pub mod Forgotten
pub mod Context
pub mod Tools
mod Tests

abbrev pub max_active_facts : ℕ
max_active_facts = 50

abbrev pub max_fact_length : ℕ
max_fact_length = 300

pub record Fact : Type 0 where
  pub id : ℕ
  pub text : Text
  pub created_at : ℕ
  pub forgotten_at : Option ℕ

pub record FactStore : Type 0 where
  pub facts : List Fact
  pub last_id : ℕ
  pub is_open : Bool

abbrev pub not_open : Exc
not_open = record {
  kind = runtime_error;
  message = lit "call open() on the fact store before using it";
}

-- `_require_open`, in front of what needs the connection
abbrev pub require_open : {A : Type 0} → FactStore → Result Exc A → Result Exc A
require_open s go = if s.is_open then go else err not_open

-- `text.split()`, with the word that is being read.
unfoldable pub words_from : Text → Text → List Text
words_from word [] = if is_empty word then [] else word ∷ []
words_from word (c ∷ cs) = elim (is_space c) [
  | false ↦ words_from (word ++ (c ∷ [])) cs
  | true ↦ elim (is_empty word) [ true ↦ words_from [] cs | false ↦ word ∷ words_from [] cs ]
]

-- `" ".join(text.split())`
unfoldable pub clean : Text → Text
unfolding words_from
clean text = join (32 ∷ []) (words_from [] text)

abbrev pub is_active : Fact → Bool
is_active f = elim f.forgotten_at [ none ↦ true | some at ↦ false ]

unfoldable pub active_facts : FactStore → List Fact
active_facts s = select is_active s.facts

-- `lower(text) = lower(?)`
abbrev pub same_fact : (Text → Text) → Text → Fact → Bool
same_fact lower cleaned f = text_eq (lower f.text) (lower cleaned)

unfoldable pub first_same : (Text → Text) → Text → List Fact → Option ℕ
first_same lower cleaned [] = none
first_same lower cleaned (f ∷ fs) =
    if same_fact lower cleaned f then some f.id else first_same lower cleaned fs

-- The INSERT of `remember`
unfoldable pub insert_fact : Text → ℕ → FactStore → FactStore
insert_fact cleaned now s = record s {
  facts =
      s.facts
      ++ (record { id = s.last_id + 1; text = cleaned; created_at = now; forgotten_at = none }
          ∷ []);
  last_id = s.last_id + 1;
}

abbrev pub already : Text
already = lit "gia' registrato"

unfoldable pub too_long : Text → Text
too_long cleaned =
    lit "il fatto e' troppo lungo ("
    ++ (decimal (length cleaned)
        ++ (lit " caratteri, il massimo e' " ++ (decimal max_fact_length ++ lit ")")))

unfoldable pub no_room : Text
no_room =
    lit "ci sono gia' "
    ++ (decimal max_active_facts
        ++ lit " fatti attivi, che e' il massimo; dimenticane uno per farne posto")

-- What `remember` does under the lock.
unfoldable pub remember_locked :
    (Text → Text) → FactStore → Text → ℕ → (Option ℕ × Text) × FactStore
unfolding first_same active_facts insert_fact no_room
remember_locked lower s cleaned now = elim (first_same lower cleaned (active_facts s)) [
  | some existing ↦ ((some existing, already), s)
  | none ↦
      if leb max_active_facts (length (active_facts s))
      then ((none, no_room), s)
      else ((some (s.last_id + 1), []), insert_fact cleaned now s)
]

unfoldable pub remember :
    (Text → Text) → FactStore → Text → ℕ → Result Exc ((Option ℕ × Text) × FactStore)
unfolding clean remember_locked too_long
remember lower s text now =
    if is_empty (clean text)
    then ok ((none, lit "il fatto e' vuoto"), s)
    else if ltb max_fact_length (length (clean text))
    then ok ((none, too_long (clean text)), s)
    else require_open s (ok (remember_locked lower s (clean text) now))

-- `id = ? AND forgotten_at IS NULL`
abbrev pub is_target : ℕ → Fact → Bool
is_target fact_id f = (f.id == fact_id) && is_active f

abbrev pub forgotten : ℕ → Fact → Fact
forgotten now f = record f { forgotten_at = some now }

unfoldable pub forget : FactStore → ℕ → ℕ → Result Exc (Bool × FactStore)
forget s fact_id now = require_open s (
    ok (
      any (is_target fact_id) s.facts,
      record s { facts = map (λ f. if is_target fact_id f then forgotten now f else f) s.facts },
    ))

unfoldable pub active : FactStore → Result Exc (List Fact)
unfolding active_facts
active s = require_open s (ok (active_facts s))

unfoldable pub open_store : Opening → FactStore → Result Exc (Unit {0}) × FactStore
unfolding open_connection
open_store o s =
    let (outcome, holds) = open_connection o s.is_open in (outcome, record s { is_open = holds })

unfoldable pub close_store : Option Exc → FactStore → Result Exc (Unit {0}) × FactStore
unfolding close_connection
close_store raised s =
    let (outcome, holds) = close_connection raised s.is_open in
    (outcome, record s { is_open = holds })
