-- ===== src/Facts/Tools.antt =====
-- The two tools of tools/facts/tools.py, which turn what the store answers into a sentence.
use emma.Common.{
  ◌+◌, ltb, other_error, ℕ, not, ◌&&◌, ◌==◌, Bool, true, false, Option, none, some, ◌++◌, Text, lit,
  text_eq, decimal, Result, ok, err, Exc, if◌then◌else◌,
}
use emma.Llm.Json.{Json, null, bool, int, float, str, arr, obj, Fields, get, str_of}
use emma.Facts
use emma.Facts.{FactStore, already}

-- `RememberFact.run`; `show` is Python's print of a list or a dict.
unfoldable pub run_remember :
    (Json → Text) → (Text → Text) → Fields → ℕ → FactStore → Result Exc Text × FactStore
run_remember show lower arguments now s =
    let fact : Text = elim (get (lit "fact") arguments) [
      | none ↦ lit ""
      | some value ↦ str_of show value
    ] in
    elim (Facts.remember lower s fact now) [
      | err e ↦ (err e, s)
      | ok ((none, reason), s') ↦ (ok (lit "Non l'ho registrato: " ++ (reason ++ lit ".")), s')
      | ok ((some fact_id, reason), s') ↦
          if text_eq reason already
          then (
            ok (
                lit "Lo ricordavo gia' (fatto #"
                ++ (decimal fact_id ++ lit "), non l'ho duplicato.")),
            s',
          )
          else (
            ok (
                lit "Registrato come fatto #"
                ++ (decimal fact_id ++ lit ". Lo ricordero' anche fra molti giorni.")),
            s',
          )
    ]

-- An integer of Python: its sign and its size.
pub record Integer : Type 0 where
  pub negative : Bool
  pub size : ℕ

-- Zero has no sign.
abbrev pub integer : Bool → ℕ → Integer
integer negative n = record { negative = negative && not (n == 0); size = n }

-- `int(value)`, or none for what it raises; `parse` is Python's reading of a text as an integer.
unfoldable pub int_of : (Text → Option Integer) → Json → Option Integer
int_of parse null = none
int_of parse (bool true) = some (record { negative = false; size = 1 })
int_of parse (bool false) = some (record { negative = false; size = 0 })
int_of parse (int negative n) = some (integer negative n)
int_of parse (float negative whole fraction) = some (integer negative whole)
int_of parse (str text) = parse text
int_of parse (arr items) = none
int_of parse (obj fields) = none

abbrev pub print_integer : Integer → Text
print_integer i = if i.negative then lit "-" ++ decimal i.size else decimal i.size

-- The largest INTEGER of SQLite; a Python integer past it is refused with an OverflowError.
abbrev pub max_sqlite_integer : ℕ
max_sqlite_integer = 9223372036854775807

-- Whether an integer is past the range of SQLite.
abbrev pub is_too_large : Integer → Bool
is_too_large i = ltb (if i.negative then max_sqlite_integer + 1 else max_sqlite_integer) i.size

abbrev pub too_large : Exc
too_large = record {
  kind = other_error;
  message = lit "Python int too large to convert to SQLite INTEGER";
}

-- `forget` at an integer: no row has a negative number.
unfoldable pub forget_integer : FactStore → Integer → ℕ → Result Exc (Bool × FactStore)
forget_integer s i now = Facts.require_open s (
    if is_too_large i
    then err too_large
    else if i.negative
    then ok (false, s)
    else Facts.forget s i.size now)

-- `ForgetFact.run`
unfoldable pub run_forget :
    (Text → Option Integer) → Fields → ℕ → FactStore → Result Exc Text × FactStore
unfolding int_of forget_integer
run_forget parse arguments now s =
    let missing : Result Exc Text × FactStore =
      (ok (lit "Numero del fatto mancante o non valido: non ho dimenticato nulla."), s) in
    elim (get (lit "number") arguments) [
      | none ↦ missing
      | some value ↦ elim (int_of parse value) [
        | none ↦ missing
        | some fact_id ↦ elim (forget_integer s fact_id now) [
          | err e ↦ (err e, s)
          | ok (true, s') ↦
              (ok (lit "Non usero' piu' il fatto #" ++ (print_integer fact_id ++ lit ".")), s')
          | ok (false, s') ↦ (
            ok (
                lit "Il fatto #"
                ++ (print_integer fact_id ++ lit " non esiste o l'avevo gia' dimenticato.")),
            s',
          )
        ]
      ]
    ]
