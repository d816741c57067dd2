-- ===== src/Version.antt =====
-- core/version.py: which code is running, read from the stamp of the deploy.
-- The stamp, the checkout and the files under the root are given as the calls of the system answer them. Times are
-- microseconds since the epoch.
use emma.Common.{
  ℕ, ◌+◌, Bool, true, false, not, Option, none, some, List, [], ◌∷◌, ◌++◌, Text, lit, strip,
  text_eq, mem_text, lookup, insert, Dict, is_empty, any, map, join, ltb, ◌==◌, ◌&&◌, ◌||◌,
  if◌then◌else◌, Result, ok, err, Exc, value_error, ◌>>=◌,
}
use emma.Config.{Reading, contents, unreadable, not_utf8}
pub mod Stamp
pub mod Drift
mod Tests

abbrev pub declared_version : Text
declared_version = lit "0.4.0"

abbrev pub stamp_filename : Text
stamp_filename = lit "VERSION"

-- Where `str.splitlines` ends a line.
unfoldable pub is_line_end : ℕ → Bool
is_line_end c =
    (c == 10)
    || (c == 11)
    || (c == 12)
    || (c == 13)
    || (c == 28)
    || (c == 29)
    || (c == 30)
    || (c == 133)
    || (c == 8232)
    || (c == 8233)

-- A character in front of the lines of what follows it.
abbrev pub in_first : ℕ → List Text → List Text
in_first c [] = (c ∷ []) ∷ []
in_first c (l ∷ ls) = (c ∷ l) ∷ ls

abbrev pub starts_newline : Text → Bool
starts_newline [] = false
starts_newline (c ∷ cs) = c == 10

-- `raw.splitlines()`: a line feed behind a carriage return belongs to it.
unfoldable pub split_lines : Text → List Text
unfolding is_line_end
split_lines [] = []
split_lines (c ∷ cs) =
    let rest = split_lines cs in
    if (c == 13) && starts_newline cs
    then rest
    else if is_line_end c
    then [] ∷ rest
    else in_first c rest

-- `line.partition("=")`, if there is a separator
unfoldable pub partition : Text → Option (Text × Text)
partition [] = none
partition (c ∷ cs) =
    let rest = partition cs in
    if c == 61 then some ([], cs) else elim rest [ none ↦ none | some (k, v) ↦ some (c ∷ k, v) ]

-- The body of the loop over the lines.
unfoldable pub put_line : Text → Dict Text → Dict Text
unfolding partition
put_line line stamp = elim (partition line) [
  | none ↦ stamp
  | some (key, value) ↦ insert (strip key) (strip value) stamp
]

unfoldable pub put_lines : List Text → Dict Text → Dict Text
unfolding put_line
put_lines [] stamp = stamp
put_lines (line ∷ lines) stamp = put_lines lines (put_line line stamp)

-- `_read_stamp`: only an OSError is caught.
unfoldable pub read_stamp : Reading → Result Exc (Dict Text)
unfolding split_lines put_lines
read_stamp (contents raw) = ok (put_lines (split_lines raw) [])
read_stamp (unreadable why) = ok []
read_stamp (not_utf8 why) = err (record { kind = value_error; message = why })

-- The checkout: whether there is one, and what `git rev-parse` comes to, if it runs: whether it returns 0, and its
-- output.
pub record Checkout : Type 0 where
  pub has_git : Bool
  pub rev_parse : Option (Bool × Text)

unfoldable pub git_commit : Checkout → Text
git_commit checkout =
    if checkout.has_git
    then elim checkout.rev_parse [
      | none ↦ []
      | some (returned_zero, stdout) ↦ if returned_zero then strip stdout else []
    ]
    else []

-- `stamp.get(key) or default`
unfoldable pub get_or : Text → Dict Text → Text → Text
get_or key stamp default = elim (lookup key stamp) [
  | none ↦ default
  | some value ↦ if is_empty value then default else value
]

-- A moment that `datetime.fromisoformat` reads: its timestamp, and its print as dd/mm/YYYY alle HH:MM.
pub record Moment : Type 0 where
  pub timestamp : ℕ
  pub written : Text

unfoldable pub format_when : (Text → Option Moment) → Text → Text
format_when fromisoformat raw = elim (fromisoformat raw) [
  | none ↦ raw
  | some moment ↦ moment.written
]

-- `describe`
unfoldable pub describe : (Text → Option Moment) → Reading → Checkout → Result Exc Text
unfolding read_stamp git_commit get_or format_when
describe fromisoformat reading checkout = elim (read_stamp reading) [
  | err e ↦ err e
  | ok stamp ↦
      let version = get_or (lit "version") stamp declared_version in
      let commit = get_or (lit "commit") stamp (git_commit checkout) in
      let built = get_or (lit "built") stamp [] in
      ok (
        if is_empty commit
        then lit "Versione dichiarata "
          ++ (version
              ++ lit
                  ", ma non so quale commit sia in esecuzione: manca il file VERSION e qui non c'e' un checkout git. Non posso dirti se il server e' allineato al repository.")
        else lit "Versione "
          ++ (version
              ++ (lit ", commit "
                  ++ (commit
                      ++ ((if is_empty built
                            then []
                            else lit ", installata il " ++ format_when fromisoformat built)
                          ++ ((if is_empty stamp
                                then lit " (letto da git: questa non e' un'installazione deployata)"
                                else [])
                              ++ lit "."))))))
]

pub record Summary : Type 0 where
  pub version : Text
  pub commit : Text
  pub built : Text

-- `summary`
unfoldable pub summary : Reading → Checkout → Result Exc Summary
unfolding read_stamp git_commit get_or
summary reading checkout = elim (read_stamp reading) [
  | err e ↦ err e
  | ok stamp ↦ ok (record {
    version = get_or (lit "version") stamp declared_version;
    commit = get_or (lit "commit") stamp (git_commit checkout);
    built = get_or (lit "built") stamp [];
  })
]

-- `_CHANGES_ON_ITS_OWN`
abbrev pub changes_on_its_own : List Text
changes_on_its_own =
    lit ".venv"
    ∷ lit "data"
    ∷ lit "__pycache__"
    ∷ lit ".cache"
    ∷ lit ".git"
    ∷ lit ".pytest_cache"
    ∷ lit ".ruff_cache"
    ∷ []

-- A path that the walk yields: its parts below the root, whether it is a file, and the time of its last change, if
-- it can be read.
pub record Entry : Type 0 where
  pub parts : List Text
  pub is_file : Bool
  pub mtime : Option ℕ

unfoldable pub last_part : List Text → Text
last_part [] = []
last_part (p ∷ []) = p
last_part (p ∷ q ∷ ps) = last_part (q ∷ ps)

-- `.replace("\\", "/")`
abbrev pub with_slashes : Text → Text
with_slashes t = map (λ c. if c == 92 then 47 else c) t

unfoldable pub relative : Entry → Text
relative entry = with_slashes (join (lit "/") entry.parts)

-- The tests of the walk, the `continue`s included; a second of slack.
unfoldable pub is_newer : ℕ → Entry → Bool
unfolding last_part
is_newer deployed_at entry =
    not (any (λ part. mem_text part changes_on_its_own) entry.parts)
    && (not (text_eq (last_part entry.parts) stamp_filename)
        && (entry.is_file && (elim entry.mtime [
          | none ↦ false
          | some changed ↦ ltb (deployed_at + 1000000) changed
        ])))

-- `a < b` of two texts
unfoldable pub text_lt : Text → Text → Bool
text_lt s [] = false
text_lt [] (d ∷ ds) = true
text_lt (c ∷ cs) (d ∷ ds) = ltb c d || ((c == d) && text_lt cs ds)

-- `sorted`
unfoldable pub insert_sorted : Text → List Text → List Text
unfolding text_lt
insert_sorted t [] = t ∷ []
insert_sorted t (u ∷ us) = if text_lt u t then u ∷ insert_sorted t us else t ∷ u ∷ us

unfoldable pub sorted : List Text → List Text
unfolding insert_sorted
sorted [] = []
sorted (t ∷ ts) = insert_sorted t (sorted ts)

-- The walk.
unfoldable pub newer_files : ℕ → List Entry → List Text
unfolding is_newer relative
newer_files deployed_at [] = []
newer_files deployed_at (entry ∷ entries) =
    let rest = newer_files deployed_at entries in
    if is_newer deployed_at entry then relative entry ∷ rest else rest

-- `modified_since_deploy`
unfoldable pub modified_since_deploy :
    (Text → Option Moment) → Reading → List Entry → Result Exc (List Text)
unfolding read_stamp newer_files sorted get_or
modified_since_deploy fromisoformat reading entries = elim (read_stamp reading) [
  | err e ↦ err e
  | ok stamp ↦
      let built = get_or (lit "built") stamp [] in
      if is_empty built then ok [] else elim (fromisoformat built) [
        | none ↦ ok []
        | some moment ↦ ok (sorted (newer_files moment.timestamp entries))
      ]
]
