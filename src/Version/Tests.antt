-- ===== src/Version/Tests.antt =====
-- core/version.py on one deployment.
use emma.Common.{
  ℕ, ◌≡◌, ◌↔◌, refl, true, false, Option, none, some, List, [], ◌∷◌, ◌++◌, Text, lit, ok, err, Dict,
  All, is_empty, mem_text, text_eq, lookup, insert, strip,
}
use emma.Config.{contents}
use emma.Version.{Moment, Entry, describe, read_stamp, get_or, modified_since_deploy, relative}
use emma.Version.Stamp.{written, dict_of, IsPlain, read_stamp-written}
use emma.Version.Drift.{Evidence, Some, Ordered, modified_since_deploy_lem}

abbrev pairs : List (Text × Text)
pairs = (lit "version", lit "0.4.0") ∷ (lit "commit", lit "ab=1") ∷ (lit "built", lit "noon") ∷ []

pairs-IsPlain : All IsPlain pairs
unfolding lit strip emma.Common.lstrip emma.Common.rstrip emma.Common.is_space
    emma.Version.is_line_end
pairs-IsPlain = (
  record {
    key_stripped = refl;
    value_stripped = refl;
    key_in_line = (refl, (refl, (refl, (refl, (refl, (refl, (refl, tt)))))));
    value_in_line = (refl, (refl, (refl, (refl, (refl, tt)))));
    key_before = (refl, (refl, (refl, (refl, (refl, (refl, (refl, tt)))))));
  },
  (
    record {
      key_stripped = refl;
      value_stripped = refl;
      key_in_line = (refl, (refl, (refl, (refl, (refl, (refl, tt))))));
      value_in_line = (refl, (refl, (refl, (refl, tt))));
      key_before = (refl, (refl, (refl, (refl, (refl, (refl, tt))))));
    },
    (
      record {
        key_stripped = refl;
        value_stripped = refl;
        key_in_line = (refl, (refl, (refl, (refl, (refl, tt)))));
        value_in_line = (refl, (refl, (refl, (refl, tt))));
        key_before = (refl, (refl, (refl, (refl, (refl, tt)))));
      },
      tt,
    ),
  ),
)

read_stamp-written_example : read_stamp (contents (written pairs)) ≡ ok (dict_of pairs [])
read_stamp-written_example = read_stamp-written pairs pairs-IsPlain

-- Noon is the second 100.
abbrev iso : Text → Option Moment
iso raw = some (record { timestamp = 100000000; written = lit "oggi" })

abbrev file : List Text → ℕ → Entry
file parts changed = record { parts = parts; is_file = true; mtime = some changed }

abbrev tree : List Entry
tree =
    file (lit "main.py" ∷ []) 101000001
    ∷ file (lit "data" ∷ lit "emma.db" ∷ []) 900000000
    ∷ file (lit "core" ∷ lit "llm.py" ∷ []) 200000000
    ∷ file (lit "config.py" ∷ []) 101000000
    ∷ []

abbrev stamp : Dict Text
stamp = (lit "built", lit "noon") ∷ []

abbrev raw_stamp : Text
raw_stamp = lit "built=noon"

modified_since_deploy_lem_example :
    (files : List Text) × (modified_since_deploy iso (contents raw_stamp) tree ≡ ok files)
    × Ordered files
    × ((t : Text)
        → (mem_text t files ≡ true)
          ↔ Some (λ entry. (t ≡ relative entry) × Evidence 100000000 entry) tree)
unfolding read_stamp emma.Version.split_lines emma.Version.put_lines emma.Version.put_line
    emma.Version.partition emma.Version.is_line_end get_or lit strip emma.Common.lstrip
    emma.Common.rstrip emma.Common.is_space insert lookup text_eq
modified_since_deploy_lem_example =
    modified_since_deploy_lem iso (contents raw_stamp) tree stamp
      (record { timestamp = 100000000; written = lit "oggi" }) refl refl refl

drifted :
    modified_since_deploy iso (contents raw_stamp) tree
    ≡ ok (lit "core/llm.py" ∷ lit "main.py" ∷ [])
unfolding modified_since_deploy read_stamp emma.Version.split_lines emma.Version.put_lines
    emma.Version.put_line emma.Version.partition emma.Version.is_line_end get_or lit strip
    emma.Common.lstrip emma.Common.rstrip emma.Common.is_space insert lookup text_eq mem_text
    emma.Version.newer_files emma.Version.is_newer emma.Version.last_part relative
    emma.Version.sorted emma.Version.insert_sorted emma.Version.text_lt emma.Common.join
    emma.Common.any
drifted = refl
