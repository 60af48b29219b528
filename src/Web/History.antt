-- ===== src/Web/History.antt =====
-- `parse_history` and `append_log` of src/web.rs.
pub mod RoundTrip
use mathlib.Core.Option
use alt_keeper.Base.{
  some, false, List, ◌-◌, Bool, suc, ◌||◌, ◌==◌, [], if◌then◌else◌, ◌∷◌, map, true, ◌+◌, ◌^◌,
  Option, ℕ, none, ◌&&◌, not, ◌++◌, ltb, take,
}
use alt_keeper.Base.Text.{Str, strip_prefix, is_empty, codes, parse_unsigned}
use alt_keeper.Web.Texts.{contains_any, friendly_error, lines}
use alt_keeper.Base.Trim.{trim}
use mathlib.Core.List.{reverse}

-- A run of a renewal in the log: when it was, and the lines after.
abbrev pub Block : Type 0
Block = Str × List Str

-- `lines.push(line)` at the last block, if there is one.
unfoldable pub push_last : Str → List Block → List Block
push_last line [] = []
push_last line ((w, ls) ∷ []) = (w, ls ++ line ∷ []) ∷ []
push_last line (b ∷ c ∷ bs) = b ∷ push_last line (c ∷ bs)

abbrev pub header : Str
header = codes "=== "

-- The body of the loop over the lines.
unfoldable pub add_line : List Block → Str → List Block
unfolding push_last
add_line blocks line = elim (strip_prefix header line) [
  | some when ↦ blocks ++ (trim when, []) ∷ []
  | none ↦ push_last line blocks
]

unfoldable pub blocks_of : List Block → List Str → List Block
unfolding add_line
blocks_of blocks [] = blocks
blocks_of blocks (l ∷ ls) = blocks_of (add_line blocks l) ls

-- The line's text after `esito:` or `result:`.
unfoldable pub code_text : Str → Option Str
code_text l = elim (strip_prefix (codes "esito:") l) [
  | some c ↦ some c
  | none ↦ strip_prefix (codes "result:") l
]

-- `lines.iter().rev().find_map(...)`
unfoldable pub last_code : List Str → Option Str
unfolding code_text
last_code [] = none
last_code (l ∷ ls) = elim (last_code ls) [ some c ↦ some c | none ↦ code_text l ]

-- `parse::<i32>()`, as whether it is 0, where it is a number; no sign follows a minus.
unfoldable pub parse_i32 : Str → Option Bool
parse_i32 s = elim (strip_prefix (codes "-") s) [
  | none ↦ Option.map (λ n. n == 0) (parse_unsigned (2 ^ 31 - 1) s)
  | some t ↦ elim (strip_prefix (codes "+") t) [
    | some _ ↦ none
    | none ↦ Option.map (λ n. n == 0) (parse_unsigned (2 ^ 31) t)
  ]
]

unfoldable pub code_of : List Str → Option Bool
unfolding last_code parse_i32
code_of ls = elim (last_code ls) [ none ↦ none | some c ↦ parse_i32 (trim c) ]

-- `filter(...).count()`
unfoldable pub count_installed : List Str → ℕ
unfolding contains_any
count_installed [] = 0
count_installed (l ∷ ls) =
    let rest = count_installed ls in
    if contains_any (codes "installato sul telefono" ∷ codes "installed on the phone" ∷ []) l
    then suc rest
    else rest

-- The line, trimmed, tells something: it is not empty and gives no code.
unfoldable pub is_telling : Str → Bool
unfolding code_text
is_telling l =
    let coded : Bool = elim (code_text l) [ none ↦ false | some _ ↦ true ] in
    not (is_empty l) && not coded

unfoldable pub last_telling : List Str → Option Str
unfolding is_telling
last_telling [] = none
last_telling (l ∷ ls) = elim (last_telling ls) [
  | some m ↦ some m
  | none ↦ if is_telling (trim l) then some (trim l) else none
]

unfoldable pub had_nothing : List Str → Bool
unfolding contains_any
had_nothing [] = false
had_nothing (l ∷ ls) =
    contains_any
      (codes "Niente da rinnovare"
        ∷ codes "non serve rinnovare"
        ∷ codes "Nothing to renew"
        ∷ codes "no renewal needed"
        ∷ [])
      l
    || had_nothing ls

-- An entry of the history that the page shows.
pub record Entry : Type 0 where
  pub when : Str
  pub ok : Bool
  pub summary : Str

-- `code.is_some_and(|c| c != 0)`
abbrev pub has_failed : Option Bool → Bool
has_failed none = false
has_failed (some is_zero) = not is_zero

-- `code == Some(0)`
abbrev pub has_succeeded : Option Bool → Bool
has_succeeded none = false
has_succeeded (some is_zero) = is_zero

module _ (to_lowercase : Str → Str) (print_usize : ℕ → Str) where
  unfoldable pub failure_of : List Str → Str
  unfolding last_telling
  failure_of ls =
      let last : Str = elim (last_telling ls) [ none ↦ codes "errore" | some l ↦ l ] in
      friendly_error to_lowercase last

  unfoldable pub summary_of : List Str → Str
  unfolding failure_of count_installed had_nothing code_of
  summary_of ls =
      if has_failed (code_of ls)
      then failure_of ls
      else if ltb 0 (count_installed ls)
      then codes "Renewed " ++ (print_usize (count_installed ls) ++ codes " apps")
      else if had_nothing ls
      then codes "Nothing to renew"
      else codes "Done"

  unfoldable pub entry_of : Block → Entry
  unfolding summary_of
  entry_of (w, ls) = record { when = w; ok = has_succeeded (code_of ls); summary = summary_of ls }

  unfoldable pub parse_history : Str → ℕ → List Entry
  unfolding blocks_of entry_of
  parse_history text max = map entry_of (take max (reverse (blocks_of [] (lines text))))

-- `writeln!` of each line.
unfoldable pub write_lines : List Str → Str
write_lines [] = []
write_lines (l ∷ ls) = l ++ (10 ∷ write_lines ls)

abbrev pub result_line : Bool → Str
result_line ok = codes "result: " ++ (if ok then codes "0" else codes "1")

-- What `append_log` adds to the file that it opened.
unfoldable pub log_of : Str → List Str → Bool → Str
unfolding write_lines
log_of time ls ok =
    write_lines ((header ++ (time ++ codes " (interfaccia web)")) ∷ (ls ++ result_line ok ∷ []))

-- `none` is a file that cannot be opened, and is left alone.
unfoldable pub append_log : Str → List Str → Bool → Option Str → Option Str
unfolding log_of
append_log time ls ok none = none
append_log time ls ok (some text) = some (text ++ log_of time ls ok)
