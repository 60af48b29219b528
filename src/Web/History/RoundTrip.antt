-- ===== src/Web/History/RoundTrip.antt =====
-- `parse_history` of src/web.rs reads back what `append_log` writes.
use alt_keeper.Base.{
  ◌++◌, refl, [], ◌∙◌, none, ap, append_assoc, sym, ◌∷◌, List, ◌≡◌, append-nil, All, Bool, ◌==◌,
  arith, some, if_both, true, false, ◌≢◌, ℕ, All-append, suc,
}
use alt_keeper.Base.Text.{Str, strip_prefix, strip_suffix, split, onto_first, parse_unsigned, codes}
use alt_keeper.Web.History.{
  push_last, write_lines, blocks_of, add_line, Block, header, last_code, code_of, result_line,
  code_text, parse_i32, log_of, append_log, parse_history, entry_of, summary_of,
}
use alt_keeper.Web.Texts.{lines_of, strip_cr, lines}
use alt_keeper.Base.Split.{Has, split_more}
use alt_keeper.Base.Trim.{trim}
use mathlib.Core.List.{reverse-append}

-- A line that `lines` gives back: it has no line feed and does not end with a carriage return.
abbrev pub IsLine : Str → Type 0
IsLine l = Has 10 l × (strip_suffix (13 ∷ []) l ≡ none)

-- A line that does not open a block.
abbrev pub IsInside : Str → Type 0
IsInside l = strip_prefix header l ≡ none

strip_cr-same : (l : Str) → strip_suffix (13 ∷ []) l ≡ none → strip_cr l ≡ l
unfolding strip_cr
strip_cr-same l h = rw (h, strip_cr) refl

split-some : (t : Str) → (p : Str) × (ps : List Str) × (split 10 t ≡ p ∷ ps)
unfolding split
split-some [] = ([], [], refl)
split-some (c ∷ t) =
    let (p, ps, e) = split-some t in
    if_both (λ (ls : List Str). (q : Str) × (qs : List Str) × (ls ≡ q ∷ qs)) (c == 10)
      ([] ∷ split 10 t) (onto_first c (split 10 t)) ([], split 10 t, refl) (c ∷ p, ps, rw e refl)

lines-more : (l s : Str) → IsLine l → lines (l ++ 10 ∷ s) ≡ l ∷ lines s
unfolding lines lines_of
lines-more l s (h, no_cr) =
    let (p, ps, e) = split-some s in
    rw (split_more 10 l s h, e) (ap (λ x. x ∷ lines_of (p ∷ ps)) (strip_cr-same l no_cr))

lines-write : (ls : List Str) → All IsLine ls → lines (write_lines ls) ≡ ls
unfolding write_lines lines lines_of split
lines-write [] h = refl
lines-write (l ∷ ls) (hl, h) = lines-more l (write_lines ls) hl ∙ ap (◌∷◌ l) (lines-write ls h)

write_lines-append : (ls ms : List Str) → write_lines (ls ++ ms) ≡ write_lines ls ++ write_lines ms
unfolding write_lines
write_lines-append [] ms = refl
write_lines-append (l ∷ ls) ms =
    rw (write_lines-append ls ms) (sym (append_assoc l (10 ∷ write_lines ls) (write_lines ms)))

blocks_of-append :
    (bs : List Block) (ls ms : List Str) → blocks_of bs (ls ++ ms) ≡ blocks_of (blocks_of bs ls) ms
unfolding blocks_of
blocks_of-append bs [] ms = refl
blocks_of-append bs (l ∷ ls) ms = blocks_of-append (add_line bs l) ls ms

push_last-end :
    (bs : List Block) (w line : Str) (ls : List Str)
    → push_last line (bs ++ (w, ls) ∷ []) ≡ bs ++ (w, ls ++ line ∷ []) ∷ []
unfolding push_last
push_last-end [] w line ls = refl
push_last-end (b ∷ []) w line ls = refl
push_last-end (b ∷ c ∷ bs) w line ls = ap (◌∷◌ b) (push_last-end (c ∷ bs) w line ls)

blocks_of-inside :
    (bs : List Block) (w : Str) (ls ms : List Str)
    → All IsInside ms
    → blocks_of (bs ++ (w, ls) ∷ []) ms ≡ bs ++ (w, ls ++ ms) ∷ []
unfolding blocks_of add_line strip_prefix
blocks_of-inside bs w ls [] h = rw append-nil refl
blocks_of-inside bs w ls (m ∷ ms) (hm, h) =
    rw (hm, push_last-end)
      (blocks_of-inside bs w (ls ++ m ∷ []) ms h
        ∙ ap (λ x. bs ++ (w, x) ∷ []) (append_assoc ls (m ∷ []) ms))

last_code-end :
    (ls : List Str) (l c : Str) → code_text l ≡ some c → last_code (ls ++ l ∷ []) ≡ some c
unfolding last_code
last_code-end [] l c h = h
last_code-end (m ∷ ls) l c h = rw (last_code-end ls l c h) refl

code_of-result : (ls : List Str) (ok : Bool) → code_of (ls ++ result_line ok ∷ []) ≡ some ok
unfolding code_of code_text parse_i32 trim parse_unsigned strip_prefix
code_of-result ls true = rw (last_code-end ls (result_line true) (codes " 0") refl, code_of) refl
code_of-result ls false = rw (last_code-end ls (result_line false) (codes " 1") refl, code_of) refl

result_line-IsLine : (ok : Bool) → IsLine (result_line ok)
unfolding strip_suffix strip_prefix
result_line-IsLine true = (omega arith, refl)
result_line-IsLine false = (omega arith, refl)

-- The line that opens the block of a run of the page.
abbrev pub opening : Str → Str
opening time = header ++ (time ++ codes " (interfaccia web)")

ends_web : (x : Str) → strip_suffix (13 ∷ []) (x ++ codes " (interfaccia web)") ≡ none
unfolding strip_suffix strip_prefix
ends_web x = rw (reverse-append x (codes " (interfaccia web)")) refl

opening-IsLine : (time : Str) → Has 10 time → IsLine (opening time)
opening-IsLine time h = (
  All-append (λ c. c ≢ 10) header (time ++ codes " (interfaccia web)") (omega arith)
      (All-append (λ c. c ≢ 10) time (codes " (interfaccia web)") h (omega arith)),
  rw (sym (append_assoc header time (codes " (interfaccia web)"))) (ends_web (header ++ time)),
)

add_line-opening :
    (bs : List Block) (time : Str)
    → add_line bs (opening time) ≡ bs ++ (trim (time ++ codes " (interfaccia web)"), []) ∷ []
unfolding add_line strip_prefix
add_line-opening bs time = refl

-- The blocks of a log to which a run is added.
blocks_of-run :
    (bs : List Block) (time : Str) (ls : List Str)
    → All IsInside ls
    → blocks_of bs (opening time ∷ ls) ≡ bs ++ (trim (time ++ codes " (interfaccia web)"), ls) ∷ []
unfolding blocks_of
blocks_of-run bs time ls h =
    ap (λ b. blocks_of b ls) (add_line-opening bs time)
    ∙ blocks_of-inside bs (trim (time ++ codes " (interfaccia web)")) [] ls h

lines-log :
    (old : List Str) (time : Str) (ls : List Str) (ok : Bool)
    → All IsLine old
    → Has 10 time
    → All IsLine ls
    → lines (write_lines old ++ log_of time ls ok)
      ≡ old ++ opening time ∷ (ls ++ result_line ok ∷ [])
unfolding log_of
lines-log old time ls ok h_old h_time h =
    ap lines (sym (write_lines-append old (opening time ∷ (ls ++ result_line ok ∷ []))))
    ∙ lines-write (old ++ opening time ∷ (ls ++ result_line ok ∷ [])) (
        All-append IsLine old (opening time ∷ (ls ++ result_line ok ∷ [])) h_old (
          opening-IsLine time h_time,
          All-append IsLine ls (result_line ok ∷ []) h (result_line-IsLine ok, tt),
        ))

result_line-IsInside : (ok : Bool) → IsInside (result_line ok)
unfolding strip_prefix
result_line-IsInside true = refl
result_line-IsInside false = refl

-- A log to which `append_log` added a run of the page has that run as its latest, with the outcome of
-- the run and its time, before the history of the log until then: given that the lines written have no
-- line feed and do not end with a carriage return, and that no line of the run opens a block.
pub parse_history-append_log :
    (to_lowercase : Str → Str) (print_usize : ℕ → Str) (old : List Str) (time : Str) (ls : List Str)
    (ok : Bool) (max : ℕ)
    → All IsLine old
    → Has 10 time
    → All IsLine ls
    → All IsInside ls
    → (text : Str) → append_log time ls ok (some (write_lines old)) ≡ some text
    → parse_history to_lowercase print_usize text (suc max)
      ≡ (record {
        when = trim (time ++ codes " (interfaccia web)");
        ok = ok;
        summary = summary_of to_lowercase print_usize (ls ++ result_line ok ∷ []);
      })
        ∷ parse_history to_lowercase print_usize (write_lines old) max
unfolding append_log parse_history entry_of
parse_history-append_log to_lowercase print_usize old time ls ok max h_old h_time h inside text e =
    let read : lines text ≡ old ++ opening time ∷ (ls ++ result_line ok ∷ []) =
      ap lines (sym (cc e)) ∙ lines-log old time ls ok h_old h_time h in
    let blocks : blocks_of [] (lines text)
        ≡ blocks_of [] (lines (write_lines old))
          ++ (trim (time ++ codes " (interfaccia web)"), ls ++ result_line ok ∷ []) ∷ [] =
      rw (read, blocks_of-append, lines-write old h_old)
        (blocks_of-run (blocks_of [] old) time (ls ++ result_line ok ∷ [])
          (All-append IsInside ls (result_line ok ∷ []) inside (result_line-IsInside ok, tt))) in
    rw (blocks, reverse-append, code_of-result ls ok) refl
