-- ===== src/Web/Texts/Bounds.antt =====
-- How long the messages of src/web.rs are.
use alt_keeper.Base.{ℕ, zero, suc, ◌∷◌, arith, [], ◌≤◌, inl, Bool-cases, inr, if_both}
use alt_keeper.Web.Texts.{
  take_chars, is_continuation, friendly_error, short_error, short_apple_error, first_line, lines,
  bullet_text, pairing_missing, pairing_unknown, no_phone, wrong_password, rate_limited, canceled,
  is_unpaired, is_unknown, is_unreachable, is_wrong_password, is_rate_limited, is_canceled,
}
use alt_keeper.Base.Text.{Str}
use alt_keeper.Base.Utf8.{count_chars, within}

take_chars-count : (n : ℕ) (s : Str) → count_chars (take_chars n s) ≤ n
unfolding take_chars count_chars
take_chars-count n [] = omega arith
take_chars-count zero (c ∷ s) = elim (Bool-cases (is_continuation c)) [
  | inl more ↦ rw (more, more) (take_chars-count zero s)
  | inr new ↦ rw new (omega arith)
]
take_chars-count (suc n) (c ∷ s) = elim (Bool-cases (is_continuation c)) [
  | inl more ↦ rw (more, more) (take_chars-count (suc n) s)
  | inr new ↦ rw (new, new) (let least = take_chars-count n s in omega arith)
]

short_error-count : (err : Str) → count_chars (short_error err) ≤ 240
unfolding short_error
short_error-count err = take_chars-count 240 (first_line err (lines err))

-- Every message that the page makes of an error has 240 characters at most, however long the error is
-- and whatever the table of lower case says.
pub error_messages-count :
    (to_lowercase : Str → Str) (err : Str)
    → (count_chars (short_error err) ≤ 240)
      × (count_chars (friendly_error to_lowercase err) ≤ 240)
      × (count_chars (short_apple_error to_lowercase err) ≤ 240)
unfolding friendly_error short_apple_error count_chars within
error_messages-count to_lowercase err =
    let IsShort : Str → Type 0 = λ s. count_chars s ≤ 240 in
    let e = to_lowercase err in
    (
      short_error-count err,
      if_both IsShort (is_unpaired e) pairing_missing _ (omega arith) (
          if_both IsShort (is_unknown e) pairing_unknown _ (omega arith)
            (if_both IsShort (is_unreachable e) no_phone _ (omega arith) (short_error-count err))),
      if_both IsShort (is_wrong_password e) wrong_password _ (omega arith) (
          if_both IsShort (is_rate_limited e) rate_limited _ (omega arith) (
            if_both IsShort (is_canceled e) canceled _ (omega arith)
              (take_chars-count 240 (bullet_text to_lowercase err)))),
    )
