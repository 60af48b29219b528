-- ===== src/Apple/Code/Delivered.antt =====
-- What becomes of a code that the page accepts.
use alt_keeper.Base.{
  false, ◌≡◌, refl, Option, none, true, arith, if_both, inl, Bool, inr, ℕ, ◌⊎◌, Bool-cases, all,
  ◌∷◌, length, [], ◌==◌, ◌≤◌, All, ==_iff,
}
use alt_keeper.Apple.Code.{
  Exchange, post_answer, Receiver, idle, answer, TfaChannel, send_answer, ask, given, login_code,
  TfaAnswer, waiting, late, login_resend, dropped, finish, is_code, response_of, code, resend,
}
use alt_keeper.Base.Text.{Str, is_ascii_digit}
use alt_keeper.Base.Trim.{trim}
use alt_keeper.Apple.Session.{submit_code}
use mathlib.Core.Path.{subst}

-- The callback of one login and the requests of the page, in any order.
pub data Turn : Exchange → Exchange → Type 0 where
  asks : {x : Exchange} (e : Option Str) → x.rx ≡ idle → Turn x (ask e)
  posts : {x : Exchange} (req : Str) → Turn x (login_code req x).1
  posts_resend : {x : Exchange} → Turn x (login_resend x).1
  elapses : {x : Exchange} → x.rx ≡ waiting → Turn x (record x { rx = late })
  closes : {x : Exchange} → x.rx ≡ late → Turn x (record x { rx = dropped })
  wakes : {x : Exchange} (a : TfaAnswer) → x.rx ≡ given a → Turn x (finish x).1
  gives_up : {x : Exchange} → x.rx ≡ dropped → Turn x (finish x).1

abbrev pub initial : Exchange
initial = record { chan = record { asking = false; last_error = none; tx = false }; rx = idle }

pub data Reach : Exchange → Type 0 where
  start : Reach initial
  then : {x y : Exchange} → Reach x → Turn x y → Reach y

-- The channel says what the login does: it asks while the login waits, and a sender is there only
-- while the login can still look at it.
unfoldable pub IsConsistent : Receiver → TfaChannel → Type 0
IsConsistent idle c = (c.asking ≡ false) × (c.tx ≡ false)
IsConsistent waiting c = (c.asking ≡ true) × (c.tx ≡ true)
IsConsistent late c = c.asking ≡ true
IsConsistent dropped c = c.asking ≡ true
IsConsistent (given a) c = (c.asking ≡ true) × (c.tx ≡ false)

post_answer-IsConsistent :
    (a : TfaAnswer) (asking tx : Bool) (e : Option Str) (rx : Receiver)
    → IsConsistent rx (record { asking = asking; last_error = e; tx = tx })
    → let x : Exchange = record {
      chan = record { asking = asking; last_error = e; tx = tx };
      rx = rx;
    } in
      IsConsistent (post_answer a x).1.rx (post_answer a x).1.chan
unfolding post_answer answer send_answer IsConsistent
post_answer-IsConsistent a asking false e rx h = h
post_answer-IsConsistent a asking true e idle (h, k) = absurd (cc k)
post_answer-IsConsistent a asking true e waiting (h, k) = (h, refl)
post_answer-IsConsistent a asking true e late h = h
post_answer-IsConsistent a asking true e dropped h = h
post_answer-IsConsistent a asking true e (given b) (h, k) = absurd (cc k)

abbrev IsSound : Exchange → Type 0
IsSound x = IsConsistent x.rx x.chan

posted-IsSound : (a : TfaAnswer) (x : Exchange) → IsSound x → IsSound (post_answer a x).1
posted-IsSound a x h = post_answer-IsConsistent a x.chan.asking x.chan.tx x.chan.last_error x.rx h

Turn-IsSound : {x y : Exchange} → Turn x y → IsSound x → IsSound y
unfolding IsConsistent ask finish login_code login_resend
Turn-IsSound (asks e idle_now) h = (refl, refl)
Turn-IsSound (posts {x} req) h =
    if_both (λ (r : ℕ × Exchange). IsSound r.1) (is_code (trim req)) _ _
      (posted-IsSound (code (trim req)) x h) h
Turn-IsSound (posts_resend {x}) h = posted-IsSound resend x h
Turn-IsSound (elapses {x} now) h = (subst (λ r. IsConsistent r x.chan) now h).0
Turn-IsSound (closes {x} now) h = subst (λ r. IsConsistent r x.chan) now h
Turn-IsSound (wakes a now) h = (refl, refl)
Turn-IsSound (gives_up now) h = (refl, refl)

Reach-IsSound : {x : Exchange} → Reach x → IsSound x
unfolding IsConsistent
Reach-IsSound start = (refl, refl)
Reach-IsSound (then r s) = Turn-IsSound s (Reach-IsSound r)

-- Six bytes, each from `0` to `9`.
abbrev pub HasSixDigits : Str → Type 0
HasSixDigits s = (length s ≡ 6) × All (λ c. (b'0' ≤ c) × (c ≤ b'9')) s

digit_range : (c : ℕ) → is_ascii_digit c ≡ true → (b'0' ≤ c) × (c ≤ b'9')
unfolding is_ascii_digit
digit_range c h = ground (arith, h)

all_digits : (s : Str) → all is_ascii_digit s ≡ true → All (λ c. (b'0' ≤ c) × (c ≤ b'9')) s
all_digits [] h = tt
all_digits (c ∷ s) h = elim (Bool-cases (is_ascii_digit c)) [
  | inl yes' ↦ (digit_range c yes', all_digits s (rw yes' at h))
  | inr no' ↦ absurd (cc (rw no' at h))
]

is_code-HasSixDigits : (s : Str) → is_code s ≡ true → HasSixDigits s
unfolding is_code
is_code-HasSixDigits s h = elim (Bool-cases (length s == 6)) [
  | inl six ↦ ((==_iff (length s) 6).0 six, all_digits s (rw six at h))
  | inr other ↦ absurd (cc (rw other at h))
]

-- What holds when a code was accepted: it has six digits, and unless the time of the login is over, the
-- login has it and its callback returns it to be submitted.
unfoldable pub IsDelivered : Str → Exchange → Exchange → Type 0
IsDelivered req x y =
    HasSixDigits (trim req)
    × ((x.rx ≡ late)
        ⊎ ((x.rx ≡ waiting)
            × (y.rx ≡ given (code (trim req)))
            × ((finish y).0 ≡ submit_code (trim req))
            × ((finish y).1.chan.asking ≡ false)))

accepted :
    (req : Str) (asking tx : Bool) (e : Option Str) (rx : Receiver)
    → HasSixDigits (trim req)
    → IsConsistent rx (record { asking = asking; last_error = e; tx = tx })
    → let x : Exchange = record {
      chan = record { asking = asking; last_error = e; tx = tx };
      rx = rx;
    } in
      (post_answer (code (trim req)) x).0 ≡ 200
      → IsDelivered req x (post_answer (code (trim req)) x).1
unfolding post_answer answer send_answer IsConsistent IsDelivered finish response_of
accepted req asking false e rx c h k = absurd (omega arith)
accepted req asking true e idle c h k = absurd (omega arith)
accepted req asking true e waiting c h k = (c, inr (refl, refl, refl, refl))
accepted req asking true e late c h k = (c, inl refl)
accepted req asking true e dropped c h k = absurd (omega arith)
accepted req asking true e (given b) c h k = absurd (omega arith)

-- Where the page answers that it accepted a code, the code has six digits, and the login in progress
-- has it and submits it to Apple when it goes on, unless the five minutes of that login were over. This
-- holds in every state that logins one after the other and requests in any order reach.
pub login_code-IsDelivered :
    {x : Exchange} (req : Str)
    → Reach x
    → (login_code req x).0 ≡ 200
    → IsDelivered req x (login_code req x).1
unfolding login_code
login_code-IsDelivered {x} req r h = elim (Bool-cases (is_code (trim req))) [
  | inr no' ↦ absurd (let wrong = rw no' at h in omega arith)
  | inl yes' ↦ rw yes' (
      accepted req x.chan.asking x.chan.tx x.chan.last_error x.rx
        (is_code-HasSixDigits (trim req) yes') (Reach-IsSound r) (rw yes' at h))
]
