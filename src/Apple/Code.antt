-- ===== src/Apple/Code.antt =====
-- `TfaChannel` of src/apple.rs, by which the page hands a login the code that Apple sent: the channel,
-- the callback of `open_session_web` and the handlers `login_code` and `login_resend` of src/web.rs.
pub mod Delivered
use alt_keeper.Apple.Session.{TwoFactorResponse, submit_code, resend_code, abort}
use alt_keeper.Base.{false, Bool, if◌then◌else◌, ◌==◌, ◌&&◌, ℕ, Option, true, length, all}
use alt_keeper.Base.Text.{Str, is_ascii_digit}
use alt_keeper.Base.Trim.{trim}

pub data TfaAnswer : Type 0 where
  code : Str → TfaAnswer
  resend : TfaAnswer

-- `tx`: a sender is in the channel. Its receiver is that of the login in progress.
pub record TfaChannel : Type 0 where
  pub asking : Bool
  pub last_error : Option Str
  pub tx : Bool

-- The receiver of the login: none; one that waits; one that was given an answer; one whose 5 minutes
-- are over and that is not dropped yet; one that was dropped.
pub data Receiver : Type 0 where
  idle waiting late dropped : Receiver
  given : TfaAnswer → Receiver

pub record Exchange : Type 0 where
  pub chan : TfaChannel
  pub rx : Receiver

-- `send` on a sender: whether the receiver is there, and the receiver after it. An answer sent to a
-- receiver that is late is not read.
unfoldable pub send_answer : TfaAnswer → Receiver → Bool × Receiver
send_answer a idle = (false, idle)
send_answer a waiting = (true, given a)
send_answer a late = (true, late)
send_answer a dropped = (false, dropped)
send_answer a (given b) = (false, given b)

-- `TfaChannel::answer`
unfoldable pub answer : TfaAnswer → Exchange → Bool × Exchange
unfolding send_answer
answer a x =
    let (sent, rx) = send_answer a x.rx in
    let after : Exchange = record { chan = record x.chan { tx = false }; rx = rx } in
    if x.chan.tx then (sent, after) else (false, x)

-- The callback up to its wait.
unfoldable pub ask : Option Str → Exchange
ask error = record { chan = record { asking = true; last_error = error; tx = true }; rx = waiting }

-- What the callback returns from the outcome of its wait.
unfoldable pub response_of : Receiver → TwoFactorResponse
response_of (given (code c)) = submit_code c
response_of (given resend) = resend_code
response_of idle = abort
response_of waiting = abort
response_of late = abort
response_of dropped = abort

-- The callback from its wait on.
unfoldable pub finish : Exchange → TwoFactorResponse × Exchange
unfolding response_of
finish x =
    (response_of x.rx, record { chan = record x.chan { asking = false; tx = false }; rx = idle })

-- Six ASCII digits.
unfoldable pub is_code : Str → Bool
is_code s = length s == 6 && all is_ascii_digit s

-- The status, and the state after it.
unfoldable pub post_answer : TfaAnswer → Exchange → ℕ × Exchange
unfolding answer
post_answer a x = let (sent, x') = answer a x in (if sent then 200 else 409, x')

-- `login_code`, on the field `code` of the request.
unfoldable pub login_code : Str → Exchange → ℕ × Exchange
unfolding is_code post_answer
login_code req x = if is_code (trim req) then post_answer (code (trim req)) x else (400, x)

unfoldable pub login_resend : Exchange → ℕ × Exchange
unfolding post_answer
login_resend x = post_answer resend x
