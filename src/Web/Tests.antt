-- ===== src/Web/Tests.antt =====
-- Runs of src/web.rs at concrete inputs.
use alt_keeper.Base.{true, refl, ◌≡◌, none, arith, ◌∷◌, some, [], ◌↔◌, Option, ◌++◌}
use alt_keeper.Web.Access.Headers.{IsProtectedAnswer}
use alt_keeper.Web.Access.Admission.{IsAdmitted, IsRefusal, guard_admits}
use alt_keeper.Web.Access.{basic_password_ok, Request, Response, guard}
use alt_keeper.Web.Base64.{b64_decode}
use alt_keeper.Web.Access.Password.{basic_header, basic_password_ok_iff}
use alt_keeper.Web.Base64.RoundTrip.{encode, b64_decode-encode}
use alt_keeper.Base.Text.{codes, str_eq, strip_suffix, strip_prefix, to_ascii_lowercase}
use alt_keeper.Base.Utf8.{is_utf8_ascii}
use alt_keeper.Web.Jobs.Reach.{System, IsSound, Reach, initial, Reach-IsSound, began, panicked}
use alt_keeper.Web.Jobs.Exclusive.{
  answer_of, StartRequest, IsExclusive, to_renew, to_check, answer_of-IsExclusive,
}
use alt_keeper.Web.Jobs.{release, renew, run_renew, abort, force_of, can_renew, start_job}
use alt_keeper.Apple.Account.{Account}
use alt_keeper.Profile.Parse.{PhoneProfile}
use alt_keeper.Web.History.{append_log, parse_history, write_lines, log_of, summary_of, result_line}
use alt_keeper.Base.Decimal.{decimal}
use alt_keeper.Base.Trim.{trim}
use alt_keeper.Web.History.RoundTrip.{parse_history-append_log}

-- "utente:1234", as the browser sends it.
decode_utente : b64_decode (codes "dXRlbnRlOjEyMzQ=") ≡ some (codes "utente:1234")
unfolding b64_decode
decode_utente = refl

decode_refused : b64_decode (codes "a$b") ≡ none
unfolding b64_decode
decode_refused = refl

b64_decode-encode_example :
    b64_decode (encode (0 ∷ 255 ∷ 16 ∷ 7 ∷ [])) ≡ some (0 ∷ 255 ∷ 16 ∷ 7 ∷ [])
b64_decode-encode_example = b64_decode-encode (0 ∷ 255 ∷ 16 ∷ 7 ∷ []) (omega arith)

basic_password_ok_iff_example :
    (basic_password_ok (some (basic_header (codes "u") (codes "a:b"))) (codes "a:b") ≡ true)
    ↔ (codes "a:b" ≡ codes "a:b")
basic_password_ok_iff_example =
    basic_password_ok_iff (codes "u") (codes "a:b") (codes "a:b") (omega arith) (omega arith)
      (is_utf8_ascii (codes "u:a:b") (omega arith))

abbrev request : Request
request = record {
  host = some (codes "evil.example:8787");
  authorization = none;
  requested_with = some (codes "altkeeper");
  is_post = true;
}

guard_admits_example :
    (IsAdmitted none request
      → (next : Request → Response) → IsProtectedAnswer (next request) (guard none request next))
    × (¬ IsAdmitted none request
        → (r : Response) × IsRefusal r
          × ((next : Request → Response) → guard none request next ≡ r))
guard_admits_example = guard_admits none request

answer_of-IsExclusive_example : IsExclusive initial.app (answer_of to_check initial.app)
answer_of-IsExclusive_example = answer_of-IsExclusive to_check initial.app

abbrev account : Option Account
account =
    some (record {
      apple_id = codes "a@b.c";
      password = codes "segreta";
      team_id = some (codes "TEAM");
    })

abbrev to_renew_now : StartRequest
to_renew_now = to_renew (codes "now") account

renew_starts : (answer_of to_renew_now initial.app).started ≡ some (run_renew true)
unfolding answer_of renew force_of can_renew start_job str_eq
renew_starts = refl

-- A renewal begins, and its thread panics.
abbrev renewing : System
renewing = record { app = (answer_of to_renew_now initial.app).app; thread = some (run_renew true) }

abbrev panic_reached :
    Reach initial 1 (record { app = release (abort renewing.app); thread = none })
panic_reached =
    Reach.next (Reach.next Reach.here (began initial to_renew_now (run_renew true) renew_starts))
      (panicked renewing (run_renew true) refl)

Reach-IsSound_example : IsSound 1 (record { app = release (abort renewing.app); thread = none })
Reach-IsSound_example = Reach-IsSound panic_reached

abbrev of_t : PhoneProfile
of_t = record {
  uuid = codes "u";
  name = codes "app";
  team_id = some (codes "T");
  bundle_id = some (codes "com.app.T");
  expires = some 0;
}

parse_history-append_log_example :
    parse_history to_ascii_lowercase decimal
      (write_lines (codes "=== x" ∷ []) ++ log_of (codes "now") (codes "hi" ∷ []) true)
      5
    ≡ (record {
      when = trim (codes "now" ++ codes " (interfaccia web)");
      ok = true;
      summary = summary_of to_ascii_lowercase decimal (codes "hi" ∷ [] ++ result_line true ∷ []);
    })
      ∷ parse_history to_ascii_lowercase decimal (write_lines (codes "=== x" ∷ [])) 4
unfolding append_log strip_suffix strip_prefix
parse_history-append_log_example =
    parse_history-append_log to_ascii_lowercase decimal (codes "=== x" ∷ []) (codes "now")
      (codes "hi" ∷ []) true 4 ((omega arith, refl), tt) (omega arith) ((omega arith, refl), tt)
      (refl, tt) (write_lines (codes "=== x" ∷ []) ++ log_of (codes "now") (codes "hi" ∷ []) true)
      refl
