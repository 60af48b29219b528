-- ===== src/Altserver/Startup/Statics.antt =====
-- The two statics of src/altserver.rs and src/phone.rs, which are written once, and what the calls of
-- `start` and `stop` leave of them.
use alt_keeper.Base.Action.{Keeps, ok, Run, err, panic, tag_err}
use alt_keeper.Altserver.Startup.{Bonjour, ServiceInfo, stop, mdns, withdraw, stop_by}
use alt_keeper.Base.{
  ◌≡◌, ℕ, some, Option, Bool, none, refl, true, inr, inl, Option-cases, option_both, ◌∙◌, ap,
}
use alt_keeper.Base.Text.{Str, codes}
use alt_keeper.Phone.Address.{SocketAddr}
use alt_keeper.Altserver.Identity.{server_id, fresh_id, after_random, Host, id_file, hex, saved_id}
use alt_keeper.Base.Bytes.{Bytes}

-- The content of a `OnceLock` after `set` or `get_or_init`.
abbrev pub once {ℓ} : {A : Type ℓ} → Option A → A → Option A
once none a = some a
once (some b) a = some b

-- The two statics hold these values.
abbrev pub At :
    {World Listener : Type 0} → Bonjour World Listener → Option Str → Option Bool → World → Type 0
At B name daemon w = (B.fullname_cell w ≡ name) × (B.daemon_cell w ≡ daemon)

-- Each static is written once, by its own calls, and nothing else touches them.
pub record HasStatics {World Listener : Type 0} (B : Bonjour World Listener) : Type 0 where
  pub name_set :
      (n : Str) (w : World) → B.fullname_cell (B.set_fullname n w) ≡ once (B.fullname_cell w) n
  pub name_kept : (d : Bool) (w : World) → B.fullname_cell (B.set_daemon d w) ≡ B.fullname_cell w
  pub daemon_set :
      (d : Bool) (w : World) → B.daemon_cell (B.set_daemon d w) ≡ once (B.daemon_cell w) d
  pub daemon_kept : (n : Str) (w : World) → B.daemon_cell (B.set_fullname n w) ≡ B.daemon_cell w
  pub bind_at : (n : Option Str) (d : Option Bool) (p : ℕ) → Keeps (At B n d) (B.bind p)
  pub local_port_at :
      (n : Option Str) (d : Option Bool) (l : Listener) → Keeps (At B n d) (B.local_port l)
  pub random_at : (n : Option Str) (d : Option Bool) → Keeps (At B n d) (B.host.random 16)
  pub create_at :
      (n : Option Str) (d : Option Bool) (dir : Str) (w : World)
      → At B n d w
      → At B n d (B.host.create_dir_all dir w)
  pub write_at :
      (n : Option Str) (d : Option Bool) (path text : Str)
      → Keeps (At B n d) (B.host.write path text)
  pub new_daemon_at :
      (n : Option Str) (d : Option Bool) (w : World) → At B n d w → At B n d (B.new_daemon w).1
  pub new_info_at :
      (n : Option Str) (d : Option Bool) (s : ServiceInfo) → Keeps (At B n d) (B.new_info s)
  pub register_at :
      (n : Option Str) (d : Option Bool) (s : ServiceInfo) → Keeps (At B n d) (B.register s)
  pub println_at :
      (n : Option Str) (d : Option Bool) (line : Str) (w : World)
      → At B n d w
      → At B n d (B.println line w)
  pub spawn_at :
      (n : Option Str) (d : Option Bool) (l : Listener) (phone : Option SocketAddr) (w : World)
      → At B n d w
      → At B n d (B.spawn_accept l phone w)

pub id-Keeps :
    {World : Type 0} (H : Host World) (I : World → Type 0)
    → Keeps I (H.random 16)
    → ((dir : Str) (w : World) → I w → I (H.create_dir_all dir w))
    → ((path text : Str) → Keeps I (H.write path text))
    → Keeps I (server_id H)
unfolding server_id fresh_id after_random
id-Keeps {World} H I random create write w h =
    option_both (λ (r : Run Str × World). I r.1) (saved_id H w) _ _
      (written (H.random 16 w).0 (H.random 16 w).1 (random w h)) λ s. h
  where
    written : (r : Run Bytes) (v : World) → I v → I (after_random H r v).1
    written (ok bytes) v k = write id_file (hex bytes) _ (create (codes "state") v k)
    written (err e) v k = k
    written panic v k = k
    written Run.stuck v k = k

pub tag_err_ok : {A : Type 0} (tag : Str) (r : Run A) {a : A} → tag_err tag r ≡ ok a → r ≡ ok a
tag_err_ok tag (ok a) e = e
tag_err_ok tag (err x) e = absurd (cc e)
tag_err_ok tag panic e = absurd (cc e)
tag_err_ok tag Run.stuck e = absurd (cc e)

module _ {World Listener : Type 0} (B : Bonjour World Listener) (L : HasStatics B) where
  pub mdns-At :
      (n : Option Str) (w : World)
      → B.fullname_cell w ≡ n
      → (mdns B w).0 ≡ true
      → At B n (some true) (mdns B w).1
  unfolding mdns
  mdns-At n w h e = elim (Option-cases (B.daemon_cell w)) [
    | inl none_yet ↦
        let made : (B.new_daemon w).0 ≡ true = rw (none_yet, mdns) at e in
        let (name, daemon) = L.new_daemon_at n none w (h, none_yet) in
        let v = (B.new_daemon w).1 in
        rw (none_yet, mdns)
          (rw made
            ((L.name_kept true v ∙ name, L.daemon_set true v ∙ ap (λ o. once o true) daemon)))
    | inr (d, there) ↦
        let on : d ≡ true = rw (there, mdns) at e in rw (there, mdns) (h, there ∙ ap some on)
  ]

  mdns_known : (d : Bool) (w : World) → B.daemon_cell w ≡ some d → mdns B w ≡ (d, w)
  unfolding mdns
  mdns_known d w e = rw (e, mdns) refl

  pub stop-At : (n : Str) (w : World) → At B (some n) (some true) w → stop B w ≡ withdraw B n w
  unfolding stop stop_by
  stop-At n w (name, daemon) = rw (mdns_known true w daemon) (rw (name, stop_by) refl)
