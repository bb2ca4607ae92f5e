-- ===== src/Resources.antt =====
-- The calls of OpenSSL and of the operating system that hand something out, for the modules Tls,
-- Client.Modes, Client.Stress and Server. What a call returns is up to a parameter; the account of
-- what is held is kept by the model beside it, for statements about leaks.
use world_boss_raid.Base.{
  ℕ, zero, suc, Bool, true, false, Option, none, some, List, [], ◌∷◌, ℤ, pos, negsuc, ltb_ℤ, leb_ℤ,
  eqb_ℤ, if◌then◌else◌, ◌≡◌, refl, sym,
}
use Prim.Native.String.{String}
use mathlib.Core.Path.{subst}

pub data Call : Type 0 where
  ssl_ctx_new ssl_ctx_check_private_key ssl_new ssl_set_fd ssl_accept ssl_connect : Call
  ssl_ctx_use_certificate_file ssl_ctx_use_private_key_file : String → Call
  ssl_ctx_load_verify_locations fopen : String → Call
  ssl_get_peer_certificate ssl_get_verify_result : Call
  x509_subject_oneline x509_issuer_oneline : Call
  ssl_shutdown : Call
  socket inet_pton connect accept fork pthread_create : Call
  setsockopt bind listen : ℤ → Call
  mmap pthread_mutex_init sigaction_chld sigaction_quit sigaction_int : Call

-- What has been handed out and not given back; `strays` counts what was given back without being
-- held. `library` is whether OpenSSL is initialised, `screen` whether ncurses has the terminal.
pub record Held : Type 0 where
  pub contexts : ℕ
  pub sessions : ℕ
  pub certificates : ℕ
  pub texts : ℕ
  pub files : ℕ
  pub sockets : ℕ
  pub mappings : ℕ
  pub strays : ℕ
  pub library : Bool
  pub screen : Bool

abbrev pub held_nothing : Held
held_nothing = record {
  contexts = 0;
  sessions = 0;
  certificates = 0;
  texts = 0;
  files = 0;
  sockets = 0;
  mappings = 0;
  strays = 0;
  library = false;
  screen = false;
}

pub record World (Env : Type 0) : Type 0 where
  pub env : Env
  pub held : Held

-- `MAP_FAILED` and the errors of sigaction are -1.
abbrev pub is_minus_one : ℤ → Bool
is_minus_one r = eqb_ℤ r (negsuc 0)

-- The tests that the program makes of what a call returns; a null pointer is 0.
abbrev pub is_null : ℤ → Bool
is_null r = eqb_ℤ r (pos 0)

abbrev pub is_negative : ℤ → Bool
is_negative r = ltb_ℤ r (pos 0)

abbrev pub is_not_positive : ℤ → Bool
is_not_positive r = leb_ℤ r (pos 0)

module _ {Env : Type 0} where
  abbrev pub now_held : Held → World Env → World Env
  now_held held w = record w { held = held }

  abbrev pub hold_context : World Env → World Env
  hold_context w = now_held (record (w.held) { contexts = suc w.held.contexts }) w

  abbrev pub hold_session : World Env → World Env
  hold_session w = now_held (record (w.held) { sessions = suc w.held.sessions }) w

  abbrev pub hold_certificate : World Env → World Env
  hold_certificate w = now_held (record (w.held) { certificates = suc w.held.certificates }) w

  abbrev pub hold_text : World Env → World Env
  hold_text w = now_held (record (w.held) { texts = suc w.held.texts }) w

  abbrev pub hold_file : World Env → World Env
  hold_file w = now_held (record (w.held) { files = suc w.held.files }) w

  abbrev pub hold_socket : World Env → World Env
  hold_socket w = now_held (record (w.held) { sockets = suc w.held.sockets }) w

  abbrev pub hold_mapping : World Env → World Env
  hold_mapping w = now_held (record (w.held) { mappings = suc w.held.mappings }) w

  abbrev pub stray : World Env → World Env
  stray w = now_held (record (w.held) { strays = suc w.held.strays }) w

  -- SSL_CTX_free, SSL_free, X509_free, OPENSSL_free, fclose and close.
  abbrev pub free_context : World Env → World Env
  free_context w = elim w.held.contexts [
    | zero ↦ stray w
    | suc n ↦ now_held (record (w.held) { contexts = n }) w
  ]

  abbrev pub free_session : World Env → World Env
  free_session w = elim w.held.sessions [
    | zero ↦ stray w
    | suc n ↦ now_held (record (w.held) { sessions = n }) w
  ]

  abbrev pub free_certificate : World Env → World Env
  free_certificate w = elim w.held.certificates [
    | zero ↦ stray w
    | suc n ↦ now_held (record (w.held) { certificates = n }) w
  ]

  abbrev pub free_text : World Env → World Env
  free_text w = elim w.held.texts [
    | zero ↦ stray w
    | suc n ↦ now_held (record (w.held) { texts = n }) w
  ]

  abbrev pub close_file : World Env → World Env
  close_file w = elim w.held.files [
    | zero ↦ stray w
    | suc n ↦ now_held (record (w.held) { files = n }) w
  ]

  abbrev pub close_socket : World Env → World Env
  close_socket w = elim w.held.sockets [
    | zero ↦ stray w
    | suc n ↦ now_held (record (w.held) { sockets = n }) w
  ]

module _ {Env : Type 0} (ask : Call → Env → ℤ × Env) where
  -- A call, and what the program does where its test of the result fails and where it passes.
  unfoldable pub attempt :
      {R : Type 0} → Call → (ℤ → Bool) → World Env → (World Env → R) → (World Env → R) → R
  attempt c fails w if_failed if_passed =
      let (r, e) = ask c w.env in
      let w1 : World Env = record w { env = e } in if fails r then if_failed w1 else if_passed w1

  -- A call whose result is not looked at.
  unfoldable pub tell : Call → World Env → World Env
  tell c w = record w { env = (ask c w.env).1 }

  -- The first of some paths that can be opened for reading.
  unfoldable pub first_readable : List String → World Env → Option String × World Env
  first_readable [] w = (none, w)
  first_readable (path ∷ paths) w =
      let rest = first_readable paths in
      attempt (fopen path) is_null w rest (λ w1. (some path, close_file (hold_file w1)))

  -- What holds of both continuations holds of the call.
  pub attempt_elim :
      {R : Type 0} (P : R → Type 0) (c : Call) (fails : ℤ → Bool) (w : World Env)
      (if_failed if_passed : World Env → R)
      → ((e : Env) → P (if_failed (record w { env = e })))
      → ((e : Env) → P (if_passed (record w { env = e })))
      → P (attempt c fails w if_failed if_passed)
  unfolding attempt
  attempt_elim P c fails w if_failed if_passed f p = go (fails (ask c w.env).0)
    where
      e : Env
      e = (ask c w.env).1

      go :
          (b : Bool)
          → P (if b then if_failed (record w { env = e }) else if_passed (record w { env = e }))
      go true = f e
      go false = p e

  -- And what holds where the test of the result fails, if it does.
  pub attempt_failed :
      {R : Type 0} (P : R → Type 0) (c : Call) (fails : ℤ → Bool) (w : World Env)
      (if_failed if_passed : World Env → R)
      → fails (ask c w.env).0 ≡ true
      → P (if_failed (record w { env = (ask c w.env).1 }))
      → P (attempt c fails w if_failed if_passed)
  unfolding attempt
  attempt_failed P c fails w if_failed if_passed e p =
      subst
        (λ (b : Bool). P (
          if b
          then if_failed (record w { env = (ask c w.env).1 })
          else if_passed (record w { env = (ask c w.env).1 })))
        (sym e) p

  pub first_readable-held :
      (paths : List String) (w : World Env) → (first_readable paths w).1.held ≡ w.held
  unfolding first_readable
  first_readable-held [] w = refl
  first_readable-held (path ∷ paths) w =
      attempt_elim (λ (r : Option String × World Env). r.1.held ≡ w.held) (fopen path) is_null w _ _
        (λ e. first_readable-held paths (record w { env = e })) (λ e. refl)

-- What holds of every result that holds what this one does, holds of this one.
pub held_elim :
    {Env : Type 0} {R : Type 0} (P : R × World Env → Type 0) (r : R × World Env) (h : Held)
    → r.1.held ≡ h
    → ((e : Env) → P (r.0, record { env = e; held = h }))
    → P r
held_elim {Env} P r h e p =
    subst (λ (x : Held). P (r.0, record { env = r.1.env; held = x })) (sym e) (p r.1.env)

pub if_elim :
    {R : Type 0} (P : R → Type 0) (b : Bool) (x y : R) → P x → P y → P (if b then x else y)
if_elim P true x y px py = px
if_elim P false x y px py = py
