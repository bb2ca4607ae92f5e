-- ===== src/Tls/Balance.antt =====
-- What the functions of tls.c hold when they return.
use world_boss_raid.Base.{suc, ◌≡◌, refl, Bool, true, false, Option, none, some, ℤ, if◌then◌else◌}
use Prim.Native.String.{String}
use world_boss_raid.Resources.{Call, World, is_null, is_not_positive, attempt_elim}
use world_boss_raid.Tls.{
  VerifyMode, tls_create_server_context, handshake, tls_server_handshake, tls_client_handshake,
  tls_create_client_context, tls_verify_server_certificate,
}

-- A context more if there is a result, and nothing else; and the same for a session.
abbrev pub HeldContext : {Env : Type 0} → World Env → Bool × World Env → Type 0
HeldContext w (made, w') =
    w'.held ≡ (if made then record (w.held) { contexts = suc w.held.contexts } else w.held)

abbrev pub HeldSession : {Env : Type 0} → World Env → Bool × World Env → Type 0
HeldSession w (made, w') =
    w'.held ≡ (if made then record (w.held) { sessions = suc w.held.sessions } else w.held)

module _ {Env : Type 0} (ask : Call → Env → ℤ × Env) where
  pub tls_create_server_context-HeldContext :
      (cert_file key_file : String) (w : World Env)
      → HeldContext w (tls_create_server_context ask cert_file key_file w)
  unfolding tls_create_server_context
  tls_create_server_context-HeldContext cert_file key_file w =
      attempt_elim ask (HeldContext w) Call.ssl_ctx_new is_null w _ _ (λ e. refl)
        (λ e.
          attempt_elim ask (HeldContext w) _ is_null _ _ _ (λ e1. refl)
            (λ e1.
              attempt_elim ask (HeldContext w) _ is_null _ _ _ (λ e2. refl)
                (λ e2. attempt_elim ask (HeldContext w) _ is_null _ _ _ (λ e3. refl) (λ e3. refl))))

  handshake-HeldSession :
      (greeting : Call) (ctx : Bool) (w : World Env) → HeldSession w (handshake ask greeting ctx w)
  unfolding handshake
  handshake-HeldSession greeting false w = refl
  handshake-HeldSession greeting true w =
      attempt_elim ask (HeldSession w) Call.ssl_new is_null w _ _ (λ e. refl)
        (λ e.
          attempt_elim ask (HeldSession w) _ _ _ _ _ (λ e1. refl)
            (λ e1.
              attempt_elim ask (HeldSession w) _ is_not_positive _ _ _ (λ e2. refl) (λ e2. refl)))

  -- Either handshake, whatever OpenSSL answers: with a result it holds one session more, and without
  -- one it has given back what it took; it holds the same of everything else.
  pub tls_handshakes-HeldSession :
      (ctx : Bool) (w : World Env)
      → HeldSession w (tls_server_handshake ask ctx w)
        × HeldSession w (tls_client_handshake ask ctx w)
  unfolding tls_server_handshake tls_client_handshake
  tls_handshakes-HeldSession ctx w =
      (handshake-HeldSession Call.ssl_accept ctx w, handshake-HeldSession Call.ssl_connect ctx w)

  -- The verification of the server's certificate gives back the certificate and its texts on every
  -- path, whatever OpenSSL answers.
  pub tls_verify_server_certificate-held :
      (w : World Env) → (tls_verify_server_certificate ask w).1.held ≡ w.held
  unfolding tls_verify_server_certificate
  tls_verify_server_certificate-held w =
      attempt_elim ask Same _ is_null w _ _ (λ e. refl)
        (λ e.
          attempt_elim ask Same _ _ _ _ _ (λ e1. refl)
            (λ e1.
              attempt_elim ask Same _ is_null _ _ _
                (λ e2. attempt_elim ask Same _ is_null _ _ _ (λ e3. refl) (λ e3. refl))
                (λ e2. attempt_elim ask Same _ is_null _ _ _ (λ e3. refl) (λ e3. refl))))
    where
      Same : Bool × World Env → Type 0
      Same r = r.1.held ≡ w.held

  abbrev pub HeldIfMade : World Env → Option VerifyMode × World Env → Type 0
  HeldIfMade w (none, w') = w'.held ≡ w.held
  HeldIfMade w (some mode, w') = w'.held ≡ record (w.held) { contexts = suc w.held.contexts }

  pub tls_create_client_context-HeldIfMade :
      (ca : Option String) (w : World Env) → HeldIfMade w (tls_create_client_context ask ca w)
  unfolding tls_create_client_context
  tls_create_client_context-HeldIfMade none w =
      attempt_elim ask (HeldIfMade w) _ is_null w _ _ (λ e. refl) (λ e. refl)
  tls_create_client_context-HeldIfMade (some path) w =
      attempt_elim ask (HeldIfMade w) _ is_null w _ _ (λ e. refl)
        (λ e. attempt_elim ask (HeldIfMade w) _ is_null _ _ _ (λ e1. refl) (λ e1. refl))
