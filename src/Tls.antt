-- ===== src/Tls.antt =====
-- src/common/tls.h and tls.c. A pointer to a context or a session is the Boolean whether it is not
-- null. The printing of errors and of the connection is left out.
pub mod Balance
use world_boss_raid.Base.{
  ℕ, Bool, true, false, not, Option, none, some, ℤ, pos, eqb_ℤ, if◌then◌else◌,
}
use Prim.Native.String.{String}
use world_boss_raid.Resources.{
  Call, World, Held, now_held, is_null, is_not_positive, hold_context, hold_session,
  hold_certificate, hold_text, free_context, free_session, free_certificate, free_text, attempt,
  tell,
}

-- What a context does about the certificate of the peer.
pub data VerifyMode : Type 0 where
  verify_none verify_peer : VerifyMode

module _ {Env : Type 0} where
  unfoldable pub tls_init_openssl : World Env → World Env
  tls_init_openssl w = now_held (record (w.held) { library = true }) w

  unfoldable pub tls_cleanup_openssl : World Env → World Env
  tls_cleanup_openssl w = now_held (record (w.held) { library = false }) w

  unfoldable pub tls_cleanup_context : Bool → World Env → World Env
  tls_cleanup_context ctx w = if ctx then free_context w else w

  unfoldable pub tls_free_ssl : Bool → World Env → World Env
  tls_free_ssl ssl w = if ssl then free_session w else w

module _ {Env : Type 0} (ask : Call → Env → ℤ × Env) where
  unfoldable pub tls_create_server_context : String → String → World Env → Bool × World Env
  tls_create_server_context cert_file key_file w =
      attempt ask Call.ssl_ctx_new is_null w (λ w1. (false, w1))
        (λ w1.
          let w2 = hold_context w1 in
          attempt ask (Call.ssl_ctx_use_certificate_file cert_file) is_null w2
            (λ w3. (false, free_context w3))
            (λ w3.
              attempt ask (Call.ssl_ctx_use_private_key_file key_file) is_null w3
                (λ w4. (false, free_context w4))
                (λ w4.
                  attempt ask Call.ssl_ctx_check_private_key is_null w4
                    (λ w5. (false, free_context w5)) (λ w5. (true, w5)))))

  unfoldable pub tls_shutdown : Bool → World Env → World Env
  tls_shutdown ssl w = if ssl then tell ask Call.ssl_shutdown w else w

  -- The two handshakes differ in the last call only.
  unfoldable pub handshake : Call → Bool → World Env → Bool × World Env
  handshake greeting ctx w =
      if not ctx
      then (false, w)
      else attempt ask Call.ssl_new is_null w (λ w1. (false, w1))
          (λ w1.
            let w2 = hold_session w1 in
            attempt ask Call.ssl_set_fd (λ r. not (eqb_ℤ r (pos 1))) w2
              (λ w3. (false, free_session w3))
              (λ w3.
                attempt ask greeting is_not_positive w3 (λ w4. (false, free_session w4))
                  (λ w4. (true, w4))))

  unfoldable pub tls_server_handshake : Bool → World Env → Bool × World Env
  tls_server_handshake = handshake Call.ssl_accept

  unfoldable pub tls_client_handshake : Bool → World Env → Bool × World Env
  tls_client_handshake = handshake Call.ssl_connect

  -- The context, with its mode of verification; `none` is a null pointer.
  unfoldable pub tls_create_client_context :
      Option String → World Env → Option VerifyMode × World Env
  tls_create_client_context ca_cert_file w =
      attempt ask Call.ssl_ctx_new is_null w (λ w1. (none, w1))
        (λ w1.
          let w2 = hold_context w1 in
          elim ca_cert_file [
            | none ↦ (some verify_none, w2)
            | some path ↦
                attempt ask (Call.ssl_ctx_load_verify_locations path) is_null w2
                  (λ w3. (none, free_context w3)) (λ w3. (some verify_peer, w3))
          ])

  -- Whether the result is 0. X509_V_OK is 0. The two texts are of the certificate's names.
  unfoldable pub tls_verify_server_certificate : World Env → Bool × World Env
  tls_verify_server_certificate w =
      attempt ask Call.ssl_get_peer_certificate is_null w (λ w1. (false, w1))
        (λ w1.
          let w2 = hold_certificate w1 in
          attempt ask Call.ssl_get_verify_result (λ r. not (eqb_ℤ r (pos 0))) w2
            (λ w3. (false, free_certificate w3))
            (λ w3.
              attempt ask Call.x509_subject_oneline is_null w3
                (λ w4.
                  attempt ask Call.x509_issuer_oneline is_null w4
                    (λ w5. (true, free_certificate w5))
                    (λ w5. (true, free_certificate (free_text (hold_text w5)))))
                (λ w4.
                  let w5 = hold_text w4 in
                  attempt ask Call.x509_issuer_oneline is_null w5
                    (λ w6. (true, free_certificate (free_text w6)))
                    (λ w6. (true, free_certificate (free_text (free_text (hold_text w6))))))))
