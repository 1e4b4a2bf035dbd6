-- ===== src/Config/Remote/Accepted.antt =====
-- What an accepted configuration of the remote proxy satisfies.
use akari_proxy.Prelude.{
  ◌≡◌, refl, sym, ◌∙◌, subst, true, false, Option, none, some, [], arith, some_inj, or_else, keep,
  Text, nat_eq, text_key,
}
use akari_proxy.Prelude.Dict.{Dict, get, has}
use akari_proxy.Prelude.Decimal.{pos}
use akari_proxy.Prelude.Str.{codes, is_space}
use akari_proxy.Exceptions.{ok, Ensures, after, after_any}
use akari_proxy.Config.{Floats, Table, int_or, float_or, require_str, require_bool}
use akari_proxy.Config.Valid.{
  IsWord, IsPort, IsPositive, IsTimeout, require_str-IsWord, require_port-IsPort,
  require_int-IsPositive, optional_float-IsTimeout,
}
use akari_proxy.Config.Remote.{
  RemoteProxyConfig, Host, psk_sources, clear_timeout, server_config, load_remote_config,
}
use akari_proxy.Config.Remote.Keys.{IsKey, HasOneSource, resolve_psk-IsKey}

by_default : {A : Type 0} (P : A → Type 0) (d : A) → P d → (e : A) → some d ≡ some e → P e
by_default P d h e same = subst P (some_inj same) h

module _ (floats : Floats) (host : Host) where
  clear_timeout-kept :
      (timeout : Option floats.Float)
      → IsTimeout floats timeout
      → clear_timeout floats host timeout ≡ timeout
  clear_timeout-kept none h = refl
  clear_timeout-kept (some t) h = rw (h t refl) refl

  pub record Accepted (table : Table floats) (config : RemoteProxyConfig floats.Float)
      : Type 0 where
    pub host_word : IsWord config.host
    pub port_range : IsPort config.port
    pub buffer_positive : IsPositive config.buffer_size
    pub timeout_positive : IsTimeout floats config.timeout
    pub psk_kept : IsKey config.psk
    pub psk_source : HasOneSource (keep (has table) psk_sources)

  accept :
      (table : Table floats) (config : RemoteProxyConfig floats.Float) (t : Option floats.Float)
      → IsWord config.host
      → IsPort config.port
      → IsPositive config.buffer_size
      → IsTimeout floats t
      → config.timeout ≡ clear_timeout floats host t
      → IsKey config.psk × HasOneSource (keep (has table) psk_sources)
      → Accepted table config
  accept table config t word port positive timeout cleared key = record {
    host_word = word;
    port_range = port;
    buffer_positive = positive;
    timeout_positive =
        subst (IsTimeout floats) (sym (cleared ∙ clear_timeout-kept t timeout)) timeout;
    psk_kept = key.0;
    psk_source = key.1;
  }

  server_config-Accepted :
      (table : Table floats) → Ensures (Accepted table) (server_config floats host table)
  unfolding server_config is_space
  server_config-Accepted table =
      after IsWord (Accepted table) _ _
        (require_str-IsWord floats table (codes "host") (some (codes "0.0.0.0"))
          (by_default IsWord _ (b'0', _, refl, refl)))
        (λ h word.
          after IsPort (Accepted table) _ _
            (require_port-IsPort floats table (codes "port") (some (pos 14500))
              (by_default IsPort _ (14500, refl, omega arith, omega arith)))
            (λ p port.
              after (IsTimeout floats) (Accepted table) _ _
                (optional_float-IsTimeout floats table (codes "timeout"))
                (λ t timeout.
                  after IsPositive (Accepted table) _ _
                    (require_int-IsPositive floats table (codes "buffer_size") (some (pos 65535))
                      (by_default IsPositive _ (65535, refl, omega arith)))
                    (λ n positive.
                      after_any (Accepted table)
                        (require_str floats table (codes "log_level") (some (codes "INFO"))) _
                        (λ level.
                          after (λ psk. IsKey psk × HasOneSource (keep (has table) psk_sources))
                            (Accepted table) _ _ (resolve_psk-IsKey floats host table)
                            (λ psk key.
                              after_any (Accepted table)
                                (require_bool floats table (codes "require_encryption") false) _
                                (λ encryption.
                                  after_any (Accepted table)
                                    (int_or floats table (codes "protocol_version") (pos 2)) _
                                    (λ version.
                                      after_any (Accepted table)
                                        (require_bool floats table (codes "agg_tag") true) _
                                        (λ agg_tag.
                                          after_any (Accepted table)
                                            (int_or floats table (codes "payload_max") (pos 1200)) _
                                            (λ payload_max.
                                              after_any (Accepted table)
                                                (require_bool floats table (codes "df") true) _
                                                (λ df.
                                                  after_any (Accepted table)
                                                    (require_bool floats table (codes "plpmtud")
                                                      false)
                                                    _
                                                    (λ plpmtud.
                                                      after_any (Accepted table)
                                                        (int_or floats table
                                                          (codes "initial_request_retries") (pos 1))
                                                        _
                                                        (λ retries.
                                                          after_any (Accepted table)
                                                            (int_or floats table
                                                            (codes "max_nack_rounds") (pos 2))
                                                            _
                                                            (λ rounds.
                                                            after_any (Accepted table)
                                                            (float_or floats table
                                                            (codes "first_seq_timeout") floats.half)
                                                            _
                                                            (λ first_seq.
                                                            after_any (Accepted table)
                                                            (float_or floats table
                                                            (codes "sock_timeout") floats.one)
                                                            _
                                                            (λ sock.
                                                            accept table _ t word port positive
                                                            timeout refl key))))))))))))))))

  -- A configuration that is accepted has a host that is not blank, a port between 1 and 65535, a positive
  -- receive buffer, a timeout that is none or above zero, and a key that is not empty, from exactly one of
  -- `psk`, `psk_file` and `psk_env`.
  pub load_remote_config-Accepted :
      (path : Text) (sections : Dict Text (Table floats)) (config : RemoteProxyConfig floats.Float)
      → load_remote_config floats host path (some sections) ≡ ok config
      → Accepted (or_else (get sections (codes "server")) []) config
  unfolding load_remote_config
  load_remote_config-Accepted path sections config h =
      let table = or_else (get sections (codes "server")) [] in
      subst (Ensures (Accepted table)) h (server_config-Accepted table)
