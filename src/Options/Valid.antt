-- ===== src/Options/Valid.antt =====
-- `_validate_opts` lets through the options that the rest of the SDK can work with, and no others.
use karo_x2_sdk_python.Prelude.{
  ◌^◌, ◌≤◌, is_negative, pos_part, true, false, none, arith, ◌≡◌, ◌↔◌, ◌⊎◌,
}
use karo_x2_sdk_python.Options.{ConnectOptions, is_empty, no_bytes, has_colon, validate_opts}

-- What the options must satisfy.
pub record IsValid (o : ConnectOptions) : Type 0 where
  pub host : is_empty o.host ≡ false
  pub no_port : has_colon o.host ≡ false
  pub credentials :
      ((is_empty o.cert.cert_pem ≡ false) × (is_empty o.cert.key_pem ≡ false))
      ⊎ ((is_empty o.cert.cert_pem ≡ true) × (no_bytes o.access_token.token ≡ false))
  pub heartbeat : is_negative o.heartbeat_interval ≡ false
  pub delays : o.reconnect_base_delay ≤ o.reconnect_max_delay
  pub jitter :
      (is_negative o.reconnect_jitter_ratio ≡ false) × (pos_part o.reconnect_jitter_ratio ≤ 10 ^ 6)
  pub queue : 1 ≤ pos_part o.subscription_queue_size

pub validate_opts-IsValid : (o : ConnectOptions) → validate_opts o ≡ none → IsValid o
unfolding validate_opts
validate_opts-IsValid o h = ground arith

pub IsValid-validate_opts : (o : ConnectOptions) → IsValid o → validate_opts o ≡ none
unfolding validate_opts
IsValid-validate_opts o v = ground arith

-- The constructor of the connection object raises nothing exactly when the options are valid: a
-- host with no port, a certificate with its key or else a token, a heartbeat interval of 0 or more,
-- a base delay up to the maximal one, a jitter in [0, 1], and a queue of one message or more.
pub validate_opts_iff : (o : ConnectOptions) → (validate_opts o ≡ none) ↔ IsValid o
validate_opts_iff o = (validate_opts-IsValid o, IsValid-validate_opts o)
