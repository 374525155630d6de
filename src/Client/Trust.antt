-- ===== src/Client/Trust.antt =====
-- Whom the client trusts.
use karo_x2_sdk_python.Prelude.{
  ◌≡◌, refl, Bool, true, not, ◌&&◌, String, Option, some, none, Bool-cases, inl, inr, if◌then◌else◌,
}
use karo_x2_sdk_python.Options.{CertCredentials, is_empty}
use karo_x2_sdk_python.Client.{
  Roots, TlsVersion, SslContext, Context, context, refused, broken, LoadError, of_ssl, other,
  roots_of, new_client, Dial, Connected, connect, connect_with, dialled, with_chain, with_roots,
  build_ssl_context,
}

-- `self._cert_pem and self._key_pem`
abbrev has_chain : CertCredentials → Bool
has_chain cert = not (is_empty cert.cert_pem) && not (is_empty cert.key_pem)

-- The context speaks TLS 1.2 or later, checks the robot's certificate and its host name unless the options say otherwise,
-- trusts no other roots than the options say, and shows a certificate of its own where both it and
-- its key are given.
abbrev pub AsAsked : CertCredentials → Context → Type 0
AsAsked cert (context ctx) =
    (ctx.minimum_version ≡ TlsVersion.tlsv1_2)
    × (ctx.verify_required ≡ not cert.insecure_skip_verify)
    × (ctx.check_hostname ≡ not cert.insecure_skip_verify)
    × (ctx.roots ≡ (
        if cert.insecure_skip_verify
        then Roots.unchecked
        else if is_empty cert.ca_pem
        then Roots.system
        else Roots.given cert.ca_pem))
    × (ctx.client_chain ≡ (if has_chain cert then some (cert.cert_pem, cert.key_pem) else none))
AsAsked cert (refused e) = Unit
AsAsked cert (broken text) = Unit

-- The context before the certificate of the client is loaded.
abbrev bare : CertCredentials → SslContext
bare cert = record {
  minimum_version = TlsVersion.tlsv1_2;
  check_hostname = not cert.insecure_skip_verify;
  verify_required = not cert.insecure_skip_verify;
  roots = roots_of cert;
  client_chain = none;
}

with_chain-AsAsked :
    (cert : CertCredentials) (chain_error : Option LoadError)
    → has_chain cert ≡ true
    → AsAsked cert (with_chain (bare cert) cert chain_error)
unfolding with_chain roots_of
with_chain-AsAsked cert none both = (refl, refl, refl, refl, rw both refl)
with_chain-AsAsked cert (some (of_ssl text)) both = tt
with_chain-AsAsked cert (some (other text)) both = tt

with_roots-AsAsked :
    (cert : CertCredentials) (roots_error : Option String) (rest : Context)
    → AsAsked cert rest
    → AsAsked cert (with_roots roots_error rest)
unfolding with_roots
with_roots-AsAsked cert none rest asked = asked
with_roots-AsAsked cert (some text) rest asked = tt

-- Every context that _build_ssl_context returns, whatever the loading of certificates comes to:
-- it speaks TLS 1.2 or later, checks the robot's certificate and host name exactly where the options do not switch this off,
-- it trusts the given roots, or the system's where none are given, and it has the certificate and
-- the key of the client exactly where both are given.
pub build_ssl_context-AsAsked :
    (cert : CertCredentials) (roots_error : Option String) (chain_error : Option LoadError)
    → AsAsked cert (build_ssl_context cert roots_error chain_error)
unfolding build_ssl_context roots_of
build_ssl_context-AsAsked cert roots_error chain_error =
    let ctx : SslContext = bare cert in
    let rest : Context = if has_chain cert then with_chain ctx cert chain_error else context ctx in
    with_roots-AsAsked cert (if cert.insecure_skip_verify then none else roots_error) rest
      (elim (Bool-cases (has_chain cert)) [
        | inl e ↦ rw e (with_chain-AsAsked cert chain_error e)
        | inr e ↦ rw e (refl, refl, refl, refl, rw e refl)
      ])

-- Without a client certificate, an exception of the dial that `connect` does not know gets through.
pub connect-crashed :
    (cert : CertCredentials) (text : String)
    → is_empty cert.cert_pem ≡ true
    → connect new_client cert none none (Dial.other_error text) ≡ Connected.crashed text
unfolding connect connect_with dialled build_ssl_context with_roots new_client
connect-crashed cert text token = elim (Bool-cases cert.insecure_skip_verify) [
  | inl skip ↦ rw (token, skip) refl
  | inr checked ↦ rw (token, checked) refl
]
