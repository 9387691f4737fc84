-- ===== src/Agent/Tls.antt =====
-- cmd/outrelay-agent/main.go: loadClientTLS and loadServerTLS, over what the files hold. Key pairs,
-- certificate pools and errors are those of crypto/tls, crypto/x509 and os.
use outrelay_agent.Base.{
  ℕ, ◌≡◌, refl, Bool, true, false, Option, none, some, [], Result, ok, err, Text,
}

pub data TlsError (Err : Type 0) : Type 0 where
  no_key_pair no_ca : Err → TlsError Err
  empty_ca : TlsError Err

-- `require_client` is RequireAndVerifyClientCert, in place of the zero value.
pub record LoadedTls (Pair Pool : Type 0) : Type 0 where
  pub certificate : Pair
  pub root_cas : Option Pool
  pub client_cas : Option Pool
  pub require_client : Bool
  pub server_name : Text
  pub min_version : ℕ

-- tls.VersionTLS13.
abbrev pub version_tls13 : ℕ
version_tls13 = 0x0304

client_config : {Pair Pool : Type 0} → Text → Pair × Pool → LoadedTls Pair Pool
client_config server_name (cert, pool) = record {
  certificate = cert;
  root_cas = some pool;
  client_cas = none;
  require_client = false;
  server_name = server_name;
  min_version = version_tls13;
}

server_config : {Pair Pool : Type 0} → Pair × Pool → LoadedTls Pair Pool
server_config (cert, pool) = record {
  certificate = cert;
  root_cas = none;
  client_cas = some pool;
  require_client = true;
  server_name = [];
  min_version = version_tls13;
}

module _ {Pair Pool Err : Type 0} (append_certs : Text → Option Pool) where
  -- LoadX509KeyPair, ReadFile and AppendCertsFromPEM on a new pool, in that order.
  load_trust : Result Err Pair → Result Err Text → Result (TlsError Err) (Pair × Pool)
  load_trust (err e) ca = err (no_key_pair e)
  load_trust (ok cert) (err e) = err (no_ca e)
  load_trust (ok cert) (ok pem) = elim (append_certs pem) [
    | none ↦ err empty_ca
    | some pool ↦ ok (cert, pool)
  ]

  with_trust :
      (Pair × Pool → LoadedTls Pair Pool)
      → Result (TlsError Err) (Pair × Pool)
      → Result (TlsError Err) (LoadedTls Pair Pool)
  with_trust config (err e) = err e
  with_trust config (ok trust) = ok (config trust)

  unfoldable pub load_client_tls :
      Text → Result Err Pair → Result Err Text → Result (TlsError Err) (LoadedTls Pair Pool)
  unfolding load_trust client_config with_trust
  load_client_tls server_name pair ca = with_trust (client_config server_name) (load_trust pair ca)

  unfoldable pub load_server_tls :
      Result Err Pair → Result Err Text → Result (TlsError Err) (LoadedTls Pair Pool)
  unfolding load_trust server_config with_trust
  load_server_tls pair ca = with_trust server_config (load_trust pair ca)

  -- On the same files the two sides fail alike, or both are made, and then the server demands of a
  -- client a certificate from the pool that the client has its servers' certificates from.
  pub data Mutual
      : Result (TlsError Err) (LoadedTls Pair Pool)
        → Result (TlsError Err) (LoadedTls Pair Pool)
        → Type 0 where
    both_fail : {e : TlsError Err} → Mutual (err e) (err e)
    both_made :
        {client server : LoadedTls Pair Pool}
        → server.client_cas ≡ client.root_cas
        → server.require_client ≡ true
        → server.certificate ≡ client.certificate
        → server.min_version ≡ client.min_version
        → Mutual (ok client) (ok server)

  trust-Mutual :
      (server_name : Text) (trust : Result (TlsError Err) (Pair × Pool))
      → Mutual (with_trust (client_config server_name) trust) (with_trust server_config trust)
  unfolding with_trust client_config server_config
  trust-Mutual server_name (err e) = both_fail
  trust-Mutual server_name (ok trust) = both_made refl refl refl refl

  pub load_tls-Mutual :
      (server_name : Text) (pair : Result Err Pair) (ca : Result Err Text)
      → Mutual (load_client_tls server_name pair ca) (load_server_tls pair ca)
  unfolding load_client_tls load_server_tls
  load_tls-Mutual server_name pair ca = trust-Mutual server_name (load_trust pair ca)
