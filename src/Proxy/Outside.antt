-- ===== src/Proxy/Outside.antt =====
-- What crates/silo-proxy uses and does not implement: the header map of the `http` crate, name
-- resolution and sockets of the operating system, the TLS library, and the parser of IP literals.
-- The laws are the documented behaviour of `http::HeaderMap`.
use llmdevsilo.Prelude.{
  ℕ, ◌≡◌, ◌≢◌, Bool, List, [], ◌∷◌, Option, some, Text, ◌==◌, list_eq, nat_eq, list_beq_iff,
  if◌then◌else◌, arith,
}
use llmdevsilo.Proxy.IpGuard.{IpAddr}

pub record Headers : Type 1 where
  pub HeaderMap : Type 0
  pub get_all : HeaderMap → Text → List Text
  pub remove : Text → HeaderMap → HeaderMap
  pub insert : Text → Text → HeaderMap → HeaderMap
  -- `HeaderName::from_bytes` and `HeaderValue::from_str`.
  pub header_name : Text → Option Text
  pub header_value : Text → Option Text
  pub get_all-remove : (n : Text) (h : HeaderMap) → get_all (remove n h) n ≡ []
  pub get_all-remove_ne :
      (n m : Text) (h : HeaderMap) → n ≢ m → get_all (remove n h) m ≡ get_all h m
  pub get_all-insert : (n v : Text) (h : HeaderMap) → get_all (insert n v h) n ≡ v ∷ []
  pub get_all-insert_ne :
      (n m v : Text) (h : HeaderMap) → n ≢ m → get_all (insert n v h) m ≡ get_all h m

pub record SocketAddr : Type 0 where
  pub ip : IpAddr
  pub port : ℕ

pub record Network : Type 0 where
  -- `tokio::net::lookup_host`; `none` is an error.
  pub lookup_host : Text → ℕ → Option (List SocketAddr)
  -- Whether `TcpStream::connect` succeeds.
  pub tcp_connect : SocketAddr → Bool
  -- Whether the TLS handshakes with the upstream host and with the sandbox succeed.
  pub tls_connect : Text → Bool
  pub tls_accept : Bool
  -- Whether writing to the client succeeds.
  pub write_ok : Bool
  -- `host.parse::<IpAddr>()`.
  pub parse_ip : Text → Option IpAddr

-- Header maps as functions, which have the laws.
abbrev pub table_insert : Text → List Text → (Text → List Text) → Text → List Text
table_insert n vs h m = if n == m then vs else h m

pub table_self : (n : Text) (vs : List Text) (h : Text → List Text) → table_insert n vs h n ≡ vs
table_self n vs h = ground (arith, list_beq_iff n n)

pub table_ne :
    (n m : Text) (vs : List Text) (h : Text → List Text) → n ≢ m → table_insert n vs h m ≡ h m
table_ne n m vs h ne = ground (arith, list_beq_iff n m)

abbrev pub table_headers : Headers
table_headers = record {
  HeaderMap = Text → List Text;
  get_all = λ h n. h n;
  remove = λ n h. table_insert n [] h;
  insert = λ n v h. table_insert n (v ∷ []) h;
  header_name = λ n. some n;
  header_value = λ v. some v;
  get_all-remove = λ n h. table_self n [] h;
  get_all-remove_ne = λ n m h. table_ne n m [] h;
  get_all-insert = λ n v h. table_self n (v ∷ []) h;
  get_all-insert_ne = λ n m v h. table_ne n m (v ∷ []) h;
}
