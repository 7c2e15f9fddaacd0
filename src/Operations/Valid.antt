-- ===== src/Operations/Valid.antt =====
-- What `loadConfig` accepts.
use mathlib.Core.Path.{subst}
use pulse_ledger.Base.{
  ℕ, ◌≤◌, ◌≡◌, refl, ap, true, Option, none, some, arith, length, Bool-cases, inl, inr,
}
use pulse_ledger.Base.Decimal.{Text}
use pulse_ledger.Errors.{Failure, Result, ok, err, ◌>>=◌}
use pulse_ledger.Operations.Arguments.{JsNumber, positive_integer, positive_integer-pos, or_invalid}
use pulse_ledger.Operations.Config.{
  Environment, development, OutboxConfig, RequestLimitsConfig, AppConfig, info_word, any_host,
  is_valid_log_level, minimum_admin_api_key_length, is_project_id, read_positive_int, in_port_range,
  read_port, required, missing_database, missing_key, or_default, trimmed, checked_project,
  read_node_env, read_log_level, read_outbox, read_limits, load_config,
}

-- If it succeeds, then with such a value.
abbrev Gives {ℓ κ} : {A : Type ℓ} → (A → Type κ) → Result A → Type (ℓ ⊔ κ)
Gives {A = A} Q r = (a : A) → r ≡ ok a → Q a

given {ℓ κ} : {A : Type ℓ} (Q : A → Type κ) (a : A) → Q a → Gives Q (ok a)
given {A = A} Q a q b h = subst Q (ap from_ok h) q
  where
    from_ok : Result A → A
    from_ok (ok x) = x
    from_ok (err e) = a

-- A chain that succeeds has succeeded in its first step and in the rest.
bound {ℓ κ ι} :
    {A : Type ℓ} {B : Type κ} (P : A → Type ι) (Q : B → Type ι) (r : Result A) (f : A → Result B)
    → Gives P r
    → ((a : A) → P a → Gives Q (f a))
    → Gives Q (r >>= f)
bound P Q (ok a) f p q b h = q a (p a refl) b h
bound P Q (err e) f p q b h = cc

pub record IsPositive (o : OutboxConfig) : Type 0 where
  pub batch_size : 1 ≤ o.batch_size
  pub claim_lease_seconds : 1 ≤ o.claim_lease_seconds
  pub max_attempts : 1 ≤ o.max_attempts
  pub poll_interval_ms : 1 ≤ o.poll_interval_ms

pub record IsLimit (l : RequestLimitsConfig) : Type 0 where
  pub body_limit_bytes : 1 ≤ l.body_limit_bytes
  pub connection_timeout_ms : 1 ≤ l.connection_timeout_ms
  pub keep_alive_timeout_ms : 1 ≤ l.keep_alive_timeout_ms
  pub request_timeout_ms : 1 ≤ l.request_timeout_ms

abbrev pub IsProject : Option Text → Type 0
IsProject none = Unit
IsProject (some t) = is_project_id t ≡ true

pub record IsValid (c : AppConfig) : Type 0 where
  pub database : 1 ≤ length c.database_url
  pub key : minimum_admin_api_key_length ≤ length c.admin_api_key
  pub level : is_valid_log_level c.log_level ≡ true
  pub outbox : IsPositive c.outbox
  pub limits : IsLimit c.request_limits
  pub project : IsProject c.firebase_project_id
  pub port_low : 1 ≤ c.port
  pub port_high : c.port ≤ 65_535

read_positive_int-pos :
    (raw : Option JsNumber) (fallback n : ℕ)
    → 1 ≤ fallback
    → read_positive_int raw fallback ≡ ok n
    → 1 ≤ n
unfolding read_positive_int
read_positive_int-pos none fallback n p h = ground arith
read_positive_int-pos (some x) fallback n p h = by_number (positive_integer x) refl h
  where
    by_number : (m : Option ℕ) → positive_integer x ≡ m → or_invalid m ≡ ok n → 1 ≤ n
    by_number none k z = cc
    by_number (some m) k z = ground (arith, positive_integer-pos x m k)

read_port_bounds : (raw : Option JsNumber) (n : ℕ) → read_port raw ≡ ok n → (1 ≤ n) × (n ≤ 65_535)
unfolding read_port
read_port_bounds none n h = (ground arith, ground arith)
read_port_bounds (some x) n h = by_number (positive_integer x) refl h
  where
    by_number :
        (m : Option ℕ) → positive_integer x ≡ m → in_port_range m ≡ ok n → (1 ≤ n) × (n ≤ 65_535)
    by_number none k z = cc
    by_number (some m) k z = (ground (arith, positive_integer-pos x m k), ground arith)

required-length :
    (least : ℕ) (e : Failure) (raw : Option Text) (t : Text)
    → required least e raw ≡ ok t
    → least ≤ length t
required-length least e none t h = cc
required-length least e (some s) t h = ground arith

read_log_level-valid :
    (raw : Option Text) (t : Text) → read_log_level raw ≡ ok t → is_valid_log_level t ≡ true
unfolding read_log_level
read_log_level-valid raw t h = elim (Bool-cases (is_valid_log_level (or_default raw info_word))) [
  | inl y ↦ ground arith
  | inr n ↦ absurd (cc (rw n at h))
]

checked_project-IsProject : (raw p : Option Text) → checked_project raw ≡ ok p → IsProject p
checked_project-IsProject raw none h = tt
checked_project-IsProject none (some t) h = cc
checked_project-IsProject (some s) (some t) h = ground arith

read_outbox-IsPositive : (v : Environment) → Gives IsPositive (read_outbox v)
unfolding read_outbox
read_outbox-IsPositive v =
    let pos = read_positive_int-pos in
    bound (λ n. 1 ≤ n) IsPositive _ _ (λ n. pos v.outbox_batch_size 10 n (omega arith))
      (λ a pa.
        bound (λ n. 1 ≤ n) IsPositive _ _
          (λ n. pos v.outbox_claim_lease_seconds 300 n (omega arith))
          (λ b pb.
            bound (λ n. 1 ≤ n) IsPositive _ _ (λ n. pos v.outbox_max_attempts 12 n (omega arith))
              (λ c pc.
                bound (λ n. 1 ≤ n) IsPositive _ _
                  (λ n. pos v.outbox_poll_interval_ms 1_000 n (omega arith))
                  (λ d pd. given IsPositive _ (record {
                    batch_size = pa;
                    claim_lease_seconds = pb;
                    max_attempts = pc;
                    poll_interval_ms = pd;
                  })))))

read_limits-IsLimit : (v : Environment) → Gives IsLimit (read_limits v)
unfolding read_limits
read_limits-IsLimit v =
    let pos = read_positive_int-pos in
    bound (λ n. 1 ≤ n) IsLimit _ _ (λ n. pos v.request_body_limit_bytes 16_384 n (omega arith))
      (λ a pa.
        bound (λ n. 1 ≤ n) IsLimit _ _ (λ n. pos v.connection_timeout_ms 10_000 n (omega arith))
          (λ b pb.
            bound (λ n. 1 ≤ n) IsLimit _ _ (λ n. pos v.keep_alive_timeout_ms 5_000 n (omega arith))
              (λ c pc.
                bound (λ n. 1 ≤ n) IsLimit _ _
                  (λ n. pos v.request_timeout_ms 30_000 n (omega arith))
                  (λ d pd. given IsLimit _ (record {
                    body_limit_bytes = pa;
                    connection_timeout_ms = pb;
                    keep_alive_timeout_ms = pc;
                    request_timeout_ms = pd;
                  })))))

accepted : (v : Environment) → Gives IsValid (load_config v)
unfolding load_config
accepted v =
    bound (λ t. 1 ≤ length t) IsValid _ _ (λ t. required-length 1 missing_database v.database_url t)
      (λ url pu.
        bound (λ t. minimum_admin_api_key_length ≤ length t) IsValid _ _
          (λ t. required-length minimum_admin_api_key_length missing_key v.admin_api_key t)
          (λ key pk.
            bound (λ e. Unit) IsValid (read_node_env v.node_env) _ (λ e h. tt)
              (λ env pe.
                bound (λ t. is_valid_log_level t ≡ true) IsValid _ _
                  (λ t. read_log_level-valid v.log_level t)
                  (λ level pl. bound IsPositive IsValid _ _ (read_outbox-IsPositive v) (λ outbox po.
                    bound IsLimit IsValid _ _ (read_limits-IsLimit v) (λ limits pm.
                      bound IsProject IsValid _ _
                        (λ p. checked_project-IsProject (trimmed v.firebase_project_id) p)
                        (λ project pp.
                          bound (λ n. (1 ≤ n) × (n ≤ 65_535)) IsValid _ _
                            (λ n. read_port_bounds v.port n)
                            (λ port px. given IsValid _ (record {
                              database = pu;
                              key = pk;
                              level = pl;
                              outbox = po;
                              limits = pm;
                              project = pp;
                              port_low = px.0;
                              port_high = px.1;
                            })))))))))

-- The environment with the two variables that must be there, and no other.
abbrev pub minimal : Text → Text → Environment
minimal url key = record {
  database_url = some url;
  admin_api_key = some key;
  node_env = none;
  log_level = none;
  outbox_batch_size = none;
  outbox_claim_lease_seconds = none;
  outbox_max_attempts = none;
  outbox_poll_interval_ms = none;
  request_body_limit_bytes = none;
  connection_timeout_ms = none;
  keep_alive_timeout_ms = none;
  request_timeout_ms = none;
  firebase_project_id = none;
  host = none;
  port = none;
}

abbrev pub defaults : Text → Text → AppConfig
defaults url key = record {
  admin_api_key = key;
  database_url = url;
  firebase_project_id = none;
  host = any_host;
  log_level = info_word;
  node_env = development;
  outbox = record {
    batch_size = 10;
    claim_lease_seconds = 300;
    max_attempts = 12;
    poll_interval_ms = 1_000;
  };
  port = 3_000;
  request_limits = record {
    body_limit_bytes = 16_384;
    connection_timeout_ms = 10_000;
    keep_alive_timeout_ms = 5_000;
    request_timeout_ms = 30_000;
  };
}

long_enough :
    (least : ℕ) (e : Failure) (t : Text) → least ≤ length t → required least e (some t) ≡ ok t
long_enough least e t h = ground arith

-- A configuration that is accepted is within its bounds: an administrator's key of at least 16
-- characters, a database, a known log level, positive numbers for the worker and for the requests,
-- a port from 1 to 65535, and a project identifier of the documented form if there is one. A
-- database and such a key are enough, and give the documented defaults.
pub load_config-IsValid :
    (v : Environment) (url key : Text)
    → 1 ≤ length url
    → minimum_admin_api_key_length ≤ length key
    → ((c : AppConfig) → load_config v ≡ ok c → IsValid c)
      × (load_config (minimal url key) ≡ ok (defaults url key))
unfolding load_config read_node_env read_log_level read_outbox read_limits read_positive_int
    read_port
load_config-IsValid v url key u k = (
  accepted v,
  rw
      (
        long_enough 1 missing_database url u,
        long_enough minimum_admin_api_key_length missing_key key k,
      )
      refl,
)
