-- ===== src/Agent/Environment.antt =====
-- internal/agent/agent.go: `FromEnv`, the agent's settings from the environment. Whether Go's net/url
-- can parse the collector's URL is a parameter.
use Prim.Native.Nat.{◌^◌}
use cluster_recorder.Prelude.{
  ℕ, ◌*◌, ◌-◌, ◌%◌, ◌≤◌, ◌≡◌, ◌≢◌, ◌⊎◌, String, Bool, true, false, not, Option, none, some, List,
  [], ◌∷◌, ◌++◌, ltb, str_eq, if◌then◌else◌,
}
use cluster_recorder.Prelude.Numerals.{ℤ, pos, negated, pos_part, codes, parse_int, accepted}
use cluster_recorder.Config.{second, minute}
use cluster_recorder.Config.Parse.{Env}

pub record AgentConfig : Type 0 where
  pub collector_url : String
  pub node : String
  pub driver : String
  pub cni_dir : String
  pub proc_root : String
  pub host_root : String
  pub pod_cidr : String
  -- in nanoseconds
  pub interval : ℤ
  pub buffer_size : ℕ
  pub redetect_every : ℕ

pub data AgentError : Type 0 where
  node_required : AgentError
  bad_url : String → AgentError
  bad_interval : String → AgentError
  bad_buffer : String → AgentError

-- `get`
text_or : Env → String → String → String
text_or env key default = if str_eq (env key) "" then default else env key

start : Env → AgentConfig
unfolding text_or
start env = record {
  collector_url = text_or env "COLLECTOR_URL" "http://recorder.recorder.svc:8080";
  node = env "NODE_NAME";
  driver = text_or env "CNI_DRIVER" "auto";
  cni_dir = text_or env "CNI_CONF_DIR" "/etc/cni/net.d";
  proc_root = text_or env "PROC_ROOT" "/proc";
  host_root = text_or env "HOST_ROOT" "/host";
  pod_cidr = env "POD_CIDR";
  interval = pos (30 * second);
  buffer_size = 100;
  redetect_every = 10 * minute;
}

-- A number that is not below the least that is allowed.
at_least : ℕ → Option ℤ → Option ℕ
at_least least none = none
at_least least (some n) = if ltb (pos_part n) least then none else some (pos_part n)

-- `time.Duration(n) * time.Second`, in 64 bits with a sign.
unfoldable pub times_second : ℕ → ℤ
times_second n =
    let bits = n * second % 2 ^ 64 in
    if ltb bits (2 ^ 63) then pos bits else negated (2 ^ 64 - bits)

abbrev Reading : Type 0
Reading = AgentConfig × List AgentError

put_read : Option ℕ → AgentError → (ℕ → AgentConfig → AgentConfig) → Reading → Reading
put_read none e put (c, es) = (c, es ++ e ∷ [])
put_read (some n) e put (c, es) = (put n c, es)

optional : String → ℕ → AgentError → (ℕ → AgentConfig → AgentConfig) → Reading → Reading
unfolding put_read at_least
optional v least e put r =
    if str_eq v "" then r else put_read (at_least least (accepted (parse_int (codes v)))) e put r

error_if : Bool → AgentError → List AgentError
error_if true e = e ∷ []
error_if false e = []

pub data Outcome : Type 0 where
  config : AgentConfig → Outcome
  invalid : List AgentError → Outcome

outcome : Reading → Outcome
outcome (c, []) = config c
outcome (c, e ∷ es) = invalid (e ∷ es)

-- FromEnv
unfoldable pub from_env : (String → Bool) → Env → Outcome
unfolding start optional error_if outcome
from_env url_parses env =
    let c : AgentConfig = start env in
    let es : List AgentError =
      error_if (str_eq c.node "") node_required
      ++ error_if (not (url_parses c.collector_url)) (bad_url c.collector_url) in
    let v : String = env "SAMPLE_INTERVAL" in
    let r : Reading =
      optional v 5 (bad_interval v) (λ n c. record c { interval = times_second n }) (c, es) in
    let w : String = env "AGENT_BUFFER" in
    outcome (optional w 1 (bad_buffer w) (λ n c. record c { buffer_size = n }) r)

-- An optional variable, and the configuration with and without it.
abbrev Optional : String → ℕ → (ℕ → AgentConfig → AgentConfig) → AgentConfig → AgentConfig → Type 0
Optional v least put d c =
    ((str_eq v "" ≡ true) × (c ≡ d))
    ⊎ ((n : ℕ) × (accepted (parse_int (codes v)) ≡ some (pos n)) × (least ≤ n) × (c ≡ put n d))

-- The interval is thirty seconds, or the number of seconds that the variable gives, which is at least five,
-- in nanoseconds as an int64 holds them.
abbrev pub Paced : String → ℤ → Type 0
Paced v interval =
    ((str_eq v "" ≡ true) × (interval ≡ pos (30 * second)))
    ⊎ ((n : ℕ) × (accepted (parse_int (codes v)) ≡ some (pos n))
        × (5 ≤ n)
        × (interval ≡ times_second n))

-- The node is named, the URL parses, the buffer has room for a sample, and the interval is as above.
pub record CanStart (url_parses : String → Bool) (env : Env) (c : AgentConfig) : Type 0 where
  pub has_node : c.node ≢ ""
  pub url : url_parses c.collector_url ≡ true
  pub room : 1 ≤ c.buffer_size
  pub pace : Paced (env "SAMPLE_INTERVAL") c.interval
