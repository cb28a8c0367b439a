-- ===== src/Agent/Sampler.antt =====
-- internal/agent/agent.go: `Snapshot`, one sample of the node. What the agent reads while it takes the
-- sample, from the collector, the host and the CNI's directory, is an argument.
use Prim.Native.String.{◌++◌ as ◌<>◌}
use cluster_recorder.Prelude.{
  ℕ, ◌-◌, String, Bool, false, not, Option, none, some, List, [], ◌∷◌, leb, str_eq, length, ◌==◌,
  if◌then◌else◌,
}
use cluster_recorder.Dict.{Dict, put}
use cluster_recorder.Sample.{Time, Field, Snapshot, source_agent}
use cluster_recorder.Netlink.{link_names}
use cluster_recorder.Cni.Drivers.{name_of}
use cluster_recorder.Cni.Report.{Read, view, failing, SampleResult, sample}
use cluster_recorder.Cni.Detect.{CniConfig, DetectContext, Choice, detected, choose}
use cluster_recorder.Host as Host

pub record Hints : Type 0 where
  pub daemon_sets : List String
  pub pod_cidrs : List String

-- The part of the configuration that sampling uses.
pub record Settings : Type 0 where
  pub node : String
  pub driver : String
  pub pod_cidr : String
  pub redetect_every : ℕ

-- `choice` is none before the first detection.
pub record Sampler : Type 0 where
  pub choice : Option Choice
  pub detected_at : Time
  pub hints : Hints

pub record Reading : Type 0 where
  -- The collector's answer, if it gave one.
  pub hints : Option Hints
  pub view : Read
  pub cni_configs : List CniConfig
  pub host : Host.Reads

-- refreshHints: without an answer the last hints stay.
unfoldable pub refresh_hints : Option Hints → Hints → Hints
refresh_hints none h = h
refresh_hints (some new) h = new

-- podCIDRs
unfoldable pub pod_cidrs : Settings → Hints → List String
pod_cidrs cfg h =
    if not (length h.pod_cidrs == 0)
    then h.pod_cidrs
    else if not (str_eq cfg.pod_cidr "")
    then cfg.pod_cidr ∷ []
    else []

names_in : Read → List String
names_in (view v) = link_names v
names_in (failing e) = []

or_detected : DetectContext → Option Choice → Choice
or_detected ctx (some c) = c
or_detected ctx none = detected ctx

context : Hints → Reading → DetectContext
unfolding names_in
context h r = record {
  cni_configs = r.cni_configs;
  daemon_sets = h.daemon_sets;
  interfaces = names_in r.view;
}

-- The detection: a forced name that is no driver's falls back to it.
unfoldable pub selected : Settings → Hints → Reading → Choice
unfolding context or_detected
selected cfg h r = or_detected (context h r) (choose cfg.driver (context h r))

unfoldable pub is_due : Settings → Time → Sampler → Bool
is_due cfg now s = leb cfg.redetect_every (now - s.detected_at)

-- The choice afterwards: the old instance, with its pinned mode, where the driver's name is the same.
unfoldable pub rechosen : Choice → Choice → Choice
rechosen old new = if str_eq (name_of old.driver) (name_of new.driver) then old else new

unfoldable pub detect_with :
    Settings → Time → Hints → Reading → Sampler → Option Choice → Choice × Time
unfolding selected is_due rechosen
detect_with cfg now h r s none = (selected cfg h r, now)
detect_with cfg now h r s (some old) =
    if is_due cfg now s then (rechosen old (selected cfg h r), now) else (old, s.detected_at)

unfoldable pub put_fields : Dict Field → Dict Field → Dict Field
put_fields fields [] = fields
put_fields fields ((k, f) ∷ more) = put_fields (put fields k f) more

reason_of : SampleResult → String
reason_of res = if str_eq res.mode "" then res.reason else res.reason <> (" mode=" <> res.mode)

-- Snapshot: the sample, and the agent afterwards, whose driver may have pinned its mode.
unfoldable pub take_sample :
    (String → String → Bool) → Settings → Time → Reading → Sampler → Snapshot × Sampler
unfolding refresh_hints pod_cidrs detect_with put_fields reason_of
take_sample lies_in cfg now r s =
    let h = refresh_hints r.hints s.hints in
    let (c, at) = detect_with cfg now h r s s.choice in
    let (d, res) = sample lies_in c.driver c.confidence c.reason r.view (pod_cidrs cfg h) in
    (
      record {
        id = 0;
        node = cfg.node;
        source = source_agent;
        time = now;
        driver = res.driver;
        driver_confidence = res.confidence;
        driver_reason = reason_of res;
        fields = put_fields res.fields (Host.fields r.host);
        baseline = false;
      },
      record { choice = some (record c { driver = d }); detected_at = at; hints = h },
    )
