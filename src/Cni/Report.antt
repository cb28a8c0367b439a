-- ===== src/Cni/Report.antt =====
-- internal/cni/driver.go: `Sample`, which runs a driver on one read of the node.
use Prim.Native.String.{◌++◌ as ◌<>◌}
use cluster_recorder.Prelude.{ℕ, String, Bool, Option, none, some, List, [], ◌∷◌}
use cluster_recorder.Prelude.Order.{text_order}
use cluster_recorder.Dict.{Dict, get, put}
use cluster_recorder.Sample.{Field, not_applicable, unknown}
use cluster_recorder.Netlink.{View}
use cluster_recorder.Cni.{keys}
use cluster_recorder.Cni.Drivers.{Driver, name_of, topology, driver_sample}

pub record SampleResult : Type 0 where
  pub driver : String
  pub confidence : ℕ
  pub reason : String
  pub mode : String
  pub fields : Dict Field

-- `res.Fields[k] = sample.Unknown("netlink: " + err)` for every key.
unfoldable pub unread : String → List String → Dict Field → Dict Field
unread e [] fields = fields
unread e (k ∷ ks) fields = unread e ks (put fields k (unknown ("netlink: " <> e)))

field_or_unknown : String → String → Option Field → Field
field_or_unknown name k (some f) = f
field_or_unknown name k none = unknown ("driver " <> (name <> (" did not report " <> k)))

field_for : String → String → Option String → Option Field → Field
unfolding field_or_unknown
field_for name k (some why) f = not_applicable why
field_for name k none f = field_or_unknown name k f

-- The field of one key.
unfoldable pub field_at : String → Dict String → Dict Field → String → Field
unfolding field_for
field_at name na got k = field_for name k (get na k) (get got k)

unfoldable pub fill : String → Dict String → Dict Field → List String → Dict Field → Dict Field
unfolding field_at
fill name na got [] fields = fields
fill name na got (k ∷ ks) fields = fill name na got ks (put fields k (field_at name na got k))

-- What the netlink read gave: a view, or an error.
pub data Read : Type 0 where
  view : View → Read
  failing : String → Read

-- Sample
unfoldable pub sample :
    (String → String → Bool) → Driver → ℕ → String → Read → List String → Driver × SampleResult
unfolding unread fill driver_sample topology
sample lies_in d confidence reason (failing e) pod_cidrs = (
  d,
  record {
    driver = name_of d;
    confidence = confidence;
    reason = reason;
    mode = "";
    fields = unread e keys [];
  },
)
sample lies_in d confidence reason (view v) pod_cidrs =
    let (d', top) = topology d v in
    (
      d',
      record {
        driver = name_of d;
        confidence = confidence;
        reason = reason;
        mode = top.mode;
        fields = fill (name_of d) top.not_applicable (driver_sample lies_in d' v pod_cidrs) keys [];
      },
    )
