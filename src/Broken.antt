-- ===== src/Broken.antt =====
-- broken/brokenrecorder.go: the response recorder of the handlers' tests, of which every write fails.
pub mod Mirrors
use dp_topic_api.Prelude.{ℕ, String, Bool, true, false, Option, none, some, List, [], ◌∷◌}
use dp_topic_api.Prelude.Text.{concat}
use dp_topic_api.Errors.{GoError, other}
use dp_topic_api.Http.{Header, set_header}

-- A map and a buffer that are nil are `none`.
pub record BrokeRecorder : Type 0 where
  pub code : ℕ
  pub header_map : Option Header
  pub body : Option String
  pub snap_header : Option Header
  pub wrote_header : Bool

unfoldable pub new_recorder : BrokeRecorder
new_recorder = record {
  code = 0;
  header_map = none;
  body = none;
  snap_header = none;
  wrote_header = false;
}

abbrev pub made : Option Header → Header
made none = []
made (some h) = h

abbrev buffered : Option String → String
buffered none = ""
buffered (some written) = written

-- The number of bytes that `Write` returns, and its error.
unfoldable pub write : String → BrokeRecorder → (ℕ × GoError) × BrokeRecorder
write payload r = (
  (0, some (other "broken write")),
  record r { body = some (concat (buffered r.body) "This is the broken write") },
)

-- `Header` makes the map where there is none; what its caller sets is set in the recorder's map.
unfoldable pub header : BrokeRecorder → Header × BrokeRecorder
header r = (made r.header_map, record r { header_map = some (made r.header_map) })

unfoldable pub set_on : String → String → BrokeRecorder → BrokeRecorder
unfolding header
set_on k v r = let (h, r') = header r in record r' { header_map = some (set_header k v h) }

abbrev write_first : Bool → ℕ → BrokeRecorder → BrokeRecorder
write_first true code r = r
write_first false code r = record r {
  code = code;
  wrote_header = true;
  header_map = some (made r.header_map);
  snap_header = some (made r.header_map);
}

unfoldable pub write_header : ℕ → BrokeRecorder → BrokeRecorder
write_header code r = write_first r.wrote_header code r
