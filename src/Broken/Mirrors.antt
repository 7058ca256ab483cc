-- ===== src/Broken/Mirrors.antt =====
-- The recorder of broken/brokenrecorder.go beside a response writer of net/http of which every write
-- fails, which is how the handlers' tests use it.
use dp_topic_api.Prelude.{
  ℕ, String, ◌≡◌, Bool, true, false, ◌&&◌, Option, none, some, List, [], ◌∷◌, leb, nat_eq, ◌||◌,
}
use dp_topic_api.Errors.{GoError}
use dp_topic_api.Http.{Header, Sent, ResponseWriter}
use dp_topic_api.Http as Http
use dp_topic_api.Broken.{BrokeRecorder, made, write, set_on, write_header}

-- A call on the writer: `w.Header().Set(…)`, `w.WriteHeader(…)` or `w.Write(…)`.
pub data Call : Type 0 where
  sets : String → String → Call
  writes_header : ℕ → Call
  writes : String → Call

-- The calls on the recorder, with the errors of the writes.
unfoldable pub on_recorder : List Call → BrokeRecorder → List GoError × BrokeRecorder
on_recorder [] r = ([], r)
on_recorder (sets k v ∷ calls) r = on_recorder calls (set_on k v r)
on_recorder (writes_header code ∷ calls) r = on_recorder calls (write_header code r)
on_recorder (writes payload ∷ calls) r =
    let ((n, e), r') = write payload r in
    let (errors, r'') = on_recorder calls r' in (e ∷ errors, r'')

-- The calls on a writer of net/http; `none` if one panics.
abbrev and_error :
    GoError → Option (List GoError × ResponseWriter) → Option (List GoError × ResponseWriter)
and_error e none = none
and_error e (some (errors, w)) = some (e ∷ errors, w)

abbrev and_then :
    Option ResponseWriter
    → (ResponseWriter → Option (List GoError × ResponseWriter))
    → Option (List GoError × ResponseWriter)
and_then none k = none
and_then (some w) k = k w

unfoldable pub on_writer : List Call → ResponseWriter → Option (List GoError × ResponseWriter)
on_writer [] w = some ([], w)
on_writer (sets k v ∷ calls) w = on_writer calls (Http.set_on k v w)
on_writer (writes_header code ∷ calls) w = and_then (Http.write_header code w) (on_writer calls)
on_writer (writes payload ∷ calls) w =
    let (w', e) = Http.write payload w in and_error e (on_writer calls w')

-- A status that net/http sends, 200..999 or 101, is written before anything else is.
abbrev pub status_first : List Call → Bool
status_first [] = true
status_first (sets k v ∷ calls) = status_first calls
status_first (writes_header code ∷ calls) = nat_eq code 101 || (leb 200 code && leb code 999)
status_first (writes payload ∷ calls) = false

-- What the recorder has kept of the response.
abbrev recorded : Bool → ℕ → Option Header → Option Sent
recorded true code header = some (record { status = code; header = made header })
recorded false code header = none

abbrev pub Mirrors : BrokeRecorder → ResponseWriter → Type 0
Mirrors r w =
    (w.broken ≡ true)
    × (made r.header_map ≡ w.header)
    × (recorded r.wrote_header r.code r.snap_header ≡ w.sent)

-- The calls on both, with the same errors, and what the recorder keeps.
abbrev pub RunsAlike : List Call → BrokeRecorder → ResponseWriter → Type 0
RunsAlike calls r w =
    (w' : ResponseWriter) × (on_writer calls w ≡ some ((on_recorder calls r).0, w'))
    × Mirrors (on_recorder calls r).1 w'
