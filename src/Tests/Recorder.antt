-- ===== src/Tests/Recorder.antt =====
-- The calls of `http.Error`, on the recorder of broken/brokenrecorder.go.
use dp_topic_api.Prelude.{List, [], ◌∷◌}
use dp_topic_api.Broken.Mirrors.{Call, sets, writes_header, writes}

abbrev error_calls : List Call
error_calls =
    sets "Content-Type" "text/plain; charset=utf-8"
    ∷ sets "X-Content-Type-Options" "nosniff"
    ∷ writes_header 500
    ∷ writes "internal error"
    ∷ []
