-- ===== src/Http.antt =====
-- What the service uses of net/http: a request, and a `ResponseWriter` that sends its status once.
-- A writer can be broken, as the one of broken/brokenrecorder.go is: every write fails.
use dp_topic_api.Prelude.{
  ℕ, String, Bool, true, false, not, nat_eq, ◌&&◌, Option, none, some, List, [], ◌∷◌, ◌++◌, ◌==◌,
  leb, if◌then◌else◌,
}
use dp_topic_api.Prelude.Text.{concat}
use dp_topic_api.Errors.{GoError, other}

abbrev pub Header : Type 0
Header = List (String × String)

-- `Header.Set`
abbrev pub set_header : String → String → Header → Header
set_header k v [] = (k, v) ∷ []
set_header k v ((j, w) ∷ h) = if j == k then (k, v) ∷ h else (j, w) ∷ set_header k v h

-- `url.Values`
abbrev pub Values : Type 0
Values = List (String × List String)

abbrev pub lookup {ℓ} : {A : Type ℓ} → String → List (String × A) → Option A
lookup k [] = none
lookup k ((j, v) ∷ m) = if j == k then some v else lookup k m

-- `Values.Get`: the first value, or "".
abbrev first_of_values : Option (List String) → String
first_of_values none = ""
first_of_values (some []) = ""
first_of_values (some (v ∷ vs)) = v

abbrev pub get_value : String → Values → String
get_value k values = first_of_values (lookup k values)

pub record Request : Type 0 where
  pub method : String
  pub path : String
  pub vars : List (String × String)
  pub query : Values
  pub header : Header
  pub body : String

abbrev or_empty : Option String → String
or_empty none = ""
or_empty (some s) = s

-- `mux.Vars(req)[name]`
abbrev pub var : String → Request → String
var name req = or_empty (lookup name req.vars)

-- The status and the header as they went out.
pub record Sent : Type 0 where
  pub status : ℕ
  pub header : Header

pub record ResponseWriter : Type 0 where
  pub header : Header
  pub sent : Option Sent
  pub body : List String
  pub broken : Bool

-- A writer as a handler gets it.
abbrev pub fresh : Bool → ResponseWriter
fresh broken = record { header = []; sent = none; body = []; broken = broken }

abbrev send : Option Sent → ℕ → Header → Sent
send none status header = record { status = status; header = header }
send (some sent) status header = sent

-- `WriteHeader`: the first call sends, a later one is superfluous.
abbrev sent_as : ℕ → ResponseWriter → ResponseWriter
sent_as status w = record w { sent = some (send w.sent status w.header) }

-- A status 1xx is informational and leaves the header to a later call, but for 101.
abbrev pub is_informational : ℕ → Bool
is_informational status = leb 100 status && leb status 199 && not (nat_eq status 101)

abbrev sent_unless : Bool → ℕ → ResponseWriter → ResponseWriter
sent_unless true status w = w
sent_unless false status w = sent_as status w

-- A first status outside 100..999 panics (`none`).
abbrev checked : Option Sent → ℕ → ResponseWriter → Option ResponseWriter
checked (some _) status w = some w
checked none status w =
    if leb 100 status && leb status 999
    then some (sent_unless (is_informational status) status w)
    else none

unfoldable pub write_header : ℕ → ResponseWriter → Option ResponseWriter
write_header status w = checked w.sent status w

-- `Write`: sends status 200 first if nothing was sent.
unfoldable pub write : String → ResponseWriter → ResponseWriter × GoError
write payload w =
    let w' = sent_as 200 w in
    if w.broken
    then (w', some (other "broken write"))
    else (record w' { body = w.body ++ payload ∷ [] }, none)

unfoldable pub set_on : String → String → ResponseWriter → ResponseWriter
set_on k v w = record w { header = set_header k v w.header }

abbrev written : Option ResponseWriter → String → Option ResponseWriter
written none payload = none
written (some w) payload = some (write payload w).0

-- `http.Error`
unfoldable pub http_error : String → ℕ → ResponseWriter → Option ResponseWriter
unfolding write_header write set_on
http_error text status w =
    let w' =
      set_on "X-Content-Type-Options" "nosniff"
        (set_on "Content-Type" "text/plain; charset=utf-8" w) in
    written (write_header status w') (concat text "\n")
