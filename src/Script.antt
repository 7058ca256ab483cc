-- ===== src/Script.antt =====
-- scripts/updatetopicrelease/main.go: a script that asks for the id of a collection and a release
-- date, sets the date, and asks again, until something fails; it always exits with 1. `trim` is
-- `strings.TrimSpace`, `parse_time` is `time.Parse(time.RFC3339, _)`, and `open` the error of
-- `NewDBConnection` at a state of the database.
pub mod Updates
use dp_topic_api.Prelude.{String, Bool, Option, none, some, List, [], ◌∷◌, ◌==◌, if◌then◌else◌}
use dp_topic_api.Errors.{Error, GoError, Result, ok, err}
use dp_topic_api.Models.Topic.{Time}
use dp_topic_api.Store.{Storer}

-- Why the script exits.
pub data Stop : Type 0 where
  unread_id blank_id unread_date blank_date bad_date : Stop
  failed_update : Error → Stop

-- A collection that was updated: the texts as they were read, and the date.
pub record Update : Type 0 where
  pub id : String
  pub text : String
  pub date : Time

pub record Done (S : Type 0) : Type 0 where
  pub updates : List Update
  pub stop : Stop
  pub store : S

-- What the script makes of two texts.
pub data Checked : Type 0 where
  refused : Stop → Checked
  dated : Time → Checked

abbrev pub stopped : {S : Type 0} → Stop → S → Done S
stopped stop s = record { updates = []; stop = stop; store = s }

abbrev date_of : Option Time → Checked
date_of none = refused bad_date
date_of (some date) = dated date

-- `validateInputValue`: whether the script exits.
abbrev pub blank : (String → String) → String → Bool
blank trim text = trim text == ""

module _ (trim : String → String) (parse_time : String → Option Time) where
  unfoldable pub check_date : String → Checked
  check_date text = if blank trim text then refused blank_date else date_of (parse_time text)

  unfoldable pub check_texts : String → String → Checked
  unfolding check_date
  check_texts id text = if blank trim id then refused blank_id else check_date text

module _ {S : Type 0} where
  abbrev pub go_on : Update → Done S → Done S
  go_on u d = record { updates = u ∷ d.updates; stop = d.stop; store = d.store }

  abbrev pub after_update : Update → GoError × S → (S → Done S) → Done S
  after_update u (some e, s) again = stopped (failed_update e) s
  after_update u (none, s) again = go_on u (again s)

module _ {S : Type 0} (open_mongo : S → GoError) (storer : Storer S) where
  abbrev pub with_connection : GoError → String → Time → S → GoError × S
  with_connection (some e) id date s = (some e, s)
  with_connection none id date s = storer.update_release_date id date s

  unfoldable pub update_topic_release_data : String → Time → S → GoError × S
  update_topic_release_data id date s = with_connection (open_mongo s) id date s

  abbrev pub with_date : String → String → Checked → S → (S → Done S) → Done S
  with_date id text (refused stop) s again = stopped stop s
  with_date id text (dated date) s again =
      let u : Update = record { id = id; text = text; date = date } in
      after_update u (update_topic_release_data id date s) again

module _ (trim : String → String) (parse_time : String → Option Time) {S : Type 0}
    (open_mongo : S → GoError) (storer : Storer S) where
  -- The loop, on what `Scanf` gives from then on; it fails where nothing is left.
  unfoldable pub main : List (Result String) → S → Done S
  unfolding check_texts
  main [] s = stopped unread_id s
  main (err e ∷ _) s = stopped unread_id s
  main (ok id ∷ []) s = stopped (if blank trim id then blank_id else unread_date) s
  main (ok id ∷ err e ∷ _) s = stopped (if blank trim id then blank_id else unread_date) s
  main (ok id ∷ ok text ∷ rest) s =
      with_date open_mongo storer id text (check_texts trim parse_time id text) s (main rest)
