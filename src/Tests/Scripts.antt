-- ===== src/Tests/Scripts.antt =====
-- The release script, at the store in memory.
use dp_topic_api.Prelude.{String, none, [], ◌∷◌}
use dp_topic_api.Errors.{GoError, ok}
use dp_topic_api.Script.{main}
use dp_topic_api.Script.Updates.{Accounts, main-Accounts}
use dp_topic_api.Tests.Fixtures.{Documents, documents, storer, parse_time}

abbrev trim : String → String
trim text = text

abbrev connected : Documents → GoError
connected s = none

main-Accounts_example :
    Accounts trim parse_time connected storer
      (ok "gdp" ∷ ok "2022-05-22T09:21:45Z" ∷ ok "economy" ∷ ok "tomorrow" ∷ [])
      documents
      (main trim parse_time connected storer
        (ok "gdp" ∷ ok "2022-05-22T09:21:45Z" ∷ ok "economy" ∷ ok "tomorrow" ∷ [])
        documents)
main-Accounts_example =
    main-Accounts trim parse_time connected storer
      (ok "gdp" ∷ ok "2022-05-22T09:21:45Z" ∷ ok "economy" ∷ ok "tomorrow" ∷ []) documents
