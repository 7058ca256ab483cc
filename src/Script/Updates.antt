-- ===== src/Script/Updates.antt =====
-- Which updates the release script makes.
use dp_topic_api.Prelude.{
  String, ◌≡◌, refl, ap, true, false, Option, none, some, List, [], ◌∷◌, ◌++◌, All, inl, inr,
  Bool-cases, Option-cases, if◌then◌else◌,
}
use dp_topic_api.Errors.{Error, GoError, Result, ok, err}
use dp_topic_api.Models.Topic.{Time}
use dp_topic_api.Store.{Storer}
use dp_topic_api.Script.{
  Stop, unread_id, blank_id, unread_date, blank_date, bad_date, with_connection, failed_update,
  Update, Done, stopped, blank, check_date, check_texts, update_topic_release_data, after_update,
  with_date, main,
}

-- The texts of the updates, in the order in which they are read.
abbrev pub texts : List Update → List (Result String)
texts [] = []
texts (u ∷ us) = ok u.id ∷ ok u.text ∷ texts us

module _ (trim : String → String) (parse_time : String → Option Time) {S : Type 0}
    (open_mongo : S → GoError) (storer : Storer S) where
  pub record IsSound (u : Update) : Type 0 where
    pub id_given : blank trim u.id ≡ false
    pub text_given : blank trim u.text ≡ false
    pub parsed : parse_time u.text ≡ some u.date

  -- Updates that each open a connection and succeed take the database from one state to another.
  pub data Succeeds : List Update → S → S → Type 0 where
    none_left : {s : S} → Succeeds [] s s
    one_more :
        {u : Update} {us : List Update} {s s' z : S}
        → open_mongo s ≡ none
        → storer.update_release_date u.id u.date s ≡ (none, s')
        → Succeeds us s' z
        → Succeeds (u ∷ us) s z

  -- Why the script stops at what is left to read, and how it leaves the database.
  pub data Stops (s : S) : List (Result String) → Stop → S → Type 0 where
    no_input : Stops s [] unread_id s
    no_id : {e : Error} {rest : List (Result String)} → Stops s (err e ∷ rest) unread_id s
    id_blank :
        {id : String} {rest : List (Result String)}
        → blank trim id ≡ true
        → Stops s (ok id ∷ rest) blank_id s
    no_more : {id : String} → blank trim id ≡ false → Stops s (ok id ∷ []) unread_date s
    no_date :
        {id : String} {e : Error} {rest : List (Result String)}
        → blank trim id ≡ false
        → Stops s (ok id ∷ err e ∷ rest) unread_date s
    date_blank :
        {id text : String} {rest : List (Result String)}
        → blank trim id ≡ false
        → blank trim text ≡ true
        → Stops s (ok id ∷ ok text ∷ rest) blank_date s
    date_bad :
        {id text : String} {rest : List (Result String)}
        → blank trim id ≡ false
        → blank trim text ≡ false
        → parse_time text ≡ none
        → Stops s (ok id ∷ ok text ∷ rest) bad_date s
    not_opened :
        {u : Update} {e : Error} {rest : List (Result String)}
        → IsSound u
        → open_mongo s ≡ some e
        → Stops s (ok u.id ∷ ok u.text ∷ rest) (failed_update e) s
    not_updated :
        {u : Update} {e : Error} {z : S} {rest : List (Result String)}
        → IsSound u
        → open_mongo s ≡ none
        → storer.update_release_date u.id u.date s ≡ (some e, z)
        → Stops s (ok u.id ∷ ok u.text ∷ rest) (failed_update e) z

  pub record Accounts (inputs : List (Result String)) (s : S) (d : Done S) : Type 0 where
    pub rest : List (Result String)
    pub mid : S
    pub read : inputs ≡ texts d.updates ++ rest
    pub sound : All IsSound d.updates
    pub succeeds : Succeeds d.updates s mid
    pub ends : Stops mid rest d.stop d.store

  Accounts-stopped :
      (inputs : List (Result String)) (s : S) (stop : Stop) (z : S)
      → Stops s inputs stop z
      → Accounts inputs s (stopped stop z)
  Accounts-stopped inputs s stop z h = record {
    rest = inputs;
    mid = s;
    read = refl;
    sound = tt;
    succeeds = none_left;
    ends = h;
  }

  Accounts-update :
      (u : Update) (rest : List (Result String)) (s : S) (again : S → Done S) (o : GoError)
      (r : GoError × S)
      → IsSound u
      → open_mongo s ≡ o
      → storer.update_release_date u.id u.date s ≡ r
      → ((s' : S) → Accounts rest s' (again s'))
      → Accounts
          (ok u.id ∷ ok u.text ∷ rest)
          s
          (after_update u (with_connection open_mongo storer o u.id u.date s) again)
  Accounts-update u rest s again (some e) r sound h k ih =
      Accounts-stopped _ s (failed_update e) s (not_opened sound h)
  Accounts-update u rest s again none (some e, z) sound h k ih =
      rw k (Accounts-stopped _ s (failed_update e) z (not_updated sound h k))
  Accounts-update u rest s again none (none, s') sound h k ih =
      let a = ih s' in
      rw k (record {
        rest = a.rest;
        mid = a.mid;
        read = ap (λ (l : List (Result String)). ok u.id ∷ ok u.text ∷ l) a.read;
        sound = (sound, a.sound);
        succeeds = one_more h k a.succeeds;
        ends = a.ends;
      })

  Accounts-dated :
      (u : Update) (rest : List (Result String)) (s : S) (again : S → Done S)
      → IsSound u
      → ((s' : S) → Accounts rest s' (again s'))
      → Accounts
          (ok u.id ∷ ok u.text ∷ rest)
          s
          (after_update u (update_topic_release_data open_mongo storer u.id u.date s) again)
  unfolding update_topic_release_data
  Accounts-dated u rest s again sound ih =
      Accounts-update u rest s again (open_mongo s) (storer.update_release_date u.id u.date s) sound
        refl refl ih

  Accounts-texts :
      (id text : String) (rest : List (Result String)) (s : S) (again : S → Done S)
      → ((s' : S) → Accounts rest s' (again s'))
      → Accounts
          (ok id ∷ ok text ∷ rest)
          s
          (with_date open_mongo storer id text (check_texts trim parse_time id text) s again)
  unfolding check_texts check_date
  Accounts-texts id text rest s again ih = elim (Bool-cases (blank trim id)) [
    | inl b ↦ rw b (Accounts-stopped _ s blank_id s (id_blank b))
    | inr b ↦ elim (Bool-cases (blank trim text)) [
      | inl t ↦ rw (b, t) (Accounts-stopped _ s blank_date s (date_blank b t))
      | inr t ↦ elim (Option-cases (parse_time text)) [
        | inl p ↦ rw (b, t, p) (Accounts-stopped _ s bad_date s (date_bad b t p))
        | inr (date, p) ↦
            let u : Update = record { id = id; text = text; date = date } in
            rw (b, t, p)
              (Accounts-dated u rest s again (record { id_given = b; text_given = t; parsed = p })
                ih)
      ]
    ]
  ]

  half_read :
      (id : String) (rest : List (Result String)) (s : S)
      → (blank trim id ≡ false → Stops s (ok id ∷ rest) unread_date s)
      → Accounts (ok id ∷ rest) s (stopped (if blank trim id then blank_id else unread_date) s)
  half_read id rest s h = elim (Bool-cases (blank trim id)) [
    | inl b ↦ rw b (Accounts-stopped _ s blank_id s (id_blank b))
    | inr b ↦ rw b (Accounts-stopped _ s unread_date s (h b))
  ]

  -- The script updates the collections that it reads, in their order: each of the pairs of texts has
  -- an id and a date that are not blank and a date that parses, and each update opens a connection
  -- and succeeds, on the database as the one before left it. The script stops at the first text that
  -- cannot be read, is blank or does not parse, or at the first update that fails; nothing is
  -- updated after that.
  pub main-Accounts :
      (inputs : List (Result String)) (s : S)
      → Accounts inputs s (main trim parse_time open_mongo storer inputs s)
  unfolding main
  main-Accounts [] s = Accounts-stopped [] s unread_id s no_input
  main-Accounts (err e ∷ rest) s = Accounts-stopped _ s unread_id s no_id
  main-Accounts (ok id ∷ []) s = half_read id [] s no_more
  main-Accounts (ok id ∷ err e ∷ rest) s = half_read id (err e ∷ rest) s no_date
  main-Accounts (ok id ∷ ok text ∷ rest) s =
      Accounts-texts id text rest s (main trim parse_time open_mongo storer rest)
        (main-Accounts rest)
