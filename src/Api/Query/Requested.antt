-- ===== src/Api/Query/Requested.antt =====
-- What a request for content asks for: the parameter `type` of api/content_query.go.
use dp_topic_api.Prelude.{
  ℕ, String, ◌≡◌, ◌≢◌, ◌↔◌, ◌⊎◌, refl, sym, inl, inr, true, Bool-cases, Option, none, some, List,
  [], ◌∷◌, map, All,
}
use dp_topic_api.Http.{Values, lookup}
use dp_topic_api.Api.Query.{
  selects, runes, runes_eq, trim_space, flags_for, all_flags, get_content_type_parameter,
}
use dp_topic_api.Api.Query.Kinds.{
  Kind, only, spotlight, articles, bulletins, methodologies, methodology_articles, static_datasets,
  timeseries, Word, publications, datasets, flag, spelling, Asks, word_flags, flags_of-spelling,
  selects-Asks, Asks-selects,
}
use dp_topic_api.Api.Query.Words.{runes_eq_iff, flags_for-unrecognised}

-- A value that is the word, once it is lowered and trimmed.
abbrev pub Spells : (ℕ → ℕ) → String → Word → Type 0
Spells lower value w = trim_space (map lower (runes value)) ≡ runes (spelling w)

-- What the parameters of a request ask for: with no type every kind of content; a panic for a type
-- with no value; nothing for a first value that is no word; else the kinds of the word.
pub data Requested (lower : ℕ → ℕ) (values : Values) : Option ℕ → Type 0 where
  every_kind :
      {flags : ℕ}
      → lookup "type" values ≡ none
      → ((k : Kind) → selects flags (flag k) ≡ true)
      → Requested lower values (some flags)
  no_value : lookup "type" values ≡ some [] → Requested lower values none
  no_word :
      {value : String} {others : List String}
      → lookup "type" values ≡ some (value ∷ others)
      → ((w : Word) → ¬ (Spells lower value w))
      → Requested lower values (some 0)
  word :
      {value : String} {others : List String} {w : Word} {flags : ℕ}
      → lookup "type" values ≡ some (value ∷ others)
      → Spells lower value w
      → ((k : Kind) → (selects flags (flag k) ≡ true) ↔ Asks w k)
      → Requested lower values (some flags)

abbrev words : List Word
words =
    only spotlight
    ∷ only articles
    ∷ only bulletins
    ∷ only methodologies
    ∷ only methodology_articles
    ∷ only static_datasets
    ∷ only timeseries
    ∷ publications
    ∷ datasets
    ∷ []

word_or_none :
    (s : List ℕ) (ws : List Word)
    → ((w : Word) × (s ≡ runes (spelling w))) ⊎ All (λ w. s ≢ runes (spelling w)) ws
word_or_none s [] = inr tt
word_or_none s (w ∷ ws) = elim (Bool-cases (runes_eq (runes (spelling w)) s)) [
  | inl e ↦ inl (w, sym ((runes_eq_iff (runes (spelling w)) s).0 e))
  | inr e ↦ elim (word_or_none s ws) [
    | inl found ↦ inl found
    | inr others ↦ inr ((λ h. cc (e, (runes_eq_iff (runes (spelling w)) s).1 (sym h))), others)
  ]
]

no_other :
    (s : List ℕ) → All (λ w. s ≢ runes (spelling w)) words → (w : Word) → s ≢ runes (spelling w)
no_other s (a, (b, (c, (d, (e, (f, (g, (p, (q, _))))))))) (only spotlight) = a
no_other s (a, (b, (c, (d, (e, (f, (g, (p, (q, _))))))))) (only articles) = b
no_other s (a, (b, (c, (d, (e, (f, (g, (p, (q, _))))))))) (only bulletins) = c
no_other s (a, (b, (c, (d, (e, (f, (g, (p, (q, _))))))))) (only methodologies) = d
no_other s (a, (b, (c, (d, (e, (f, (g, (p, (q, _))))))))) (only methodology_articles) = e
no_other s (a, (b, (c, (d, (e, (f, (g, (p, (q, _))))))))) (only static_datasets) = f
no_other s (a, (b, (c, (d, (e, (f, (g, (p, (q, _))))))))) (only timeseries) = g
no_other s (a, (b, (c, (d, (e, (f, (g, (p, (q, _))))))))) publications = p
no_other s (a, (b, (c, (d, (e, (f, (g, (p, (q, _))))))))) datasets = q

every_flag : (k : Kind) → selects all_flags (flag k) ≡ true
every_flag spotlight = refl
every_flag articles = refl
every_flag bulletins = refl
every_flag methodologies = refl
every_flag methodology_articles = refl
every_flag static_datasets = refl
every_flag timeseries = refl

module _ (lower : ℕ → ℕ) where
  flags_for-Spells :
      (value : String) (w : Word) → Spells lower value w → flags_for lower value ≡ word_flags w
  unfolding flags_for
  flags_for-Spells value w e = rw (e, flags_of-spelling w)

  first_value :
      (values : Values) (value : String) (others : List String)
      → lookup "type" values ≡ some (value ∷ others)
      → Requested lower values (some (flags_for lower value))
  first_value values value others h =
      elim (word_or_none (trim_space (map lower (runes value))) words) [
        | inl (w, e) ↦
            Requested.word h e
              (λ k. rw (flags_for-Spells value w e) (selects-Asks w k, Asks-selects))
        | inr none_of ↦
            let unspelt : (w : Word) → ¬ (Spells lower value w) = no_other _ none_of in
            rw ((flags_for-unrecognised lower value).1 unspelt) (Requested.no_word h unspelt)
      ]

  parameter :
      (values : Values) (o : Option (List String))
      → lookup "type" values ≡ o
      → Requested lower values (get_content_type_parameter lower values)
  unfolding get_content_type_parameter
  parameter values none h = rw h (Requested.every_kind h every_flag)
  parameter values (some []) h = rw h (Requested.no_value h)
  parameter values (some (value ∷ others)) h = rw h (first_value values value others h)

  pub get_content_type_parameter-Requested :
      (values : Values) → Requested lower values (get_content_type_parameter lower values)
  get_content_type_parameter-Requested values = parameter values (lookup "type" values) refl
