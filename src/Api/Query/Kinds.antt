-- ===== src/Api/Query/Kinds.antt =====
-- The kinds of content and the words of api/content_query.go that ask for them.
use dp_topic_api.Prelude.{ℕ, String, ◌≡◌, refl, true, some}
use dp_topic_api.Api.Query.{
  query_spotlight_flag, query_articles_flag, query_bulletins_flag, query_methodologies_flag,
  query_methodology_articles_flag, query_static_datasets_flag, query_timeseries_flag,
  publications_flags, datasets_flags, selects, query_sets, runes, flags_of,
}

-- The kinds of content.
pub data Kind : Type 0 where
  spotlight articles bulletins methodologies methodology_articles static_datasets timeseries : Kind

abbrev pub flag : Kind → ℕ
flag spotlight = query_spotlight_flag
flag articles = query_articles_flag
flag bulletins = query_bulletins_flag
flag methodologies = query_methodologies_flag
flag methodology_articles = query_methodology_articles_flag
flag static_datasets = query_static_datasets_flag
flag timeseries = query_timeseries_flag

-- The words that a query may ask for: a kind, or one of two groups.
pub data Word : Type 0 where
  only : Kind → Word
  publications datasets : Word

abbrev pub spelling : Word → String
spelling (only spotlight) = "spotlight"
spelling (only articles) = "articles"
spelling (only bulletins) = "bulletins"
spelling (only methodologies) = "methodologies"
spelling (only methodology_articles) = "methodologyarticles"
spelling (only static_datasets) = "staticdatasets"
spelling (only timeseries) = "timeseries"
spelling publications = "publications"
spelling datasets = "datasets"

-- The kinds that a word asks for.
pub data Asks : Word → Kind → Type 0 where
  itself : {k : Kind} → Asks (only k) k
  articles_in : Asks publications articles
  bulletins_in : Asks publications bulletins
  methodologies_in : Asks publications methodologies
  methodology_articles_in : Asks publications methodology_articles
  static_datasets_in : Asks datasets static_datasets
  timeseries_in : Asks datasets timeseries

-- The flags that the table holds for a word.
abbrev pub word_flags : Word → ℕ
word_flags (only k) = flag k
word_flags publications = publications_flags
word_flags datasets = datasets_flags

pub flags_of-spelling : (w : Word) → flags_of query_sets (runes (spelling w)) ≡ some (word_flags w)
unfolding flags_of
flags_of-spelling (only spotlight) = refl
flags_of-spelling (only articles) = refl
flags_of-spelling (only bulletins) = refl
flags_of-spelling (only methodologies) = refl
flags_of-spelling (only methodology_articles) = refl
flags_of-spelling (only static_datasets) = refl
flags_of-spelling (only timeseries) = refl
flags_of-spelling publications = refl
flags_of-spelling datasets = refl

pub selects-Asks : (w : Word) (k : Kind) → selects (word_flags w) (flag k) ≡ true → Asks w k
selects-Asks (only spotlight) spotlight h = itself
selects-Asks (only articles) articles h = itself
selects-Asks (only bulletins) bulletins h = itself
selects-Asks (only methodologies) methodologies h = itself
selects-Asks (only methodology_articles) methodology_articles h = itself
selects-Asks (only static_datasets) static_datasets h = itself
selects-Asks (only timeseries) timeseries h = itself
selects-Asks publications articles h = articles_in
selects-Asks publications bulletins h = bulletins_in
selects-Asks publications methodologies h = methodologies_in
selects-Asks publications methodology_articles h = methodology_articles_in
selects-Asks datasets static_datasets h = static_datasets_in
selects-Asks datasets timeseries h = timeseries_in
selects-Asks _ _ h = cc

selects_itself : (k : Kind) → selects (flag k) (flag k) ≡ true
selects_itself spotlight = refl
selects_itself articles = refl
selects_itself bulletins = refl
selects_itself methodologies = refl
selects_itself methodology_articles = refl
selects_itself static_datasets = refl
selects_itself timeseries = refl

pub Asks-selects : {w : Word} {k : Kind} → Asks w k → selects (word_flags w) (flag k) ≡ true
Asks-selects (itself {k}) = selects_itself k
Asks-selects articles_in = refl
Asks-selects bulletins_in = refl
Asks-selects methodologies_in = refl
Asks-selects methodology_articles_in = refl
Asks-selects static_datasets_in = refl
Asks-selects timeseries_in = refl
